-- ===== src/Base/Bytes.antt =====
-- std::string as its bytes, with comparison and size.
use Prim.Native.Nat.{ℕ}
use Prim.Native.Char.{code}
use Prim.Native.String.{String}
use mathlib.Core.Path.{◌≡◌, refl}
use mathlib.Core.Bool.{Bool, true, false, ◌&&◌, ◌||◌}
use mathlib.Core.List.{List, [], ◌∷◌}
use mathlib.Core.Logic.{◌↔◌}
use native.Mathlib.Omega.{arith}
use realtime_game_backend.Base.Tests.{nat_eq, ltb}
use realtime_game_backend.Base.Lists.{length}

abbrev pub Bytes : Type 0
Bytes = List ℕ

-- A literal of the source.
abbrev pub codes : String → Bytes
codes String.[] = []
codes (String.◌∷◌ c s) = code c ∷ codes s

infix 50 ◌==◌
unfoldable pub ◌==◌ : Bytes → Bytes → Bool
[] == [] = true
[] == (b ∷ t) = false
(a ∷ s) == [] = false
(a ∷ s) == (b ∷ t) = nat_eq a b && (s == t)

pub ==_iff : (s t : Bytes) → ((s == t) ≡ true) ↔ (s ≡ t)
unfolding ◌==◌
==_iff [] [] = ground arith
==_iff [] (b ∷ t) = ground arith
==_iff (a ∷ s) [] = ground arith
==_iff (a ∷ s) (b ∷ t) = ground (arith, ==_iff s t)

pub ==_refl : (s : Bytes) → (s == s) ≡ true
==_refl s = (==_iff s s).1 refl

pub ==_sym : (s t : Bytes) → (s == t) ≡ (t == s)
==_sym s t = ground (arith, ==_iff s t, ==_iff t s)

abbrev pub is_empty {ℓ} : {A : Type ℓ} → List A → Bool
is_empty [] = true
is_empty (a ∷ s) = false

-- `id.empty() || id.size() > limit`, the guard on every identifier.
unfoldable pub bad_id : ℕ → Bytes → Bool
bad_id limit s = is_empty s || ltb limit (length s)

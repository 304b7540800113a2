-- ===== src/Base/Dict.antt =====
-- std::unordered_map keyed by strings, as an association list. Its iteration order is unspecified
-- in the program; the model fixes one. Clients reason by the laws at the end.
use mathlib.Core.Path.{◌≡◌, refl, ◌∙◌}
use mathlib.Core.Bool.{Bool}
use mathlib.Core.List.{List, [], ◌∷◌}
use mathlib.Core.Option.{Option, none, some}
use mathlib.Core.Logic.{inl, inr}
use native.Mathlib.Omega.{arith}
use realtime_game_backend.Base.Tests.{if◌then◌else◌, is_some, Bool-cases, Option-cases}
use realtime_game_backend.Base.Bytes.{Bytes, ◌==◌, ==_iff, ==_refl}

abbrev pub Dict {ℓ} : Type ℓ → Type ℓ
Dict V = List (Bytes × V)

module _ {ℓ} {V : Type ℓ} where
  -- m.find(k)
  unfoldable pub find : Bytes → Dict V → Option V
  find k [] = none
  find k ((j, v) ∷ m) = if j == k then some v else find k m

  -- m.erase(k)
  unfoldable pub erase : Bytes → Dict V → Dict V
  erase k [] = []
  erase k ((j, v) ∷ m) = let rest = erase k m in if j == k then rest else (j, v) ∷ rest

  -- m.emplace(k, v), which leaves an entry that is there as it was
  unfoldable pub emplace : Bytes → V → Dict V → Dict V
  emplace k v m = if is_some (find k m) then m else (k, v) ∷ m

  -- m[k] = v
  unfoldable pub assign : Bytes → V → Dict V → Dict V
  assign k v m = (k, v) ∷ erase k m

  -- it->second = f(it->second), for the iterator that m.find(k) returns
  unfoldable pub update : Bytes → (V → V) → Dict V → Dict V
  update k f [] = []
  update k f ((j, v) ∷ m) = (j, (if j == k then f v else v)) ∷ update k f m

  -- for (auto& entry : m) entry.second = f(entry.second)
  unfoldable pub map_values : (V → V) → Dict V → Dict V
  map_values f [] = []
  map_values f ((j, v) ∷ m) = (j, f v) ∷ map_values f m

  -- The loop that erases every entry that fails the test.
  unfoldable pub retain : (V → Bool) → Dict V → Dict V
  retain keep [] = []
  retain keep ((j, v) ∷ m) =
      let rest = retain keep m in if keep v then (j, v) ∷ rest else erase j rest

  abbrev pub keep_if : (V → Bool) → Option V → Option V
  keep_if keep none = none
  keep_if keep (some v) = if keep v then some v else none

  abbrev pub map_found : (V → V) → Option V → Option V
  map_found f none = none
  map_found f (some v) = some (f v)

  pub find-erase :
      (k j : Bytes) (m : Dict V) → find j (erase k m) ≡ (if k == j then none else find j m)
  unfolding find erase
  find-erase k j [] = ground arith
  find-erase k j ((i, v) ∷ m) = ground (arith, find-erase k j m, ==_iff i k, ==_iff i j, ==_iff k j)

  pub find-assign :
      (k j : Bytes) (v : V) (m : Dict V)
      → find j (assign k v m) ≡ (if k == j then some v else find j m)
  unfolding assign find
  find-assign k j v m = ground (arith, find-erase k j m)

  pub find-emplace :
      (k j : Bytes) (v : V) (m : Dict V)
      → find j (emplace k v m)
        ≡ (if is_some (find k m) then find j m else if k == j then some v else find j m)
  unfolding emplace find
  find-emplace k j v m = ground arith

  pub find-update :
      (k j : Bytes) (f : V → V) (m : Dict V)
      → find j (update k f m) ≡ (if k == j then map_found f (find j m) else find j m)
  unfolding update find
  find-update k j f [] = ground arith
  find-update k j f ((i, v) ∷ m) =
      ground (arith, find-update k j f m, ==_iff i k, ==_iff i j, ==_iff k j)

  pub find-map_values :
      (j : Bytes) (f : V → V) (m : Dict V) → find j (map_values f m) ≡ map_found f (find j m)
  unfolding map_values find
  find-map_values j f [] = refl
  find-map_values j f ((i, v) ∷ m) = ground (arith, find-map_values j f m)

  pub find-retain :
      (j : Bytes) (keep : V → Bool) (m : Dict V) → find j (retain keep m) ≡ keep_if keep (find j m)
  unfolding retain find
  find-retain j keep [] = refl
  find-retain j keep ((i, v) ∷ m) =
      ground (arith, find-retain j keep m, find-erase i j (retain keep m))

-- No key has two entries.
abbrev pub UniqueKeys {ℓ} : {V : Type ℓ} → Dict V → Type ℓ
UniqueKeys [] = Unit
UniqueKeys ((k, v) ∷ m) = (find k m ≡ none) × UniqueKeys m

module _ {ℓ} {V : Type ℓ} where
  UniqueKeys-erase : (k : Bytes) (m : Dict V) → UniqueKeys m → UniqueKeys (erase k m)
  unfolding erase
  UniqueKeys-erase k [] u = u
  UniqueKeys-erase k ((j, v) ∷ m) u = elim (Bool-cases (j == k)) [
    | inl hit ↦ rw hit (UniqueKeys-erase k m u.1)
    | inr miss ↦ rw miss (ground (arith, find-erase k j m, u.0), UniqueKeys-erase k m u.1)
  ]

  pub UniqueKeys-assign :
      (k : Bytes) (v : V) (m : Dict V) → UniqueKeys m → UniqueKeys (assign k v m)
  unfolding assign
  UniqueKeys-assign k v m u = (find-erase k k m ∙ rw (==_refl k) refl, UniqueKeys-erase k m u)

  pub UniqueKeys-emplace :
      (k : Bytes) (v : V) (m : Dict V) → UniqueKeys m → UniqueKeys (emplace k v m)
  unfolding emplace
  UniqueKeys-emplace k v m u = elim (Option-cases (find k m)) [
    | inl e ↦ rw e (e, u)
    | inr (a, e) ↦ rw e u
  ]

  pub UniqueKeys-update :
      (k : Bytes) (f : V → V) (m : Dict V) → UniqueKeys m → UniqueKeys (update k f m)
  unfolding update
  UniqueKeys-update k f [] u = u
  UniqueKeys-update k f ((j, v) ∷ m) u =
      (ground (arith, find-update k j f m, u.0), UniqueKeys-update k f m u.1)

  pub UniqueKeys-map_values : (f : V → V) (m : Dict V) → UniqueKeys m → UniqueKeys (map_values f m)
  unfolding map_values
  UniqueKeys-map_values f [] u = u
  UniqueKeys-map_values f ((j, v) ∷ m) u =
      (ground (arith, find-map_values j f m, u.0), UniqueKeys-map_values f m u.1)

  pub UniqueKeys-retain : (keep : V → Bool) (m : Dict V) → UniqueKeys m → UniqueKeys (retain keep m)
  unfolding retain
  UniqueKeys-retain keep [] u = u
  UniqueKeys-retain keep ((j, v) ∷ m) u = elim (Bool-cases (keep v)) [
    | inl kept ↦ rw kept (ground (arith, find-retain j keep m, u.0), UniqueKeys-retain keep m u.1)
    | inr gone ↦ rw gone (UniqueKeys-erase j _ (UniqueKeys-retain keep m u.1))
  ]

pub ruleset dict_laws =
    (find-erase, find-assign, find-emplace, find-update, find-map_values, find-retain)

-- ===== src/Base/Decimal.antt =====
-- Numbers as decimal text: std::to_string, and std::from_chars for std::size_t and std::int64_t.
use Prim.Native.Nat.{ℕ, zero, suc, ◌+◌, ◌-◌, ◌*◌, ◌/◌, ◌%◌, ◌^◌, ◌≤◌, ◌<◌}
use mathlib.Core.Path.{◌≡◌, refl, ap, ◌∙◌, subst}
use mathlib.Core.Bool.{Bool, true, false, ◌&&◌}
use mathlib.Core.List.{[], ◌∷◌, ◌++◌}
use mathlib.Core.Option.{Option, none, some}
use mathlib.Core.Logic.{inl, inr}
use native.Mathlib.Omega.{arith}
use realtime_game_backend.Base.Tests.{leb, ltb, nat_eq, if◌then◌else◌, Bool-cases}
use realtime_game_backend.Base.Int.{ℤ, pos, negsuc, ◌≤ℤ◌}
use realtime_game_backend.Base.Bytes.{Bytes, is_empty}
use realtime_game_backend.Base.Lists.{length}

-- The digits of `n` in front of `acc`, the last one first. The fuel is above `n`.
unfoldable pub push_digits : ℕ → ℕ → Bytes → Bytes
push_digits zero n acc = acc
push_digits (suc fuel) n acc =
    let acc' = (48 + n % 10) ∷ acc in
    let more = push_digits fuel (n / 10) acc' in if nat_eq (n / 10) 0 then acc' else more

-- std::to_string
unfoldable pub nat_text : ℕ → Bytes
nat_text n = push_digits (suc n) n []

unfoldable pub int_text : ℤ → Bytes
int_text (pos n) = nat_text n
int_text (negsuc n) = 45 ∷ nat_text (suc n)

abbrev pub is_digit : ℕ → Bool
is_digit c = leb 48 c && leb c 57

abbrev pub starts_with_digit : Bytes → Bool
starts_with_digit [] = false
starts_with_digit (c ∷ s) = is_digit c

-- The number that the digits in front continue, and the text behind them.
unfoldable pub read_digits : ℕ → Bytes → ℕ × Bytes
read_digits n [] = (n, [])
read_digits n (c ∷ s) =
    let more = read_digits (n * 10 + (c - 48)) s in if is_digit c then more else (n, c ∷ s)

-- std::from_chars into a std::size_t: none for no digit and for a number out of range.
unfoldable pub read_size : Bytes → Option (ℕ × Bytes)
read_size s =
    let (n, rest) = read_digits 0 s in
    if starts_with_digit s && ltb n (2 ^ 64) then some (n, rest) else none

abbrev negated : ℕ → ℤ
negated zero = pos 0
negated (suc n) = negsuc n

abbrev read_negative : Bytes → Option (ℤ × Bytes)
read_negative s =
    let (n, rest) = read_digits 0 s in
    if starts_with_digit s && leb n (2 ^ 63) then some (negated n, rest) else none

abbrev read_positive : Bytes → Option (ℤ × Bytes)
read_positive s =
    let (n, rest) = read_digits 0 s in
    if starts_with_digit s && ltb n (2 ^ 63) then some (pos n, rest) else none

-- std::from_chars into a std::int64_t.
unfoldable pub read_int64 : Bytes → Option (ℤ × Bytes)
unfolding read_digits
read_int64 [] = none
read_int64 (c ∷ s) = if nat_eq c 45 then read_negative s else read_positive (c ∷ s)

-- The values of a std::int64_t.
abbrev pub IsInt64 : ℤ → Type 0
IsInt64 z = (negsuc (2 ^ 63 - 1) ≤ℤ z) × (z ≤ℤ pos (2 ^ 63 - 1))

pub push_digits-append :
    (fuel n : ℕ) (a b : Bytes) → push_digits fuel n a ++ b ≡ push_digits fuel n (a ++ b)
unfolding push_digits
push_digits-append zero n a b = refl
push_digits-append (suc fuel) n a b =
    ground (arith, push_digits-append fuel (n / 10) ((48 + n % 10) ∷ a) b)

-- Reading one more digit.
read_digits-digit :
    (n d : ℕ) (s : Bytes) → d < 10 → read_digits n ((48 + d) ∷ s) ≡ read_digits (n * 10 + d) s
unfolding read_digits
read_digits-digit n d s h =
    let digit : is_digit (48 + d) ≡ true = ground arith in
    let same : n * 10 + (48 + d - 48) ≡ n * 10 + d = omega arith in rw (digit, same) refl

read_digits-end : (n : ℕ) (s : Bytes) → starts_with_digit s ≡ false → read_digits n s ≡ (n, s)
unfolding read_digits
read_digits-end n [] h = refl
read_digits-end n (c ∷ s) h = rw h refl

read_digits-push_digits :
    (fuel n : ℕ) (s : Bytes) → n < fuel → read_digits 0 (push_digits fuel n s) ≡ read_digits n s
unfolding push_digits
read_digits-push_digits zero n s h = absurd (omega arith)
read_digits-push_digits (suc fuel) n s h =
    let last = read_digits-digit (n / 10) (n % 10) s (omega arith) in
    let whole : n / 10 * 10 + n % 10 ≡ n = omega arith in
    elim (Bool-cases (nat_eq (n / 10) 0)) [
      | inl small ↦
          let zero_left : n / 10 ≡ 0 = ground arith in
          rw small (
            subst (λ k. read_digits k ((48 + n % 10) ∷ s) ≡ read_digits n s) zero_left
              (last ∙ ap (λ k. read_digits k s) whole))
      | inr large ↦ rw large (
          read_digits-push_digits fuel (n / 10) _ (ground arith)
          ∙ (last ∙ ap (λ k. read_digits k s) whole))
    ]

starts-push_digits :
    (fuel n : ℕ) (s : Bytes)
    → starts_with_digit s ≡ true
    → starts_with_digit (push_digits fuel n s) ≡ true
unfolding push_digits
starts-push_digits zero n s h = h
starts-push_digits (suc fuel) n s h =
    let digit : is_digit (48 + n % 10) ≡ true = ground arith in
    ground (arith, starts-push_digits fuel (n / 10) ((48 + n % 10) ∷ s))

starts-nat_text : (n : ℕ) (s : Bytes) → starts_with_digit (push_digits (suc n) n s) ≡ true
unfolding push_digits
starts-nat_text n s =
    let digit : is_digit (48 + n % 10) ≡ true = ground arith in
    ground (arith, starts-push_digits n (n / 10) ((48 + n % 10) ∷ s))

-- A number in front of a text that does not go on with a digit is read back, with that text left.
pub read_size-nat_text :
    (n : ℕ) (s : Bytes)
    → n < 2 ^ 64
    → starts_with_digit s ≡ false
    → read_size (nat_text n ++ s) ≡ some (n, s)
unfolding read_size nat_text
read_size-nat_text n s low ends = rw (push_digits-append (suc n) n [] s) (
    let digits = read_digits-push_digits (suc n) n s (omega arith) ∙ read_digits-end n s ends in
    let small : ltb n (2 ^ 64) ≡ true = ground arith in
    rw (digits, starts-nat_text n s, small) refl)

read_int64-digit : (s : Bytes) → starts_with_digit s ≡ true → read_int64 s ≡ read_positive s
unfolding read_int64
read_int64-digit [] h = ground arith
read_int64-digit (c ∷ s) h = let other : nat_eq c 45 ≡ false = ground arith in rw other refl

pub read_int64-int_text :
    (z : ℤ) (s : Bytes)
    → IsInt64 z
    → starts_with_digit s ≡ false
    → read_int64 (int_text z ++ s) ≡ some (z, s)
unfolding int_text nat_text
read_int64-int_text (pos n) s h ends = rw (push_digits-append (suc n) n [] s) (
    let digits = read_digits-push_digits (suc n) n s (omega arith) ∙ read_digits-end n s ends in
    let small : ltb n (2 ^ 63) ≡ true = ground arith in
    read_int64-digit _ (starts-nat_text n s) ∙ rw (digits, starts-nat_text n s, small) refl)
read_int64-int_text (negsuc n) s h ends =
    unfold read_int64 in
    rw (push_digits-append (suc (suc n)) (suc n) [] s) (
      let digits =
        read_digits-push_digits (suc (suc n)) (suc n) s (omega arith)
        ∙ read_digits-end (suc n) s ends in
      let small : leb (suc n) (2 ^ 63) ≡ true = ground arith in
      rw (digits, starts-nat_text (suc n) s, small) refl)

pub read_digits-nat_text : (n : ℕ) → read_digits 0 (nat_text n) ≡ (n, [])
unfolding nat_text
read_digits-nat_text n =
    read_digits-push_digits (suc n) n [] (omega arith) ∙ read_digits-end n [] refl

abbrev pub tens : ℕ → ℕ
tens zero = 1
tens (suc k) = 10 * tens k

pub length-push_digits :
    (k fuel n : ℕ) (acc : Bytes)
    → n < 10 * tens k
    → length (push_digits fuel n acc) ≤ suc k + length acc
unfolding push_digits
length-push_digits k zero n acc h = omega arith
length-push_digits zero (suc fuel) n acc h =
    let small : nat_eq (n / 10) 0 ≡ true = ground arith in rw small (omega arith)
length-push_digits (suc k) (suc fuel) n acc h =
    let more = length-push_digits k fuel (n / 10) ((48 + n % 10) ∷ acc) (omega (arith, h)) in
    ground (arith, more)

push_digits-filled : (fuel n c : ℕ) (s : Bytes) → is_empty (push_digits fuel n (c ∷ s)) ≡ false
unfolding push_digits
push_digits-filled zero n c s = refl
push_digits-filled (suc fuel) n c s =
    ground (arith, push_digits-filled fuel (n / 10) (48 + n % 10) (c ∷ s))

pub nat_text-filled : (n : ℕ) → is_empty (nat_text n) ≡ false
unfolding nat_text push_digits
nat_text-filled n = ground (arith, push_digits-filled n (n / 10) (48 + n % 10) [])

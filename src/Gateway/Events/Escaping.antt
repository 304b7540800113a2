-- ===== src/Gateway/Events/Escaping.antt =====
-- src/gateway/stream_hub.cpp: `JsonEscape` against a reader of JSON strings (RFC 8259), which stands for
-- the client's parser.
use realtime_game_backend.Base.{
  ℕ, zero, suc, ◌+◌, ◌-◌, ◌*◌, ◌/◌, ◌%◌, ◌≤◌, ◌<◌, ◌≡◌, refl, [], ◌∷◌, ◌++◌, Option, some, none,
  if◌then◌else◌, ltb, nat_eq, arith, ◌&&◌, All, All-append, lt→ltb, ◌∙◌, ap,
}
use mathlib.Core.List.{append_assoc}
use realtime_game_backend.Base.Bytes.{Bytes}
use realtime_game_backend.Base.Int.{ℤ, pos, negsuc}
use realtime_game_backend.Base.Decimal.{push_digits, nat_text, int_text}
use realtime_game_backend.Gateway.Events.{hex_digit, escape_char, json_escape}

-- Where the reader is: between characters, after a backslash, or at a hexadecimal digit after which `k`
-- more follow, with the value of those before it.
pub data Place : Type 0 where
  plain escaped : Place
  hex : ℕ → ℕ → Place

unfoldable pub hex_value : ℕ → Option ℕ
hex_value c =
    if ltb 47 c && ltb c 58
    then some (c - 48)
    else if ltb 96 c && ltb c 103
    then some (c - 87)
    else none

-- The character for the letter after a backslash, `u` aside.
unfoldable pub unescape_letter : ℕ → Option ℕ
unescape_letter c =
    if nat_eq c 34
    then some 34
    else if nat_eq c 92
    then some 92
    else if nat_eq c 110
    then some 10
    else if nat_eq c 114
    then some 13
    else if nat_eq c 116
    then some 9
    else none

abbrev pub read_more : ℕ → Option (Bytes × Bytes) → Option (Bytes × Bytes)
read_more c none = none
read_more c (some (s, rest)) = some (c ∷ s, rest)

-- Reads up to the closing quotation mark, and gives the string and the text after it. A control character
-- is an error, and so is an escape for a character that is not ASCII.
unfoldable pub read_string : Place → Bytes → Option (Bytes × Bytes)
unfolding hex_value unescape_letter
read_string p [] = none
read_string Place.plain (c ∷ s) =
    let next = read_more c (read_string Place.plain s) in
    let after = read_string Place.escaped s in
    if nat_eq c 34
    then some ([], s)
    else if nat_eq c 92
    then after
    else if ltb c 32
    then none
    else next
read_string Place.escaped (c ∷ s) =
    let digits = read_string (Place.hex 3 0) s in
    let rest = read_string Place.plain s in
    if nat_eq c 117
    then digits
    else elim (unescape_letter c) [ none ↦ none | some d ↦ read_more d rest ]
read_string (Place.hex zero v) (c ∷ s) =
    let rest = read_string Place.plain s in
    elim (hex_value c) [
      | none ↦ none
      | some d ↦ if ltb (v * 16 + d) 128 then read_more (v * 16 + d) rest else none
    ]
read_string (Place.hex (suc k) v) (c ∷ s) = elim (hex_value c) [
  | none ↦ none
  | some d ↦ read_string (Place.hex k (v * 16 + d)) s
]

hex_value-hex_digit : (d : ℕ) → d < 16 → hex_value (hex_digit d) ≡ some d
unfolding hex_value hex_digit
hex_value-hex_digit d h = ground arith

read_hex_last :
    (v c d : ℕ) (s : Bytes)
    → hex_value c ≡ some d
    → v * 16 + d < 128
    → read_string (Place.hex 0 v) (c ∷ s) ≡ read_more (v * 16 + d) (read_string Place.plain s)
unfolding read_string
read_hex_last v c d s h small = rw (read_string, h, lt→ltb _ _ small) refl

read_hex_more :
    (k v c d : ℕ) (s : Bytes)
    → hex_value c ≡ some d
    → read_string (Place.hex (suc k) v) (c ∷ s) ≡ read_string (Place.hex k (v * 16 + d)) s
unfolding read_string
read_hex_more k v c d s h = rw (read_string, h) refl

read_string-control :
    (c : ℕ) (rest : Bytes)
    → c < 32
    → read_string Place.plain (92 ∷ 117 ∷ 48 ∷ 48 ∷ hex_digit (c / 16) ∷ hex_digit (c % 16) ∷ rest)
      ≡ read_more c (read_string Place.plain rest)
unfolding read_string
read_string-control c rest h =
    let high = hex_value-hex_digit (c / 16) (omega arith) in
    let low = hex_value-hex_digit (c % 16) (omega arith) in
    read_hex_more 0 0 (hex_digit (c / 16)) (c / 16) (hex_digit (c % 16) ∷ rest) high
    ∙ (read_hex_last (0 * 16 + c / 16) (hex_digit (c % 16)) (c % 16) rest low (omega arith)
        ∙ ap (λ n. read_more n (read_string Place.plain rest)) (omega arith))

read_string-escape_char :
    (c : ℕ) (rest : Bytes)
    → read_string Place.plain (escape_char c ++ rest) ≡ read_more c (read_string Place.plain rest)
unfolding read_string escape_char unescape_letter
read_string-escape_char c rest = ground (arith, read_string-control c rest)

-- A JSON parser that stands behind the opening quotation mark of an escaped text reads the text itself,
-- and stops where the text stopped, whatever bytes the text has and whatever comes after it.
pub read_string-json_escape :
    (s rest : Bytes) → read_string Place.plain (json_escape s ++ (34 ∷ rest)) ≡ some (s, rest)
unfolding json_escape read_string
read_string-json_escape [] rest = refl
read_string-json_escape (c ∷ s) rest =
    rw (append_assoc, read_string-escape_char c, read_string-json_escape s rest) refl

-- Event text stays on one line: it holds no character below the space.
abbrev pub IsPrintable : Bytes → Type 0
IsPrintable s = All (λ c. 32 ≤ c) s

escape_char-IsPrintable : (c : ℕ) → IsPrintable (escape_char c)
unfolding escape_char hex_digit
escape_char-IsPrintable c = ground arith

pub json_escape-IsPrintable : (s : Bytes) → IsPrintable (json_escape s)
unfolding json_escape
json_escape-IsPrintable [] = tt
json_escape-IsPrintable (c ∷ s) =
    All-append _ (escape_char c) (json_escape s) (escape_char-IsPrintable c)
      (json_escape-IsPrintable s)

push_digits-IsPrintable :
    (fuel n : ℕ) (acc : Bytes) → IsPrintable acc → IsPrintable (push_digits fuel n acc)
unfolding push_digits
push_digits-IsPrintable zero n acc h = h
push_digits-IsPrintable (suc fuel) n acc h =
    let more = push_digits-IsPrintable fuel (n / 10) ((48 + n % 10) ∷ acc) (omega arith, h) in
    ground (arith, more)

pub int_text-IsPrintable : (z : ℤ) → IsPrintable (int_text z)
unfolding int_text nat_text
int_text-IsPrintable (pos n) = push_digits-IsPrintable (suc n) n [] tt
int_text-IsPrintable (negsuc n) = (omega arith, push_digits-IsPrintable (suc (suc n)) (suc n) [] tt)

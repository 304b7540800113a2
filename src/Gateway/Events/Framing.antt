-- ===== src/Gateway/Events/Framing.antt =====
-- src/gateway/stream_hub.cpp: `SseEvent` against a reader of event streams, which stands for the client's
-- parser. It follows the HTML standard (section 9.2) in what ends a line and an event and in what more
-- lines of data mean, for the fields `id`, `event` and `data` with a colon and one space.
use realtime_game_backend.Base.{
  ℕ, zero, suc, ◌≡◌, refl, [], ◌∷◌, ◌++◌, Option, some, none, if◌then◌else◌, nat_eq, arith,
  All-append, ap, ◌∙◌,
}
use mathlib.Core.List.{append_assoc}
use realtime_game_backend.Base.Int.{ℤ}
use realtime_game_backend.Base.Bytes.{Bytes, codes}
use realtime_game_backend.Base.Decimal.{int_text}
use realtime_game_backend.Gateway.Events.{sse_event}
use realtime_game_backend.Gateway.Events.Escaping.{IsPrintable, int_text-IsPrintable}

-- What follows a carriage return: a line feed right behind it belongs to the same end of line.
unfoldable pub skip_line_feed : Bytes → Bytes
skip_line_feed [] = []
skip_line_feed (c ∷ s) = if nat_eq c 10 then s else c ∷ s

-- The text up to the first end of line, and what follows it. A line ends at a line feed, a carriage
-- return, or the two of them.
unfoldable pub take_line : Bytes → Option (Bytes × Bytes)
unfolding skip_line_feed
take_line [] = none
take_line (c ∷ s) =
    let rest = take_line s in
    if nat_eq c 10
    then some ([], s)
    else if nat_eq c 13
    then some ([], skip_line_feed s)
    else elim rest [ none ↦ none | some (line, after) ↦ some (c ∷ line, after) ]

pub take_line-append :
    (line after : Bytes) → IsPrintable line → take_line (line ++ (10 ∷ after)) ≡ some (line, after)
unfolding take_line
take_line-append [] after h = refl
take_line-append (c ∷ line) after h = rw (take_line-append line after h.1) (ground arith)

-- What follows a literal at the start of a line.
unfoldable pub after_prefix : Bytes → Bytes → Option Bytes
after_prefix [] s = some s
after_prefix (c ∷ p) [] = none
after_prefix (c ∷ p) (d ∷ s) = let rest = after_prefix p s in if nat_eq c d then rest else none

pub after_prefix-append : (p s : Bytes) → after_prefix p (p ++ s) ≡ some s
unfolding after_prefix
after_prefix-append [] s = refl
after_prefix-append (c ∷ p) s = rw (after_prefix-append p s) (ground arith)

-- What a reader knows of an event.
pub record Message : Type 0 where
  pub last_id : Option Bytes
  pub event : Bytes
  pub body : Option Bytes

abbrev pub no_message : Message
no_message = record { last_id = none; event = []; body = none }

-- One more line of data.
abbrev pub join_data : Option Bytes → Bytes → Option Bytes
join_data none value = some value
join_data (some body) value = some (body ++ (10 ∷ value))

-- One line of the stream; a line that has none of these names, as a comment, says nothing.
unfoldable pub read_field : Bytes → Message → Message
unfolding after_prefix
read_field line m = elim (after_prefix (codes "id: ") line) [
  | some value ↦ record m { last_id = some value }
  | none ↦ elim (after_prefix (codes "event: ") line) [
    | some value ↦ record m { event = value }
    | none ↦ elim (after_prefix (codes "data: ") line) [
      | some value ↦ record m { body = join_data m.body value }
      | none ↦ m
    ]
  ]
]

-- Reads lines up to an empty one, at most `fuel` of them, and gives the event and the text after it.
unfoldable pub read_message : ℕ → Message → Bytes → Option (Message × Bytes)
unfolding take_line read_field
read_message zero m s = none
read_message (suc fuel) m s = elim (take_line s) [
  | none ↦ none
  | some ([], after) ↦ some (m, after)
  | some (c ∷ line, after) ↦ read_message fuel (read_field (c ∷ line) m) after
]

read_message-line :
    (fuel c : ℕ) (line after : Bytes) (m : Message)
    → IsPrintable (c ∷ line)
    → read_message (suc fuel) m ((c ∷ line) ++ (10 ∷ after))
      ≡ read_message fuel (read_field (c ∷ line) m) after
unfolding read_message
read_message-line fuel c line after m h =
    rw (read_message, take_line-append (c ∷ line) after h) refl

after_event :
    (text : Bytes) (m : Message)
    → read_field (codes "event: " ++ text) m ≡ record m { event = text }
unfolding read_field after_prefix
after_event text m = refl

after_data :
    (text : Bytes) (m : Message)
    → read_field (codes "data: " ++ text) m ≡ record m { body = join_data m.body text }
unfolding read_field after_prefix
after_data text m = refl

after_id :
    (text : Bytes) (m : Message)
    → read_field (codes "id: " ++ text) m ≡ record m { last_id = some text }
unfolding read_field after_prefix
after_id text m = refl

read_message-end :
    (fuel : ℕ) (after : Bytes) (m : Message)
    → read_message (suc fuel) m (10 ∷ after) ≡ some (m, after)
unfolding read_message take_line
read_message-end fuel after m = refl

-- The last two lines of an event and the empty line.
read_message-event_data :
    (fuel : ℕ) (event body after : Bytes) (m : Message)
    → IsPrintable event
    → IsPrintable body
    → read_message
        (suc (suc (suc fuel)))
        m
        (codes "event: " ++ (event ++ (10 ∷ (codes "data: " ++ (body ++ (10 ∷ 10 ∷ after))))))
      ≡ some (record m { event = event; body = join_data m.body body }, after)
read_message-event_data fuel event body after m he hb =
    read_message-line (suc (suc fuel)) 101 (codes "vent: " ++ event)
      (codes "data: " ++ (body ++ (10 ∷ 10 ∷ after))) m
      (All-append _ (codes "event: ") event (ground arith) he)
    ∙ (ap (λ x. read_message (suc (suc fuel)) x (codes "data: " ++ (body ++ (10 ∷ 10 ∷ after))))
          (after_event event m)
        ∙ (read_message-line (suc fuel) 100 (codes "ata: " ++ body) (10 ∷ after)
              (record m { event = event }) (All-append _ (codes "data: ") body (ground arith) hb)
            ∙ (ap (λ x. read_message (suc fuel) x (10 ∷ after))
                  (after_data body (record m { event = event }))
                ∙ read_message-end fuel after
                    (record m { event = event; body = join_data m.body body }))))

abbrev pub message : Option ℤ → Bytes → Bytes → Message
message none event body = record { last_id = none; event = event; body = some body }
message (some n) event body = record {
  last_id = some (int_text n);
  event = event;
  body = some body;
}

-- A client that reads a stream finds each event as it was written, with its name, its data and its id if it
-- has one, and goes on right behind it, if neither the name nor the data has a control character.
pub read_message-sse_event :
    (event body : Bytes) (id : Option ℤ) (after : Bytes)
    → IsPrintable event
    → IsPrintable body
    → read_message 4 no_message (sse_event event body id ++ after)
      ≡ some (message id event body, after)
unfolding sse_event
read_message-sse_event event body none after he hb =
    simp append_assoc (read_message-event_data 1 event body after no_message he hb)
read_message-sse_event event body (some n) after he hb = simp append_assoc (
    read_message-line 3 105 (codes "d: " ++ int_text n)
      (codes "event: " ++ (event ++ (10 ∷ (codes "data: " ++ (body ++ (10 ∷ 10 ∷ after))))))
      no_message (All-append _ (codes "id: ") (int_text n) (ground arith) (int_text-IsPrintable n))
    ∙ (ap
          (λ x.
            read_message 3 x (
              codes "event: " ++ (event ++ (10 ∷ (codes "data: " ++ (body ++ (10 ∷ 10 ∷ after)))))))
          (after_id (int_text n) no_message)
        ∙ read_message-event_data 0 event body after
            (record no_message { last_id = some (int_text n) }) he hb))

-- ===== src/Gateway/Requests/LastEventId.antt =====
-- src/gateway/gateway_service.cpp: the header with which a client names the last event that it has got.
use realtime_game_backend.Base.{
  ℕ, suc, ◌+◌, ◌-◌, ◌*◌, ◌^◌, ◌≤◌, ◌<◌, ◌≡◌, refl, ap, Bool, true, false, [], ◌∷◌, Option, some,
  none, ◌||◌, if◌then◌else◌, ltb, length, arith,
}
use realtime_game_backend.Base.Int.{ℤ, pos}
use realtime_game_backend.Base.Bytes.{Bytes, is_empty}
use realtime_game_backend.Base.Decimal.{
  is_digit, int_text, nat_text, read_digits, read_digits-nat_text, nat_text-filled,
  length-push_digits,
}
use realtime_game_backend.Gateway.Events.Framing.{message}
use realtime_game_backend.Gateway.Stream.State.{SubscribeOptions}

pub record LastEventIdHeader : Type 0 where
  pub value : ℤ
  pub malformed : Bool
  pub present : Bool

-- The loop over the characters; none for one that is no digit.
unfoldable pub read_frame : ℕ → Bytes → Option ℕ
read_frame n [] = some n
read_frame n (c ∷ s) =
    let rest = read_frame (n * 10 + (c - 48)) s in if is_digit c then rest else none

-- ParseLastEventId, from the header's text; none where there is no such header.
unfoldable pub parse_last_event_id : Option Bytes → LastEventIdHeader
unfolding read_frame
parse_last_event_id none = record { value = pos 0; malformed = false; present = false }
parse_last_event_id (some raw) =
    if is_empty raw || ltb 18 (length raw)
    then record { value = pos 0; malformed = true; present = true }
    else elim (read_frame 0 raw) [
      | none ↦ record { value = pos 0; malformed = true; present = true }
      | some n ↦ record { value = pos n; malformed = false; present = true }
    ]

-- What `StreamEvents` passes on to `Subscribe`.
unfoldable pub subscribe_options : LastEventIdHeader → Bytes → SubscribeOptions
subscribe_options header request_id = record {
  last_event_id = (if header.present then some header.value else none);
  last_event_id_malformed = header.malformed;
  request_id = request_id;
}

read_frame-read_digits : (n k : ℕ) (s : Bytes) → read_digits n s ≡ (k, []) → read_frame n s ≡ some k
unfolding read_frame read_digits
read_frame-read_digits n k [] h = ap (λ x. some x.0) h
read_frame-read_digits n k (c ∷ s) h =
    ground (arith, h, read_frame-read_digits (n * 10 + (c - 48)) k s)

read_frame-nat_text : (n : ℕ) → read_frame 0 (nat_text n) ≡ some n
read_frame-nat_text n = read_frame-read_digits 0 n (nat_text n) (read_digits-nat_text n)

length-nat_text : (n : ℕ) → n < 10 ^ 18 → length (nat_text n) ≤ 18
unfolding nat_text
length-nat_text n h = length-push_digits 17 (suc n) n [] h

-- A client that comes back with the id of an event of a frame below 10^18, as it stood in the stream, subscribes
-- from exactly that frame on, and not as a client that is new or that sends a bad header.
pub subscribe_options-message :
    (n : ℕ) (event body request_id : Bytes)
    → n < 10 ^ 18
    → subscribe_options (parse_last_event_id (message (some (pos n)) event body).last_id) request_id
      ≡ record {
        last_event_id = some (pos n);
        last_event_id_malformed = false;
        request_id = request_id;
      }
unfolding subscribe_options parse_last_event_id
subscribe_options-message n event body request_id h =
    let short : ltb 18 (length (nat_text n)) ≡ false = ground (arith, length-nat_text n h) in
    unfold int_text in rw (nat_text-filled n, short, read_frame-nat_text n) refl

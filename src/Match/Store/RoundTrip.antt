-- ===== src/Match/Store/RoundTrip.antt =====
-- What match_queue_store.cpp writes, it reads back.
use realtime_game_backend.Base.{
  ◌⊎◌, ◌≡◌, refl, sym, ap, ◌∙◌, inl, inr, ◌<◌, ◌^◌, true, false, List, [], ◌∷◌, ◌++◌, some, ◌||◌,
  arith, length,
}
use realtime_game_backend.Base.Int.{ℤ, pos, leb_ℤ, ltb_ℤ}
use realtime_game_backend.Base.Bytes.{Bytes}
use realtime_game_backend.Base.Decimal.{
  nat_text, int_text, IsInt64, read_size-nat_text, read_int64-int_text,
}
use realtime_game_backend.Match.Queue.Saving.{SnapshotEntryKind, MatchQueueEntry}
use realtime_game_backend.Match.Store.Codec.{
  append_string, append_int, append_strings, take_bytes, read_string, read_int, valid_identifier,
  all_valid, validate_entry, line_of, encode_entry, blank, finish_row, decode_queued, read_players,
  decode_players, decode_matched, decode_entry,
}

++-assoc : (a b c : Bytes) → (a ++ b) ++ c ≡ a ++ (b ++ c)
++-assoc [] b c = refl
++-assoc (x ∷ a) b c = ap (λ l. x ∷ l) (++-assoc a b c)

++-nil : (a : Bytes) → a ++ [] ≡ a
++-nil [] = refl
++-nil (x ∷ a) = ap (λ l. x ∷ l) (++-nil a)

take_bytes-append : (a s : Bytes) → take_bytes (length a) (a ++ s) ≡ some (a, s)
unfolding take_bytes
take_bytes-append [] s = refl
take_bytes-append (c ∷ a) s = rw (take_bytes-append a s) refl

-- A string field in front of a text.
unfoldable field : Bytes → Bytes → Bytes
field value s = nat_text (length value) ++ (58 ∷ (value ++ s))

unfoldable number : ℤ → Bytes → Bytes
number value s = int_text value ++ (59 ∷ s)

append_string-field : (out value s : Bytes) → append_string out value ++ s ≡ out ++ field value s
unfolding append_string field
append_string-field out value s =
    ++-assoc out _ s ∙ ap (λ l. out ++ l) (++-assoc (nat_text (length value)) (58 ∷ value) s)

append_int-number :
    (out : Bytes) (value : ℤ) (s : Bytes) → append_int out value ++ s ≡ out ++ number value s
unfolding append_int number
append_int-number out value s =
    ++-assoc out _ s ∙ ap (λ l. out ++ l) (++-assoc (int_text value) (59 ∷ []) s)

read_string-field :
    (value s : Bytes)
    → valid_identifier value ≡ true
    → read_string (field value s) ≡ some (value, s)
unfolding read_string valid_identifier field
read_string-field value s ok =
    let short : length value < 2 ^ 64 = ground (arith, ok) in
    rw (read_size-nat_text (length value) (58 ∷ (value ++ s)) short refl, read_string)
      (take_bytes-append value s)

read_int-number :
    (value : ℤ) (s : Bytes) → IsInt64 value → read_int (number value s) ≡ some (value, s)
unfolding read_int number
read_int-number value s h = rw (read_int64-int_text value (59 ∷ s) h refl, read_int) refl

abbrev fields : List Bytes → Bytes → Bytes
fields [] s = s
fields (id ∷ ids) s = field id (fields ids s)

append_strings-fields :
    (out : Bytes) (ids : List Bytes) (s : Bytes) → append_strings out ids ++ s ≡ out ++ fields ids s
unfolding append_strings
append_strings-fields out [] s = refl
append_strings-fields out (id ∷ ids) s =
    append_strings-fields (append_string out id) ids s ∙ append_string-field out id (fields ids s)

read_players-fields :
    (ids : List Bytes) (s : Bytes)
    → all_valid ids ≡ true
    → read_players (length ids) (fields ids s) ≡ (ids, some s)
unfolding read_players all_valid
read_players-fields [] s ok = refl
read_players-fields (id ∷ ids) s ok =
    rw
      (
        read_string-field id (fields ids s) (ground (arith, ok)),
        read_players,
        read_players-fields ids s (ground (arith, ok)),
      )
      refl

-- An entry with the fields that its kind does not use left at their defaults.
abbrev pub canonical : MatchQueueEntry → MatchQueueEntry
canonical e = elim e.kind [
  | SnapshotEntryKind.queued ↦ record (blank SnapshotEntryKind.queued) {
    player_id = e.player_id;
    queued_at_ms = e.queued_at_ms;
  }
  | SnapshotEntryKind.matched ↦ record (blank SnapshotEntryKind.matched) {
    match_id = e.match_id;
    room_id = e.room_id;
    player_ids = e.player_ids;
    stamp_ms = e.stamp_ms;
  }
]

line_of-queued :
    (e : MatchQueueEntry)
    → e.kind ≡ SnapshotEntryKind.queued
    → line_of e ≡ 49 ∷ 81 ∷ field e.player_id (number e.queued_at_ms [])
unfolding line_of
line_of-queued e k = rw k (
    sym (++-nil _)
    ∙ (append_int-number (append_string (49 ∷ 81 ∷ []) e.player_id) e.queued_at_ms []
        ∙ append_string-field (49 ∷ 81 ∷ []) e.player_id (number e.queued_at_ms [])))

line_of-matched :
    (e : MatchQueueEntry)
    → e.kind ≡ SnapshotEntryKind.matched
    → line_of e
      ≡ 49
        ∷ 77
        ∷ field e.match_id (
            field e.room_id
              (number e.stamp_ms (number (pos (length e.player_ids)) (fields e.player_ids []))))
unfolding line_of
line_of-matched e k =
    let o1 = append_string (49 ∷ 77 ∷ []) e.match_id in
    let o2 = append_string o1 e.room_id in
    let o3 = append_int o2 e.stamp_ms in
    let f = fields e.player_ids [] in
    let n = number (pos (length e.player_ids)) f in
    rw k (
      sym (++-nil _)
      ∙ (append_strings-fields (append_int o3 (pos (length e.player_ids))) e.player_ids []
          ∙ (append_int-number o3 (pos (length e.player_ids)) f
              ∙ (append_int-number o2 e.stamp_ms n
                  ∙ (append_string-field o1 e.room_id (number e.stamp_ms n)
                      ∙ append_string-field (49 ∷ 77 ∷ []) e.match_id
                          (field e.room_id (number e.stamp_ms n)))))))

decoded_queued :
    (e : MatchQueueEntry)
    → e.kind ≡ SnapshotEntryKind.queued
    → IsInt64 e.queued_at_ms
    → validate_entry e ≡ []
    → decode_entry (line_of e) ≡ record { entry = canonical e; problem = [] }
unfolding decode_entry decode_queued finish_row validate_entry
decoded_queued e k h ok =
    let id_ok : valid_identifier e.player_id ≡ true = ground (arith, ok, k) in
    rw (line_of-queued e k) (
      rw
        (
          read_string-field e.player_id (number e.queued_at_ms []) id_ok,
          decode_queued,
          read_int-number e.queued_at_ms [] h,
          finish_row,
        )
        (ground (arith, ok, k)))

decoded_matched :
    (e : MatchQueueEntry)
    → e.kind ≡ SnapshotEntryKind.matched
    → IsInt64 e.stamp_ms
    → validate_entry e ≡ []
    → decode_entry (line_of e) ≡ record { entry = canonical e; problem = [] }
unfolding decode_entry decode_matched decode_players finish_row validate_entry
decoded_matched e k h ok =
    let match_ok : valid_identifier e.match_id ≡ true = ground (arith, ok, k) in
    let room_ok : valid_identifier e.room_id ≡ true = ground (arith, ok, k) in
    let players_ok : all_valid e.player_ids ≡ true = ground (arith, ok, k) in
    let size_ok : (leb_ℤ (pos (length e.player_ids)) (pos 0)
          || ltb_ℤ (pos 8) (pos (length e.player_ids)))
        ≡ false =
      ground (arith, ok, k) in
    let few : IsInt64 (pos (length e.player_ids)) = ground (arith, ok, k) in
    let f = fields e.player_ids [] in
    let n = number (pos (length e.player_ids)) f in
    rw (line_of-matched e k) (
      rw
        (
          read_string-field e.match_id (field e.room_id (number e.stamp_ms n)) match_ok,
          decode_matched,
          read_string-field e.room_id (number e.stamp_ms n) room_ok,
          read_int-number e.stamp_ms n h,
          decode_players,
          read_int-number (pos (length e.player_ids)) f few,
          size_ok,
          read_players-fields e.player_ids [] players_ok,
          finish_row,
        )
        (ground (arith, ok, k, read_players-fields e.player_ids [] players_ok)))

-- An entry that is written as a line is read back from that line without a problem, with the fields
-- of its kind as they were and the others at their defaults; its time is a 64-bit number.
pub decode_entry-encode_entry :
    (e : MatchQueueEntry) (line : Bytes)
    → IsInt64 e.queued_at_ms
    → IsInt64 e.stamp_ms
    → encode_entry e ≡ some line
    → decode_entry line ≡ record { entry = canonical e; problem = [] }
unfolding encode_entry
decode_entry-encode_entry e line queued stamp h =
    let same : line ≡ line_of e = ground (arith, h) in
    let ok : validate_entry e ≡ [] = ground (arith, h) in
    rw same (elim (kinds e.kind) [
      | inl k ↦ decoded_queued e k queued ok
      | inr k ↦ decoded_matched e k stamp ok
    ])
  where
    kinds :
        (k : SnapshotEntryKind) → (k ≡ SnapshotEntryKind.queued) ⊎ (k ≡ SnapshotEntryKind.matched)
    kinds SnapshotEntryKind.queued = inl refl
    kinds SnapshotEntryKind.matched = inr refl

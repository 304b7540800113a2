-- ===== src/Match/Store/Codec.antt =====
-- src/match/match_queue_store.cpp: one snapshot entry as a line of text, and back. A `Reader` is the
-- text that it has not read yet. A message stands for its code points.
use realtime_game_backend.Base.{
  ℕ, zero, suc, Bool, true, List, [], ◌∷◌, ◌++◌, Option, some, none, ◌&&◌, ◌||◌, if◌then◌else◌,
  negate, length, ltb, leb, nat_eq,
}
use realtime_game_backend.Base.Int.{ℤ, pos, leb_ℤ, ltb_ℤ, to_nat}
use realtime_game_backend.Base.Bytes.{Bytes, codes, is_empty}
use realtime_game_backend.Base.Decimal.{nat_text, int_text, read_size, read_int64}
use realtime_game_backend.Match.Queue.Saving.{
  SnapshotEntryKind, MatchQueueEntry, MatchQueueSnapshotRow,
}

abbrev pub snapshot_format_version : ℕ
snapshot_format_version = 49

abbrev pub max_players_per_snapshot_group : ℕ
max_players_per_snapshot_group = 8

abbrev pub max_field_length : ℕ
max_field_length = 64

-- AppendString and AppendInt
unfoldable pub append_string : Bytes → Bytes → Bytes
append_string out value = out ++ (nat_text (length value) ++ (58 ∷ value))

unfoldable pub append_int : Bytes → ℤ → Bytes
append_int out value = out ++ (int_text value ++ (59 ∷ []))

-- The first `n` bytes and the rest, if there are so many.
unfoldable pub take_bytes : ℕ → Bytes → Option (Bytes × Bytes)
take_bytes zero s = some ([], s)
take_bytes (suc n) [] = none
take_bytes (suc n) (c ∷ s) = elim (take_bytes n s) [
  | none ↦ none
  | some (a, rest) ↦ some (c ∷ a, rest)
]

-- Reader::ReadString and Reader::ReadInt, with the text that they leave.
unfoldable pub read_string : Bytes → Option (Bytes × Bytes)
read_string s = elim (read_size s) [
  | none ↦ none
  | some (n, []) ↦ none
  | some (n, c ∷ rest) ↦ if nat_eq c 58 then take_bytes n rest else none
]

unfoldable pub read_int : Bytes → Option (ℤ × Bytes)
read_int s = elim (read_int64 s) [
  | none ↦ none
  | some (v, []) ↦ none
  | some (v, c ∷ rest) ↦ if nat_eq c 59 then some (v, rest) else none
]

unfoldable pub valid_identifier : Bytes → Bool
valid_identifier value = negate (is_empty value) && leb (length value) max_field_length

unfoldable pub all_valid : List Bytes → Bool
unfolding valid_identifier
all_valid [] = true
all_valid (id ∷ ids) = valid_identifier id && all_valid ids

-- ValidateEntry: the problem, or the empty text for a valid entry.
unfoldable pub validate_entry : MatchQueueEntry → Bytes
unfolding all_valid valid_identifier
validate_entry e = elim e.kind [
  | SnapshotEntryKind.queued ↦
      if negate (valid_identifier e.player_id)
      then codes "player_id 缺失或超长"
      else if leb_ℤ e.queued_at_ms (pos 0)
      then codes "queued_at_ms 非正"
      else []
  | SnapshotEntryKind.matched ↦
      if negate (valid_identifier e.match_id)
      then codes "match_id 缺失或超长"
      else if negate (valid_identifier e.room_id)
      then codes "room_id 缺失或超长"
      else if leb_ℤ e.stamp_ms (pos 0)
      then codes "stamp_ms 非正"
      else if is_empty e.player_ids || ltb max_players_per_snapshot_group (length e.player_ids)
      then codes "玩家数不在 [1, 8]"
      else if negate (all_valid e.player_ids)
      then codes "玩家标识缺失或超长"
      else []
]

unfoldable pub append_strings : Bytes → List Bytes → Bytes
unfolding append_string
append_strings out [] = out
append_strings out (id ∷ ids) = append_strings (append_string out id) ids

unfoldable pub line_of : MatchQueueEntry → Bytes
unfolding append_strings append_string append_int
line_of e = elim e.kind [
  | SnapshotEntryKind.queued ↦
      append_int (append_string (snapshot_format_version ∷ 81 ∷ []) e.player_id) e.queued_at_ms
  | SnapshotEntryKind.matched ↦
      append_strings
        (append_int
          (append_int
            (append_string (append_string (snapshot_format_version ∷ 77 ∷ []) e.match_id) e.room_id)
            e.stamp_ms)
          (pos (length e.player_ids)))
        e.player_ids
]

-- EncodeMatchQueueEntry
unfoldable pub encode_entry : MatchQueueEntry → Option Bytes
unfolding validate_entry line_of
encode_entry e = if is_empty (validate_entry e) then some (line_of e) else none

abbrev pub blank : SnapshotEntryKind → MatchQueueEntry
blank kind = record {
  kind = kind;
  player_id = [];
  queued_at_ms = pos 0;
  match_id = [];
  room_id = [];
  player_ids = [];
  stamp_ms = pos 0;
}

abbrev pub bad_row : MatchQueueEntry → Bytes → MatchQueueSnapshotRow
bad_row e problem = record { entry = e; problem = problem }

-- The end of `DecodeMatchQueueEntry`.
unfoldable pub finish_row : MatchQueueEntry → Bytes → MatchQueueSnapshotRow
unfolding validate_entry
finish_row e rest =
    if is_empty rest
    then record { entry = e; problem = validate_entry e }
    else bad_row e (codes "行尾有多余字节")

unfoldable pub decode_queued : Bytes → MatchQueueSnapshotRow
unfolding read_string read_int finish_row
decode_queued s = elim (read_string s) [
  | none ↦ bad_row (blank SnapshotEntryKind.queued) (codes "player_id 字段截断")
  | some (id, s') ↦ elim (read_int s') [
    | none ↦
        bad_row (record (blank SnapshotEntryKind.queued) { player_id = id })
          (codes "queued_at_ms 字段截断")
    | some (at, rest) ↦
        finish_row (record (blank SnapshotEntryKind.queued) { player_id = id; queued_at_ms = at })
          rest
  ]
]

-- The loop over the players: those read, and the text left unless one was cut off.
unfoldable pub read_players : ℕ → Bytes → List Bytes × Option Bytes
unfolding read_string
read_players zero s = ([], some s)
read_players (suc n) s = elim (read_string s) [
  | none ↦ ([], none)
  | some (id, s') ↦ let more = read_players n s' in (id ∷ more.0, more.1)
]

-- From the number of players on; `e` holds the fields before it.
unfoldable pub decode_players : MatchQueueEntry → Bytes → MatchQueueSnapshotRow
unfolding read_int read_players finish_row
decode_players e s = elim (read_int s) [
  | none ↦ bad_row e (codes "玩家数字段截断")
  | some (count, s') ↦
      if leb_ℤ count (pos 0) || ltb_ℤ (pos max_players_per_snapshot_group) count
      then bad_row e (codes "玩家数越界：" ++ int_text count)
      else let read = read_players (to_nat count) s' in
        elim read.1 [
          | none ↦ bad_row (record e { player_ids = read.0 }) (codes "玩家标识字段截断")
          | some rest ↦ finish_row (record e { player_ids = read.0 }) rest
        ]
]

unfoldable pub decode_matched : Bytes → MatchQueueSnapshotRow
unfolding read_string read_int decode_players
decode_matched s = elim (read_string s) [
  | none ↦ bad_row (blank SnapshotEntryKind.matched) (codes "match_id 字段截断")
  | some (match_id, s1) ↦ elim (read_string s1) [
    | none ↦
        bad_row (record (blank SnapshotEntryKind.matched) { match_id = match_id })
          (codes "room_id 字段截断")
    | some (room_id, s2) ↦ elim (read_int s2) [
      | none ↦
          bad_row
            (record (blank SnapshotEntryKind.matched) { match_id = match_id; room_id = room_id })
            (codes "stamp_ms 字段截断")
      | some (stamp, s3) ↦
          decode_players
            (record (blank SnapshotEntryKind.matched) {
              match_id = match_id;
              room_id = room_id;
              stamp_ms = stamp;
            })
            s3
    ]
  ]
]

-- DecodeMatchQueueEntry
unfoldable pub decode_entry : Bytes → MatchQueueSnapshotRow
unfolding decode_queued decode_matched
decode_entry [] = bad_row (blank SnapshotEntryKind.queued) (codes "空行")
decode_entry (version ∷ s) =
    if nat_eq version snapshot_format_version
    then elim s [
      | [] ↦ bad_row (blank SnapshotEntryKind.queued) (codes "缺少条目类型")
      | kind ∷ s' ↦
          if nat_eq kind 81
          then decode_queued s'
          else if nat_eq kind 77
          then decode_matched s'
          else bad_row (blank SnapshotEntryKind.queued) (codes "未知的条目类型：" ++ (kind ∷ []))
    ]
    else bad_row (blank SnapshotEntryKind.queued) (codes "未知的快照格式版本：" ++ (version ∷ []))

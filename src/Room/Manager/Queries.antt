-- ===== src/Room/Manager/Queries.antt =====
-- src/room/room_manager.cpp: the counts over all rooms, and `GetSnapshotsSince`.
use realtime_game_backend.Base.{
  ℕ, ◌+◌, Bool, true, false, List, [], ◌∷◌, Option, some, none, if◌then◌else◌, length,
}
use realtime_game_backend.Base.Int.{ℤ, pos, ◌+ℤ◌, ltb_ℤ, to_nat}
use realtime_game_backend.Base.Bytes.{Bytes}
use realtime_game_backend.Base.Dict.{Dict, find}
use realtime_game_backend.Room.Types.{
  RoomPhase, RoomSnapshot, RoomPhaseCounts, all_room_phases, eq_phase,
}
use realtime_game_backend.Room.Battle.State.{BattleRoom}
use realtime_game_backend.Room.Battle.Results.{snapshots_after, snapshot_frame_range}
use realtime_game_backend.Room.Manager.State.{RoomManager, reap_expired}
use realtime_game_backend.Room.Manager.Ticking.{add_u64}

unfoldable pub room_count : RoomManager → ℕ
room_count s = length s.rooms

-- The inner loop of `PhaseCounts`: the counter beside the phase goes up, and the loop breaks.
unfoldable pub count_phase : List RoomPhase → RoomPhase → List ℕ → List ℕ
count_phase [] p cs = cs
count_phase (q ∷ qs) p [] = []
count_phase (q ∷ qs) p (c ∷ cs) = elim (eq_phase q p) [
  | true ↦ (c + 1) ∷ cs
  | false ↦ c ∷ count_phase qs p cs
]

unfoldable pub count_phases : Dict BattleRoom → List ℕ → List ℕ
unfolding count_phase
count_phases [] cs = cs
count_phases ((id, r) ∷ rest) cs = count_phases rest (count_phase all_room_phases r.phase cs)

unfoldable pub phase_counts : RoomManager → RoomPhaseCounts
unfolding count_phases
phase_counts s = record { counts = count_phases s.rooms (0 ∷ 0 ∷ 0 ∷ 0 ∷ 0 ∷ 0 ∷ []) }

-- The loops that count the rooms with a property.
unfoldable pub count_rooms : (BattleRoom → Bool) → ℕ → Dict BattleRoom → ℕ
count_rooms test n [] = n
count_rooms test n ((id, r) ∷ rest) = count_rooms test (if test r then n + 1 else n) rest

unfoldable pub playing_count : RoomManager → ℕ
unfolding count_rooms
playing_count s = count_rooms (λ r. eq_phase r.phase RoomPhase.playing) 0 s.rooms

unfoldable pub pending_result_count : RoomManager → ℕ
unfolding count_rooms
pending_result_count s = count_rooms (λ r. eq_phase r.phase RoomPhase.finishing) 0 s.rooms

abbrev pub is_unfinished : RoomPhase → Bool
is_unfinished RoomPhase.created = true
is_unfinished RoomPhase.waiting = true
is_unfinished RoomPhase.playing = true
is_unfinished _ = false

unfoldable pub unfinished_game_count : RoomManager → ℕ
unfolding count_rooms
unfinished_game_count s = count_rooms (λ r. is_unfinished r.phase) 0 s.rooms

-- The loop of `TotalFramesAdvanced`.
unfoldable pub add_frames : ℕ → Dict BattleRoom → ℕ
add_frames total [] = total
add_frames total ((id, r) ∷ rest) =
    add_frames (if ltb_ℤ (pos 0) r.frame then add_u64 total (to_nat r.frame) else total) rest

unfoldable pub total_frames_advanced : RoomManager → ℕ
unfolding add_frames
total_frames_advanced s = add_frames 0 s.rooms

pub data SnapshotRangeOutcome : Type 0 where
  ok not_found incomplete ahead : SnapshotRangeOutcome

pub record SnapshotRange : Type 0 where
  pub outcome : SnapshotRangeOutcome
  pub snapshots : List RoomSnapshot
  pub oldest_frame : ℤ
  pub latest_frame : ℤ

-- The answer for a room that is there.
unfoldable pub range_of : BattleRoom → ℤ → SnapshotRange
range_of room since = record {
  outcome =
      if ltb_ℤ room.frame since
      then SnapshotRangeOutcome.ahead
      else if ltb_ℤ (since +ℤ pos 1) (snapshot_frame_range room.history).oldest
      then SnapshotRangeOutcome.incomplete
      else SnapshotRangeOutcome.ok;
  snapshots = snapshots_after since room;
  oldest_frame = (snapshot_frame_range room.history).oldest;
  latest_frame = room.frame;
}

abbrev pub no_range : SnapshotRange
no_range = record {
  outcome = SnapshotRangeOutcome.not_found;
  snapshots = [];
  oldest_frame = pos 0;
  latest_frame = pos 0;
}

abbrev pub range_answer : Option BattleRoom → ℤ → SnapshotRange
range_answer none since = no_range
range_answer (some room) since = range_of room since

unfoldable pub get_snapshots_since : Bytes → ℤ → ℤ → RoomManager → RoomManager × SnapshotRange
unfolding reap_expired range_of
get_snapshots_since room_id since now s =
    let s' = reap_expired now s in (s', range_answer (find room_id s'.rooms) since)

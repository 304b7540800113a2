-- ===== src/Room/Manager/Ticking.antt =====
-- src/room/room_manager.cpp: `Tick`, which drives the rooms, writes their snapshots and stores
-- their results, and `AbortUnfinishedGames`. The writers stand outside the program: each is a
-- parameter, a function on a state `W` of the world, or absent as a null pointer is.
use realtime_game_backend.Base.{
  ℕ, ◌+◌, ◌%◌, ◌^◌, Bool, true, false, List, [], ◌∷◌, Option, some, none, ◌||◌, ◌&&◌, if◌then◌else◌,
  negate, is_some,
}
use realtime_game_backend.Base.Int.{ℤ, pos, ◌-ℤ◌, leb_ℤ}
use realtime_game_backend.Base.Bytes.{Bytes}
use realtime_game_backend.Base.Dict.{Dict, find, assign, emplace, update, map_values}
use realtime_game_backend.Room.Types.{
  RoomPhase, PlayerSnapshot, MatchResultRecord, RoomPlayerRecord, RoomSnapshotRecord, initial_hp,
  snapshot_interval_ms, eq_phase,
}
use realtime_game_backend.Room.Battle.State.{BattleRoom, has_ended, abort}
use realtime_game_backend.Room.Battle.Calls.{abort_unfinished}
use realtime_game_backend.Room.Battle.Frames.{tick}
use realtime_game_backend.Room.Battle.Results.{
  result, should_retry_persist, mark_result_persisted, mark_result_failed,
}
use realtime_game_backend.Room.Manager.State.{RoomManager, SnapshotState, reap_expired}

pub data WriteStatus : Type 0 where
  ok unavailable : WriteStatus

-- MatchResultWriter::Write and RoomSnapshotWriter::Save.
pub record Writers (W : Type 0) : Type 0 where
  pub write : Option (MatchResultRecord → W → WriteStatus × W)
  pub save : Option (RoomSnapshotRecord → W → WriteStatus × W)

abbrev pub no_snapshot_state : SnapshotState
no_snapshot_state = record {
  last_write_ms = pos 0;
  last_phase = RoomPhase.created;
  written = false;
}

unfoldable pub should_snapshot : SnapshotState → RoomPhase → ℤ → Bool
should_snapshot state phase now =
    if (eq_phase phase RoomPhase.finished || eq_phase phase RoomPhase.aborted)
      && (negate state.written || negate (eq_phase state.last_phase phase))
    then true
    else if negate state.written
    then true
    else leb_ℤ snapshot_interval_ms (now -ℤ state.last_write_ms)

abbrev pub no_player : RoomPlayerRecord
no_player = record { player_id = []; hp = initial_hp; joined = false }

abbrev pub player_record : PlayerSnapshot → RoomPlayerRecord
player_record p = record { player_id = p.player_id; hp = p.hp; joined = p.connected }

abbrev pub first_player : List PlayerSnapshot → RoomPlayerRecord
first_player [] = no_player
first_player (p ∷ ps) = player_record p

abbrev pub second_player : List PlayerSnapshot → RoomPlayerRecord
second_player [] = no_player
second_player (p ∷ ps) = first_player ps

unfoldable pub make_snapshot_record : BattleRoom → ℤ → RoomSnapshotRecord
make_snapshot_record r now = record {
  match_id = r.match_id;
  room_id = r.room_id;
  phase = r.phase;
  frame = r.frame;
  player_0 = first_player r.players;
  player_1 = second_player r.players;
  winner_id = r.winner_id;
  finish_reason = r.finish_reason;
  started_at_ms = r.started_at_ms;
  finished_at_ms = r.finished_at_ms;
  snapshot_at_ms = now;
}

abbrev pub wrote_now : ℤ → RoomPhase → SnapshotState
wrote_now now phase = record { last_write_ms = now; last_phase = phase; written = true }

abbrev pub state_or_new : Option SnapshotState → SnapshotState
state_or_new none = no_snapshot_state
state_or_new (some state) = state

-- The loop of `Tick` over the rooms whose snapshot is due; `snapshot_state_[id]` adds an entry.
unfoldable pub due_snapshots :
    ℤ → Dict BattleRoom → Dict SnapshotState → Dict SnapshotState × List RoomSnapshotRecord
due_snapshots now [] states = (states, [])
due_snapshots now ((id, r) ∷ rest) states =
    let due = should_snapshot (state_or_new (find r.match_id states)) r.phase now in
    let states' =
      (if due
        then assign r.match_id (wrote_now now r.phase) states
        else emplace r.match_id no_snapshot_state states) in
    let (after, records) = due_snapshots now rest states' in
    (after, (if due then make_snapshot_record r now ∷ records else records))

-- The rooms whose result is to be stored now.
unfoldable pub due_results : ℤ → Dict BattleRoom → List Bytes
due_results now [] = []
due_results now ((id, r) ∷ rest) =
    let others = due_results now rest in
    if eq_phase r.phase RoomPhase.finishing && should_retry_persist now r
    then id ∷ others
    else others

-- The locked block of `Tick`.
pub record Due : Type 0 where
  pub results : List Bytes
  pub snapshots : List RoomSnapshotRecord

unfoldable pub tick_locked : Bool → ℤ → RoomManager → RoomManager × Due
unfolding due_snapshots due_results reap_expired
tick_locked has_snapshot_writer now s =
    let rooms = map_values (λ r. (tick now r).0) s.rooms in
    let (states, records) =
      (if has_snapshot_writer
        then due_snapshots now rooms s.snapshot_state
        else (s.snapshot_state, [])) in
    (
      reap_expired now (record s { rooms = rooms; snapshot_state = states }),
      record { results = due_results now rooms; snapshots = records },
    )

-- A std::uint64_t counter.
abbrev pub add_u64 : ℕ → ℕ → ℕ
add_u64 a b = (a + b) % 2 ^ 64

-- The first half of a round of the loop that stores results: what is to be written, if the room is
-- still there and still waits for it.
unfoldable pub claim_result : Bytes → RoomManager → Option MatchResultRecord
claim_result room_id s = elim (find room_id s.rooms) [
  | none ↦ none
  | some r ↦ if negate (eq_phase r.phase RoomPhase.finishing) then none else result r
]

-- The second half, after the write.
unfoldable pub settle_result : Bytes → ℤ → WriteStatus → RoomManager → RoomManager
settle_result room_id now WriteStatus.ok s = record s {
  rooms = update room_id mark_result_persisted s.rooms;
}
settle_result room_id now WriteStatus.unavailable s = record s {
  rooms = update room_id (mark_result_failed now) s.rooms;
}

unfoldable pub abort_all : Dict BattleRoom → ℤ → Dict BattleRoom
abort_all rooms now = map_values (abort_unfinished now) rooms

-- The records and the snapshot states that the loop of `AbortUnfinishedGames` makes, and its count.
unfoldable pub abort_records :
    ℤ → Dict BattleRoom → Dict SnapshotState → Dict SnapshotState × List RoomSnapshotRecord
abort_records now [] states = (states, [])
abort_records now ((id, r) ∷ rest) states =
    let aborted = abort now r in
    let states' =
      (if has_ended r.phase
        then states
        else assign r.match_id (wrote_now now aborted.phase) states) in
    let (after, records) = abort_records now rest states' in
    (after, (if has_ended r.phase then records else make_snapshot_record aborted now ∷ records))

module _ {W : Type 0} (w : Writers W) where
  unfoldable pub write_result : MatchResultRecord → W → WriteStatus × W
  write_result m world = elim w.write [
    | none ↦ (WriteStatus.unavailable, world)
    | some write ↦ write m world
  ]

  -- The loop of `FlushSnapshots`, with its counts of successes and failures.
  unfoldable pub save_all :
      (RoomSnapshotRecord → W → WriteStatus × W) → List RoomSnapshotRecord → W → (ℕ × ℕ) × W
  save_all save [] world = ((0, 0), world)
  save_all save (x ∷ xs) world =
      let (status, world') = save x world in
      let ((succeeded, failed), world'') = save_all save xs world' in
      (
        elim status [ ok ↦ (succeeded + 1, failed) | unavailable ↦ (succeeded, failed + 1) ],
        world'',
      )

  unfoldable pub flush_snapshots : List RoomSnapshotRecord → RoomManager → W → RoomManager × W
  unfolding save_all
  flush_snapshots [] s world = (s, world)
  flush_snapshots (x ∷ xs) s world = elim w.save [
    | none ↦ (s, world)
    | some save ↦
        let ((succeeded, failed), world') = save_all save (x ∷ xs) world in
        (
          record s {
            snapshot_write_count = add_u64 s.snapshot_write_count succeeded;
            snapshot_failure_count = add_u64 s.snapshot_failure_count failed;
          },
          world',
        )
  ]

  unfoldable pub persist_one : Bytes → ℤ → RoomManager → W → RoomManager × W
  unfolding write_result
  persist_one room_id now s world = elim (claim_result room_id s) [
    | none ↦ (s, world)
    | some m ↦
        let (status, world') = write_result m world in (settle_result room_id now status s, world')
  ]

  unfoldable pub persist_all : List Bytes → ℤ → RoomManager → W → RoomManager × W
  unfolding persist_one
  persist_all [] now s world = (s, world)
  persist_all (id ∷ ids) now s world =
      let (s', world') = persist_one id now s world in persist_all ids now s' world'

  -- Tick(now_ms), with no other call between its locked blocks.
  unfoldable pub tick_manager : ℤ → RoomManager → W → RoomManager × W
  unfolding tick_locked flush_snapshots persist_all
  tick_manager now s world =
      let (s', due) = tick_locked (is_some w.save) now s in
      let (s'', world') = flush_snapshots due.snapshots s' world in
      persist_all due.results now s'' world'

  -- AbortUnfinishedGames, without the number that it returns: how many rooms it aborted.
  unfoldable pub abort_unfinished_games : ℤ → RoomManager → W → RoomManager × W
  unfolding abort_records abort_all flush_snapshots
  abort_unfinished_games now s world =
      let (states, records) = abort_records now s.rooms s.snapshot_state in
      flush_snapshots records (record s { rooms = abort_all s.rooms now; snapshot_state = states })
        world

-- ===== src/Match/Queue/Rounds.antt =====
-- src/match/match_queue.cpp: the pairing round and the calls around it. The allocator of rooms and
-- the match id factory are parameters: `allocate` is what `RoomAllocator::Allocate` returns, the
-- empty id for a failure, and no allocator stands for a null pointer.
use realtime_game_backend.Base.{
  ℕ, suc, Bool, true, false, List, [], ◌∷◌, ◌++◌, Option, some, none, ◌&&◌, ◌||◌, if◌then◌else◌,
  negate, length, leb,
}
use realtime_game_backend.Base.Int.{ℤ}
use realtime_game_backend.Base.Bytes.{Bytes, is_empty, bad_id}
use realtime_game_backend.Match.Queue.State.{
  MatchQueue, PendingGroup, EnqueueOutcome, MatchStatusSnapshot, status_of, max_player_id_length,
  max_request_id_length,
}
use realtime_game_backend.Match.Queue.Requests.{sweep, enqueue_locked, cancel_locked}
use realtime_game_backend.Match.Queue.Pairing.{take_pair_groups, commit_group}
use realtime_game_backend.Match.Queue.Saving.{mark_snapshot_dirty}

-- match id, players, request id ↦ room id
abbrev pub RoomAllocator : Type 0
RoomAllocator = Bytes → List Bytes → Bytes → Bytes

-- AllocateRoomFor, without the measured times.
unfoldable pub allocate_room_for :
    Option RoomAllocator → PendingGroup → MatchQueue → MatchQueue × Bytes
allocate_room_for none group s = (s, [])
allocate_room_for (some allocate) group s =
    let room_id = allocate group.match_id group.player_ids group.request_id in
    (
      record s {
        room_allocate_count = suc s.room_allocate_count;
        room_allocate_failed_count =
            if is_empty room_id
            then suc s.room_allocate_failed_count
            else s.room_allocate_failed_count;
      },
      room_id,
    )

-- Phases two and three of the round, for one group and for all.
unfoldable pub allocate_and_commit :
    Option RoomAllocator → ℤ → PendingGroup → MatchQueue → MatchQueue
unfolding allocate_room_for commit_group
allocate_and_commit allocator now group s =
    let (t, room_id) = allocate_room_for allocator group s in commit_group group room_id now t

unfoldable pub commit_groups :
    Option RoomAllocator → ℤ → List PendingGroup → MatchQueue → MatchQueue
unfolding allocate_and_commit
commit_groups allocator now [] s = s
commit_groups allocator now (group ∷ groups) s =
    commit_groups allocator now groups (allocate_and_commit allocator now group s)

-- HandOffToWorker
unfoldable pub hand_off_to_worker : List PendingGroup → ℤ → MatchQueue → MatchQueue
hand_off_to_worker [] now s = s
hand_off_to_worker (group ∷ groups) now s =
    hand_off_to_worker groups now
      (record s { allocation_queue = s.allocation_queue ++ ((group, now) ∷ []) })

-- RunPairingRound
unfoldable pub run_pairing_round :
    Option RoomAllocator → (ℕ → Bytes) → ℤ → MatchQueue → MatchQueue × Bool
unfolding take_pair_groups hand_off_to_worker commit_groups
run_pairing_round allocator fresh now s =
    if leb s.max_pending_allocations (length s.allocation_queue)
    then (s, false)
    else let (t, groups) = take_pair_groups fresh s in
      if is_empty groups
      then (t, false)
      else if t.allocation_worker_running && negate (is_empty t.allocation_queue)
      then (hand_off_to_worker groups now t, true)
      else (commit_groups allocator now groups t, true)

-- One round of AllocationWorkerLoop; nothing to do in an empty queue.
unfoldable pub work_once : Option RoomAllocator → ℤ → MatchQueue → MatchQueue
unfolding allocate_and_commit mark_snapshot_dirty
work_once allocator now s = elim s.allocation_queue [
  | [] ↦ s
  | (group, queued_ms) ∷ rest ↦
      mark_snapshot_dirty now
        (allocate_and_commit allocator queued_ms group (record s { allocation_queue = rest }))
]

-- Enqueue
unfoldable pub enqueue :
    Option RoomAllocator
    → (ℕ → Bytes)
    → Bytes
    → Bytes
    → ℤ
    → MatchQueue
    → MatchQueue × EnqueueOutcome
unfolding bad_id enqueue_locked run_pairing_round mark_snapshot_dirty
enqueue allocator fresh player_id request_id now s =
    if bad_id max_player_id_length player_id || bad_id max_request_id_length request_id
    then (s, EnqueueOutcome.invalid_argument)
    else if s.shutting_down
    then (s, EnqueueOutcome.shutting_down)
    else let (t, (outcome, changed)) = enqueue_locked player_id request_id now s in
      let (u, paired) = run_pairing_round allocator fresh now t in
      ((if changed || paired then mark_snapshot_dirty now u else u), outcome)

-- Cancel. The Boolean is what it returns.
unfoldable pub cancel : Bytes → ℤ → MatchQueue → MatchQueue × Bool
unfolding cancel_locked mark_snapshot_dirty
cancel player_id now s =
    let (t, (removed, changed)) = cancel_locked player_id now s in
    ((if changed then mark_snapshot_dirty now t else t), removed)

-- RetryPairingIfNeeded
unfoldable pub retry_pairing_if_needed :
    Option RoomAllocator → (ℕ → Bytes) → ℤ → MatchQueue → MatchQueue × Bool
unfolding run_pairing_round
retry_pairing_if_needed allocator fresh now s =
    if s.retry_pairing
    then run_pairing_round allocator fresh now (record s { retry_pairing = false })
    else (s, false)

-- GetStatus
unfoldable pub get_status :
    Option RoomAllocator → (ℕ → Bytes) → Bytes → ℤ → MatchQueue → MatchQueue × MatchStatusSnapshot
unfolding sweep status_of retry_pairing_if_needed mark_snapshot_dirty
get_status allocator fresh player_id now s =
    let (t, changed) = sweep now s in
    let (u, paired) = retry_pairing_if_needed allocator fresh now t in
    ((if changed || paired then mark_snapshot_dirty now u else u), status_of player_id t)

-- ===== src/Examples/Queue.antt =====
-- The match queue of match_queue.cpp at concrete inputs: three players, one pair.
use realtime_game_backend.Base.{
  some, ◌≡◌, refl, ℕ, ◌+◌, ◌≤◌, ◌<◌, true, false, [], ◌∷◌, ◌++◌, All, arith, length, Bool, ◌⊎◌, suc,
  if◌then◌else◌,
}
use realtime_game_backend.Base.Int.{pos}
use realtime_game_backend.Base.Bytes.{Bytes, codes, ◌==◌, is_empty}
use realtime_game_backend.Base.Dict.{find}
use realtime_game_backend.Match.Queue.State.{
  players_per_match, MatchState, PendingGroup, MatchQueue, make_queue, status_of,
}
use realtime_game_backend.Match.Queue.Requests.{enqueue_locked}
use realtime_game_backend.Match.Queue.Pairing.{take_pair_groups, members, commit_group}
use realtime_game_backend.Match.Queue.Agree.{count, waiting, reserved}
use realtime_game_backend.Match.Queue.Kept.{count_groups}
use realtime_game_backend.Match.Queue.Order.{players_of, IsPair}
use realtime_game_backend.Match.Queue.Restart.{restore_queue}
use realtime_game_backend.Match.Queue.Saving.{
  queued_row, MatchQueueSnapshot, mark_snapshot_dirty, tick_queue, make_snapshot,
}
use realtime_game_backend.Match.Queue.Schedule.{IsWithinWindow, tick_queue-pending}
use realtime_game_backend.Match.Queue.System.{
  Boot, booted, at, QueueReach, QueueStep, QueueReach-once,
}
use realtime_game_backend.Match.Queue.Guarantees.{
  Running, Running-first_come, Running-all_paired, Running-matched, Running-put_back,
}

-- A server that starts with one player in the store.
abbrev boot : Boot
boot = record {
  match_timeout_ms = pos 0;
  result_ttl_ms = pos 0;
  max_queue_size = 0;
  has_store = true;
  loaded = some (record { entry = queued_row (codes "a") (pos 900); problem = [] } ∷ []);
  restored_at = pos 950;
}

abbrev queue_1 : MatchQueue
queue_1 = booted boot

abbrev queue_2 : MatchQueue
queue_2 = (enqueue_locked (codes "b") (codes "r2") (pos 1001) queue_1).0

abbrev queue_3 : MatchQueue
queue_3 = (enqueue_locked (codes "c") (codes "r3") (pos 1002) queue_2).0

abbrev fresh : ℕ → Bytes
fresh i = codes "m"

abbrev taken : MatchQueue
taken = (take_pair_groups fresh queue_3).0

abbrev pair : PendingGroup
pair = record { match_id = codes "m"; player_ids = codes "a" ∷ codes "b" ∷ []; request_id = [] }

three_wait : Running boot queue_3 []
three_wait =
    QueueReach.later
      (QueueReach.later QueueReach.here
        (QueueStep.enqueues queue_1 [] (codes "b") (codes "r2") (pos 1001)))
      (QueueStep.enqueues queue_2 [] (codes "c") (codes "r3") (pos 1002))

group_at_work : Running boot taken (pair ∷ [])
unfolding take_pair_groups enqueue_locked make_queue restore_queue
group_at_work = QueueReach.later three_wait (QueueStep.takes queue_3 [] fresh)

QueueReach-once_example :
    (count (codes "a") taken.queue + count_groups (codes "a") (pair ∷ []) ≤ 1)
    × (count (codes "a") taken.queue ≡ waiting (find (codes "a") taken.entries))
    × (count_groups (codes "a") (pair ∷ []) ≡ reserved (find (codes "a") taken.entries))
QueueReach-once_example = QueueReach-once boot (at taken (pair ∷ [])) (codes "a") group_at_work

Running-first_come_example :
    (players_of (take_pair_groups fresh queue_3).1 ++ taken.queue ≡ queue_3.queue)
    × All IsPair (take_pair_groups fresh queue_3).1
Running-first_come_example = Running-first_come boot queue_3 [] fresh three_wait

fresh_named : (i : ℕ) → is_empty (fresh i) ≡ false
fresh_named i = refl

Running-all_paired_example : length taken.queue < players_per_match
Running-all_paired_example = Running-all_paired boot queue_3 [] fresh three_wait fresh_named

Running-matched_example :
    ((status_of (codes "b") (commit_group pair (codes "room") (pos 1100) taken)).state
      ≡ MatchState.matched)
    × ((status_of (codes "b") (commit_group pair (codes "room") (pos 1100) taken)).room_id
        ≡ codes "room")
    × ((status_of (codes "b") (commit_group pair (codes "room") (pos 1100) taken)).player_ids
        ≡ pair.player_ids)
unfolding ◌==◌ members take_pair_groups enqueue_locked make_queue restore_queue
Running-matched_example =
    Running-matched boot taken [] [] pair (codes "room") (pos 1100) (codes "b") group_at_work refl
      refl (omega arith)

Running-put_back_example :
    ((commit_group pair [] (pos 1100) taken).queue
      ≡ members false taken.entries pair.player_ids ++ taken.queue)
    × ((commit_group pair [] (pos 1100) taken).retry_pairing ≡ true)
Running-put_back_example = Running-put_back boot taken [] [] pair (pos 1100) group_at_work

abbrev dirty_queue : MatchQueue
dirty_queue = mark_snapshot_dirty (pos 1000) queue_1

abbrev always : MatchQueueSnapshot → Bool
always q = true

tick_queue-pending_example :
    (IsWithinWindow (pos 1200) dirty_queue
      × (tick_queue always (pos 1200) dirty_queue
          ≡ record dirty_queue { snapshot_tick_count = suc dirty_queue.snapshot_tick_count }))
    ⊎ ((¬ IsWithinWindow (pos 1200) dirty_queue)
        × (tick_queue always (pos 1200) dirty_queue ≡ record dirty_queue {
          snapshot_tick_count = suc dirty_queue.snapshot_tick_count;
          snapshot_dirty = false;
          snapshot_dirty_since_ms = pos 0;
          last_snapshot_write_ms = pos 1200;
          snapshot_write_count =
              if always (make_snapshot dirty_queue)
              then suc dirty_queue.snapshot_write_count
              else dirty_queue.snapshot_write_count;
          snapshot_failure_count =
              if always (make_snapshot dirty_queue)
              then dirty_queue.snapshot_failure_count
              else suc dirty_queue.snapshot_failure_count;
        }))
unfolding mark_snapshot_dirty restore_queue make_queue
tick_queue-pending_example = tick_queue-pending always (pos 1200) dirty_queue refl refl

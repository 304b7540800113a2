-- ===== src/Match/Queue/System.antt =====
-- The match queue under concurrent calls. match_queue.cpp never holds its mutex while a room is being
-- allocated, so what runs at once is one locked block after another, and between the taking of a
-- group and its commit anything may happen. `in_flight` holds the groups that are taken and not yet
-- committed, by a request thread or by the worker; they are committed in any order, with any answer
-- of the allocator.
use realtime_game_backend.Base.{
  Option, ◌≡◌, refl, ℕ, ◌+◌, ◌≤◌, Bool, false, List, [], ◌∷◌, ◌++◌, arith,
}
use realtime_game_backend.Base.Int.{ℤ}
use realtime_game_backend.Base.Bytes.{Bytes}
use realtime_game_backend.Base.Dict.{find}
use realtime_game_backend.Match.Queue.State.{
  MatchQueue, PendingGroup, make_queue, begin_queue_shutdown,
}
use realtime_game_backend.Match.Queue.Requests.{sweep, enqueue_locked, cancel_locked}
use realtime_game_backend.Match.Queue.Pairing.{take_pair_groups, commit_group}
use realtime_game_backend.Match.Queue.Restart.{restore_queue}
use realtime_game_backend.Match.Queue.Restored.{restore_queue-Agree}
use realtime_game_backend.Match.Queue.Saving.{
  MatchQueueSnapshotRow, MatchQueueSnapshot, mark_snapshot_dirty, flush_snapshot_now,
}
use realtime_game_backend.Match.Queue.Agree.{Agree, count, waiting, reserved}
use realtime_game_backend.Match.Queue.Kept.{
  Agree-held, count_groups, sweep-Agree, enqueue_locked-Agree, cancel_locked-Agree,
}
use realtime_game_backend.Match.Queue.Groups.{take_pair_groups-Agree, commit_group-Agree}

pub record System : Type 0 where
  pub state : MatchQueue
  pub in_flight : List PendingGroup

abbrev pub at : MatchQueue → List PendingGroup → System
at s groups = record { state = s; in_flight = groups }

-- `clears_retry` is the locked block of `RetryPairingIfNeeded`.
pub data QueueStep : System → System → Type 0 where
  enqueues :
      (s : MatchQueue) (fl : List PendingGroup) (id request_id : Bytes) (now : ℤ)
      → QueueStep (at s fl) (at (enqueue_locked id request_id now s).0 fl)
  cancels :
      (s : MatchQueue) (fl : List PendingGroup) (id : Bytes) (now : ℤ)
      → QueueStep (at s fl) (at (cancel_locked id now s).0 fl)
  sweeps :
      (s : MatchQueue) (fl : List PendingGroup) (now : ℤ)
      → QueueStep (at s fl) (at (sweep now s).0 fl)
  takes :
      (s : MatchQueue) (fl : List PendingGroup) (fresh : ℕ → Bytes)
      → QueueStep (at s fl) (at (take_pair_groups fresh s).0 ((take_pair_groups fresh s).1 ++ fl))
  commits :
      (s : MatchQueue) (before after : List PendingGroup) (g : PendingGroup) (room_id : Bytes)
      (now : ℤ)
      → QueueStep
          (at s (before ++ (g ∷ after)))
          (at (commit_group g room_id now s) (before ++ after))
  clears_retry :
      (s : MatchQueue) (fl : List PendingGroup)
      → QueueStep (at s fl) (at (record s { retry_pairing = false }) fl)
  marks :
      (s : MatchQueue) (fl : List PendingGroup) (now : ℤ)
      → QueueStep (at s fl) (at (mark_snapshot_dirty now s) fl)
  flushes :
      (s : MatchQueue) (fl : List PendingGroup) (saves : MatchQueueSnapshot → Bool) (now : ℤ)
      → QueueStep (at s fl) (at (flush_snapshot_now saves now s).0 fl)
  shuts_down :
      (s : MatchQueue) (fl : List PendingGroup)
      → QueueStep (at s fl) (at (begin_queue_shutdown s) fl)

pub data QueueReach (x : System) : System → Type 0 where
  here : QueueReach x x
  later : {y z : System} → QueueReach x y → QueueStep y z → QueueReach x z

abbrev pub Consistent : System → Type 0
Consistent x = Agree x.state.queue x.state.entries (λ j. count_groups j x.in_flight)

pub count_groups-append :
    (j : Bytes) (a b : List PendingGroup)
    → count_groups j (a ++ b) ≡ count_groups j a + count_groups j b
count_groups-append j [] b = omega arith
count_groups-append j (g ∷ a) b = omega (arith, count_groups-append j a b)

mark_snapshot_dirty-same :
    (now : ℤ) (s : MatchQueue)
    → ((mark_snapshot_dirty now s).queue ≡ s.queue)
      × ((mark_snapshot_dirty now s).entries ≡ s.entries)
unfolding mark_snapshot_dirty
mark_snapshot_dirty-same now s = (ground arith, ground arith)

flush_snapshot_now-same :
    (saves : MatchQueueSnapshot → Bool) (now : ℤ) (s : MatchQueue)
    → ((flush_snapshot_now saves now s).0.queue ≡ s.queue)
      × ((flush_snapshot_now saves now s).0.entries ≡ s.entries)
unfolding flush_snapshot_now
flush_snapshot_now-same saves now s = (ground arith, ground arith)

Consistent-QueueStep : {x y : System} → QueueStep x y → Consistent x → Consistent y
unfolding begin_queue_shutdown
Consistent-QueueStep (QueueStep.enqueues s fl id request_id now) a =
    enqueue_locked-Agree _ id request_id now s a
Consistent-QueueStep (QueueStep.cancels s fl id now) a = cancel_locked-Agree _ id now s a
Consistent-QueueStep (QueueStep.sweeps s fl now) a = sweep-Agree _ now s a
Consistent-QueueStep (QueueStep.takes s fl fresh) a =
    Agree-held _ _ _ _ (λ j. omega (arith, count_groups-append j (take_pair_groups fresh s).1 fl))
      (take_pair_groups-Agree fresh s _ a)
Consistent-QueueStep (QueueStep.commits s before after g room_id now) a =
    commit_group-Agree g room_id now s _ (
      Agree-held _ _ _ _
        (λ j.
          omega
            (arith, count_groups-append j before (g ∷ after), count_groups-append j before after))
        a)
Consistent-QueueStep (QueueStep.clears_retry s fl) a = a
Consistent-QueueStep (QueueStep.marks s fl now) a =
    rw ((mark_snapshot_dirty-same now s).0, (mark_snapshot_dirty-same now s).1) a
Consistent-QueueStep (QueueStep.flushes s fl saves now) a =
    rw ((flush_snapshot_now-same saves now s).0, (flush_snapshot_now-same saves now s).1) a
Consistent-QueueStep (QueueStep.shuts_down s fl) a = a

pub Consistent-QueueReach : {x y : System} → QueueReach x y → Consistent x → Consistent y
Consistent-QueueReach QueueReach.here a = a
Consistent-QueueReach (QueueReach.later path step) a =
    Consistent-QueueStep step (Consistent-QueueReach path a)

-- How the server starts: its settings, and what the store returned at which time.
pub record Boot : Type 0 where
  pub match_timeout_ms : ℤ
  pub result_ttl_ms : ℤ
  pub max_queue_size : ℕ
  pub has_store : Bool
  pub loaded : Option (List MatchQueueSnapshotRow)
  pub restored_at : ℤ

abbrev pub booted : Boot → MatchQueue
booted b =
    (restore_queue b.restored_at b.loaded
      (make_queue b.match_timeout_ms b.result_ttl_ms b.max_queue_size b.has_store)).0

pub booted-Consistent : (b : Boot) → Consistent (at (booted b) [])
unfolding make_queue find
booted-Consistent b =
    restore_queue-Agree b.restored_at b.loaded
      (make_queue b.match_timeout_ms b.result_ttl_ms b.max_queue_size b.has_store)
      (λ j. (refl, refl, refl))

-- Whatever rows the server starts with and whatever calls interleave from then on, a player stands in
-- line, or in a group whose room is being allocated, at most once and never in both; whoever stands in
-- line has a queued entry that is not being allocated, and whoever is in a group has a queued entry
-- that is; and whoever has such an entry stands there, so no player that counts as queued is forgotten.
pub QueueReach-once :
    (b : Boot) (x : System) (id : Bytes)
    → QueueReach (at (booted b) []) x
    → (count id x.state.queue + count_groups id x.in_flight ≤ 1)
      × (count id x.state.queue ≡ waiting (find id x.state.entries))
      × (count_groups id x.in_flight ≡ reserved (find id x.state.entries))
QueueReach-once b x id path =
    let a : Consistent x = Consistent-QueueReach path (booted-Consistent b) in
    (ground (arith, a id), (a id).0, (a id).1)

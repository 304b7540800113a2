-- ===== src/Match/Queue/Schedule.antt =====
-- When match_queue.cpp writes its snapshot: the merge window of `Tick`.
use realtime_game_backend.Base.{
  refl, inl, inr, Bool-cases, ◌&&◌, ◌≡◌, ◌⊎◌, suc, if◌then◌else◌, Bool, true, false, arith,
}
use realtime_game_backend.Base.Int.{ℤ, pos, ◌<ℤ◌, ◌-ℤ◌, ltb_ℤ}
use realtime_game_backend.Match.Queue.State.{MatchQueue}
use realtime_game_backend.Match.Queue.Saving.{
  MatchQueueSnapshot, tick_queue, flush_snapshot_now, is_flush_due, make_snapshot,
}

-- The merge window is open: there is one, something was written before, and that is less than the
-- window ago.
pub record IsWithinWindow (now : ℤ) (s : MatchQueue) : Type 0 where
  pub window : pos 0 <ℤ s.snapshot_merge_interval_ms
  pub written : pos 0 <ℤ s.last_snapshot_write_ms
  pub recent : now -ℤ s.last_snapshot_write_ms <ℤ s.snapshot_merge_interval_ms

-- With a store and a change that is not written yet, `Tick` does exactly one of two things. While the
-- merge window is open, it only counts the tick, and the change stays unwritten. When it is not open,
-- it counts the tick, no change is unwritten any more and its time is cleared, the last write is now,
-- and the writes or the failures go up by one, by the answer of the store to the snapshot of the state
-- before: a save that fails is counted and not kept for a later tick. Nothing else changes.
pub tick_queue-pending :
    (saves : MatchQueueSnapshot → Bool) (now : ℤ) (s : MatchQueue)
    → s.has_store ≡ true
    → s.snapshot_dirty ≡ true
    → (IsWithinWindow now s
        × (tick_queue saves now s ≡ record s { snapshot_tick_count = suc s.snapshot_tick_count }))
      ⊎ ((¬ IsWithinWindow now s)
          × (tick_queue saves now s ≡ record s {
            snapshot_tick_count = suc s.snapshot_tick_count;
            snapshot_dirty = false;
            snapshot_dirty_since_ms = pos 0;
            last_snapshot_write_ms = now;
            snapshot_write_count =
                if saves (make_snapshot s)
                then suc s.snapshot_write_count
                else s.snapshot_write_count;
            snapshot_failure_count =
                if saves (make_snapshot s)
                then s.snapshot_failure_count
                else suc s.snapshot_failure_count;
          }))
unfolding tick_queue flush_snapshot_now is_flush_due make_snapshot
tick_queue-pending saves now s store dirty =
    elim (Bool-cases (
      ltb_ℤ (pos 0) s.snapshot_merge_interval_ms
      && ltb_ℤ (pos 0) s.last_snapshot_write_ms
      && ltb_ℤ (now -ℤ s.last_snapshot_write_ms) s.snapshot_merge_interval_ms)) [
        | inl held ↦ inl (
          record { window = ground arith; written = ground arith; recent = ground arith },
          rw (store, dirty, held) refl,
        )
        | inr due ↦ inr (
          λ w. ground (arith, w.window, w.written, w.recent),
          elim (Bool-cases (saves (make_snapshot s))) [
            | inl saved ↦ rw (store, dirty, due, saved) refl
            | inr failed ↦ rw (store, dirty, due, failed) refl
          ],
        )
      ]

-- ===== src/Match/Queue/Saving.antt =====
-- src/match/match_queue.cpp: the snapshot of the queue, when it is due, and the restart from it. The
-- store behind src/match/match_queue_store.hpp is a parameter: `saves` says what `Save` returns, and
-- the rows of `Restore` are what `Load` returns.
use realtime_game_backend.Base.{
  suc, Bool, true, false, List, [], ◌∷◌, ◌++◌, some, none, ◌&&◌, ◌||◌, if◌then◌else◌, negate,
}
use realtime_game_backend.Base.Int.{ℤ, pos, leb_ℤ, ltb_ℤ, ◌-ℤ◌}
use realtime_game_backend.Base.Bytes.{Bytes, ◌==◌}
use realtime_game_backend.Base.Dict.{Dict, find}
use realtime_game_backend.Match.Queue.State.{MatchQueue, Entry, is_queued, is_matched}

pub data SnapshotEntryKind : Type 0 where
  queued matched : SnapshotEntryKind

pub record MatchQueueEntry : Type 0 where
  pub kind : SnapshotEntryKind
  pub player_id : Bytes
  pub queued_at_ms : ℤ
  pub match_id : Bytes
  pub room_id : Bytes
  pub player_ids : List Bytes
  pub stamp_ms : ℤ

-- A row that is of no use carries a problem, which is not empty.
pub record MatchQueueSnapshotRow : Type 0 where
  pub entry : MatchQueueEntry
  pub problem : Bytes

pub record MatchQueueSnapshot : Type 0 where
  pub queued : List MatchQueueEntry
  pub matched : List MatchQueueEntry

abbrev pub queued_row : Bytes → ℤ → MatchQueueEntry
queued_row id at = record {
  kind = SnapshotEntryKind.queued;
  player_id = id;
  queued_at_ms = at;
  match_id = [];
  room_id = [];
  player_ids = [];
  stamp_ms = pos 0;
}

abbrev pub matched_row : Entry → MatchQueueEntry
matched_row e = record {
  kind = SnapshotEntryKind.matched;
  player_id = [];
  queued_at_ms = pos 0;
  match_id = e.match_id;
  room_id = e.room_id;
  player_ids = e.player_ids;
  stamp_ms = e.stamp_ms;
}

-- The three parts of `MakeSnapshotLocked`: the queue in its order, the players whose room is being
-- allocated, and one row for each match.
unfoldable pub rows_of_queue : Dict Entry → List Bytes → List MatchQueueEntry
unfolding find
rows_of_queue m [] = []
rows_of_queue m (id ∷ q) =
    let rest = rows_of_queue m q in
    elim (find id m) [
      | none ↦ rest
      | some e ↦ if is_queued e.state then queued_row id e.queued_at_ms ∷ rest else rest
    ]

unfoldable pub rows_of_allocating : Dict Entry → List MatchQueueEntry
rows_of_allocating [] = []
rows_of_allocating ((id, e) ∷ m) =
    let rest = rows_of_allocating m in
    if is_queued e.state && e.allocating && negate e.cancel_requested
    then queued_row id e.queued_at_ms ∷ rest
    else rest

unfoldable pub member : Bytes → List Bytes → Bool
unfolding ◌==◌
member id [] = false
member id (j ∷ ids) = (j == id) || member id ids

unfoldable pub rows_of_matches : List Bytes → Dict Entry → List MatchQueueEntry
unfolding member
rows_of_matches written [] = []
rows_of_matches written ((id, e) ∷ m) =
    let rest = rows_of_matches written m in
    let rest' = rows_of_matches (written ++ (e.match_id ∷ [])) m in
    if is_matched e.state && negate (member e.match_id written) then matched_row e ∷ rest' else rest

-- MakeSnapshotLocked
unfoldable pub make_snapshot : MatchQueue → MatchQueueSnapshot
unfolding rows_of_queue rows_of_allocating rows_of_matches
make_snapshot s = record {
  queued = rows_of_queue s.entries s.queue ++ rows_of_allocating s.entries;
  matched = rows_of_matches [] s.entries;
}

-- MarkSnapshotDirty
unfoldable pub mark_snapshot_dirty : ℤ → MatchQueue → MatchQueue
mark_snapshot_dirty now s =
    if s.has_store
    then if s.snapshot_dirty
      then record s { snapshot_merged_count = suc s.snapshot_merged_count }
      else record s { snapshot_dirty = true; snapshot_dirty_since_ms = now }
    else s

-- SetSnapshotMergeIntervalMs
unfoldable pub set_snapshot_merge_interval_ms : ℤ → MatchQueue → MatchQueue
set_snapshot_merge_interval_ms interval s = record s {
  snapshot_merge_interval_ms = if ltb_ℤ (pos 0) interval then interval else pos 0;
}

-- FlushSnapshotNow, without the measured time of the write. The last result is whether it wrote.
unfoldable pub flush_snapshot_now : (MatchQueueSnapshot → Bool) → ℤ → MatchQueue → MatchQueue × Bool
unfolding make_snapshot
flush_snapshot_now saves now s =
    if s.has_store && s.snapshot_dirty
    then (
      (if saves (make_snapshot s)
          then record s {
            snapshot_dirty = false;
            snapshot_dirty_since_ms = pos 0;
            last_snapshot_write_ms = now;
            snapshot_write_count = suc s.snapshot_write_count;
          }
          else record s {
            snapshot_dirty = false;
            snapshot_dirty_since_ms = pos 0;
            last_snapshot_write_ms = now;
            snapshot_failure_count = suc s.snapshot_failure_count;
          }),
      true,
    )
    else (s, false)

-- The tests of `Tick`: something changed, and the merge window since the last write is over.
unfoldable pub is_flush_due : ℤ → MatchQueue → Bool
unfolding ◌-ℤ◌
is_flush_due now s =
    s.snapshot_dirty
    && negate (
        ltb_ℤ (pos 0) s.snapshot_merge_interval_ms
        && ltb_ℤ (pos 0) s.last_snapshot_write_ms
        && ltb_ℤ (now -ℤ s.last_snapshot_write_ms) s.snapshot_merge_interval_ms)

-- Tick
unfoldable pub tick_queue : (MatchQueueSnapshot → Bool) → ℤ → MatchQueue → MatchQueue
unfolding flush_snapshot_now is_flush_due
tick_queue saves now s =
    let t = record s { snapshot_tick_count = suc s.snapshot_tick_count } in
    if s.has_store && is_flush_due now t then (flush_snapshot_now saves now t).0 else t

-- SnapshotLagMs
unfoldable pub snapshot_lag_ms : ℤ → MatchQueue → ℤ
unfolding ◌-ℤ◌
snapshot_lag_ms now s =
    if negate s.snapshot_dirty || leb_ℤ s.snapshot_dirty_since_ms (pos 0)
    then pos 0
    else if ltb_ℤ (pos 0) (now -ℤ s.snapshot_dirty_since_ms)
    then now -ℤ s.snapshot_dirty_since_ms
    else pos 0

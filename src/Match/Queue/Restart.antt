-- ===== src/Match/Queue/Restart.antt =====
-- src/match/match_queue.cpp: `MatchQueue::Restore`, which fills an empty queue from the rows that the
-- store returns.
use realtime_game_backend.Base.{
  ℕ, suc, ◌+◌, Bool, true, false, List, [], ◌∷◌, ◌++◌, Option, some, none, ◌||◌, if◌then◌else◌,
  negate, length, is_some,
}
use realtime_game_backend.Base.Int.{ℤ, pos, leb_ℤ, ltb_ℤ, ◌-ℤ◌}
use realtime_game_backend.Base.Bytes.{Bytes, is_empty}
use realtime_game_backend.Base.Dict.{Dict, find, emplace}
use realtime_game_backend.Match.Queue.State.{MatchQueue, Entry, MatchState, queued_entry}
use realtime_game_backend.Match.Queue.Requests.{sweep}
use realtime_game_backend.Match.Queue.Saving.{
  SnapshotEntryKind, MatchQueueEntry, MatchQueueSnapshotRow,
}

pub record MatchRestoreReport : Type 0 where
  pub scanned : ℕ
  pub queued : ℕ
  pub matched : ℕ
  pub dropped : ℕ
  pub timed_out : ℕ
  pub expired_results : ℕ
  pub load_failed : Bool

abbrev pub empty_report : MatchRestoreReport
empty_report = record {
  scanned = 0;
  queued = 0;
  matched = 0;
  dropped = 0;
  timed_out = 0;
  expired_results = 0;
  load_failed = false;
}

abbrev pub is_of_kind : Bool → MatchQueueEntry → Bool
is_of_kind wants_queued e = elim e.kind [
  | SnapshotEntryKind.queued ↦ wants_queued
  | SnapshotEntryKind.matched ↦ negate wants_queued
]

-- The entries of one kind among the good rows.
unfoldable pub good_entries : Bool → List MatchQueueSnapshotRow → List MatchQueueEntry
good_entries wants_queued [] = []
good_entries wants_queued (row ∷ rows) =
    let rest = good_entries wants_queued rows in
    if is_empty row.problem
    then if is_of_kind wants_queued row.entry then row.entry ∷ rest else rest
    else rest

unfoldable pub count_bad : List MatchQueueSnapshotRow → ℕ
count_bad [] = 0
count_bad (row ∷ rows) = if is_empty row.problem then count_bad rows else suc (count_bad rows)

-- The stable sort by the time of entry: an entry goes before the first later one.
unfoldable pub insert_by_time : MatchQueueEntry → List MatchQueueEntry → List MatchQueueEntry
insert_by_time e [] = e ∷ []
insert_by_time e (f ∷ rest) =
    let later = insert_by_time e rest in
    if ltb_ℤ f.queued_at_ms e.queued_at_ms then f ∷ later else e ∷ f ∷ rest

unfoldable pub sort_by_time : List MatchQueueEntry → List MatchQueueEntry
unfolding insert_by_time
sort_by_time [] = []
sort_by_time (e ∷ rest) = insert_by_time e (sort_by_time rest)

-- The entry that `Restore` makes for a player in the queue: no request id, the time of entry.
unfoldable pub restore_player :
    ℤ → MatchQueueEntry → MatchQueue × MatchRestoreReport → MatchQueue × MatchRestoreReport
restore_player now e (s, report) =
    if is_some (find e.player_id s.entries)
    then (s, record report { dropped = suc report.dropped })
    else if leb_ℤ s.match_timeout_ms (now -ℤ e.queued_at_ms)
    then (s, record report { timed_out = suc report.timed_out })
    else (
      record s {
        entries = emplace e.player_id (queued_entry [] e.queued_at_ms) s.entries;
        queue = s.queue ++ (e.player_id ∷ []);
      },
      record report { queued = suc report.queued },
    )

unfoldable pub restore_players :
    ℤ → List MatchQueueEntry → MatchQueue × MatchRestoreReport → MatchQueue × MatchRestoreReport
unfolding restore_player
restore_players now [] at = at
restore_players now (e ∷ es) at = restore_players now es (restore_player now e at)

unfoldable pub any_known : Dict Entry → List Bytes → Bool
unfolding find
any_known m [] = false
any_known m (id ∷ ids) = is_some (find id m) || any_known m ids

abbrev pub restored_match : MatchQueueEntry → Entry
restored_match e = record {
  state = MatchState.matched;
  request_id = [];
  match_id = e.match_id;
  room_id = e.room_id;
  player_ids = e.player_ids;
  queued_at_ms = pos 0;
  stamp_ms = e.stamp_ms;
  allocating = false;
  cancel_requested = false;
}

unfoldable pub emplace_all : Entry → List Bytes → Dict Entry → Dict Entry
unfolding emplace
emplace_all e [] m = m
emplace_all e (id ∷ ids) m = emplace_all e ids (emplace id e m)

unfoldable pub restore_match :
    ℤ → MatchQueueEntry → MatchQueue × MatchRestoreReport → MatchQueue × MatchRestoreReport
unfolding any_known emplace_all ◌-ℤ◌
restore_match now e (s, report) =
    if leb_ℤ s.result_ttl_ms (now -ℤ e.stamp_ms)
    then (s, record report { expired_results = report.expired_results + length e.player_ids })
    else if any_known s.entries e.player_ids
    then (s, record report { dropped = suc report.dropped })
    else (
      record s { entries = emplace_all (restored_match e) e.player_ids s.entries },
      record report { matched = report.matched + length e.player_ids },
    )

unfoldable pub restore_matches :
    ℤ → List MatchQueueEntry → MatchQueue × MatchRestoreReport → MatchQueue × MatchRestoreReport
unfolding restore_match
restore_matches now [] at = at
restore_matches now (e ∷ es) at = restore_matches now es (restore_match now e at)

-- `Restore` from the loop over the rows to before the last sweep.
unfoldable pub refill :
    ℤ → List MatchQueueSnapshotRow → MatchQueue → MatchQueue × MatchRestoreReport
unfolding restore_players restore_matches sort_by_time good_entries count_bad
refill now rows s = restore_matches now (good_entries false rows) (
    restore_players now (sort_by_time (good_entries true rows))
      (s, record empty_report { scanned = length rows; dropped = count_bad rows }))

-- MatchQueue::Restore. No rows stand for a store that cannot be read.
unfoldable pub restore_queue :
    ℤ → Option (List MatchQueueSnapshotRow) → MatchQueue → MatchQueue × MatchRestoreReport
unfolding refill sweep
restore_queue now loaded s =
    if s.has_store
    then elim loaded [
      | none ↦ (s, record empty_report { load_failed = true })
      | some rows ↦ ((sweep now (refill now rows s).0).0, (refill now rows s).1)
    ]
    else (s, empty_report)

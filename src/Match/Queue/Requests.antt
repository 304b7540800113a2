-- ===== src/Match/Queue/Requests.antt =====
-- src/match/match_queue.cpp: the sweep of overdue players and results, and the locked blocks of
-- `Enqueue` and `Cancel`.
use realtime_game_backend.Base.{
  Bool, true, false, List, [], ◌∷◌, ◌++◌, some, none, ◌&&◌, ◌||◌, if◌then◌else◌, negate, length,
  leb,
}
use realtime_game_backend.Base.Int.{ℤ, leb_ℤ, ◌-ℤ◌}
use realtime_game_backend.Base.Bytes.{Bytes, is_empty}
use realtime_game_backend.Base.Dict.{Dict, find, erase, emplace, update, retain}
use realtime_game_backend.Match.Queue.State.{
  MatchQueue, Entry, MatchState, EnqueueOutcome, is_queued, is_matched, is_timeout, queued_entry,
  remove_from_queue,
}

-- The test of the first loop of `SweepLocked`, on a player of the queue.
unfoldable pub is_overdue : ℤ → MatchQueue → Bytes → Bool
unfolding find ◌-ℤ◌
is_overdue now s id = elim (find id s.entries) [
  | none ↦ true
  | some e ↦ negate (is_queued e.state) || leb_ℤ s.match_timeout_ms (now -ℤ e.queued_at_ms)
]

unfoldable pub overdue_players : ℤ → MatchQueue → List Bytes → List Bytes
unfolding is_overdue
overdue_players now s [] = []
overdue_players now s (id ∷ q) =
    let rest = overdue_players now s q in if is_overdue now s id then id ∷ rest else rest

abbrev pub timed_out : ℤ → Entry → Entry
timed_out now e = record e { state = MatchState.timeout; stamp_ms = now }

-- The second loop of `SweepLocked`, over the players that the first one collects.
unfoldable pub time_out : ℤ → List Bytes → MatchQueue → MatchQueue
unfolding update remove_from_queue
time_out now [] s = s
time_out now (id ∷ ids) s = time_out now ids (record s {
  entries = update id (timed_out now) s.entries;
  queue = remove_from_queue id s.queue;
})

-- A result whose time to live is over.
unfoldable pub is_stale : ℤ → ℤ → Entry → Bool
unfolding ◌-ℤ◌
is_stale now ttl e = (is_matched e.state || is_timeout e.state) && leb_ℤ ttl (now -ℤ e.stamp_ms)

unfoldable pub any_stale : ℤ → ℤ → Dict Entry → Bool
unfolding is_stale
any_stale now ttl [] = false
any_stale now ttl ((id, e) ∷ m) = is_stale now ttl e || any_stale now ttl m

-- SweepLocked. The Boolean tells whether anything changed.
unfoldable pub sweep : ℤ → MatchQueue → MatchQueue × Bool
unfolding retain time_out any_stale overdue_players
sweep now s =
    let late = overdue_players now s s.queue in
    let t = time_out now late s in
    (
      record t { entries = retain (λ e. negate (is_stale now s.result_ttl_ms e)) t.entries },
      negate (is_empty late) || any_stale now s.result_ttl_ms t.entries,
    )

abbrev pub requeued : Bytes → ℤ → Entry → Entry
requeued request_id now e = record e {
  state = MatchState.queued;
  request_id = request_id;
  queued_at_ms = now;
  stamp_ms = now;
  allocating = false;
  cancel_requested = false;
}

-- The locked block of `Enqueue` after the sweep. The Boolean is `state_changed`, given whether the
-- sweep changed anything.
unfoldable pub admit_player :
    Bytes → Bytes → ℤ → Bool → MatchQueue → MatchQueue × (EnqueueOutcome × Bool)
unfolding update find emplace
admit_player id request_id now changed s = elim (find id s.entries) [
  | some e ↦
      if is_queued e.state || is_matched e.state
      then (s, (EnqueueOutcome.already_queued, changed))
      else if leb s.max_queue_size (length s.queue)
      then (s, (EnqueueOutcome.queue_full, changed))
      else (
        record s {
          entries = update id (requeued request_id now) s.entries;
          queue = s.queue ++ (id ∷ []);
        },
        (EnqueueOutcome.queued, true),
      )
  | none ↦
      if leb s.max_queue_size (length s.queue) then (s, (EnqueueOutcome.queue_full, changed)) else (
        record s {
          entries = emplace id (queued_entry request_id now) s.entries;
          queue = s.queue ++ (id ∷ []);
        },
        (EnqueueOutcome.queued, true),
      )
]

-- The locked block of `Enqueue`.
unfoldable pub enqueue_locked :
    Bytes → Bytes → ℤ → MatchQueue → MatchQueue × (EnqueueOutcome × Bool)
unfolding sweep admit_player
enqueue_locked id request_id now s =
    let (t, changed) = sweep now s in admit_player id request_id now changed t

abbrev pub cancelling : Entry → Entry
cancelling e = record e { cancel_requested = true }

-- The locked block of `Cancel` after the sweep: the state, `removed`, and `state_changed`.
unfoldable pub cancel_player : Bytes → Bool → MatchQueue → MatchQueue × (Bool × Bool)
unfolding update find erase remove_from_queue
cancel_player id changed s = elim (find id s.entries) [
  | none ↦ (s, (false, changed))
  | some e ↦
      if e.allocating
      then (record s { entries = update id cancelling s.entries }, (true, true))
      else if is_queued e.state
      then (
        record s { entries = erase id s.entries; queue = remove_from_queue id s.queue },
        (true, true),
      )
      else (s, (false, changed))
]

unfoldable pub cancel_locked : Bytes → ℤ → MatchQueue → MatchQueue × (Bool × Bool)
unfolding sweep cancel_player
cancel_locked id now s = let (t, changed) = sweep now s in cancel_player id changed t

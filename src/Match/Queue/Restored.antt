-- ===== src/Match/Queue/Restored.antt =====
-- MatchQueue::Restore of match_queue.cpp keeps the count of players, so a server may start from any
-- rows of the store.
use realtime_game_backend.Base.{
  ◌≡◌, inl, inr, ℕ, true, false, length, List, [], ◌∷◌, Option, some, none, arith, Bool-cases,
  Option-cases,
}
use realtime_game_backend.Base.Int.{ℤ, leb_ℤ, ◌-ℤ◌}
use realtime_game_backend.Base.Bytes.{Bytes, ==_iff}
use realtime_game_backend.Base.Dict.{Dict, find, find-emplace}
use realtime_game_backend.Match.Queue.State.{MatchQueue, Entry}
use realtime_game_backend.Match.Queue.Requests.{sweep}
use realtime_game_backend.Match.Queue.Saving.{MatchQueueEntry, MatchQueueSnapshotRow}
use realtime_game_backend.Match.Queue.Restart.{
  MatchRestoreReport, restore_player, restore_players, restored_match, emplace_all, restore_match,
  restore_matches, refill, restore_queue, any_known, empty_report, count_bad, good_entries,
  sort_by_time,
}
use realtime_game_backend.Match.Queue.Agree.{Agree, Agree-join}
use realtime_game_backend.Match.Queue.Kept.{sweep-Agree}

abbrev nobody : Bytes → ℕ
nobody j = 0

restore_player-Agree :
    (now : ℤ) (e : MatchQueueEntry) (x : MatchQueue × MatchRestoreReport)
    → Agree x.0.queue x.0.entries nobody
    → Agree (restore_player now e x).0.queue (restore_player now e x).0.entries nobody
unfolding restore_player
restore_player-Agree now e (s, report) a = elim (Option-cases (find e.player_id s.entries)) [
  | inr (x, known) ↦ rw (known, restore_player) a
  | inl new ↦ elim (Bool-cases (leb_ℤ s.match_timeout_ms (now -ℤ e.queued_at_ms))) [
    | inl late ↦ rw (new, restore_player, late) a
    | inr due ↦
        rw (new, restore_player, due)
          (Agree-join s.queue s.entries nobody e.player_id [] e.queued_at_ms new a)
  ]
]

restore_players-Agree :
    (now : ℤ) (es : List MatchQueueEntry) (x : MatchQueue × MatchRestoreReport)
    → Agree x.0.queue x.0.entries nobody
    → Agree (restore_players now es x).0.queue (restore_players now es x).0.entries nobody
unfolding restore_players
restore_players-Agree now [] x a = a
restore_players-Agree now (e ∷ es) x a =
    restore_players-Agree now es _ (restore_player-Agree now e x a)

emplace_all-Agree :
    (e : MatchQueueEntry) (ids : List Bytes) (q : List Bytes) (m : Dict Entry)
    → Agree q m nobody
    → Agree q (emplace_all (restored_match e) ids m) nobody
unfolding emplace_all
emplace_all-Agree e [] q m a = a
emplace_all-Agree e (id ∷ ids) q m a =
    emplace_all-Agree e ids q _
      (λ j. ground (arith, find-emplace id j (restored_match e) m, ==_iff id j, a j))

restore_match-Agree :
    (now : ℤ) (e : MatchQueueEntry) (x : MatchQueue × MatchRestoreReport)
    → Agree x.0.queue x.0.entries nobody
    → Agree (restore_match now e x).0.queue (restore_match now e x).0.entries nobody
unfolding restore_match
restore_match-Agree now e (s, report) a =
    elim (Bool-cases (leb_ℤ s.result_ttl_ms (now -ℤ e.stamp_ms))) [
      | inl late ↦ rw late a
      | inr due ↦ elim (Bool-cases (any_known s.entries e.player_ids)) [
        | inl known ↦ rw (due, known) a
        | inr new ↦ rw (due, new) (emplace_all-Agree e e.player_ids s.queue s.entries a)
      ]
    ]

restore_matches-Agree :
    (now : ℤ) (es : List MatchQueueEntry) (x : MatchQueue × MatchRestoreReport)
    → Agree x.0.queue x.0.entries nobody
    → Agree (restore_matches now es x).0.queue (restore_matches now es x).0.entries nobody
unfolding restore_matches
restore_matches-Agree now [] x a = a
restore_matches-Agree now (e ∷ es) x a =
    restore_matches-Agree now es _ (restore_match-Agree now e x a)

refill-Agree :
    (now : ℤ) (rows : List MatchQueueSnapshotRow) (s : MatchQueue)
    → Agree s.queue s.entries nobody
    → Agree (refill now rows s).0.queue (refill now rows s).0.entries nobody
unfolding refill
refill-Agree now rows s a =
    let first : MatchQueue × MatchRestoreReport =
      (s, record empty_report { scanned = length rows; dropped = count_bad rows }) in
    restore_matches-Agree now (good_entries false rows)
      (restore_players now (sort_by_time (good_entries true rows)) first)
      (restore_players-Agree now (sort_by_time (good_entries true rows)) first a)

restore_queue-refill :
    (now : ℤ) (rows : List MatchQueueSnapshotRow) (s : MatchQueue)
    → s.has_store ≡ true
    → restore_queue now (some rows) s ≡ ((sweep now (refill now rows s).0).0, (refill now rows s).1)
unfolding restore_queue
restore_queue-refill now rows s on = ground arith

pub restore_queue-Agree :
    (now : ℤ) (loaded : Option (List MatchQueueSnapshotRow)) (s : MatchQueue)
    → Agree s.queue s.entries nobody
    → Agree (restore_queue now loaded s).0.queue (restore_queue now loaded s).0.entries nobody
unfolding restore_queue
restore_queue-Agree now none s a = elim (Bool-cases s.has_store) [
  | inr off ↦ rw (off, restore_queue) a
  | inl on ↦ rw (on, restore_queue) a
]
restore_queue-Agree now (some rows) s a = elim (Bool-cases s.has_store) [
  | inr off ↦ rw (off, restore_queue) a
  | inl on ↦
      rw (restore_queue-refill now rows s on)
        (sweep-Agree nobody now (refill now rows s).0 (refill-Agree now rows s a))
]

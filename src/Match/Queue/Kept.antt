-- ===== src/Match/Queue/Kept.antt =====
-- The locked blocks of match_queue.cpp keep the count of players: sweep, enqueue, cancel, the taking
-- of groups and their commit.
use realtime_game_backend.Base.{
  ◌≡◌, refl, sym, inl, inr, ℕ, zero, suc, ◌+◌, ◌≤◌, Bool, true, List, [], ◌∷◌, ◌++◌, ◌||◌, arith,
  leb, length, Bool-cases, Option-cases, ap,
}
use realtime_game_backend.Base.Int.{ℤ}
use realtime_game_backend.Base.Bytes.{Bytes, ==_refl}
use realtime_game_backend.Base.Dict.{Dict, find}
use realtime_game_backend.Match.Queue.State.{MatchQueue, Entry, PendingGroup, is_queued, is_matched}
use realtime_game_backend.Match.Queue.Requests.{
  sweep, time_out, overdue_players, admit_player, enqueue_locked, cancel_player, cancel_locked,
}
use realtime_game_backend.Match.Queue.Pairing.{is_waiting, take_players, mark_allocating}
use realtime_game_backend.Match.Queue.Agree.{
  Agree, count, count-remove_from_queue, Agree-time_out, Agree-enter, Agree-join, Agree-cancelling,
  Agree-cancel, Agree-take, Agree-retain,
}

pub Agree-held :
    (q : List Bytes) (m : Dict Entry) (h h' : Bytes → ℕ)
    → ((j : Bytes) → h j ≡ h' j)
    → Agree q m h
    → Agree q m h'
Agree-held q m h h' same a = λ j. ((a j).0, rw (sym (same j)) ((a j).1), (a j).2)

count-overdue_players :
    (j : Bytes) (now : ℤ) (s : MatchQueue) (q : List Bytes)
    → count j (overdue_players now s q) ≤ count j q
unfolding overdue_players
count-overdue_players j now s [] = omega arith
count-overdue_players j now s (id ∷ q) = ground (arith, count-overdue_players j now s q)

module _ (held : Bytes → ℕ) where
  time_out-Agree :
      (now : ℤ) (ids : List Bytes) (s : MatchQueue)
      → ((j : Bytes) → count j ids ≤ count j s.queue)
      → Agree s.queue s.entries held
      → Agree (time_out now ids s).queue (time_out now ids s).entries held
  unfolding time_out
  time_out-Agree now [] s below a = a
  time_out-Agree now (id ∷ ids) s below a =
      time_out-Agree now ids _ (λ j. ground (arith, below j, count-remove_from_queue j id s.queue))
        (Agree-time_out s.queue s.entries held id now (ground (arith, below id, ==_refl id)) a)

  pub sweep-Agree :
      (now : ℤ) (s : MatchQueue)
      → Agree s.queue s.entries held
      → Agree (sweep now s).0.queue (sweep now s).0.entries held
  unfolding sweep
  sweep-Agree now s a = Agree-retain _ _ held now s.result_ttl_ms (
      time_out-Agree now (overdue_players now s s.queue) s
        (λ j. count-overdue_players j now s s.queue) a)

  admit_player-Agree :
      (id request_id : Bytes) (now : ℤ) (changed : Bool) (s : MatchQueue)
      → Agree s.queue s.entries held
      → Agree
          (admit_player id request_id now changed s).0.queue
          (admit_player id request_id now changed s).0.entries
          held
  unfolding admit_player
  admit_player-Agree id request_id now changed s a = elim (Option-cases (find id s.entries)) [
    | inl e ↦ elim (Bool-cases (leb s.max_queue_size (length s.queue))) [
      | inl full ↦ rw (e, admit_player, full) a
      | inr room ↦
          rw (e, admit_player, room) (Agree-join s.queue s.entries held id request_id now e a)
    ]
    | inr (x, e) ↦ elim (Bool-cases (is_queued x.state || is_matched x.state)) [
      | inl on ↦ rw (e, admit_player, on) a
      | inr off ↦ elim (Bool-cases (leb s.max_queue_size (length s.queue))) [
        | inl full ↦ rw (e, admit_player, off, full) a
        | inr room ↦
            rw (e, admit_player, off, room)
              (Agree-enter s.queue s.entries held id request_id now x e (ground arith) a)
      ]
    ]
  ]

  pub enqueue_locked-Agree :
      (id request_id : Bytes) (now : ℤ) (s : MatchQueue)
      → Agree s.queue s.entries held
      → Agree
          (enqueue_locked id request_id now s).0.queue
          (enqueue_locked id request_id now s).0.entries
          held
  unfolding enqueue_locked
  enqueue_locked-Agree id request_id now s a =
      admit_player-Agree id request_id now _ _ (sweep-Agree now s a)

  cancel_player-Agree :
      (id : Bytes) (changed : Bool) (s : MatchQueue)
      → Agree s.queue s.entries held
      → Agree (cancel_player id changed s).0.queue (cancel_player id changed s).0.entries held
  unfolding cancel_player
  cancel_player-Agree id changed s a = elim (Option-cases (find id s.entries)) [
    | inl e ↦ rw (e, cancel_player) a
    | inr (x, e) ↦ elim (Bool-cases x.allocating) [
      | inl busy ↦ rw (e, cancel_player, busy) (Agree-cancelling s.queue s.entries held id a)
      | inr free ↦ elim (Bool-cases (is_queued x.state)) [
        | inl on ↦
            rw (e, cancel_player, free, on) (Agree-cancel s.queue s.entries held id x e on free a)
        | inr off ↦ rw (e, cancel_player, free, off) a
      ]
    ]
  ]

  pub cancel_locked-Agree :
      (id : Bytes) (now : ℤ) (s : MatchQueue)
      → Agree s.queue s.entries held
      → Agree (cancel_locked id now s).0.queue (cancel_locked id now s).0.entries held
  unfolding cancel_locked
  cancel_locked-Agree id now s a = cancel_player-Agree id _ _ (sweep-Agree now s a)

-- Everybody in line is waiting, so the inner loop drops nobody.
pub take_players-split :
    (n : ℕ) (m : Dict Entry) (q : List Bytes)
    → ((j : Bytes) → 1 ≤ count j q → is_waiting m j ≡ true)
    → (take_players n m q).0 ++ (take_players n m q).1 ≡ q
unfolding take_players
take_players-split zero m q w = refl
take_players-split (suc n) m [] w = refl
take_players-split (suc n) m (id ∷ q) w =
    let here : is_waiting m id ≡ true = w id (ground (arith, ==_refl id)) in
    rw here (ap (λ l. id ∷ l) (take_players-split n m q (λ j h. w j (ground arith))))

pub Agree-is_waiting :
    (q : List Bytes) (m : Dict Entry) (held : Bytes → ℕ)
    → Agree q m held
    → (j : Bytes) → 1 ≤ count j q
    → is_waiting m j ≡ true
unfolding is_waiting
Agree-is_waiting q m held a j h = ground (arith, a j)

pub mark_allocating-Agree :
    (match_id : Bytes) (group ids r : List Bytes) (m : Dict Entry) (held : Bytes → ℕ)
    → Agree (ids ++ r) m held
    → Agree r (mark_allocating match_id group ids m) (λ j. count j ids + held j)
unfolding mark_allocating
mark_allocating-Agree match_id group [] r m held a = Agree-held r m _ _ (λ j. omega arith) a
mark_allocating-Agree match_id group (id ∷ ids) r m held a =
    Agree-held r _ _ _ (λ j. omega arith)
      (mark_allocating-Agree match_id group ids r _ _
        (Agree-take (ids ++ r) m held id match_id group a))

abbrev pub count_groups : Bytes → List PendingGroup → ℕ
count_groups j [] = 0
count_groups j (g ∷ gs) = count j g.player_ids + count_groups j gs

-- ===== src/Match/Queue/Agree.antt =====
-- The players of a match queue counted: who is in line, who is in a group whose room is being
-- allocated, and the entry that tells which. Each change of the queue is one of the moves below.
use realtime_game_backend.Base.{
  ◌≡◌, ℕ, ◌+◌, ◌-◌, ◌≤◌, Bool, true, false, List, [], ◌∷◌, ◌++◌, Option, some, none, ◌&&◌, arith,
  if◌then◌else◌, negate,
}
use realtime_game_backend.Base.Bytes.{Bytes, ◌==◌, ==_iff}
use realtime_game_backend.Base.Dict.{
  Dict, find, erase, emplace, update, retain, find-erase, find-emplace, find-update, find-retain,
}
use realtime_game_backend.Base.Int.{ℤ}
use realtime_game_backend.Match.Queue.State.{Entry, is_queued, remove_from_queue, queued_entry}
use realtime_game_backend.Match.Queue.Requests.{timed_out, requeued, cancelling, is_stale}
use realtime_game_backend.Match.Queue.Pairing.{allocated, matched_entry, released}

abbrev pub tally : Bool → ℕ
tally b = if b then 1 else 0

abbrev pub count : Bytes → List Bytes → ℕ
count j [] = 0
count j (id ∷ ids) = tally (id == j) + count j ids

-- An entry of a player in line, and of one whose room is being allocated.
abbrev pub waiting : Option Entry → ℕ
waiting o = elim o [ none ↦ 0 | some e ↦ tally (is_queued e.state && negate e.allocating) ]

abbrev pub reserved : Option Entry → ℕ
reserved o = elim o [ none ↦ 0 | some e ↦ tally (is_queued e.state && e.allocating) ]

-- Only queued entries are marked as being allocated.
abbrev pub is_coherent : Option Entry → Bool
is_coherent o = elim o [ none ↦ true | some e ↦ if e.allocating then is_queued e.state else true ]

-- The queue and the groups name each player as often as the entry says: at most once, in one of them.
abbrev pub Agree : List Bytes → Dict Entry → (Bytes → ℕ) → Type 0
Agree q m held =
    (j : Bytes)
    → (count j q ≡ waiting (find j m))
      × (held j ≡ reserved (find j m))
      × (is_coherent (find j m) ≡ true)

pub count-append : (j : Bytes) (a b : List Bytes) → count j (a ++ b) ≡ count j a + count j b
count-append j [] b = omega arith
count-append j (id ∷ a) b = omega (arith, count-append j a b)

pub count-remove_from_queue :
    (j id : Bytes) (q : List Bytes)
    → count j (remove_from_queue id q) ≡ (if id == j then count j q - 1 else count j q)
unfolding remove_from_queue
count-remove_from_queue j id [] = ground arith
count-remove_from_queue j id (i ∷ q) =
    ground (arith, count-remove_from_queue j id q, ==_iff i id, ==_iff i j, ==_iff id j)

module _ (q : List Bytes) (m : Dict Entry) (held : Bytes → ℕ) (id : Bytes) where
  -- A player in line is out of time.
  pub Agree-time_out :
      (now : ℤ)
      → 1 ≤ count id q
      → Agree q m held
      → Agree (remove_from_queue id q) (update id (timed_out now) m) held
  Agree-time_out now there a = λ j.
      ground (
        arith,
        count-remove_from_queue j id q,
        find-update id j (timed_out now) m,
        ==_iff id j,
        a j,
      )

  -- A player with a result, or an old timeout, enters the line.
  pub Agree-enter :
      (request_id : Bytes) (now : ℤ) (e : Entry)
      → find id m ≡ some e
      → is_queued e.state ≡ false
      → Agree q m held
      → Agree (q ++ (id ∷ [])) (update id (requeued request_id now) m) held
  Agree-enter request_id now e h off a = λ j. ground (
    arith,
    count-append j q (id ∷ []),
    find-update id j (requeued request_id now) m,
    ==_iff id j,
    a j,
    h,
    off,
  )

  -- A new player enters the line.
  pub Agree-join :
      (request_id : Bytes) (now : ℤ)
      → find id m ≡ none
      → Agree q m held
      → Agree (q ++ (id ∷ [])) (emplace id (queued_entry request_id now) m) held
  Agree-join request_id now h a = λ j. ground (
    arith,
    count-append j q (id ∷ []),
    find-emplace id j (queued_entry request_id now) m,
    ==_iff id j,
    a j,
    h,
  )

  -- The wish to cancel is noted.
  pub Agree-cancelling : Agree q m held → Agree q (update id cancelling m) held
  Agree-cancelling a = λ j. ground (arith, find-update id j cancelling m, ==_iff id j, a j)

  -- A player in line cancels.
  pub Agree-cancel :
      (e : Entry)
      → find id m ≡ some e
      → is_queued e.state ≡ true
      → e.allocating ≡ false
      → Agree q m held
      → Agree (remove_from_queue id q) (erase id m) held
  Agree-cancel e h on free a = λ j.
      ground
        (arith, count-remove_from_queue j id q, find-erase id j m, ==_iff id j, a j, h, on, free)

  -- The first player in line joins a group.
  pub Agree-take :
      (match_id : Bytes) (group : List Bytes)
      → Agree (id ∷ q) m held
      → Agree q (update id (allocated match_id group) m) (λ j. tally (id == j) + held j)
  Agree-take match_id group a =
      λ j. ground (arith, find-update id j (allocated match_id group) m, ==_iff id j, a j)

  -- A player of a group gets its result.
  pub Agree-match :
      (room_id : Bytes) (ids : List Bytes) (now : ℤ)
      → Agree q m (λ j. tally (id == j) + held j)
      → Agree q (update id (matched_entry room_id ids now) m) held
  Agree-match room_id ids now a =
      λ j. ground (arith, find-update id j (matched_entry room_id ids now) m, ==_iff id j, a j)

  -- A player of a group that fails has cancelled.
  pub Agree-drop : Agree q m (λ j. tally (id == j) + held j) → Agree q (erase id m) held
  Agree-drop a = λ j. ground (arith, find-erase id j m, ==_iff id j, a j)

  -- A player of a group that fails is put back in front.
  pub Agree-release :
      Agree q m (λ j. tally (id == j) + held j) → Agree (id ∷ q) (update id released m) held
  Agree-release a = λ j. ground (arith, find-update id j released m, ==_iff id j, a j)

-- Results go away.
pub Agree-retain :
    (q : List Bytes) (m : Dict Entry) (held : Bytes → ℕ) (now ttl : ℤ)
    → Agree q m held
    → Agree q (retain (λ e. negate (is_stale now ttl e)) m) held
unfolding is_stale
Agree-retain q m held now ttl a =
    λ j. ground (arith, find-retain j (λ e. negate (is_stale now ttl e)) m, a j)

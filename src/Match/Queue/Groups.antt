-- ===== src/Match/Queue/Groups.antt =====
-- TakePairGroupsLocked and CommitGroupLocked of match_queue.cpp keep the count of players: a group
-- that is taken holds its players until it is committed.
use realtime_game_backend.Base.{
  ◌≡◌, ◌≢◌, sym, inl, inr, ℕ, zero, suc, ◌+◌, true, false, List, [], ◌∷◌, ◌++◌, some, none, ◌&&◌,
  arith, negate, leb, ltb, length, Bool-cases, Option-cases, &&-parts, subst,
}
use realtime_game_backend.Base.Int.{ℤ}
use realtime_game_backend.Base.Bytes.{Bytes, ◌==◌, ==_iff, ==_refl, is_empty}
use realtime_game_backend.Base.Dict.{Dict, find}
use realtime_game_backend.Match.Queue.State.{MatchQueue, Entry, PendingGroup, players_per_match}
use realtime_game_backend.Match.Queue.Pairing.{
  take_players, take_groups, take_pair_groups, members, match_all, erase_all, requeue_all,
  commit_group, matched_entry,
}
use realtime_game_backend.Match.Queue.Agree.{
  Agree, count, tally, Agree-match, Agree-drop, Agree-release,
}
use realtime_game_backend.Match.Queue.Kept.{
  Agree-held, count_groups, take_players-split, Agree-is_waiting, mark_allocating-Agree,
}

take_groups-Agree :
    (n : ℕ) (fresh : ℕ → Bytes) (i : ℕ) (s : MatchQueue) (held : Bytes → ℕ)
    → Agree s.queue s.entries held
    → Agree
        (take_groups n fresh i s).0.queue
        (take_groups n fresh i s).0.entries
        (λ j. count_groups j (take_groups n fresh i s).1 + held j)
unfolding take_groups
take_groups-Agree zero fresh i s held a = Agree-held _ _ _ _ (λ j. omega arith) a
take_groups-Agree (suc n) fresh i s held a =
    let group = (take_players players_per_match s.entries s.queue).0 in
    let left = (take_players players_per_match s.entries s.queue).1 in
    let split : group ++ left ≡ s.queue =
      take_players-split 2 s.entries s.queue (Agree-is_waiting s.queue s.entries held a) in
    let a' : Agree (group ++ left) s.entries held =
      subst (λ q. Agree q s.entries held) (sym split) a in
    let plain : Agree s.queue s.entries (λ j. 0 + held j) =
      Agree-held _ _ _ _ (λ j. omega arith) a in
    let back : Agree (group ++ left) s.entries (λ j. 0 + held j) =
      Agree-held _ _ _ _ (λ j. omega arith) a' in
    elim (Bool-cases (leb players_per_match (length s.queue))) [
      | inr few ↦ rw few plain
      | inl many ↦ elim (Bool-cases (ltb (length group) players_per_match)) [
        | inl short ↦ rw (many, short) back
        | inr pair ↦ elim (Bool-cases (is_empty (fresh i))) [
          | inl unnamed ↦ rw (many, pair, unnamed) back
          | inr named ↦
              rw (many, pair, named)
                (Agree-held _ _ _ _ (λ j. omega arith)
                  (take_groups-Agree n fresh (suc i) _ _
                    (mark_allocating-Agree (fresh i) group group left s.entries held a')))
        ]
      ]
    ]

pub take_pair_groups-Agree :
    (fresh : ℕ → Bytes) (s : MatchQueue) (held : Bytes → ℕ)
    → Agree s.queue s.entries held
    → Agree
        (take_pair_groups fresh s).0.queue
        (take_pair_groups fresh s).0.entries
        (λ j. count_groups j (take_pair_groups fresh s).1 + held j)
unfolding take_pair_groups
take_pair_groups-Agree fresh s held a = take_groups-Agree _ fresh 0 s held a

module _ (held : Bytes → ℕ) where
  match_all-Agree :
      (room_id : Bytes) (all ids : List Bytes) (now : ℤ) (q : List Bytes) (m : Dict Entry)
      → Agree q m (λ j. count j ids + held j)
      → Agree q (match_all (matched_entry room_id all now) ids m) held
  unfolding match_all
  match_all-Agree room_id all [] now q m a = Agree-held q m _ _ (λ j. omega arith) a
  match_all-Agree room_id all (id ∷ ids) now q m a =
      match_all-Agree room_id all ids now q _
        (Agree-match q m _ id room_id all now (Agree-held q m _ _ (λ j. omega arith) a))

pub erase_all-Agree :
    (ids : List Bytes) (q : List Bytes) (m : Dict Entry) (held : Bytes → ℕ)
    → Agree q m (λ j. count j ids + held j)
    → Agree q (erase_all ids m) held
unfolding erase_all
erase_all-Agree [] q m held a = Agree-held q m _ _ (λ j. omega arith) a
erase_all-Agree (id ∷ ids) q m held a =
    erase_all-Agree ids q _ held (Agree-drop q m _ id (Agree-held q m _ _ (λ j. omega arith) a))

-- A player that is held has an entry.
pub Agree-found :
    (q : List Bytes) (m : Dict Entry) (held : Bytes → ℕ) (id : Bytes)
    → Agree q m (λ j. tally (id == j) + held j)
    → find id m ≢ none
Agree-found q m held id a e = ground (arith, a id, ==_refl id)

pub requeue_all-Agree :
    (ids : List Bytes) (s : MatchQueue) (held : Bytes → ℕ)
    → Agree s.queue s.entries (λ j. count j ids + held j)
    → Agree (requeue_all ids s).queue (requeue_all ids s).entries held
unfolding requeue_all
requeue_all-Agree [] s held a = Agree-held _ _ _ _ (λ j. omega arith) a
requeue_all-Agree (id ∷ ids) s held a =
    let b =
      requeue_all-Agree ids s (λ j. tally (id == j) + held j)
        (Agree-held _ _ _ _ (λ j. omega arith) a) in
    elim (Option-cases (find id (requeue_all ids s).entries)) [
      | inl e ↦ absurd (Agree-found _ _ held id b e)
      | inr (x, e) ↦ rw (e, requeue_all) (Agree-release _ _ held id b)
    ]

-- Each member of a group is on one of the two lists.
count-members :
    (j : Bytes) (m : Dict Entry) (ids : List Bytes)
    → count j (members true m ids) + count j (members false m ids)
      ≡ (elim (find j m) [ none ↦ 0 | some e ↦ count j ids ])
unfolding members
count-members j m [] = ground arith
count-members j m (id ∷ ids) = ground (arith, count-members j m ids, ==_iff id j)

pub Agree-members :
    (q : List Bytes) (m : Dict Entry) (held : Bytes → ℕ) (ids : List Bytes)
    → Agree q m (λ j. count j ids + held j)
    → Agree q m (λ j. count j (members true m ids) + (count j (members false m ids) + held j))
Agree-members q m held ids a =
    Agree-held q m _ _ (λ j. ground (arith, count-members j m ids, a j)) a

count-none : (j : Bytes) (ids : List Bytes) (n : ℕ) → is_empty ids ≡ true → count j ids + n ≡ n
count-none j [] n e = omega arith
count-none j (id ∷ ids) n e = ground arith

pub commit_group-Agree :
    (g : PendingGroup) (room_id : Bytes) (now : ℤ) (s : MatchQueue) (held : Bytes → ℕ)
    → Agree s.queue s.entries (λ j. count j g.player_ids + held j)
    → Agree (commit_group g room_id now s).queue (commit_group g room_id now s).entries held
unfolding commit_group
commit_group-Agree g room_id now s held a =
    let b = Agree-members s.queue s.entries held g.player_ids a in
    elim (Bool-cases
      (negate (is_empty room_id) && is_empty (members true s.entries g.player_ids))) [
        | inl viable ↦ rw viable (
            match_all-Agree held room_id g.player_ids _ now s.queue s.entries (
              Agree-held s.queue s.entries
                (λ j.
                  count j (members true s.entries g.player_ids)
                  + (count j (members false s.entries g.player_ids) + held j))
                (λ j. count j (members false s.entries g.player_ids) + held j)
                (λ j. count-none j (members true s.entries g.player_ids) _ (&&-parts _ _ viable).1)
                b))
        | inr fails ↦
            rw fails (requeue_all-Agree _ _ held (erase_all-Agree _ s.queue s.entries _ b))
      ]

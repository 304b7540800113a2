-- ===== src/Match/Queue/Guarantees.antt =====
-- What the match queue of match_queue.cpp promises to the players, in every state that concurrent
-- calls lead to.
use realtime_game_backend.Base.{
  ◌≡◌, refl, inl, inr, ℕ, ◌+◌, ◌≤◌, ◌<◌, true, false, List, [], ◌∷◌, ◌++◌, ◌&&◌, arith, length,
  Option-cases, All, negate,
}
use realtime_game_backend.Base.Int.{ℤ}
use realtime_game_backend.Base.Bytes.{Bytes, is_empty}
use realtime_game_backend.Base.Dict.{find}
use realtime_game_backend.Match.Queue.State.{
  MatchQueue, MatchState, PendingGroup, players_per_match, status_of,
}
use realtime_game_backend.Match.Queue.Pairing.{take_pair_groups, members, commit_group}
use realtime_game_backend.Match.Queue.Agree.{Agree, count}
use realtime_game_backend.Match.Queue.Kept.{Agree-held, count_groups}
use realtime_game_backend.Match.Queue.Order.{
  players_of, IsPair, take_pair_groups-order, commit_group-queue, members-all, find-match_all,
}
use realtime_game_backend.Match.Queue.System.{
  Boot, booted, booted-Consistent, at, QueueReach, Consistent-QueueReach, count_groups-append,
}

-- The server after its start `b` and any calls, with the groups that are taken and not committed.
abbrev pub Running : Boot → MatchQueue → List PendingGroup → Type 0
Running b s groups = QueueReach (at (booted b) []) (at s groups)

module _ (b : Boot) where
  Running-Agree :
      (s : MatchQueue) (groups : List PendingGroup)
      → Running b s groups
      → Agree s.queue s.entries (λ j. count_groups j groups)
  Running-Agree s groups path = Consistent-QueueReach path (booted-Consistent b)

  Running-Agree_split :
      (s : MatchQueue) (before after : List PendingGroup) (g : PendingGroup)
      → Running b s (before ++ (g ∷ after))
      → Agree s.queue s.entries (λ j. count j g.player_ids + count_groups j (before ++ after))
  Running-Agree_split s before after g path =
      Agree-held s.queue s.entries _ _
        (λ j.
          omega
            (arith, count_groups-append j before (g ∷ after), count_groups-append j before after))
        (Running-Agree s (before ++ (g ∷ after)) path)

-- Taking groups keeps first come, first served: the groups, read in order, and then the new line are
-- the old line; and each group is two players with a match id that is not empty.
pub Running-first_come :
    (b : Boot) (s : MatchQueue) (groups : List PendingGroup) (fresh : ℕ → Bytes)
    → Running b s groups
    → (players_of (take_pair_groups fresh s).1 ++ (take_pair_groups fresh s).0.queue ≡ s.queue)
      × All IsPair (take_pair_groups fresh s).1
Running-first_come b s groups fresh path =
    let (order, pairs, rest) = take_pair_groups-order fresh s _ (Running-Agree b s groups path) in
    (order, pairs)

-- If the factory returns no empty match id, then fewer than two players are left in line after taking
-- groups: the loop stops for no other reason.
pub Running-all_paired :
    (b : Boot) (s : MatchQueue) (groups : List PendingGroup) (fresh : ℕ → Bytes)
    → Running b s groups
    → ((i : ℕ) → is_empty (fresh i) ≡ false)
    → length (take_pair_groups fresh s).0.queue < players_per_match
Running-all_paired b s groups fresh path names =
    (take_pair_groups-order fresh s _ (Running-Agree b s groups path)).2 names

-- If a room was allocated for a group and nobody of it has asked to cancel since, then after the
-- commit every player of the group sees the state matched, that room, and all players of the group.
pub Running-matched :
    (b : Boot) (s : MatchQueue) (before after : List PendingGroup) (g : PendingGroup)
    (room_id : Bytes) (now : ℤ) (id : Bytes)
    → Running b s (before ++ (g ∷ after))
    → is_empty room_id ≡ false
    → is_empty (members true s.entries g.player_ids) ≡ true
    → 1 ≤ count id g.player_ids
    → ((status_of id (commit_group g room_id now s)).state ≡ MatchState.matched)
      × ((status_of id (commit_group g room_id now s)).room_id ≡ room_id)
      × ((status_of id (commit_group g room_id now s)).player_ids ≡ g.player_ids)
unfolding status_of commit_group
Running-matched b s before after g room_id now id path room all_in there =
    let a = Running-Agree_split b s before after g path in
    let all = members-all s.queue s.entries _ g.player_ids a all_in in
    let viable : (negate (is_empty room_id) && is_empty (members true s.entries g.player_ids))
        ≡ true =
      ground (arith, room, all_in) in
    elim (Option-cases (find id s.entries)) [
      | inl e ↦ absurd (ground (arith, a id, e, there))
      | inr (x, e) ↦
          let entry =
            find-match_all id room_id g.player_ids g.player_ids now s.entries x e (inl there) in
          rw (viable, all, status_of, entry) (refl, refl, refl)
    ]

-- If no room was allocated, the players of the group who did not cancel are back in front of the line
-- in their old order, and the next request of a status tries again.
pub Running-put_back :
    (b : Boot) (s : MatchQueue) (before after : List PendingGroup) (g : PendingGroup) (now : ℤ)
    → Running b s (before ++ (g ∷ after))
    → ((commit_group g [] now s).queue ≡ members false s.entries g.player_ids ++ s.queue)
      × ((commit_group g [] now s).retry_pairing ≡ true)
Running-put_back b s before after g now path =
    commit_group-queue g now s _ (Running-Agree_split b s before after g path)

-- ===== src/Match/Queue/Order.antt =====
-- First come, first served: what `TakePairGroupsLocked` of match_queue.cpp takes from the line and
-- what a failing `CommitGroupLocked` puts back.
use realtime_game_backend.Base.{
  ◌≡◌, refl, sym, ◌∙◌, ◌⊎◌, inl, inr, ℕ, zero, suc, ◌+◌, ◌≤◌, ◌<◌, true, false, List, [], ◌∷◌, ◌++◌,
  some, arith, leb, ltb, length, length-append, All, Bool-cases, Option-cases, subst, ap,
}
use realtime_game_backend.Base.Int.{ℤ}
use realtime_game_backend.Base.Bytes.{Bytes, ◌==◌, ==_refl, is_empty}
use realtime_game_backend.Base.Dict.{Dict, find, find-update}
use realtime_game_backend.Match.Queue.State.{MatchQueue, Entry, PendingGroup, players_per_match}
use realtime_game_backend.Match.Queue.Pairing.{
  is_waiting, take_players, take_groups, take_pair_groups, members, match_all, requeue_all,
  commit_group, matched_entry,
}
use realtime_game_backend.Match.Queue.Agree.{Agree, count, tally}
use realtime_game_backend.Match.Queue.Groups.{
  requeue_all-Agree, Agree-found, Agree-members, erase_all-Agree,
}
use realtime_game_backend.Match.Queue.Kept.{
  Agree-held, take_players-split, Agree-is_waiting, mark_allocating-Agree,
}

abbrev pub players_of : List PendingGroup → List Bytes
players_of [] = []
players_of (g ∷ gs) = g.player_ids ++ players_of gs

abbrev pub IsPair : PendingGroup → Type 0
IsPair g = (length g.player_ids ≡ players_per_match) × (is_empty g.match_id ≡ false)

++-assoc : (a b c : List Bytes) → (a ++ b) ++ c ≡ a ++ (b ++ c)
++-assoc [] b c = refl
++-assoc (x ∷ a) b c = ap (λ l. x ∷ l) (++-assoc a b c)

length-take_players :
    (n : ℕ) (m : Dict Entry) (q : List Bytes)
    → ((j : Bytes) → 1 ≤ count j q → is_waiting m j ≡ true)
    → n ≤ length q
    → length (take_players n m q).0 ≡ n
unfolding take_players
length-take_players zero m q w low = refl
length-take_players (suc n) m [] w low = omega arith
length-take_players (suc n) m (id ∷ q) w low =
    let here : is_waiting m id ≡ true = w id (ground (arith, ==_refl id)) in
    rw here (ap suc (length-take_players n m q (λ j h. w j (ground arith)) (omega arith)))

-- What a round of the loop does, and what it means for the whole: the groups stand in the order of the
-- line, each is a pair, and with match ids at hand fewer than two players stay.
abbrev Paired : (ℕ → Bytes) → ℕ → MatchQueue → MatchQueue × List PendingGroup → Type 0
Paired fresh n s r =
    (players_of r.1 ++ r.0.queue ≡ s.queue)
    × All IsPair r.1
    × (((i : ℕ) → is_empty (fresh i) ≡ false)
        → length s.queue ≤ n
        → length r.0.queue < players_per_match)

take_groups-Paired :
    (n : ℕ) (fresh : ℕ → Bytes) (i : ℕ) (s : MatchQueue) (held : Bytes → ℕ)
    → Agree s.queue s.entries held
    → Paired fresh n s (take_groups n fresh i s)
unfolding take_groups
take_groups-Paired zero fresh i s held a = (refl, tt, λ names low. omega arith)
take_groups-Paired (suc n) fresh i s held a =
    let group = (take_players players_per_match s.entries s.queue).0 in
    let left = (take_players players_per_match s.entries s.queue).1 in
    let waits = Agree-is_waiting s.queue s.entries held a in
    let split : group ++ left ≡ s.queue = take_players-split 2 s.entries s.queue waits in
    let size : length (group ++ left) ≡ length s.queue = ap length split in
    let a' : Agree (group ++ left) s.entries held =
      subst (λ q. Agree q s.entries held) (sym split) a in
    elim (Bool-cases (leb players_per_match (length s.queue))) [
      | inr few ↦ rw few (refl, tt, λ names low. ground arith)
      | inl many ↦
          let two : length group ≡ 2 =
            length-take_players 2 s.entries s.queue waits (ground arith) in
          let pair : ltb (length group) players_per_match ≡ false = ground arith in
          elim (Bool-cases (is_empty (fresh i))) [
            | inl unnamed ↦
                rw (many, pair, unnamed) (split, tt, λ names low. ground (arith, names i))
            | inr named ↦
                let (order, pairs, rest) =
                  take_groups-Paired n fresh (suc i) _ _
                    (mark_allocating-Agree (fresh i) group group left s.entries held a') in
                rw (many, pair, named)
                  (
                    ++-assoc group _ _ ∙ (ap (λ l. group ++ l) order ∙ split),
                    ((two, named), pairs),
                    λ names low. rest names (omega (arith, length-append group left)),
                  )
          ]
    ]

-- Taking groups keeps first come, first served: the groups, read in order, and then the new line are
-- the old line. Each group is a pair with a match id; and if the factory returns no empty id, fewer
-- than two players stay, so the bound on the rounds is enough.
pub take_pair_groups-order :
    (fresh : ℕ → Bytes) (s : MatchQueue) (held : Bytes → ℕ)
    → Agree s.queue s.entries held
    → (players_of (take_pair_groups fresh s).1 ++ (take_pair_groups fresh s).0.queue ≡ s.queue)
      × All IsPair (take_pair_groups fresh s).1
      × (((i : ℕ) → is_empty (fresh i) ≡ false)
          → length (take_pair_groups fresh s).0.queue < players_per_match)
unfolding take_pair_groups
take_pair_groups-order fresh s held a =
    let (order, pairs, rest) = take_groups-Paired (length s.queue) fresh 0 s held a in
    (order, pairs, λ names. rest names (omega arith))

requeue_all-queue :
    (ids : List Bytes) (s : MatchQueue) (held : Bytes → ℕ)
    → Agree s.queue s.entries (λ j. count j ids + held j)
    → ((requeue_all ids s).queue ≡ ids ++ s.queue)
      × ((requeue_all ids s).retry_pairing ≡ s.retry_pairing)
unfolding requeue_all
requeue_all-queue [] s held a = (refl, refl)
requeue_all-queue (id ∷ ids) s held a =
    let wider =
      Agree-held s.queue s.entries _ (λ j. count j ids + (tally (id == j) + held j))
        (λ j. omega arith) a in
    let b = requeue_all-Agree ids s (λ j. tally (id == j) + held j) wider in
    let (order, same) = requeue_all-queue ids s (λ j. tally (id == j) + held j) wider in
    elim (Option-cases (find id (requeue_all ids s).entries)) [
      | inl e ↦ absurd (Agree-found _ _ held id b e)
      | inr (x, e) ↦ rw (e, requeue_all) (ap (λ l. id ∷ l) order, same)
    ]

-- Nobody of a group wishes to cancel: all of them are to go back.
pub members-all :
    (q : List Bytes) (m : Dict Entry) (held : Bytes → ℕ) (ids : List Bytes)
    → Agree q m (λ j. count j ids + held j)
    → is_empty (members true m ids) ≡ true
    → members false m ids ≡ ids
unfolding members
members-all q m held [] a none_cancels = refl
members-all q m held (id ∷ ids) a none_cancels =
    let wider =
      Agree-held q m _ (λ j. count j ids + (tally (id == j) + held j)) (λ j. omega arith) a in
    let there =
      Agree-found q m (λ j. count j ids + held j) id (Agree-held q m _ _ (λ j. omega arith) a) in
    let tail : is_empty (members true m ids) ≡ true → members false m ids ≡ ids =
      members-all q m (λ j. tally (id == j) + held j) ids wider in
    ground (arith, tail, there, none_cancels)

-- The line after a group that fails, in a queue that agrees with its entries.
pub commit_group-queue :
    (g : PendingGroup) (now : ℤ) (s : MatchQueue) (held : Bytes → ℕ)
    → Agree s.queue s.entries (λ j. count j g.player_ids + held j)
    → ((commit_group g [] now s).queue ≡ members false s.entries g.player_ids ++ s.queue)
      × ((commit_group g [] now s).retry_pairing ≡ true)
unfolding commit_group
commit_group-queue g now s held a =
    requeue_all-queue _ _ held
      (erase_all-Agree _ s.queue s.entries _ (Agree-members s.queue s.entries held g.player_ids a))

-- An entry after a change of all entries on a list, where a second change changes nothing more.
pub find-match_all :
    (j : Bytes) (room_id : Bytes) (all ids : List Bytes) (now : ℤ) (m : Dict Entry) (e : Entry)
    → find j m ≡ some e
    → 1 ≤ count j ids ⊎ (e ≡ matched_entry room_id all now e)
    → find j (match_all (matched_entry room_id all now) ids m)
      ≡ some (matched_entry room_id all now e)
unfolding match_all
find-match_all j room_id all [] now m e h there = ground arith
find-match_all j room_id all (id ∷ ids) now m e h there =
    let f = matched_entry room_id all now in
    elim (Bool-cases (id == j)) [
      | inl hit ↦
          find-match_all j room_id all ids now _ (f e)
            (ground (arith, find-update id j f m, h, hit)) (inr refl)
      | inr miss ↦
          find-match_all j room_id all ids now _ e (ground (arith, find-update id j f m, h, miss))
            (ground (arith, there, miss))
    ]

-- ===== src/Match/Queue/Pairing.antt =====
-- src/match/match_queue.cpp: `TakePairGroupsLocked` and `CommitGroupLocked`, between which the room
-- is allocated without the lock. Call number `i` of the match id factory returns `fresh i`.
use realtime_game_backend.Base.{
  ℕ, zero, suc, Bool, true, false, List, [], ◌∷◌, ◌++◌, some, none, ◌&&◌, ◌||◌, if◌then◌else◌,
  negate, length, leb, ltb,
}
use realtime_game_backend.Base.Int.{ℤ}
use realtime_game_backend.Base.Bytes.{Bytes, is_empty}
use realtime_game_backend.Base.Dict.{Dict, find, erase, update}
use realtime_game_backend.Match.Queue.State.{
  MatchQueue, Entry, MatchState, PendingGroup, is_queued, players_per_match,
}

unfoldable pub is_waiting : Dict Entry → Bytes → Bool
unfolding find
is_waiting m id = elim (find id m) [ none ↦ false | some e ↦ is_queued e.state ]

-- The inner loop: up to `n` players from the front of the queue, and what is left of it. Players
-- without a queued entry are dropped.
unfoldable pub take_players : ℕ → Dict Entry → List Bytes → List Bytes × List Bytes
unfolding is_waiting
take_players zero m q = ([], q)
take_players (suc n) m [] = ([], [])
take_players (suc n) m (id ∷ q) =
    let taken = take_players n m q in
    let skipped = take_players (suc n) m q in
    if is_waiting m id then (id ∷ taken.0, taken.1) else skipped

abbrev pub allocated : Bytes → List Bytes → Entry → Entry
allocated match_id group e = record e { allocating = true; match_id = match_id; player_ids = group }

unfoldable pub mark_allocating : Bytes → List Bytes → List Bytes → Dict Entry → Dict Entry
unfolding update
mark_allocating match_id group [] m = m
mark_allocating match_id group (id ∷ ids) m =
    mark_allocating match_id group ids (update id (allocated match_id group) m)

-- The request id of the player at the head of a group.
unfoldable pub trace_of : Dict Entry → List Bytes → Bytes
unfolding find
trace_of m [] = []
trace_of m (id ∷ ids) = elim (find id m) [ none ↦ [] | some e ↦ e.request_id ]

-- The outer loop. The fuel is the length of the queue, of which each round takes two.
unfoldable pub take_groups : ℕ → (ℕ → Bytes) → ℕ → MatchQueue → MatchQueue × List PendingGroup
unfolding take_players mark_allocating trace_of
take_groups zero fresh i s = (s, [])
take_groups (suc fuel) fresh i s =
    let taken = take_players players_per_match s.entries s.queue in
    let group = taken.0 in
    let back : MatchQueue × List PendingGroup = (record s { queue = group ++ taken.1 }, []) in
    let next =
      take_groups fuel fresh (suc i)
        (record s { queue = taken.1; entries = mark_allocating (fresh i) group group s.entries }) in
    if leb players_per_match (length s.queue)
    then if ltb (length group) players_per_match
      then back
      else if is_empty (fresh i)
      then back
      else (
        next.0,
        record { match_id = fresh i; player_ids = group; request_id = trace_of s.entries group }
            ∷ next.1,
      )
    else (s, [])

-- TakePairGroupsLocked
unfoldable pub take_pair_groups : (ℕ → Bytes) → MatchQueue → MatchQueue × List PendingGroup
unfolding take_groups
take_pair_groups fresh s = take_groups (length s.queue) fresh 0 s

-- The members of a group that are still there, with and without a request to cancel.
unfoldable pub members : Bool → Dict Entry → List Bytes → List Bytes
unfolding find
members cancelled m [] = []
members cancelled m (id ∷ ids) =
    let rest = members cancelled m ids in
    elim (find id m) [
      | none ↦ rest
      | some e ↦
          if e.cancel_requested
          then (if cancelled then id ∷ rest else rest)
          else if cancelled
          then rest
          else id ∷ rest
    ]

abbrev pub matched_entry : Bytes → List Bytes → ℤ → Entry → Entry
matched_entry room_id ids now e = record e {
  state = MatchState.matched;
  allocating = false;
  room_id = room_id;
  player_ids = ids;
  stamp_ms = now;
}

unfoldable pub match_all : (Entry → Entry) → List Bytes → Dict Entry → Dict Entry
unfolding update
match_all f [] m = m
match_all f (id ∷ ids) m = match_all f ids (update id f m)

unfoldable pub erase_all : List Bytes → Dict Entry → Dict Entry
unfolding erase
erase_all [] m = m
erase_all (id ∷ ids) m = erase_all ids (erase id m)

abbrev pub released : Entry → Entry
released e = record e { allocating = false; match_id = []; player_ids = [] }

-- The loop that puts players back in front of the queue, the last one first.
unfoldable pub requeue_all : List Bytes → MatchQueue → MatchQueue
unfolding find update
requeue_all [] s = s
requeue_all (id ∷ ids) s =
    let t = requeue_all ids s in
    elim (find id t.entries) [
      | none ↦ t
      | some e ↦ record t { entries = update id released t.entries; queue = id ∷ t.queue }
    ]

-- CommitGroupLocked
unfoldable pub commit_group : PendingGroup → Bytes → ℤ → MatchQueue → MatchQueue
unfolding members match_all erase_all requeue_all
commit_group group room_id now s =
    let cancelled = members true s.entries group.player_ids in
    let requeue = members false s.entries group.player_ids in
    if negate (is_empty room_id) && is_empty cancelled
    then record s {
      entries = match_all (matched_entry room_id group.player_ids now) requeue s.entries;
    }
    else requeue_all requeue (record s {
      retry_pairing = is_empty room_id || s.retry_pairing;
      entries = erase_all cancelled s.entries;
    })

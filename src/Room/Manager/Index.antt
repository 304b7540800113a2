-- ===== src/Room/Manager/Index.antt =====
-- The two tables of room_manager.cpp belong together: every room stands under its own id, and the
-- match index leads from each match to its room and nowhere else.
use realtime_game_backend.Base.{
  ◌≡◌, refl, sym, ap, ◌∙◌, inl, inr, [], ◌∷◌, Bool, true, false, some, none, arith, ◌&&◌, ◌||◌,
  negate, if◌then◌else◌, Bool-cases, Option-cases,
}
use realtime_game_backend.Base.Int.{ℤ}
use realtime_game_backend.Base.Bytes.{Bytes, ◌==◌, ==_iff}
use realtime_game_backend.Base.Dict.{
  Dict, find, erase, emplace, retain, map_found, find-erase, find-emplace, find-retain, UniqueKeys,
  UniqueKeys-emplace, UniqueKeys-retain,
}
use realtime_game_backend.Room.Battle.State.{BattleRoom}
use realtime_game_backend.Room.Battle.Results.{is_expired}
use realtime_game_backend.Room.Manager.State.{
  RoomManager, empty_manager, reap_matches, reap_expired,
}

pub record IsIndexed (s : RoomManager) : Type 0 where
  pub unique : UniqueKeys s.rooms
  pub own_id : (id : Bytes) (r : BattleRoom) → find id s.rooms ≡ some r → r.room_id ≡ id
  pub indexed :
      (id : Bytes) (r : BattleRoom)
      → find id s.rooms ≡ some r
      → find r.match_id s.match_index ≡ some id
  pub backed :
      (m id : Bytes)
      → find m s.match_index ≡ some id
      → (r : BattleRoom) × (find id s.rooms ≡ some r) × (r.match_id ≡ m)

pub IsIndexed-empty : IsIndexed empty_manager
unfolding find
IsIndexed-empty = record {
  unique = tt;
  own_id = λ id r e. cc;
  indexed = λ id r e. cc;
  backed = λ m id e. cc;
}

-- Whether the loop that reaps expired rooms meets an expired room of the match.
reaped : ℤ → Bytes → Dict BattleRoom → Bool
reaped now m [] = false
reaped now m ((k, r) ∷ rest) = (is_expired now r && (r.match_id == m)) || reaped now m rest

find-reap_matches {ℓ} :
    {V : Type ℓ} (now : ℤ) (rooms : Dict BattleRoom) (d : Dict V) (m : Bytes)
    → find m (reap_matches now rooms d) ≡ (if reaped now m rooms then none else find m d)
unfolding reap_matches reaped
find-reap_matches now [] d m = refl
find-reap_matches now ((k, r) ∷ rest) d m = elim (Bool-cases (is_expired now r)) [
  | inl old ↦
      rw old (
        ground
          (arith, find-reap_matches now rest (erase r.match_id d) m, find-erase r.match_id m d))
  | inr young ↦ rw young (find-reap_matches now rest d m)
]

reaped_of_find :
    (now : ℤ) (rooms : Dict BattleRoom) (id : Bytes) (r : BattleRoom)
    → find id rooms ≡ some r
    → is_expired now r ≡ true
    → reaped now r.match_id rooms ≡ true
unfolding reaped find
reaped_of_find now [] id r e x = cc
reaped_of_find now ((k, q) ∷ rest) id r e x =
    ground (arith, reaped_of_find now rest id r, ==_iff r.match_id r.match_id)

-- The expired room of a match that the loop meets.
abbrev Culprit : ℤ → Bytes → Dict BattleRoom → Type 0
Culprit now m rooms =
    (id : Bytes) × (r : BattleRoom) × (find id rooms ≡ some r)
    × (is_expired now r ≡ true)
    × (r.match_id ≡ m)

find_of_reaped :
    (now : ℤ) (m : Bytes) (rooms : Dict BattleRoom)
    → UniqueKeys rooms
    → reaped now m rooms ≡ true
    → Culprit now m rooms
unfolding reaped find
find_of_reaped now m [] u e = cc
find_of_reaped now m ((k, q) ∷ rest) u e =
    elim (Bool-cases (is_expired now q && (q.match_id == m))) [
      | inl here ↦
          (k, q, ground (arith, ==_iff k k), ground arith, ground (arith, ==_iff q.match_id m))
      | inr later ↦ deeper (find_of_reaped now m rest u.1 (rw later at e))
    ]
  where
    deeper : Culprit now m rest → Culprit now m ((k, q) ∷ rest)
    deeper (id, r, f, x, g) = (id, r, ground (arith, ==_iff k id, u.0), x, g)

not_reaped :
    (now : ℤ) (s : RoomManager) (id : Bytes) (r : BattleRoom)
    → IsIndexed s
    → find id s.rooms ≡ some r
    → is_expired now r ≡ false
    → reaped now r.match_id s.rooms ≡ false
not_reaped now s id r v e x = elim (Bool-cases (reaped now r.match_id s.rooms)) [
  | inl hit ↦
      let (id', r', f, y, g) = find_of_reaped now r.match_id s.rooms v.unique hit in
      absurd (ground (arith, v.indexed id r e, v.indexed id' r' f))
  | inr miss ↦ miss
]

pub kept :
    (now : ℤ) (rooms : Dict BattleRoom) (id : Bytes) (r : BattleRoom)
    → find id (retain (λ q. negate (is_expired now q)) rooms) ≡ some r
    → (find id rooms ≡ some r) × (is_expired now r ≡ false)
kept now rooms id r e =
    ground (arith, find-retain id (λ (q : BattleRoom). negate (is_expired now q)) rooms)

still_there :
    (now : ℤ) (rooms : Dict BattleRoom) (id : Bytes) (r : BattleRoom)
    → find id rooms ≡ some r
    → is_expired now r ≡ false
    → find id (retain (λ q. negate (is_expired now q)) rooms) ≡ some r
still_there now rooms id r e x =
    ground (arith, find-retain id (λ (q : BattleRoom). negate (is_expired now q)) rooms)

still_indexed :
    (now : ℤ) (s : RoomManager) (m id : Bytes)
    → find m (reap_matches now s.rooms s.match_index) ≡ some id
    → (find m s.match_index ≡ some id) × (reaped now m s.rooms ≡ false)
still_indexed now s m id e = ground (arith, find-reap_matches now s.rooms s.match_index m)

-- Reaping the expired rooms leaves both tables in step.
pub reap_expired-IsIndexed :
    (now : ℤ) (s : RoomManager) → IsIndexed s → IsIndexed (reap_expired now s)
unfolding reap_expired
reap_expired-IsIndexed now s v = record {
  unique = UniqueKeys-retain _ s.rooms v.unique;
  own_id = λ id r e. v.own_id id r (kept now s.rooms id r e).0;
  indexed = λ id r e.
      let (f, x) = kept now s.rooms id r e in
      rw (find-reap_matches now s.rooms s.match_index r.match_id, not_reaped now s id r v f x)
        (v.indexed id r f);
  backed = λ m id e.
      let (f, x) = still_indexed now s m id e in
      let (r, g, k) = v.backed m id f in
      (r, still_there now s.rooms id r g (young m r id g k x), k);
}
  where
    young :
        (m : Bytes) (r : BattleRoom) (id : Bytes)
        → find id s.rooms ≡ some r
        → r.match_id ≡ m
        → reaped now m s.rooms ≡ false
        → is_expired now r ≡ false
    young m r id g k x = ground (arith, reaped_of_find now s.rooms id r g)

-- Changing rooms in place, their ids apart, leaves both tables in step.
pub IsIndexed-map :
    (s t : RoomManager) (change : Bytes → BattleRoom → BattleRoom)
    → ((id : Bytes) (r : BattleRoom)
        → ((change id r).room_id ≡ r.room_id) × ((change id r).match_id ≡ r.match_id))
    → ((id : Bytes) → find id t.rooms ≡ map_found (change id) (find id s.rooms))
    → t.match_index ≡ s.match_index
    → UniqueKeys t.rooms
    → IsIndexed s
    → IsIndexed t
IsIndexed-map s t change keeps moved same unique v = record {
  unique = unique;
  own_id = λ id r e. let (q, f, g) = before id r e in ground (arith, v.own_id id q f, keeps id q);
  indexed = λ id r e. let (q, f, g) = before id r e in ground (arith, v.indexed id q f, keeps id q);
  backed = λ m id e.
      let (q, f, g) = v.backed m id (ap (find m) (sym same) ∙ e) in
      (change id q, moved id ∙ ap (map_found (change id)) f, (keeps id q).1 ∙ g);
}
  where
    before :
        (id : Bytes) (r : BattleRoom)
        → find id t.rooms ≡ some r
        → (q : BattleRoom) × (find id s.rooms ≡ some q) × (change id q ≡ r)
    before id r e = elim (Option-cases (find id s.rooms)) [
      | inl f ↦ absurd (ground (arith, moved id))
      | inr (q, f) ↦ (q, f, ground (arith, moved id))
    ]

-- A new room under an id and a match that are not in the tables.
pub IsIndexed-create :
    (s : RoomManager) (match_id : Bytes) (fresh : Bytes) (room : BattleRoom)
    → find fresh s.rooms ≡ none
    → find match_id s.match_index ≡ none
    → room.room_id ≡ fresh
    → room.match_id ≡ match_id
    → IsIndexed s
    → IsIndexed (record s {
      rooms = emplace fresh room s.rooms;
      match_index = emplace match_id fresh s.match_index;
    })
IsIndexed-create s match_id fresh room no_room no_match a b v = record {
  unique = UniqueKeys-emplace fresh room s.rooms v.unique;
  own_id =
      λ id r e. ground (arith, v.own_id id r, find-emplace fresh id room s.rooms, ==_iff fresh id);
  indexed = λ id r e. ground (
    arith,
    v.indexed id r,
    find-emplace fresh id room s.rooms,
    find-emplace match_id r.match_id fresh s.match_index,
    ==_iff fresh id,
    ==_iff match_id r.match_id,
  );
  backed = λ m id e. elim (Bool-cases (match_id == m)) [
    | inl hit ↦ (
      room,
      ground (
        arith,
        find-emplace fresh id room s.rooms,
        find-emplace match_id m fresh s.match_index,
        ==_iff fresh id,
      ),
      ground (arith, ==_iff match_id m),
    )
    | inr miss ↦
        let (r, g, k) =
          v.backed m id (ground (arith, find-emplace match_id m fresh s.match_index)) in
        (r, ground (arith, find-emplace fresh id room s.rooms, ==_iff fresh id), k)
  ];
}

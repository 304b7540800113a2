-- ===== src/Room/Manager/Safety.antt =====
-- What holds of the manager of room_manager.cpp after any interleaving of calls.
use realtime_game_backend.Base.{
  ◌≡◌, refl, sym, subst, ◌⊎◌, inl, inr, List, some, none, arith, Option-cases,
}
use realtime_game_backend.Base.Int.{ℤ}
use realtime_game_backend.Base.Bytes.{Bytes}
use realtime_game_backend.Base.Dict.{Dict, find, emplace, find-emplace}
use realtime_game_backend.Room.Battle.State.{BattleRoom, make_room, push_snapshot}
use realtime_game_backend.Room.Battle.Preserved.{Preserved}
use realtime_game_backend.Room.Manager.State.{
  RoomManager, empty_manager, create, create_known, create_new, reap_expired, begin_shutdown,
}
use realtime_game_backend.Room.Manager.Steps.{
  Step, Reach, here, later, creates, joins, submits, sets_presence, reaps, ticks, counts, settles,
  aborts, shuts_down,
}
use realtime_game_backend.Room.Manager.Moved.{
  Moved-same, join_room-Moved, submit_room_input-Moved, set_room_presence-Moved,
  settle_result-Moved, abort_locked-Moved, ticked-Moved, tick_locked-ticked,
}
use realtime_game_backend.Room.Manager.Index.{
  IsIndexed, IsIndexed-empty, reap_expired-IsIndexed, IsIndexed-create, kept,
}
use realtime_game_backend.Room.Manager.Invariant.{AllRooms, AllRooms-Moved, IsIndexed-Moved}

-- The state with a new room.
abbrev pub with_room : Bytes → List Bytes → ℤ → Bytes → RoomManager → RoomManager
with_room match_id ids now fresh s = record s {
  rooms = emplace fresh (make_room fresh match_id ids now) s.rooms;
  match_index = emplace match_id fresh s.match_index;
}

create_new_cases :
    (match_id : Bytes) (ids : List Bytes) (now : ℤ) (fresh : Bytes) (s : RoomManager)
    → ((create_new match_id ids now fresh s).0 ≡ s)
      ⊎ ((create_new match_id ids now fresh s).0 ≡ with_room match_id ids now fresh s)
unfolding create_new
create_new_cases match_id ids now fresh s = ground arith

-- A creation changes nothing, or adds a room for a match that has none.
pub create_cases :
    (match_id : Bytes) (ids : List Bytes) (now : ℤ) (fresh : Bytes) (s : RoomManager)
    → IsIndexed s
    → ((create match_id ids now fresh s).0 ≡ s)
      ⊎ ((find match_id s.match_index ≡ none)
          × ((create match_id ids now fresh s).0 ≡ with_room match_id ids now fresh s))
unfolding create create_known
create_cases match_id ids now fresh s v = elim (Option-cases (find match_id s.match_index)) [
  | inl e ↦ ground (arith, create_new_cases match_id ids now fresh s)
  | inr (id, e) ↦ let (r, f, g) = v.backed match_id id e in ground arith
]

pub Step-IsIndexed : {s t : RoomManager} → Step s t → IsIndexed s → IsIndexed t
unfolding make_room push_snapshot
Step-IsIndexed {s} (creates match_id ids now fresh new) v =
    elim (create_cases match_id ids now fresh s v) [
      | inl e ↦ subst IsIndexed (sym e) v
      | inr (e, f) ↦ subst IsIndexed (sym f) (IsIndexed-create s match_id fresh _ new e refl refl v)
    ]
Step-IsIndexed {s} (joins room id now) v = IsIndexed-Moved (join_room-Moved room id now s) v
Step-IsIndexed {s} (submits room id kind) v =
    IsIndexed-Moved (submit_room_input-Moved room id kind s) v
Step-IsIndexed {s} (sets_presence room id online now) v =
    IsIndexed-Moved (set_room_presence-Moved room id online now s) v
Step-IsIndexed {s} (reaps now) v = reap_expired-IsIndexed now s v
Step-IsIndexed {s} (ticks has_writer now) v =
    rw (tick_locked-ticked has_writer now s)
      (reap_expired-IsIndexed now _ (IsIndexed-Moved (ticked-Moved has_writer now s) v))
Step-IsIndexed {s} (counts good bad) v = IsIndexed-Moved (Moved-same s _ refl refl) v
Step-IsIndexed {s} (settles room now status) v =
    IsIndexed-Moved (settle_result-Moved room now status s) v
Step-IsIndexed {s} (aborts now) v = IsIndexed-Moved (abort_locked-Moved now s) v
Step-IsIndexed {s} shuts_down v =
    unfold begin_shutdown in IsIndexed-Moved (Moved-same s _ refl refl) v

pub Reach-IsIndexed_from : {s t : RoomManager} → Reach s t → IsIndexed s → IsIndexed t
Reach-IsIndexed_from here v = v
Reach-IsIndexed_from (later l st) v = Step-IsIndexed st (Reach-IsIndexed_from l v)

-- After any interleaving of calls on a new manager, whatever the stores answer: each room stands
-- once, under its own id; the match index leads from the match of each room to that room; and each
-- entry of the index leads to a room of its match. So no match has two rooms.
pub Reach-IsIndexed : (s : RoomManager) → Reach empty_manager s → IsIndexed s
Reach-IsIndexed s l = Reach-IsIndexed_from l IsIndexed-empty

reap-AllRooms :
    {P : BattleRoom → Type 0} (now : ℤ) (s : RoomManager)
    → AllRooms P s
    → AllRooms P (reap_expired now s)
unfolding reap_expired
reap-AllRooms now s h id r e = h id r (kept now s.rooms id r e).0

new_or_old :
    (rooms : Dict BattleRoom) (fresh id : Bytes) (room r : BattleRoom)
    → find id (emplace fresh room rooms) ≡ some r
    → (room ≡ r) ⊎ (find id rooms ≡ some r)
new_or_old rooms fresh id room r e = ground (arith, find-emplace fresh id room rooms)

module _ {P : BattleRoom → Type 0} (k : Preserved P)
    (start : (id m : Bytes) (ids : List Bytes) (now : ℤ) → P (make_room id m ids now)) where
  with_room-AllRooms :
      (match_id : Bytes) (ids : List Bytes) (now : ℤ) (fresh : Bytes) (s : RoomManager)
      → AllRooms P s
      → AllRooms P (with_room match_id ids now fresh s)
  with_room-AllRooms match_id ids now fresh s h id r e = elim (new_or_old s.rooms fresh id _ r e) [
    | inl new ↦ subst P new (start fresh match_id ids now)
    | inr old ↦ h id r old
  ]

  Step-AllRooms : {s t : RoomManager} → Step s t → IsIndexed s → AllRooms P s → AllRooms P t
  Step-AllRooms {s} (creates match_id ids now fresh new) v h =
      elim (create_cases match_id ids now fresh s v) [
        | inl e ↦ subst (AllRooms P) (sym e) h
        | inr (e, f) ↦ subst (AllRooms P) (sym f) (with_room-AllRooms match_id ids now fresh s h)
      ]
  Step-AllRooms {s} (joins room id now) v h = AllRooms-Moved k (join_room-Moved room id now s) h
  Step-AllRooms {s} (submits room id kind) v h =
      AllRooms-Moved k (submit_room_input-Moved room id kind s) h
  Step-AllRooms {s} (sets_presence room id online now) v h =
      AllRooms-Moved k (set_room_presence-Moved room id online now s) h
  Step-AllRooms {s} (reaps now) v h = reap-AllRooms now s h
  Step-AllRooms {s} (ticks has_writer now) v h =
      subst (AllRooms P) (sym (tick_locked-ticked has_writer now s))
        (reap-AllRooms now _ (AllRooms-Moved k (ticked-Moved has_writer now s) h))
  Step-AllRooms {s} (counts good bad) v h = h
  Step-AllRooms {s} (settles room now status) v h =
      AllRooms-Moved k (settle_result-Moved room now status s) h
  Step-AllRooms {s} (aborts now) v h = AllRooms-Moved k (abort_locked-Moved now s) h
  Step-AllRooms {s} shuts_down v h = unfold begin_shutdown in h

  pub Reach-AllRooms : {s t : RoomManager} → Reach s t → IsIndexed s → AllRooms P s → AllRooms P t
  Reach-AllRooms here v h = h
  Reach-AllRooms (later l st) v h =
      Step-AllRooms st (Reach-IsIndexed_from l v) (Reach-AllRooms l v h)

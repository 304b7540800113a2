-- ===== src/Room/Manager/Invariant.antt =====
-- Every locked block of room_manager.cpp keeps the two tables in step.
use realtime_game_backend.Base.{
  ℕ, ◌≡◌, refl, sym, subst, ◌⊎◌, inl, inr, Bool, true, false, some, arith, Option-cases, zero, suc,
  ◌+◌, length,
}
use realtime_game_backend.Base.Int.{ℤ}
use realtime_game_backend.Base.Bytes.{Bytes}
use realtime_game_backend.Base.Dict.{find}
use realtime_game_backend.Room.Battle.State.{BattleRoom, push_snapshot, finish, abort}
use realtime_game_backend.Room.Battle.Commands.{admit, change_presence}
use realtime_game_backend.Room.Battle.Frames.{
  advance_one_frame, resolve_attacks, resolve_attack, settle_frame,
}
use realtime_game_backend.Room.Battle.Calls.{Call, step}
use realtime_game_backend.Room.Battle.Preserved.{Preserved, step_rule}
use realtime_game_backend.Room.Manager.State.{RoomManager}
use realtime_game_backend.Room.Manager.Moved.{Moved}
use realtime_game_backend.Room.Manager.Index.{IsIndexed, IsIndexed-map}

-- The ids that a room keeps for its life.
abbrev HasIds : Bytes → Bytes → BattleRoom → Type 0
HasIds id m r = (r.room_id ≡ id) × (r.match_id ≡ m)

resolve_attack-HasIds :
    (id m : Bytes) (i : ℕ) (r : BattleRoom) → HasIds id m r → HasIds id m (resolve_attack i r)
unfolding resolve_attack
resolve_attack-HasIds id m i r h = ground arith

resolve_attacks-HasIds :
    (id m : Bytes) (n i : ℕ) (r : BattleRoom) → HasIds id m r → HasIds id m (resolve_attacks n i r)
unfolding resolve_attacks
resolve_attacks-HasIds id m zero i r h = h
resolve_attacks-HasIds id m (suc n) i r h =
    resolve_attacks-HasIds id m n (i + 1) _ (resolve_attack-HasIds id m i r h)

settle_frame-HasIds :
    (id m : Bytes) (now : ℤ) (r : BattleRoom) → HasIds id m r → HasIds id m (settle_frame now r)
unfolding settle_frame finish push_snapshot
settle_frame-HasIds id m now r h = ground arith

advance_one_frame-HasIds :
    (id m : Bytes) (now : ℤ) (r : BattleRoom)
    → HasIds id m r
    → HasIds id m (advance_one_frame now r)
unfolding advance_one_frame
advance_one_frame-HasIds id m now r h =
    settle_frame-HasIds id m now _ (resolve_attacks-HasIds id m (length r.players) 0 _ h)

change_presence-HasIds :
    (id m : Bytes) (i : ℕ) (online : Bool) (now : ℤ) (r : BattleRoom)
    → HasIds id m r
    → HasIds id m (change_presence i online now r)
unfolding change_presence push_snapshot
change_presence-HasIds id m i true now r h = h
change_presence-HasIds id m i false now r h = ground arith

ids : (id m : Bytes) → Preserved (HasIds id m)
unfolding admit finish abort push_snapshot
ids id m = record {
  clock = λ t r h. h;
  frame = λ now r p h. advance_one_frame-HasIds id m now r h;
  disconnect = λ i now r p h. h;
  stopped = λ now r e h. h;
  admitted = λ who i now r f e c h. ground arith;
  pending = λ i r p h. h;
  presence = λ i online now r e h. change_presence-HasIds id m i online now r h;
  persisted = λ r p h. h;
  failed = λ now r h. h;
}

-- What the calls keep in a room, every room keeps in the table.
abbrev pub AllRooms : (BattleRoom → Type 0) → RoomManager → Type 0
AllRooms P s = (id : Bytes) (r : BattleRoom) → find id s.rooms ≡ some r → P r

kept_by_change :
    {P : BattleRoom → Type 0} (k : Preserved P) {r q : BattleRoom}
    → (q ≡ r) ⊎ ((c : Call) × (q ≡ step r c))
    → P r
    → P q
kept_by_change {P} k (inl e) h = subst P (sym e) h
kept_by_change {P} k {r = r} (inr (c, e)) h = subst P (sym e) (step_rule k r c h)

pub AllRooms-Moved :
    {P : BattleRoom → Type 0} (k : Preserved P) {s t : RoomManager}
    → Moved s t
    → AllRooms P s
    → AllRooms P t
AllRooms-Moved {P} k {s = s} {t = t} v h id r e = elim (Option-cases (find id s.rooms)) [
  | inl f ↦ absurd (ground (arith, v.moved id))
  | inr (q, f) ↦ subst P (ground (arith, v.moved id)) (kept_by_change k (v.by_call id q) (h id q f))
]

keeps_ids :
    {r q : BattleRoom} → (q ≡ r) ⊎ ((c : Call) × (q ≡ step r c)) → HasIds r.room_id r.match_id q
keeps_ids {r = r} c = kept_by_change (ids r.room_id r.match_id) c (refl, refl)

pub IsIndexed-Moved : {s t : RoomManager} → Moved s t → IsIndexed s → IsIndexed t
IsIndexed-Moved {s = s} {t = t} v h =
    IsIndexed-map s t v.change (λ id r. keeps_ids (v.by_call id r)) v.moved v.same_index
      (v.unique h.unique) h

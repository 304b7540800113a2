-- ===== src/Room/Manager/Moved.antt =====
-- The locked blocks of room_manager.cpp that change rooms in place: what they do to each room is one
-- of the calls of battle_room.cpp, or nothing.
use realtime_game_backend.Base.{
  ◌≡◌, refl, ap, ◌∙◌, ◌⊎◌, inl, inr, [], Bool, true, false, Option, some, none, if◌then◌else◌,
  Bool-cases, Option-cases,
}
use realtime_game_backend.Base.Int.{ℤ}
use realtime_game_backend.Base.Bytes.{Bytes, ◌==◌}
use realtime_game_backend.Base.Dict.{
  Dict, find, update, map_values, map_found, find-update, find-map_values, UniqueKeys,
  UniqueKeys-update, UniqueKeys-map_values,
}
use realtime_game_backend.Room.Battle.State.{BattleRoom}
use realtime_game_backend.Room.Battle.Calls.{
  Call, joins, submits, sets_presence, ticks, persists, fails, aborts, step,
}
use realtime_game_backend.Room.Manager.State.{
  RoomManager, SnapshotState, on_room, join_room, submit_room_input, set_room_presence,
  reap_expired,
}
use realtime_game_backend.Room.Manager.Ticking.{
  WriteStatus, tick_locked, settle_result, abort_all, due_snapshots,
}
use realtime_game_backend.Room.Manager.Steps.{abort_locked}
use realtime_game_backend.Room.Battle.Frames.{tick}
use realtime_game_backend.Room.Types.{InputKind}

pub record Moved (s t : RoomManager) : Type 0 where
  pub change : Bytes → BattleRoom → BattleRoom
  pub by_call :
      (id : Bytes) (r : BattleRoom) → (change id r ≡ r) ⊎ ((c : Call) × (change id r ≡ step r c))
  pub moved : (id : Bytes) → find id t.rooms ≡ map_found (change id) (find id s.rooms)
  pub same_index : t.match_index ≡ s.match_index
  pub unique : UniqueKeys s.rooms → UniqueKeys t.rooms

pub Moved-same : (s t : RoomManager) → t.rooms ≡ s.rooms → t.match_index ≡ s.match_index → Moved s t
Moved-same s t e f = record {
  change = λ id r. r;
  by_call = λ id r. inl refl;
  moved = λ id. ap (find id) e ∙ unchanged (find id s.rooms);
  same_index = f;
  unique = λ u. rw e u;
}
  where
    unchanged : (o : Option BattleRoom) → o ≡ map_found (λ r. r) o
    unchanged none = refl
    unchanged (some r) = refl

-- The call `c` on the room `k`.
Moved-update :
    (k : Bytes) (c : Call) (s : RoomManager)
    → Moved s (record s { rooms = update k (λ r. step r c) s.rooms })
Moved-update k c s = record {
  change = λ id r. if k == id then step r c else r;
  by_call =
      λ id r. elim (Bool-cases (k == id)) [ inl hit ↦ inr (c, rw hit) | inr miss ↦ inl (rw miss) ];
  moved = λ id. find-update k id (λ r. step r c) s.rooms ∙ split (k == id) (find id s.rooms);
  same_index = refl;
  unique = UniqueKeys-update k (λ r. step r c) s.rooms;
}
  where
    split :
        (b : Bool) (o : Option BattleRoom)
        → (if b then map_found (λ r. step r c) o else o)
          ≡ map_found (λ r. if b then step r c else r) o
    split true o = refl
    split false none = refl
    split false (some r) = refl

-- The call `c` on every room.
Moved-map :
    (c : Call) (s : RoomManager) (states : Dict SnapshotState)
    → Moved s (record s { rooms = map_values (λ r. step r c) s.rooms; snapshot_state = states })
Moved-map c s states = record {
  change = λ id r. step r c;
  by_call = λ id r. inr (c, refl);
  moved = λ id. find-map_values id (λ r. step r c) s.rooms;
  same_index = refl;
  unique = UniqueKeys-map_values (λ r. step r c) s.rooms;
}

on_room-Moved {ℓ} :
    {O : Type ℓ} (k : Bytes) (call : BattleRoom → BattleRoom × O) (c : Call) (s : RoomManager)
    → ◌≡◌ {A = BattleRoom → BattleRoom} (λ r. (call r).0) (λ r. step r c)
    → Moved s (on_room k call s).0
unfolding on_room
on_room-Moved k call c s e = elim (Option-cases (find k s.rooms)) [
  | inl f ↦ rw (f, on_room) (Moved-same s s refl refl)
  | inr (r, f) ↦ rw (f, on_room) (rw e (Moved-update k c s))
]

pub join_room-Moved : (k id : Bytes) (now : ℤ) (s : RoomManager) → Moved s (join_room k id now s).0
unfolding join_room step
join_room-Moved k id now s = on_room-Moved k _ (joins id now) s refl

pub submit_room_input-Moved :
    (k id : Bytes) (kind : InputKind) (s : RoomManager) → Moved s (submit_room_input k id kind s).0
unfolding submit_room_input step
submit_room_input-Moved k id kind s = on_room-Moved k _ (submits id kind) s refl

pub set_room_presence-Moved :
    (k id : Bytes) (online : Bool) (now : ℤ) (s : RoomManager)
    → Moved s (set_room_presence k id online now s).0
unfolding set_room_presence step
set_room_presence-Moved k id online now s = on_room-Moved k _ (sets_presence id online now) s refl

pub settle_result-Moved :
    (k : Bytes) (now : ℤ) (status : WriteStatus) (s : RoomManager)
    → Moved s (settle_result k now status s)
unfolding settle_result step
settle_result-Moved k now WriteStatus.ok s = Moved-update k persists s
settle_result-Moved k now WriteStatus.unavailable s = Moved-update k (fails now) s

pub abort_locked-Moved : (now : ℤ) (s : RoomManager) → Moved s (abort_locked now s)
unfolding abort_all step
abort_locked-Moved now s = Moved-map (aborts now) s _

-- `tick_locked` before it reaps.
abbrev pub ticked : Bool → ℤ → RoomManager → RoomManager
ticked has_writer now s =
    let rooms = map_values (λ r. (tick now r).0) s.rooms in
    record s {
      rooms = rooms;
      snapshot_state =
          (if has_writer
            then due_snapshots now rooms s.snapshot_state
            else (s.snapshot_state, [])).0;
    }

pub ticked-Moved :
    (has_writer : Bool) (now : ℤ) (s : RoomManager) → Moved s (ticked has_writer now s)
unfolding step
ticked-Moved has_writer now s = Moved-map (ticks now) s _

pub tick_locked-ticked :
    (has_writer : Bool) (now : ℤ) (s : RoomManager)
    → (tick_locked has_writer now s).0 ≡ reap_expired now (ticked has_writer now s)
unfolding tick_locked
tick_locked-ticked has_writer now s = refl

-- ===== src/Room/Battle/Bounds.antt =====
-- The bounds that every call keeps: hit points, the frame counter, and the sizes of the vectors
-- that the loops of battle_room.cpp index by player.
use realtime_game_backend.Base.{
  ℕ, zero, suc, ◌+◌, ◌%◌, ◌≡◌, refl, List, [], ◌∷◌, arith, All, All-modify, length, length-modify,
  length-set, length-replicate, map, Bool, true, false,
}
use realtime_game_backend.Base.Int.{ℤ, pos, ◌+ℤ◌, ◌≤ℤ◌, ◌<ℤ◌, int_laws, -ℤ_parts}
use realtime_game_backend.Base.Bytes.{Bytes}
use realtime_game_backend.Room.Types.{
  RoomPhase, PlayerSnapshot, initial_hp, max_frames, attack_damage,
}
use realtime_game_backend.Room.Battle.State.{
  BattleRoom, make_room, push_snapshot, finish, abort, new_player, fresh_runtime,
}
use realtime_game_backend.Room.Battle.Commands.{
  admit, change_presence, connect, set_online, came_online, went_offline,
}
use realtime_game_backend.Room.Battle.Frames.{
  hit, resolve_attack, resolve_attacks, settle_frame, advance_one_frame,
}
use realtime_game_backend.Room.Battle.Preserved.{Preserved, run_rule}
use realtime_game_backend.Room.Battle.Calls.{Call, run}

abbrev pub HpInRange : PlayerSnapshot → Type 0
HpInRange p = (pos 0 ≤ℤ p.hp) × (p.hp ≤ℤ initial_hp)

pub record Sizes (r : BattleRoom) : Type 0 where
  pub runtime_size : length r.runtime ≡ length r.players
  pub pending_size : length r.pending_attack ≡ length r.players
  pub hps : All HpInRange r.players

pub record IsBounded (r : BattleRoom) : Type 0 where
  pub sizes : Sizes r
  pub frame_nonneg : pos 0 ≤ℤ r.frame
  pub frame_bound : r.frame ≤ℤ max_frames
  pub frame_room : r.phase ≡ RoomPhase.playing → r.frame <ℤ max_frames

-- A player who is hit loses at most the damage of an attack and never drops below zero.
pub hit-HpInRange : (p : PlayerSnapshot) → HpInRange p → HpInRange (hit p)
unfolding hit
hit-HpInRange p h = ground (arith, -ℤ_parts p.hp attack_damage)

resolve_attack-Sizes : (i : ℕ) (r : BattleRoom) → Sizes r → Sizes (resolve_attack i r)
unfolding resolve_attack
resolve_attack-Sizes i r v = ground (
  arith,
  length-set r.pending_attack i false,
  length-modify r.players ((i + 1) % length r.players) hit,
  All-modify HpInRange r.players ((i + 1) % length r.players) hit hit-HpInRange v.hps,
)

pub resolve_attacks-Sizes : (n i : ℕ) (r : BattleRoom) → Sizes r → Sizes (resolve_attacks n i r)
unfolding resolve_attacks
resolve_attacks-Sizes zero i r v = v
resolve_attacks-Sizes (suc n) i r v =
    resolve_attacks-Sizes n (i + 1) (resolve_attack i r) (resolve_attack-Sizes i r v)

resolve_attack_keeps :
    (i : ℕ) (r : BattleRoom)
    → ((resolve_attack i r).frame ≡ r.frame) × ((resolve_attack i r).phase ≡ r.phase)
unfolding resolve_attack
resolve_attack_keeps i r = ground arith

pub resolve_attacks_keeps :
    (n i : ℕ) (r : BattleRoom)
    → ((resolve_attacks n i r).frame ≡ r.frame) × ((resolve_attacks n i r).phase ≡ r.phase)
unfolding resolve_attacks
resolve_attacks_keeps zero i r = (refl, refl)
resolve_attacks_keeps (suc n) i r =
    ground (arith, resolve_attack_keeps i r, resolve_attacks_keeps n (i + 1) (resolve_attack i r))

settle_frame-IsBounded :
    (now : ℤ) (r : BattleRoom)
    → Sizes r
    → pos 0 ≤ℤ r.frame
    → r.frame ≤ℤ max_frames
    → IsBounded (settle_frame now r)
unfolding settle_frame finish push_snapshot
settle_frame-IsBounded now r v low high = ground arith

advance_one_frame-IsBounded :
    (now : ℤ) (r : BattleRoom)
    → Sizes r
    → pos 0 ≤ℤ r.frame
    → r.frame <ℤ max_frames
    → IsBounded (advance_one_frame now r)
unfolding advance_one_frame
advance_one_frame-IsBounded now r v low high =
    settle_frame-IsBounded now _ (resolve_attacks-Sizes (length r.players) 0 next next-Sizes)
      (rw frame_kept (omega int_laws)) (rw frame_kept (omega int_laws))
  where
    next : BattleRoom
    next = record r { frame = r.frame +ℤ pos 1 }

    next-Sizes : Sizes next
    next-Sizes = record {
      runtime_size = v.runtime_size;
      pending_size = v.pending_size;
      hps = v.hps;
    }

    frame_kept : (resolve_attacks (length r.players) 0 next).frame ≡ r.frame +ℤ pos 1
    frame_kept = (resolve_attacks_keeps (length r.players) 0 next).0

change_presence-IsBounded :
    (i : ℕ) (online : Bool) (now : ℤ) (r : BattleRoom)
    → IsBounded r
    → IsBounded (change_presence i online now r)
unfolding change_presence push_snapshot
change_presence-IsBounded i true now r v = ground (
  arith,
  length-set r.runtime i came_online,
  length-modify r.players i (set_online true),
  All-modify HpInRange r.players i (set_online true) (λ p h. h) v.sizes.hps,
)
change_presence-IsBounded i false now r v = ground (
  arith,
  length-set r.runtime i (went_offline now),
  length-modify r.players i (set_online false),
  All-modify HpInRange r.players i (set_online false) (λ p h. h) v.sizes.hps,
)

pub bounds : Preserved IsBounded
unfolding admit finish abort push_snapshot
bounds = record {
  clock = λ t r v. ground arith;
  frame = λ now r p v. advance_one_frame-IsBounded now r v.sizes v.frame_nonneg (v.frame_room p);
  disconnect = λ i now r p v. ground arith;
  stopped = λ now r e v. ground arith;
  admitted = λ id i now r f e c v. ground (
    arith,
    length-modify r.players i connect,
    All-modify HpInRange r.players i connect (λ p h. h) v.sizes.hps,
  );
  pending = λ i r p v. ground (arith, length-set r.pending_attack i true);
  presence = λ i online now r e v. change_presence-IsBounded i online now r v;
  persisted = λ r p v. ground arith;
  failed = λ now r v. ground arith;
}

pub make_room-IsBounded :
    (room_id match_id : Bytes) (ids : List Bytes) (now : ℤ)
    → IsBounded (make_room room_id match_id ids now)
unfolding make_room push_snapshot
make_room-IsBounded room_id match_id ids now = ground (
  arith,
  length-replicate (length (map new_player ids)) fresh_runtime,
  length-replicate (length (map new_player ids)) false,
  new_players-HpInRange ids,
)
  where
    new_players-HpInRange : (l : List Bytes) → All HpInRange (map new_player l)
    new_players-HpInRange [] = tt
    new_players-HpInRange (x ∷ l) = ((omega arith, omega arith), new_players-HpInRange l)

-- In every room that the constructor makes, after any calls, hit points lie between 0 and the
-- initial hit points, the frame counter lies between 0 and `max_frames` and below it while the
-- game is played, and the per-player vectors have one element for each player.
pub run-IsBounded :
    (room_id match_id : Bytes) (ids : List Bytes) (now : ℤ) (cs : List Call)
    → IsBounded (run (make_room room_id match_id ids now) cs)
run-IsBounded room_id match_id ids now cs =
    run_rule bounds _ cs (make_room-IsBounded room_id match_id ids now)

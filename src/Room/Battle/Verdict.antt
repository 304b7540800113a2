-- ===== src/Room/Battle/Verdict.antt =====
-- What battle_room.cpp records about the end of a game: the reason and the winner that go with
-- each phase, the phases that can follow one another, and the result once it is fixed.
use realtime_game_backend.Base.{
  ℕ, zero, suc, ◌+◌, ◌≡◌, refl, inl, inr, ◌⊎◌, List, [], ◌∷◌, arith, Bool, true, false, Bool-cases,
  length,
}
use realtime_game_backend.Base.Int.{ℤ, pos, ltb_ℤ, ◌+ℤ◌}
use realtime_game_backend.Base.Bytes.{Bytes}
use realtime_game_backend.Room.Types.{RoomPhase, FinishReason, PlayerSnapshot}
use realtime_game_backend.Room.Battle.State.{
  BattleRoom, make_room, push_snapshot, finish, abort, has_ended,
}
use realtime_game_backend.Room.Battle.Commands.{admit, change_presence}
use realtime_game_backend.Room.Battle.Frames.{
  alive, survivor, leader, id_at, resolve_attacks, resolve_attack, settle_frame, advance_one_frame,
}
use realtime_game_backend.Room.Battle.Calls.{Call, run}
use realtime_game_backend.Room.Battle.Preserved.{Preserved, run_rule}

abbrev pub Named : Bytes → List PlayerSnapshot → Type 0
Named w [] = ⊥
Named w (p ∷ ps) = (w ≡ p.player_id) ⊎ Named w ps

-- Nobody, or a player of the room.
abbrev pub IsWinner : Bytes → List PlayerSnapshot → Type 0
IsWinner w ps = (w ≡ []) ⊎ Named w ps

abbrev pub IsPlayed : FinishReason → Type 0
IsPlayed FinishReason.none = ⊥
IsPlayed FinishReason.aborted = ⊥
IsPlayed _ = Unit {0}

-- The reason and the winner that go with a phase.
abbrev pub Verdict : RoomPhase → FinishReason → Bytes → List PlayerSnapshot → Type 0
Verdict RoomPhase.finishing reason w ps = IsPlayed reason × IsWinner w ps
Verdict RoomPhase.finished reason w ps = IsPlayed reason × IsWinner w ps
Verdict RoomPhase.aborted reason w ps = (reason ≡ FinishReason.aborted) × (w ≡ [])
Verdict _ reason w ps = (reason ≡ FinishReason.none) × (w ≡ [])

pub record HasVerdict (r : BattleRoom) : Type 0 where
  pub verdict : Verdict r.phase r.finish_reason r.winner_id r.players

Named-alive : (w : Bytes) (ps : List PlayerSnapshot) → Named w (alive ps) → Named w ps
unfolding alive
Named-alive w [] n = n
Named-alive w (p ∷ ps) n = elim (Bool-cases (ltb_ℤ (pos 0) p.hp)) [
  | inl up ↦ ground (arith, Named-alive w ps)
  | inr down ↦ inr (Named-alive w ps (rw down at n))
]

survivor-IsWinner : (ps : List PlayerSnapshot) → IsWinner (survivor ps) ps
survivor-IsWinner [] = inl refl
survivor-IsWinner (p ∷ []) = inr (inl refl)
survivor-IsWinner (p ∷ q ∷ ps) = inl refl

survivor-alive-IsWinner : (ps : List PlayerSnapshot) → IsWinner (survivor (alive ps)) ps
survivor-alive-IsWinner ps = elim (survivor-IsWinner (alive ps)) [
  | inl nobody ↦ inl nobody
  | inr n ↦ inr (Named-alive (survivor (alive ps)) ps n)
]

leader-IsWinner : (ps : List PlayerSnapshot) → IsWinner (leader ps) ps
unfolding leader
leader-IsWinner [] = inl refl
leader-IsWinner (p ∷ []) = inl refl
leader-IsWinner (p ∷ q ∷ []) = ground arith
leader-IsWinner (p ∷ q ∷ s ∷ ps) = inl refl

id_at-IsWinner : (ps : List PlayerSnapshot) (i : ℕ) → IsWinner (id_at ps i) ps
id_at-IsWinner [] i = inl refl
id_at-IsWinner (p ∷ ps) zero = inr (inl refl)
id_at-IsWinner (p ∷ ps) (suc i) = elim (id_at-IsWinner ps i) [
  | inl nobody ↦ inl nobody
  | inr n ↦ inr (inr n)
]

resolve_attack_keeps :
    (i : ℕ) (r : BattleRoom)
    → ((resolve_attack i r).phase ≡ r.phase)
      × ((resolve_attack i r).finish_reason ≡ r.finish_reason)
      × ((resolve_attack i r).winner_id ≡ r.winner_id)
unfolding resolve_attack
resolve_attack_keeps i r = ground arith

resolve_attacks_keeps :
    (n i : ℕ) (r : BattleRoom)
    → ((resolve_attacks n i r).phase ≡ r.phase)
      × ((resolve_attacks n i r).finish_reason ≡ r.finish_reason)
      × ((resolve_attacks n i r).winner_id ≡ r.winner_id)
unfolding resolve_attacks
resolve_attacks_keeps zero i r = (refl, refl, refl)
resolve_attacks_keeps (suc n) i r =
    ground (arith, resolve_attack_keeps i r, resolve_attacks_keeps n (i + 1) (resolve_attack i r))

settle_frame-HasVerdict :
    (now : ℤ) (r : BattleRoom)
    → r.phase ≡ RoomPhase.playing
    → HasVerdict r
    → HasVerdict (settle_frame now r)
unfolding settle_frame finish push_snapshot
settle_frame-HasVerdict now r p v =
    ground (arith, survivor-alive-IsWinner r.players, leader-IsWinner r.players)

advance_one_frame-HasVerdict :
    (now : ℤ) (r : BattleRoom)
    → r.phase ≡ RoomPhase.playing
    → HasVerdict r
    → HasVerdict (advance_one_frame now r)
unfolding advance_one_frame
advance_one_frame-HasVerdict now r p v =
    let next = record r { frame = r.frame +ℤ pos 1 } in
    let keeps = resolve_attacks_keeps (length r.players) 0 next in
    settle_frame-HasVerdict now _ (ground (arith, keeps)) (ground (arith, keeps))

change_presence-HasVerdict :
    (i : ℕ) (online : Bool) (now : ℤ) (r : BattleRoom)
    → has_ended r.phase ≡ false
    → HasVerdict r
    → HasVerdict (change_presence i online now r)
unfolding change_presence push_snapshot
change_presence-HasVerdict i true now r e v = ground arith
change_presence-HasVerdict i false now r e v = ground arith

pub verdicts : Preserved HasVerdict
unfolding admit finish abort push_snapshot
verdicts = record {
  clock = λ t r v. record { verdict = v.verdict };
  frame = advance_one_frame-HasVerdict;
  disconnect = λ i now r p v. record { verdict = (tt, id_at-IsWinner r.players i) };
  stopped = λ now r e v. ground arith;
  admitted = λ id i now r f e c v. ground arith;
  pending = λ i r p v. record { verdict = v.verdict };
  presence = change_presence-HasVerdict;
  persisted = λ r p v. ground arith;
  failed = λ now r v. record { verdict = v.verdict };
}

pub make_room-HasVerdict :
    (room_id match_id : Bytes) (ids : List Bytes) (now : ℤ)
    → HasVerdict (make_room room_id match_id ids now)
unfolding make_room push_snapshot
make_room-HasVerdict room_id match_id ids now = record { verdict = (refl, refl) }

-- In every room that the constructor makes, after any calls: a game that goes on has no reason
-- and no winner; a game that was played to its end has the reason hp_zero, timeout or
-- disconnect, and a winner who is a player of the room, or nobody; an aborted game has the reason
-- aborted and no winner.
pub run-HasVerdict :
    (room_id match_id : Bytes) (ids : List Bytes) (now : ℤ) (cs : List Call)
    → HasVerdict (run (make_room room_id match_id ids now) cs)
run-HasVerdict room_id match_id ids now cs =
    run_rule verdicts _ cs (make_room-HasVerdict room_id match_id ids now)

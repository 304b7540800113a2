-- ===== src/Room/Battle/Duel.antt =====
-- The fight of battle_room.cpp between two players: a frame resolves both attacks at once, and
-- whom it makes the winner.
use realtime_game_backend.Base.{
  ◌≡◌, refl, ap, ◌∙◌, length, List, [], ◌∷◌, arith, Bool, true, false, if◌then◌else◌,
}
use realtime_game_backend.Base.Int.{ℤ, pos, ◌+ℤ◌, ltb_ℤ, leb_ℤ}
use realtime_game_backend.Room.Types.{FinishReason, PlayerSnapshot, max_frames}
use realtime_game_backend.Room.Battle.State.{BattleRoom, finish, push_snapshot}
use realtime_game_backend.Room.Battle.Frames.{
  hit, resolve_attack, resolve_attacks, settle_frame, advance_one_frame, alive, leader,
}

abbrev pub struck : Bool → PlayerSnapshot → PlayerSnapshot
struck true p = hit p
struck false p = p

-- The room after both players' attacks, `a` of the first and `b` of the second, hit at once.
abbrev pub exchange : BattleRoom → PlayerSnapshot → PlayerSnapshot → Bool → Bool → BattleRoom
exchange r p q a b = record r {
  frame = r.frame +ℤ pos 1;
  players = struck b p ∷ struck a q ∷ [];
  pending_attack = false ∷ false ∷ [];
}

-- What the rules say of two players and the frame that was reached.
abbrev pub judge : ℤ → PlayerSnapshot → PlayerSnapshot → BattleRoom → BattleRoom
judge now p q r =
    if ltb_ℤ (pos 0) p.hp
    then if ltb_ℤ (pos 0) q.hp
      then if leb_ℤ max_frames r.frame
        then finish FinishReason.timeout
            (if ltb_ℤ q.hp p.hp then p.player_id else if ltb_ℤ p.hp q.hp then q.player_id else [])
            now r
        else push_snapshot r
      else finish FinishReason.hp_zero p.player_id now r
    else finish FinishReason.hp_zero (if ltb_ℤ (pos 0) q.hp then q.player_id else []) now r

attacks_at_once :
    (r : BattleRoom) (p q : PlayerSnapshot) (a b : Bool)
    → r.players ≡ p ∷ q ∷ []
    → r.pending_attack ≡ a ∷ b ∷ []
    → resolve_attacks 2 0 (record r { frame = r.frame +ℤ pos 1 }) ≡ exchange r p q a b
unfolding resolve_attacks resolve_attack
attacks_at_once r p q true true e f = simp (e, f)
attacks_at_once r p q true false e f = simp (e, f)
attacks_at_once r p q false true e f = simp (e, f)
attacks_at_once r p q false false e f = simp (e, f)

settle_judge :
    (now : ℤ) (r : BattleRoom) (p q : PlayerSnapshot)
    → r.players ≡ p ∷ q ∷ []
    → settle_frame now r ≡ judge now p q r
unfolding settle_frame alive leader
settle_judge now r p q e = ground arith

-- In a game of two players a frame resolves both pending attacks at once, whatever their order:
-- each attacked player loses the damage once, also a player whom the same frame kills. Then a sole
-- survivor wins, nobody wins if both are dead, the player with more hit points wins at the last
-- frame, and otherwise the game goes on and the frame is recorded.
pub advance_one_frame-judge :
    (now : ℤ) (r : BattleRoom) (p q : PlayerSnapshot) (a b : Bool)
    → r.players ≡ p ∷ q ∷ []
    → r.pending_attack ≡ a ∷ b ∷ []
    → advance_one_frame now r ≡ judge now (struck b p) (struck a q) (exchange r p q a b)
unfolding advance_one_frame
advance_one_frame-judge now r p q a b e f =
    ap
      (λ (ps : List PlayerSnapshot).
        settle_frame now (resolve_attacks (length ps) 0 (record r { frame = r.frame +ℤ pos 1 })))
      e
    ∙ ap (settle_frame now) (attacks_at_once r p q a b e f)
    ∙ settle_judge now (exchange r p q a b) (struck b p) (struck a q) refl

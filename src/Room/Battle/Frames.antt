-- ===== src/Room/Battle/Frames.antt =====
-- src/room/battle_room.cpp: the fixed-step clock of a room, `Tick`, `AdvanceOneFrame` and
-- `ResolveReconnectGrace`.
use realtime_game_backend.Base.{
  ℕ, zero, suc, ◌+◌, ◌%◌, Bool, true, false, List, [], ◌∷◌, some, none, ◌||◌, leb, ltb, nat_eq,
  length, modify, set, get_elem?, if◌then◌else◌, negate,
}
use realtime_game_backend.Base.Int.{ℤ, pos, ◌+ℤ◌, ◌-ℤ◌, ◌*ℤ◌, ◌/ℤ◌, ltb_ℤ, leb_ℤ, max_ℤ, to_nat}
use realtime_game_backend.Base.Bytes.{Bytes}
use realtime_game_backend.Room.Types.{
  RoomPhase, FinishReason, PlayerSnapshot, attack_damage, frame_interval_ms, max_frames,
  max_catch_up_frames, waiting_timeout_ms, reconnect_grace_ms, eq_phase,
}
use realtime_game_backend.Room.Battle.State.{
  BattleRoom, PlayerRuntime, push_snapshot, finish, abort, is_waiting_for_reconnect,
}

-- hp -= kAttackDamage; if (hp < 0) hp = 0;
unfoldable pub hit : PlayerSnapshot → PlayerSnapshot
hit p = let hp = p.hp -ℤ attack_damage in record p { hp = if ltb_ℤ hp (pos 0) then pos 0 else hp }

abbrev pub has_pending : List Bool → ℕ → Bool
has_pending bs i = elim (get_elem? bs i) [ none ↦ false | some b ↦ b ]

-- One round of the loop over the pending attacks.
unfoldable pub resolve_attack : ℕ → BattleRoom → BattleRoom
resolve_attack i r =
    if has_pending r.pending_attack i
    then if ltb (length r.players) 2
      then record r { pending_attack = set r.pending_attack i false }
      else record r {
        pending_attack = set r.pending_attack i false;
        players = modify r.players ((i + 1) % length r.players) hit;
      }
    else r

-- `resolve_attacks n i`: the rounds from `i` on, `n` of them.
unfoldable pub resolve_attacks : ℕ → ℕ → BattleRoom → BattleRoom
resolve_attacks zero i r = r
resolve_attacks (suc n) i r = resolve_attacks n (i + 1) (resolve_attack i r)

-- The players whose indices `alive` collects.
unfoldable pub alive : List PlayerSnapshot → List PlayerSnapshot
alive [] = []
alive (p ∷ ps) = let rest = alive ps in if ltb_ℤ (pos 0) p.hp then p ∷ rest else rest

-- The name of the one player alive, if there is one.
abbrev pub survivor : List PlayerSnapshot → Bytes
survivor (p ∷ []) = p.player_id
survivor _ = []

unfoldable pub leader : List PlayerSnapshot → Bytes
leader (p ∷ q ∷ []) =
    if ltb_ℤ q.hp p.hp then p.player_id else if ltb_ℤ p.hp q.hp then q.player_id else []
leader _ = []

-- `AdvanceOneFrame` behind the loop over the attacks.
unfoldable pub settle_frame : ℤ → BattleRoom → BattleRoom
settle_frame now r =
    if leb (length (alive r.players)) 1
    then finish FinishReason.hp_zero (survivor (alive r.players)) now r
    else if leb_ℤ max_frames r.frame
    then finish FinishReason.timeout (leader r.players) now r
    else push_snapshot r

unfoldable pub advance_one_frame : ℤ → BattleRoom → BattleRoom
advance_one_frame now r =
    settle_frame now (resolve_attacks (length r.players) 0 (record r { frame = r.frame +ℤ pos 1 }))

-- The variables of the loop in `ResolveReconnectGrace`.
pub record Census : Type 0 where
  pub offline_count : ℕ
  pub online_index : ℕ
  pub online_count : ℕ
  pub latest_offline_at : ℤ

unfoldable pub count_presence : ℕ → List PlayerRuntime → Census → Census
count_presence i [] c = c
count_presence i (q ∷ qs) c = count_presence (i + 1) qs (
    if q.online
    then record c { online_count = c.online_count + 1; online_index = i }
    else record c {
      offline_count = c.offline_count + 1;
      latest_offline_at = max_ℤ c.latest_offline_at q.offline_since_ms;
    })

abbrev pub no_census : Census
no_census = record {
  offline_count = 0;
  online_index = 0;
  online_count = 0;
  latest_offline_at = pos 0;
}

abbrev pub id_at : List PlayerSnapshot → ℕ → Bytes
id_at ps i = elim (get_elem? ps i) [ none ↦ [] | some p ↦ p.player_id ]

unfoldable pub resolve_reconnect_grace : ℤ → BattleRoom → BattleRoom × Bool
resolve_reconnect_grace now r =
    let c = count_presence 0 r.runtime no_census in
    if negate (eq_phase r.phase RoomPhase.playing)
      || negate (nat_eq (length r.runtime) (length r.players))
    then (r, false)
    else if nat_eq c.offline_count 0
    then (r, false)
    else if ltb_ℤ (now -ℤ c.latest_offline_at) reconnect_grace_ms
    then (r, false)
    else if ltb 0 c.online_count
    then (finish FinishReason.disconnect (id_at r.players c.online_index) now r, true)
    else (abort now r, true)

-- `for (i = 0; i < frames && phase_ == kPlaying; ++i)`, with `changed`.
unfoldable pub run_frames : ℕ → ℤ → BattleRoom → Bool → BattleRoom × Bool
run_frames zero now r changed = (r, changed)
run_frames (suc n) now r changed =
    let rest =
      run_frames n now
        (advance_one_frame now (record r { last_tick_ms = r.last_tick_ms +ℤ frame_interval_ms }))
        true in
    if eq_phase r.phase RoomPhase.playing then rest else (r, changed)

-- `Tick` from the computation of `elapsed_ms` on.
unfoldable pub catch_up : ℤ → BattleRoom → BattleRoom × Bool
catch_up now r =
    let frames = (now -ℤ r.last_tick_ms) /ℤ 100 in
    if leb_ℤ frames (pos 0)
    then (r, false)
    else if ltb_ℤ max_catch_up_frames frames
    then run_frames (to_nat max_catch_up_frames) now
        (record r {
          last_tick_ms = r.last_tick_ms +ℤ (frames -ℤ max_catch_up_frames) *ℤ frame_interval_ms;
        })
        false
    else run_frames (to_nat frames) now r false

abbrev pub pause : ℤ → BattleRoom × Bool → BattleRoom × Bool
pause now (r, true) = (r, true)
pause now (r, false) = (record r { last_tick_ms = now }, false)

unfoldable pub tick : ℤ → BattleRoom → BattleRoom × Bool
tick now r =
    if eq_phase r.phase RoomPhase.created || eq_phase r.phase RoomPhase.waiting
    then if leb_ℤ waiting_timeout_ms (now -ℤ r.created_at_ms)
      then (abort now r, true)
      else (r, false)
    else if negate (eq_phase r.phase RoomPhase.playing)
    then (r, false)
    else if is_waiting_for_reconnect r.runtime
    then pause now (resolve_reconnect_grace now r)
    else if ltb_ℤ now r.last_tick_ms
    then (r, false)
    else catch_up now r

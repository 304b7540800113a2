-- ===== src/Room/Battle/Commands.antt =====
-- src/room/battle_room.cpp: the requests of a room's players, `Join`, `SubmitInput` and
-- `SetPresence`. Each returns the room that the call leaves and its outcome.
use realtime_game_backend.Base.{
  ℕ, Bool, true, false, List, [], ◌∷◌, some, none, ◌&&◌, modify, set, get_elem?, if◌then◌else◌,
  negate,
}
use realtime_game_backend.Base.Int.{ℤ, pos}
use realtime_game_backend.Base.Bytes.{Bytes, bad_id}
use realtime_game_backend.Room.Types.{RoomPhase, InputKind, PlayerSnapshot, max_id_length, eq_phase}
use realtime_game_backend.Room.Battle.State.{
  BattleRoom, PlayerRuntime, push_snapshot, find_player, index_of, has_ended,
}

pub data JoinOutcome : Type 0 where
  ok not_a_member already_finished invalid_argument : JoinOutcome

pub data SubmitOutcome : Type 0 where
  accepted not_in_room not_playing already_finished invalid_argument : SubmitOutcome

pub data PresenceOutcome : Type 0 where
  ok not_a_member already_finished invalid_argument : PresenceOutcome

abbrev pub is_attack : InputKind → Bool
is_attack InputKind.attack = true
is_attack (InputKind.unknown n) = false

abbrev pub is_connected : List PlayerSnapshot → ℕ → Bool
is_connected ps i = elim (get_elem? ps i) [ none ↦ false | some p ↦ p.connected ]

unfoldable pub all_joined : List PlayerSnapshot → Bool
all_joined [] = true
all_joined (p ∷ ps) = p.connected && all_joined ps

abbrev pub connect : PlayerSnapshot → PlayerSnapshot
connect p = record p { connected = true }

-- From `player->connected = true` to the end of `Join`.
unfoldable pub admit : ℕ → ℤ → BattleRoom → BattleRoom
admit i now r =
    let players = modify r.players i connect in
    let phase = (if eq_phase r.phase RoomPhase.created then RoomPhase.waiting else r.phase) in
    push_snapshot (
      if all_joined players
      then record r {
        players = players;
        phase = RoomPhase.playing;
        started_at_ms = now;
        last_tick_ms = now;
        frame = pos 0;
      }
      else record r { players = players; phase = phase })

unfoldable pub join : Bytes → ℤ → BattleRoom → BattleRoom × JoinOutcome
unfolding bad_id
join id now r =
    if bad_id max_id_length id
    then (r, JoinOutcome.invalid_argument)
    else if has_ended r.phase
    then (r, JoinOutcome.already_finished)
    else elim (find_player r id) [
      | none ↦ (r, JoinOutcome.not_a_member)
      | some i ↦
          if is_connected r.players i then (r, JoinOutcome.ok) else (admit i now r, JoinOutcome.ok)
    ]

unfoldable pub submit_input : Bytes → InputKind → BattleRoom → BattleRoom × SubmitOutcome
unfolding bad_id
submit_input id kind r =
    if bad_id max_id_length id
    then (r, SubmitOutcome.invalid_argument)
    else if negate (is_attack kind)
    then (r, SubmitOutcome.invalid_argument)
    else if has_ended r.phase
    then (r, SubmitOutcome.already_finished)
    else if negate (eq_phase r.phase RoomPhase.playing)
    then (r, SubmitOutcome.not_playing)
    else elim (index_of r id) [
      | none ↦ (r, SubmitOutcome.not_in_room)
      | some i ↦ (record r { pending_attack = set r.pending_attack i true }, SubmitOutcome.accepted)
    ]

abbrev pub is_online : List PlayerRuntime → ℕ → Bool
is_online qs i = elim (get_elem? qs i) [ none ↦ false | some q ↦ q.online ]

abbrev pub set_online : Bool → PlayerSnapshot → PlayerSnapshot
set_online b p = record p { online = b }

abbrev pub came_online : PlayerRuntime
came_online = record { online = true; offline_since_ms = pos 0 }

abbrev pub went_offline : ℤ → PlayerRuntime
went_offline now = record { online = false; offline_since_ms = now }

-- The branches on `online` at the end of `SetPresence`.
unfoldable pub change_presence : ℕ → Bool → ℤ → BattleRoom → BattleRoom
change_presence i true now r = record r {
  runtime = set r.runtime i came_online;
  players = modify r.players i (set_online true);
}
change_presence i false now r =
    if is_online r.runtime i
    then push_snapshot (record r {
      runtime = set r.runtime i (went_offline now);
      players = modify r.players i (set_online false);
    })
    else r

unfoldable pub set_presence : Bytes → Bool → ℤ → BattleRoom → BattleRoom × PresenceOutcome
unfolding bad_id
set_presence id online now r =
    if bad_id max_id_length id
    then (r, PresenceOutcome.invalid_argument)
    else if has_ended r.phase
    then (r, PresenceOutcome.already_finished)
    else elim (index_of r id) [
      | none ↦ (r, PresenceOutcome.not_a_member)
      | some i ↦ (change_presence i online now r, PresenceOutcome.ok)
    ]

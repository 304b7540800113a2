-- ===== src/Room/Battle/State.antt =====
-- src/room/battle_room.hpp and the constructors and private helpers of src/room/battle_room.cpp:
-- one room's state, snapshots of it, and the two ways in which a game ends.
use realtime_game_backend.Base.{
  ℕ, suc, Bool, true, false, List, [], ◌∷◌, ◌++◌, map, Option, some, none, ◌||◌, ltb, length,
  replicate, if◌then◌else◌, negate,
}
use realtime_game_backend.Base.Int.{ℤ, pos, ◌-ℤ◌, ltb_ℤ}
use realtime_game_backend.Base.Bytes.{Bytes, ◌==◌, is_empty}
use realtime_game_backend.Room.Types.{
  RoomPhase, FinishReason, PlayerSnapshot, RoomSnapshot, RoomPlayerRecord, RoomSnapshotRecord,
  initial_hp, max_snapshot_history, result_retry_interval_ms, eq_phase,
}

pub record PlayerRuntime : Type 0 where
  pub online : Bool
  pub offline_since_ms : ℤ

-- `history` has its oldest snapshot first.
pub record BattleRoom : Type 0 where
  pub room_id : Bytes
  pub match_id : Bytes
  pub phase : RoomPhase
  pub finish_reason : FinishReason
  pub frame : ℤ
  pub players : List PlayerSnapshot
  pub runtime : List PlayerRuntime
  pub pending_attack : List Bool
  pub created_at_ms : ℤ
  pub started_at_ms : ℤ
  pub finished_at_ms : ℤ
  pub last_tick_ms : ℤ
  pub last_persist_attempt_ms : ℤ
  pub winner_id : Bytes
  pub player_count : ℤ
  pub history : List RoomSnapshot

abbrev pub snapshot : BattleRoom → RoomSnapshot
snapshot r = record {
  room_id = r.room_id;
  match_id = r.match_id;
  phase = r.phase;
  frame = r.frame;
  players = r.players;
  finish_reason = r.finish_reason;
  winner_id = r.winner_id;
  started_at_ms = r.started_at_ms;
  finished_at_ms = r.finished_at_ms;
}

-- while (history.size() > kMaxSnapshotHistory) history.pop_front();
unfoldable pub trim : List RoomSnapshot → List RoomSnapshot
trim [] = []
trim (s ∷ rest) =
    let popped = trim rest in
    if ltb max_snapshot_history (length (s ∷ rest)) then popped else s ∷ rest

unfoldable pub push_snapshot : BattleRoom → BattleRoom
push_snapshot r = record r { history = trim (r.history ++ snapshot r ∷ []) }

abbrev pub fresh_runtime : PlayerRuntime
fresh_runtime = record { online = true; offline_since_ms = pos 0 }

abbrev pub new_player : Bytes → PlayerSnapshot
new_player id = record { player_id = id; hp = initial_hp; connected = false; online = true }

-- BattleRoom(room_id, match_id, player_ids, now_ms)
unfoldable pub make_room : Bytes → Bytes → List Bytes → ℤ → BattleRoom
make_room room_id match_id player_ids now = push_snapshot (record {
  room_id = room_id;
  match_id = match_id;
  phase = RoomPhase.created;
  finish_reason = FinishReason.none;
  frame = pos 0;
  players = map new_player player_ids;
  runtime = replicate (length (map new_player player_ids)) fresh_runtime;
  pending_attack = replicate (length (map new_player player_ids)) false;
  created_at_ms = now;
  started_at_ms = pos 0;
  finished_at_ms = pos 0;
  last_tick_ms = pos 0;
  last_persist_attempt_ms = pos 0;
  winner_id = [];
  player_count = pos (length (map new_player player_ids));
  history = [];
})

abbrev pub restored_player : RoomPlayerRecord → PlayerSnapshot
restored_player p = record {
  player_id = p.player_id;
  hp = p.hp;
  connected = p.joined;
  online = true;
}

-- The room that `RestoreFrom` builds once the players have passed its tests.
unfoldable pub rebuild : RoomSnapshotRecord → ℤ → BattleRoom
rebuild rec now = push_snapshot (record {
  room_id = rec.room_id;
  match_id = rec.match_id;
  phase = rec.phase;
  finish_reason = rec.finish_reason;
  frame = rec.frame;
  players = restored_player rec.player_0 ∷ restored_player rec.player_1 ∷ [];
  runtime = fresh_runtime ∷ fresh_runtime ∷ [];
  pending_attack = false ∷ false ∷ [];
  created_at_ms = if ltb_ℤ (pos 0) rec.snapshot_at_ms then rec.snapshot_at_ms else now;
  started_at_ms = rec.started_at_ms;
  finished_at_ms = rec.finished_at_ms;
  last_tick_ms = now;
  last_persist_attempt_ms = now -ℤ result_retry_interval_ms;
  winner_id = rec.winner_id;
  player_count = pos 2;
  history = [];
})

-- The loops over the two players: an empty or a repeated identifier makes the record unusable.
unfoldable pub restore_from : RoomSnapshotRecord → ℤ → Option BattleRoom
restore_from rec now =
    if is_empty rec.player_0.player_id
    then none
    else if rec.player_0.player_id == rec.player_1.player_id
    then none
    else if is_empty rec.player_1.player_id
    then none
    else some (rebuild rec now)

-- `IndexOf`, from the index `i` on.
unfoldable pub index_from : ℕ → List PlayerSnapshot → Bytes → Option ℕ
index_from i [] id = none
index_from i (p ∷ ps) id = if p.player_id == id then some i else index_from (suc i) ps id

unfoldable pub index_of : BattleRoom → Bytes → Option ℕ
index_of r id = index_from 0 r.players id

-- `FindPlayer`: the pointer that it returns, as the index of what it points to.
unfoldable pub find_player : BattleRoom → Bytes → Option ℕ
unfolding index_of
find_player r id = index_of r id

unfoldable pub finish : FinishReason → Bytes → ℤ → BattleRoom → BattleRoom
finish reason winner_id now r = push_snapshot (record r {
  phase = RoomPhase.finishing;
  finish_reason = reason;
  winner_id = winner_id;
  finished_at_ms = now;
  last_persist_attempt_ms = pos 0;
})

unfoldable pub abort : ℤ → BattleRoom → BattleRoom
abort now r = push_snapshot (record r {
  phase = RoomPhase.aborted;
  finish_reason = FinishReason.aborted;
  winner_id = [];
  finished_at_ms = now;
})

unfoldable pub is_waiting_for_reconnect : List PlayerRuntime → Bool
is_waiting_for_reconnect [] = false
is_waiting_for_reconnect (q ∷ qs) = negate q.online || is_waiting_for_reconnect qs

-- phase == kFinishing || phase == kFinished || phase == kAborted
abbrev pub has_ended : RoomPhase → Bool
has_ended p =
    eq_phase p RoomPhase.finishing || eq_phase p RoomPhase.finished || eq_phase p RoomPhase.aborted

-- ===== src/Room/Snapshots.antt =====
-- src/room/room_snapshot_reader.cpp: the names of phases and reasons in the stored snapshots, and the
-- test that a stored snapshot must pass before a room is rebuilt from it.
use realtime_game_backend.Base.{
  ℕ, Bool, true, false, Option, some, none, ◌&&◌, ◌||◌, if◌then◌else◌, negate,
}
use realtime_game_backend.Base.Int.{pos, ltb_ℤ}
use realtime_game_backend.Base.Bytes.{Bytes, codes, ◌==◌, is_empty, bad_id}
use realtime_game_backend.Room.Types.{
  RoomPhase, FinishReason, RoomPlayerRecord, RoomSnapshotRecord, max_id_length, max_frames,
  initial_hp, eq_phase,
}

unfoldable pub parse_room_phase : Bytes → Option RoomPhase
parse_room_phase text =
    if text == codes "created"
    then some RoomPhase.created
    else if text == codes "waiting"
    then some RoomPhase.waiting
    else if text == codes "playing"
    then some RoomPhase.playing
    else if text == codes "finishing"
    then some RoomPhase.finishing
    else if text == codes "finished"
    then some RoomPhase.finished
    else if text == codes "aborted"
    then some RoomPhase.aborted
    else none

unfoldable pub parse_finish_reason : Bytes → Option FinishReason
parse_finish_reason text =
    if text == codes "none"
    then some FinishReason.none
    else if text == codes "hp_zero"
    then some FinishReason.hp_zero
    else if text == codes "timeout"
    then some FinishReason.timeout
    else if text == codes "aborted"
    then some FinishReason.aborted
    else none

-- The messages of `ValidateRoomSnapshot`, by what they are about.
pub data Problem : Type 0 where
  match_id room_id frame timestamp : Problem
  player_id hp : ℕ → Problem
  same_players nobody_joined winner no_reason : Problem

abbrev pub is_none : FinishReason → Bool
is_none FinishReason.none = true
is_none _ = false

-- A round of the loop over the players; `rest` is what follows it.
unfoldable pub validate_player : ℕ → RoomPlayerRecord → Option Problem → Option Problem
unfolding bad_id
validate_player i p rest =
    if bad_id max_id_length p.player_id
    then some (Problem.player_id i)
    else if ltb_ℤ p.hp (pos 0) || ltb_ℤ initial_hp p.hp
    then some (Problem.hp i)
    else rest

-- `ValidateRoomSnapshot` behind the loop over the players.
unfoldable pub validate_game : RoomSnapshotRecord → Option Problem
validate_game r =
    if r.player_0.player_id == r.player_1.player_id
    then some Problem.same_players
    else if (eq_phase r.phase RoomPhase.playing || eq_phase r.phase RoomPhase.finishing)
        && negate r.player_0.joined
        && negate r.player_1.joined
    then some Problem.nobody_joined
    else if negate (is_empty r.winner_id)
        && negate (r.winner_id == r.player_0.player_id)
        && negate (r.winner_id == r.player_1.player_id)
    then some Problem.winner
    else if (eq_phase r.phase RoomPhase.finished || eq_phase r.phase RoomPhase.aborted)
        && is_none r.finish_reason
    then some Problem.no_reason
    else none

-- `none` where the source returns the empty message.
unfoldable pub validate_room_snapshot : RoomSnapshotRecord → Option Problem
unfolding validate_player validate_game bad_id
validate_room_snapshot r =
    if bad_id max_id_length r.match_id
    then some Problem.match_id
    else if bad_id max_id_length r.room_id
    then some Problem.room_id
    else if ltb_ℤ r.frame (pos 0) || ltb_ℤ max_frames r.frame
    then some Problem.frame
    else if ltb_ℤ r.started_at_ms (pos 0) || ltb_ℤ r.finished_at_ms (pos 0)
    then some Problem.timestamp
    else validate_player 1 r.player_0 (validate_player 2 r.player_1 (validate_game r))

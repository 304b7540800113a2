-- ===== src/Room/Recovery.antt =====
-- A room that survives a restart: what MakeSnapshotRecord of room_manager.cpp writes, what
-- room_snapshot_reader.cpp accepts, and what BattleRoom::RestoreFrom makes of it.
use realtime_game_backend.Base.{
  ◌≡◌, ◌≢◌, ◌↔◌, refl, true, false, [], ◌∷◌, Option, some, none, arith, ℕ,
}
use realtime_game_backend.Base.Int.{ℤ, pos, ◌≤ℤ◌}
use realtime_game_backend.Base.Bytes.{◌==◌, is_empty}
use realtime_game_backend.Room.Types.{
  RoomPhase, FinishReason, PlayerSnapshot, RoomPlayerRecord, RoomSnapshotRecord, phase_name,
  reason_name, max_frames,
}
use realtime_game_backend.Room.Battle.State.{
  BattleRoom, restore_from, rebuild, push_snapshot, restored_player, snapshot,
}
use realtime_game_backend.Room.Battle.Bounds.{Sizes, HpInRange}
use realtime_game_backend.Room.Battle.Commands.{set_online}
use realtime_game_backend.Room.Manager.Ticking.{make_snapshot_record}
use realtime_game_backend.Room.Snapshots.{
  parse_room_phase, parse_finish_reason, validate_room_snapshot, validate_player, validate_game,
  Problem,
}

-- Every phase is read back from its stored name.
pub parse-phase_name : (p : RoomPhase) → parse_room_phase (phase_name p) ≡ some p
unfolding parse_room_phase phase_name ◌==◌
parse-phase_name RoomPhase.created = refl
parse-phase_name RoomPhase.waiting = refl
parse-phase_name RoomPhase.playing = refl
parse-phase_name RoomPhase.finishing = refl
parse-phase_name RoomPhase.finished = refl
parse-phase_name RoomPhase.aborted = refl

-- A reason is read back from its stored name exactly if it is not `disconnect`, whose name the
-- reader does not know.
pub parse-reason_name :
    (f : FinishReason)
    → (parse_finish_reason (reason_name f) ≡ some f) ↔ (f ≢ FinishReason.disconnect)
unfolding parse_finish_reason reason_name ◌==◌
parse-reason_name FinishReason.none = (λ e. λ d. cc, λ n. refl)
parse-reason_name FinishReason.hp_zero = (λ e. λ d. cc, λ n. refl)
parse-reason_name FinishReason.timeout = (λ e. λ d. cc, λ n. refl)
parse-reason_name FinishReason.aborted = (λ e. λ d. cc, λ n. refl)
parse-reason_name FinishReason.disconnect = (λ e. λ d. cc, λ n. absurd (n refl))

accepted_player :
    (i : ℕ) (p : RoomPlayerRecord) (rest : Option Problem)
    → validate_player i p rest ≡ none
    → (is_empty p.player_id ≡ false) × HpInRange (restored_player p) × (rest ≡ none)
unfolding validate_player
accepted_player i p rest h = (ground arith, (ground arith, ground arith), ground arith)

accepted_record :
    (rec : RoomSnapshotRecord)
    → validate_room_snapshot rec ≡ none
    → (validate_player 1 rec.player_0 (validate_player 2 rec.player_1 (validate_game rec)) ≡ none)
      × (pos 0 ≤ℤ rec.frame)
      × (rec.frame ≤ℤ max_frames)
unfolding validate_room_snapshot
accepted_record rec h = (ground arith, ground arith, ground arith)

distinct_players :
    (rec : RoomSnapshotRecord)
    → validate_game rec ≡ none
    → (rec.player_0.player_id == rec.player_1.player_id) ≡ false
unfolding validate_game
distinct_players rec h = ground arith

-- A snapshot record that passes the test of the reader always gives a room, with hit points and
-- frame counter within their bounds and per-player vectors of one element for each player.
pub restore_from-Sizes :
    (rec : RoomSnapshotRecord) (now : ℤ)
    → validate_room_snapshot rec ≡ none
    → (restore_from rec now ≡ some (rebuild rec now))
      × Sizes (rebuild rec now)
      × (pos 0 ≤ℤ (rebuild rec now).frame)
      × ((rebuild rec now).frame ≤ℤ max_frames)
unfolding restore_from rebuild push_snapshot
restore_from-Sizes rec now h =
    let (v, low, high) = accepted_record rec h in
    let (id_0, hp_0, v') = accepted_player 1 rec.player_0 _ v in
    let (id_1, hp_1, v'') = accepted_player 2 rec.player_1 _ v' in
    let apart = distinct_players rec v'' in
    (
      ground arith,
      record { runtime_size = refl; pending_size = refl; hps = (hp_0, (hp_1, tt)) },
      low,
      high,
    )

-- What a room of two players shows after a restart: all it showed before, but that everybody counts
-- as online.
pub snapshot-rebuild :
    (r : BattleRoom) (p q : PlayerSnapshot) (written now : ℤ)
    → r.players ≡ p ∷ q ∷ []
    → snapshot (rebuild (make_snapshot_record r written) now)
      ≡ record (snapshot r) { players = set_online true p ∷ set_online true q ∷ [] }
unfolding rebuild make_snapshot_record push_snapshot
snapshot-rebuild r p q written now e = ground arith

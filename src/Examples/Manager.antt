-- ===== src/Examples/Manager.antt =====
-- The room manager, the recovery of rooms and their reader at concrete inputs.
use realtime_game_backend.Base.{
  ◌≡◌, ◌↔◌, ◌≢◌, refl, ℕ, zero, suc, true, false, [], ◌∷◌, some, none, Option,
}
use realtime_game_backend.Base.Int.{pos, ◌≤ℤ◌}
use realtime_game_backend.Base.Bytes.{Bytes, codes, ◌==◌}
use realtime_game_backend.Base.Dict.{find, emplace, map_found}
use realtime_game_backend.Room.Types.{
  RoomPhase, FinishReason, MatchResultRecord, RoomSnapshotRecord, max_frames, reason_name,
}
use realtime_game_backend.Room.Battle.State.{
  BattleRoom, snapshot, push_snapshot, make_room, rebuild, restore_from,
}
use realtime_game_backend.Room.Battle.Commands.{set_online}
use realtime_game_backend.Room.Battle.Results.{result}
use realtime_game_backend.Room.Manager.State.{
  CreateOutcome, RoomManager, empty_manager, any_bad_id, create_new, create_known, create,
  join_room,
}
use realtime_game_backend.Room.Manager.Ticking.{
  WriteStatus, Writers, make_snapshot_record, tick_locked, write_result, persist_one,
  abort_unfinished_games,
}
use realtime_game_backend.Room.Manager.Queries.{unfinished_game_count}
use realtime_game_backend.Room.Manager.Steps.{Step, Reach}
use realtime_game_backend.Room.Snapshots.{parse_finish_reason, validate_room_snapshot}
use realtime_game_backend.Room.Battle.Bounds.{Sizes}
use realtime_game_backend.Room.Manager.Index.{IsIndexed}
use realtime_game_backend.Room.Manager.Safety.{Reach-IsIndexed}
use realtime_game_backend.Room.Manager.Guarantees.{
  create_again, persist_one-after_write, after_write,
}
use realtime_game_backend.Room.Manager.Restart.{
  RoomSnapshotRow, RestoreReport, restore, restore-IsIndexed, restore_rows, restore_row, take_in,
}
use realtime_game_backend.Room.Manager.Counts.{abort_unfinished_games_lem, after_shutdown}
use realtime_game_backend.Room.Recovery.{restore_from-Sizes, snapshot-rebuild, parse-reason_name}

abbrev pub anna : Bytes
anna = codes "a"

abbrev pub ben : Bytes
ben = codes "b"

abbrev created_manager : RoomManager
created_manager = (create (codes "m") (anna ∷ ben ∷ []) (pos 1000) (codes "r") empty_manager).0

abbrev anna_joined : RoomManager
anna_joined = (join_room (codes "r") anna (pos 1100) created_manager).0

abbrev both_joined : RoomManager
both_joined = (join_room (codes "r") ben (pos 1200) anna_joined).0

abbrev ticked_manager : RoomManager
ticked_manager = (tick_locked true (pos 1500) both_joined).0

created-Reach : Reach empty_manager created_manager
unfolding find
created-Reach =
    Reach.later Reach.here (Step.creates (codes "m") (anna ∷ ben ∷ []) (pos 1000) (codes "r") refl)

ticked-Reach : Reach empty_manager ticked_manager
ticked-Reach =
    Reach.later
      (Reach.later (Reach.later created-Reach (Step.joins (codes "r") anna (pos 1100)))
        (Step.joins (codes "r") ben (pos 1200)))
      (Step.ticks true (pos 1500))

Reach-IsIndexed_example : IsIndexed ticked_manager
Reach-IsIndexed_example = Reach-IsIndexed ticked_manager ticked-Reach

abbrev pub new_room : BattleRoom
new_room = make_room (codes "r") (codes "m") (anna ∷ ben ∷ []) (pos 1000)

create_again_example :
    create (codes "m") (anna ∷ ben ∷ []) (pos 1300) (codes "x") created_manager ≡ (
      created_manager,
      record { outcome = CreateOutcome.ok; room = some (codes "r", snapshot new_room) },
    )
unfolding create find any_bad_id create_known create_new emplace ◌==◌ make_room push_snapshot
create_again_example =
    create_again created_manager (codes "r") new_room (anna ∷ ben ∷ []) (pos 1300) (codes "x")
      (Reach-IsIndexed created_manager created-Reach) refl refl refl refl

-- A store that counts its calls and takes the first result only.
abbrev counting_writers : Writers ℕ
counting_writers = record {
  write = some (λ m n. elim n [
    | zero ↦ (WriteStatus.ok, 1)
    | suc k ↦ (WriteStatus.unavailable, suc (suc k))
  ]);
  save = none;
}

abort_unfinished_games_example :
    (unfinished_game_count (abort_unfinished_games counting_writers (pos 1300) created_manager 0).0
      ≡ 0)
    × (find
          (codes "r")
          (abort_unfinished_games counting_writers (pos 1300) created_manager 0).0.rooms
        ≡ map_found (after_shutdown (pos 1300)) (find (codes "r") created_manager.rooms))
abort_unfinished_games_example =
    abort_unfinished_games_lem counting_writers (pos 1300) created_manager 0 (codes "r")

abbrev finishing_room : BattleRoom
finishing_room = record new_room {
  phase = RoomPhase.finishing;
  finish_reason = FinishReason.timeout;
  started_at_ms = pos 1200;
  finished_at_ms = pos 9000;
}

abbrev finishing_manager : RoomManager
finishing_manager = record empty_manager {
  rooms = (codes "r", finishing_room) ∷ [];
  match_index = (codes "m", codes "r") ∷ [];
}

abbrev timeout_result : MatchResultRecord
timeout_result = record {
  match_id = codes "m";
  room_id = codes "r";
  winner_id = [];
  player_count = pos 2;
  started_at_ms = pos 1200;
  finished_at_ms = pos 9000;
}

persist_one-after_write_example :
    (find
        (codes "r")
        (persist_one counting_writers (codes "r") (pos 9100) finishing_manager 0).0.rooms
      ≡ some (
          after_write (write_result counting_writers timeout_result 0).0 (pos 9100) finishing_room))
    × ((persist_one counting_writers (codes "r") (pos 9100) finishing_manager 0).1
        ≡ (write_result counting_writers timeout_result 0).1)
unfolding find ◌==◌ result make_room push_snapshot
persist_one-after_write_example =
    persist_one-after_write counting_writers finishing_manager (codes "r") finishing_room
      timeout_result (pos 9100) 0 refl refl refl

abbrev pub stored_room : RoomSnapshotRecord
stored_room =
    make_snapshot_record
      (record new_room {
        phase = RoomPhase.playing;
        frame = pos 4;
        players =
            record { player_id = anna; hp = pos 90; connected = true; online = true }
            ∷ record { player_id = ben; hp = pos 80; connected = true; online = false }
            ∷ [];
        started_at_ms = pos 1200;
      })
      (pos 1600)

restore_from-Sizes_example :
    (restore_from stored_room (pos 5000) ≡ some (rebuild stored_room (pos 5000)))
    × Sizes (rebuild stored_room (pos 5000))
    × (pos 0 ≤ℤ (rebuild stored_room (pos 5000)).frame)
    × ((rebuild stored_room (pos 5000)).frame ≤ℤ max_frames)
unfolding validate_room_snapshot make_snapshot_record make_room push_snapshot ◌==◌
restore_from-Sizes_example = restore_from-Sizes stored_room (pos 5000) refl

parse-reason_name_example :
    (parse_finish_reason (reason_name FinishReason.disconnect) ≡ some FinishReason.disconnect)
    ↔ (FinishReason.disconnect ≢ FinishReason.disconnect)
parse-reason_name_example = parse-reason_name FinishReason.disconnect

abbrev two_player_room : BattleRoom
two_player_room = record new_room {
  players =
      record { player_id = anna; hp = pos 90; connected = true; online = true }
      ∷ record { player_id = ben; hp = pos 80; connected = true; online = false }
      ∷ [];
}

snapshot-rebuild_example :
    snapshot (rebuild (make_snapshot_record two_player_room (pos 1600)) (pos 5000))
    ≡ record (snapshot two_player_room) {
      players =
          set_online true
            (record { player_id = anna; hp = pos 90; connected = true; online = true })
          ∷ set_online true
              (record { player_id = ben; hp = pos 80; connected = true; online = false })
          ∷ [];
    }
snapshot-rebuild_example =
    snapshot-rebuild two_player_room
      (record { player_id = anna; hp = pos 90; connected = true; online = true })
      (record { player_id = ben; hp = pos 80; connected = true; online = false }) (pos 1600)
      (pos 5000) refl

abbrev pub no_save : Option (RoomSnapshotRecord → ℕ → WriteStatus × ℕ)
no_save = none

abbrev pub good_row : RoomSnapshotRow
good_row = record { row = stored_room; problem = [] }

restore-IsIndexed_example :
    IsIndexed
      (restore no_save (some (some (good_row ∷ good_row ∷ []))) (pos 5000) created_manager 0).0.0
restore-IsIndexed_example =
    restore-IsIndexed no_save (some (some (good_row ∷ good_row ∷ []))) (pos 5000) created_manager 0
      (Reach-IsIndexed created_manager created-Reach)

abbrev pub restarted : (RoomManager × ℕ) × RestoreReport
restarted = restore no_save (some (some (good_row ∷ good_row ∷ []))) (pos 5000) empty_manager 0

-- The second row of a room is passed over.
restarted_once : (restarted.1.restored ≡ 1) × (restarted.1.rejected ≡ 0)
unfolding restore restore_rows restore_row take_in restore_from make_snapshot_record make_room
    push_snapshot ◌==◌ rebuild find emplace
restarted_once = (refl, refl)

-- ===== src/Examples/Restart.antt =====
-- The restart of the room service of src/room/room_manager.cpp, and calls after it.
use realtime_game_backend.Base.{arith, map, ◌≡◌, refl, true, false, [], ◌∷◌, some, none}
use realtime_game_backend.Base.Int.{pos, ◌+ℤ◌, ◌-ℤ◌, ◌*ℤ◌, ◌/ℤ◌}
use realtime_game_backend.Base.Bytes.{codes, ◌==◌, bad_id}
use realtime_game_backend.Base.Dict.{find, emplace, erase, assign, retain, map_values, update}
use realtime_game_backend.Room.Types.{RoomSnapshotRecord}
use realtime_game_backend.Room.Battle.State.{
  trim, push_snapshot, make_room, rebuild, restore_from, index_from, index_of, find_player,
  is_waiting_for_reconnect, new_player,
}
use realtime_game_backend.Room.Battle.Commands.{all_joined, admit, join}
use realtime_game_backend.Room.Battle.Frames.{
  hit, resolve_attack, resolve_attacks, alive, settle_frame, advance_one_frame, run_frames,
  catch_up, tick,
}
use realtime_game_backend.Room.Battle.Results.{
  is_expired, widen, snapshot_frame_range, max_snapshot_frame, snapshots_after, collect,
}
use realtime_game_backend.Room.Manager.State.{
  RoomManager, empty_manager, any_bad_id, join_room, reap_matches, reap_expired, room_of_match,
}
use realtime_game_backend.Room.Manager.Ticking.{
  should_snapshot, make_snapshot_record, due_snapshots, due_results, tick_locked,
}
use realtime_game_backend.Room.Manager.Queries.{range_of, get_snapshots_since}
use realtime_game_backend.Room.Manager.Steps.{Step, Reach}
use realtime_game_backend.Room.Snapshots.{validate_room_snapshot}
use realtime_game_backend.Room.Battle.Resume.{Consecutive}
use realtime_game_backend.Room.Battle.Bounds.{make_room-IsBounded}
use realtime_game_backend.Room.Battle.Verdict.{make_room-HasVerdict}
use realtime_game_backend.Room.Battle.Timeline.{make_room-IsTimeline}
use realtime_game_backend.Room.Manager.Restart.{
  rejected_record, RoomSnapshotRow, restore, restore_rows, restore_row, take_in,
}
use realtime_game_backend.Room.Manager.Restored.{
  IsHealthy, IsSound, IsSoundLoad, snapshot-IsSound, rejected-IsSound,
}
use realtime_game_backend.Room.Manager.Guarantees.{get_snapshots_since-Consecutive, Reach-IsHealthy}
use realtime_game_backend.Examples.Manager.{
  anna, new_room, ben, stored_room, no_save, good_row, restarted,
}

stored_room-IsSound : IsSound stored_room
unfolding validate_room_snapshot make_snapshot_record make_room push_snapshot ◌==◌
stored_room-IsSound = record {
  accepted = refl;
  not_started = ground arith;
  started = λ e. refl;
  in_time = λ e. omega arith;
  verdict = (refl, refl);
}

rows-IsSoundLoad : IsSoundLoad (some (some (good_row ∷ good_row ∷ [])))
rows-IsSoundLoad = (λ e. stored_room-IsSound, (λ e. stored_room-IsSound, tt))

-- The rows that the service writes for a new room, and for a row that it rejects.
new_room-IsHealthy : IsHealthy new_room
new_room-IsHealthy = record {
  bounded = make_room-IsBounded (codes "r") (codes "m") (anna ∷ ben ∷ []) (pos 1000);
  verdict = make_room-HasVerdict (codes "r") (codes "m") (anna ∷ ben ∷ []) (pos 1000);
  timeline = make_room-IsTimeline (codes "r") (codes "m") (anna ∷ ben ∷ []) (pos 1000);
}

own_row-IsSound : IsSound (make_snapshot_record new_room (pos 1050))
unfolding validate_room_snapshot make_snapshot_record make_room push_snapshot ◌==◌
own_row-IsSound =
    snapshot-IsSound new_room (new_player anna) (new_player ben) (pos 1050) refl new_room-IsHealthy
      refl

rejected_row-IsSound : IsSound (rejected_record (pos 5000) stored_room)
unfolding validate_room_snapshot make_snapshot_record make_room push_snapshot ◌==◌ rejected_record
rejected_row-IsSound = rejected-IsSound stored_room (pos 5000) refl

-- The restarted manager runs three frames.
abbrev served : RoomManager
served = (tick_locked true (pos 5300) restarted.0.0).0

served-Reach : Reach restarted.0.0 served
served-Reach = Reach.later Reach.here (Step.ticks true (pos 5300))

get_snapshots_since-Consecutive_example :
    Consecutive
      (pos 4)
      (get_snapshots_since (codes "r") (pos 4) (pos 5400) served).1.snapshots
      (get_snapshots_since (codes "r") (pos 4) (pos 5400) served).1.latest_frame
unfolding get_snapshots_since range_of room_of_match reap_expired reap_matches find retain
    tick_locked map_values restore restore_rows restore_row take_in restore_from rebuild
    make_snapshot_record emplace ◌==◌ update is_expired tick make_room push_snapshot trim assign
    erase ◌*ℤ◌ ◌+ℤ◌ ◌-ℤ◌ ◌/ℤ◌ advance_one_frame alive catch_up run_frames is_waiting_for_reconnect
    settle_frame resolve_attacks resolve_attack hit snapshot_frame_range max_snapshot_frame
    due_snapshots due_results should_snapshot widen
get_snapshots_since-Consecutive_example =
    get_snapshots_since-Consecutive no_save (some (some (good_row ∷ good_row ∷ []))) (pos 5000) 0
      served (codes "r") (pos 4) (pos 5400) rows-IsSoundLoad served-Reach refl

Reach-IsHealthy_example : IsHealthy (rebuild stored_room (pos 5000))
unfolding restore restore_rows restore_row take_in restore_from make_snapshot_record make_room
    push_snapshot ◌==◌ rebuild find emplace
Reach-IsHealthy_example =
    Reach-IsHealthy no_save (some (some (good_row ∷ good_row ∷ []))) (pos 5000) 0 restarted.0.0
      (codes "r") (rebuild stored_room (pos 5000)) rows-IsSoundLoad Reach.here refl

-- A row that the reader accepts and that no room writes: a game at frame 50 that one player never joined.
abbrev half_joined : RoomSnapshotRecord
half_joined = record stored_room {
  frame = pos 50;
  player_1 = record { player_id = ben; joined = false; hp = pos 100 };
}

abbrev half_joined_row : RoomSnapshotRow
half_joined_row = record { row = half_joined; problem = [] }

abbrev half_restarted : RoomManager
half_restarted =
    (restore no_save (some (some (half_joined_row ∷ []))) (pos 5000) empty_manager 0).0.0

abbrev joined_late : RoomManager
joined_late = (join_room (codes "r") ben (pos 5050) half_restarted).0

-- When the other player joins, the game starts again at frame 0, and a client is told of frame 50.
joined_late_answer :
    (validate_room_snapshot half_joined ≡ none)
    × ((get_snapshots_since (codes "r") (pos 0) (pos 5060) joined_late).1.latest_frame ≡ pos 0)
    × (map
          (λ t. t.frame)
          (get_snapshots_since (codes "r") (pos 0) (pos 5060) joined_late).1.snapshots
        ≡ pos 50 ∷ [])
unfolding validate_room_snapshot get_snapshots_since range_of room_of_match reap_expired
    reap_matches find retain restore restore_rows restore_row take_in restore_from rebuild
    make_snapshot_record emplace ◌==◌ update is_expired make_room push_snapshot trim join_room join
    admit all_joined find_player index_of index_from ◌+ℤ◌ ◌-ℤ◌ snapshot_frame_range
    max_snapshot_frame widen bad_id any_bad_id snapshots_after collect
joined_late_answer = (refl, refl, refl)

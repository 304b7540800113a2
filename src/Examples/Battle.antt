-- ===== src/Examples/Battle.antt =====
-- One game of battle_room.cpp, played through.
use realtime_game_backend.Base.{
  ◌≡◌, ◌≢◌, refl, ℕ, zero, suc, ◌+◌, ◌*◌, true, false, List, [], ◌∷◌, some, arith,
}
use realtime_game_backend.Base.Int.{pos, ◌+ℤ◌, ◌-ℤ◌, ◌*ℤ◌, ◌/ℤ◌}
use realtime_game_backend.Base.Bytes.{Bytes, codes, ◌==◌}
use realtime_game_backend.Room.Types.{RoomPhase, InputKind, PlayerSnapshot, MatchResultRecord}
use realtime_game_backend.Room.Battle.State.{
  BattleRoom, trim, push_snapshot, make_room, index_from, index_of, find_player, finish,
  is_waiting_for_reconnect,
}
use realtime_game_backend.Room.Battle.Commands.{all_joined, admit, join, submit_input}
use realtime_game_backend.Room.Battle.Frames.{
  hit, resolve_attack, resolve_attacks, alive, settle_frame, advance_one_frame, run_frames,
  catch_up, tick,
}
use realtime_game_backend.Room.Battle.Results.{
  mark_result_persisted, result, widen, snapshot_frame_range, max_snapshot_frame, snapshots_after,
}
use realtime_game_backend.Room.Battle.Calls.{Call, step, run}
use realtime_game_backend.Room.Battle.Bounds.{IsBounded, run-IsBounded}
use realtime_game_backend.Room.Battle.Verdict.{HasVerdict, run-HasVerdict}
use realtime_game_backend.Room.Battle.Timeline.{IsTimeline, run-IsTimeline}
use realtime_game_backend.Room.Battle.Lifecycle.{result-run}
use realtime_game_backend.Room.Battle.Duel.{advance_one_frame-judge, judge, struck, exchange}
use realtime_game_backend.Room.Battle.Clock.{CaughtUp, tick-CaughtUp}
use realtime_game_backend.Room.Battle.Ending.{run_frames-over}
use realtime_game_backend.Room.Battle.Resume.{Consecutive, snapshots_after-Consecutive}

abbrev pub anna : Bytes
anna = codes "a"

abbrev pub ben : Bytes
ben = codes "b"

abbrev new_room : BattleRoom
new_room = make_room (codes "r") (codes "m") (anna ∷ ben ∷ []) (pos 1000)

abbrev start : List Call
start = Call.joins anna (pos 1100) ∷ Call.joins ben (pos 1200) ∷ []

abbrev playing_room : BattleRoom
playing_room = run new_room start

-- Frames in which Anna strikes, at the given hundreds of milliseconds.
abbrev strikes : ℕ → ℕ → List Call
strikes zero at = []
strikes (suc n) at =
    Call.submits anna InputKind.attack ∷ Call.ticks (pos (100 * at)) ∷ strikes n (at + 1)

abbrev won_room : BattleRoom
won_room = run playing_room (strikes 10 13)

playing_phase : playing_room.phase ≡ RoomPhase.playing
unfolding run step join make_room push_snapshot trim index_of index_from ◌==◌ admit all_joined
    finish find_player
playing_phase = refl

-- Ten strikes win the game, and its result names the winner.
won :
    (won_room.phase ≡ RoomPhase.finishing) × (won_room.winner_id ≡ anna) × (won_room.frame ≡ pos 10)
unfolding run step join make_room push_snapshot trim index_of index_from ◌==◌ admit all_joined
    finish find_player tick submit_input is_waiting_for_reconnect catch_up ◌/ℤ◌ ◌-ℤ◌ ◌*ℤ◌ run_frames
    advance_one_frame settle_frame alive resolve_attacks resolve_attack hit ◌+ℤ◌
    snapshot_frame_range max_snapshot_frame snapshots_after result mark_result_persisted
won = (refl, refl, refl)

abbrev won_result : MatchResultRecord
won_result = record {
  match_id = codes "m";
  room_id = codes "r";
  winner_id = anna;
  player_count = pos 2;
  started_at_ms = pos 1200;
  finished_at_ms = pos 2200;
}

result-run_example :
    result (run won_room (Call.ticks (pos 2300) ∷ Call.persists ∷ [])) ≡ some won_result
unfolding run step join make_room push_snapshot trim index_of index_from ◌==◌ admit all_joined
    finish find_player tick submit_input is_waiting_for_reconnect catch_up ◌/ℤ◌ ◌-ℤ◌ ◌*ℤ◌ run_frames
    advance_one_frame settle_frame alive resolve_attacks resolve_attack hit ◌+ℤ◌
    snapshot_frame_range max_snapshot_frame snapshots_after result mark_result_persisted
result-run_example =
    result-run won_room (Call.ticks (pos 2300) ∷ Call.persists ∷ []) won_result refl

run-IsBounded_example : IsBounded playing_room
run-IsBounded_example = run-IsBounded (codes "r") (codes "m") (anna ∷ ben ∷ []) (pos 1000) start

run-HasVerdict_example : HasVerdict playing_room
run-HasVerdict_example = run-HasVerdict (codes "r") (codes "m") (anna ∷ ben ∷ []) (pos 1000) start

run-IsTimeline_example : IsTimeline playing_room
run-IsTimeline_example = run-IsTimeline (codes "r") (codes "m") (anna ∷ ben ∷ []) (pos 1000) start

abbrev joined : Bytes → PlayerSnapshot
joined id = record { player_id = id; hp = pos 100; connected = true; online = true }

advance_one_frame-judge_example :
    advance_one_frame (pos 1300) playing_room
    ≡ judge
        (pos 1300)
        (struck false (joined anna))
        (struck false (joined ben))
        (exchange playing_room (joined anna) (joined ben) false false)
unfolding run step join make_room push_snapshot find_player index_from ◌==◌ admit all_joined
advance_one_frame-judge_example =
    advance_one_frame-judge (pos 1300) playing_room (joined anna) (joined ben) false false refl refl

tick-CaughtUp_example : CaughtUp (pos 1500) playing_room (tick (pos 1500) playing_room).0
unfolding is_waiting_for_reconnect run step join make_room push_snapshot find_player index_from ◌==◌
    admit all_joined
tick-CaughtUp_example = tick-CaughtUp (pos 1500) playing_room playing_phase refl (omega arith)

run_frames-over_example : (run_frames 600 (pos 1300) playing_room false).0.phase ≢ RoomPhase.playing
unfolding run step join make_room push_snapshot trim index_of index_from ◌==◌ admit all_joined
    finish find_player tick submit_input is_waiting_for_reconnect catch_up ◌/ℤ◌ ◌-ℤ◌ ◌*ℤ◌ run_frames
    advance_one_frame settle_frame alive resolve_attacks resolve_attack hit ◌+ℤ◌
    snapshot_frame_range max_snapshot_frame snapshots_after result mark_result_persisted
run_frames-over_example =
    run_frames-over 600 (pos 1300) playing_room false
      (run-IsBounded (codes "r") (codes "m") (anna ∷ ben ∷ []) (pos 1000) start) (omega arith)

abbrev later_room : BattleRoom
later_room = run playing_room (Call.ticks (pos 1500) ∷ [])

later-IsTimeline : IsTimeline later_room
unfolding run make_room
later-IsTimeline =
    run-IsTimeline (codes "r") (codes "m") (anna ∷ ben ∷ []) (pos 1000)
      (Call.joins anna (pos 1100) ∷ Call.joins ben (pos 1200) ∷ Call.ticks (pos 1500) ∷ [])

snapshots_after-Consecutive_example :
    Consecutive (pos 1) (snapshots_after (pos 1) later_room) later_room.frame
unfolding run step join make_room push_snapshot trim index_of index_from ◌==◌ admit all_joined
    finish find_player tick submit_input is_waiting_for_reconnect catch_up ◌/ℤ◌ ◌-ℤ◌ ◌*ℤ◌ run_frames
    advance_one_frame settle_frame alive resolve_attacks resolve_attack hit ◌+ℤ◌
    snapshot_frame_range max_snapshot_frame snapshots_after result mark_result_persisted widen
snapshots_after-Consecutive_example =
    snapshots_after-Consecutive (pos 1) later_room later-IsTimeline (omega arith) (omega arith)

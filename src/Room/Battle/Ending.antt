-- ===== src/Room/Battle/Ending.antt =====
-- Every game of battle_room.cpp ends: the frame limit stops it.
use realtime_game_backend.Base.{ℕ, ◌≢◌, Bool, ap, ◌∙◌}
use realtime_game_backend.Base.Int.{ℤ, pos, ◌+ℤ◌, ◌≤ℤ◌, int_laws, parts_of_eq}
use realtime_game_backend.Room.Types.{RoomPhase, max_frames}
use realtime_game_backend.Room.Battle.State.{BattleRoom}
use realtime_game_backend.Room.Battle.Frames.{run_frames}
use realtime_game_backend.Room.Battle.Preserved.{run_frames_rule}
use realtime_game_backend.Room.Battle.Bounds.{IsBounded, bounds}
use realtime_game_backend.Room.Battle.Clock.{run_frames-Ran}

-- A game whose state is within its bounds is over once enough frames have been run to reach
-- `max_frames`, whatever the players do not do.
pub run_frames-over :
    (n : ℕ) (now : ℤ) (r : BattleRoom) (changed : Bool)
    → IsBounded r
    → max_frames ≤ℤ r.frame +ℤ pos n
    → (run_frames n now r changed).0.phase ≢ RoomPhase.playing
run_frames-over n now r changed v enough p =
    let ran = run_frames-Ran n now r changed in
    let v' = run_frames_rule bounds n now r changed v in
    absurd (
      omega (
        int_laws,
        v'.frame_room p,
        parts_of_eq _ _ (ran.frame ∙ ap (λ (k : ℕ). r.frame +ℤ pos k) (ran.all_run p)),
      ))

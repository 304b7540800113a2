-- ===== src/Room/Battle/Calls.antt =====
-- The calls that a room's owner makes, as values, and what any sequence of them does to a room.
use realtime_game_backend.Base.{Bool, List, [], ◌∷◌, if◌then◌else◌}
use realtime_game_backend.Base.Int.{ℤ}
use realtime_game_backend.Base.Bytes.{Bytes}
use realtime_game_backend.Room.Types.{InputKind}
use realtime_game_backend.Room.Battle.State.{BattleRoom, abort, has_ended}
use realtime_game_backend.Room.Battle.Commands.{join, submit_input, set_presence}
use realtime_game_backend.Room.Battle.Frames.{tick}
use realtime_game_backend.Room.Battle.Results.{mark_result_persisted, mark_result_failed}

pub data Call : Type 0 where
  joins : Bytes → ℤ → Call
  submits : Bytes → InputKind → Call
  sets_presence : Bytes → Bool → ℤ → Call
  ticks : ℤ → Call
  persists : Call
  fails : ℤ → Call
  aborts : ℤ → Call

-- The manager aborts the rooms whose game has not ended, and no others.
unfoldable pub abort_unfinished : ℤ → BattleRoom → BattleRoom
abort_unfinished now r = if has_ended r.phase then r else abort now r

unfoldable pub step : BattleRoom → Call → BattleRoom
step r (joins id now) = (join id now r).0
step r (submits id kind) = (submit_input id kind r).0
step r (sets_presence id online now) = (set_presence id online now r).0
step r (ticks now) = (tick now r).0
step r persists = mark_result_persisted r
step r (fails now) = mark_result_failed now r
step r (aborts now) = abort_unfinished now r

unfoldable pub run : BattleRoom → List Call → BattleRoom
run r [] = r
run r (c ∷ cs) = run (step r c) cs

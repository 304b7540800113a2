-- ===== src/Room/Battle/Lifecycle.antt =====
-- The order of the phases of battle_room.cpp, and the result of a game once it is fixed.
use realtime_game_backend.Base.{◌≡◌, refl, ◌⊎◌, List, arith, some}
use realtime_game_backend.Room.Types.{RoomPhase, MatchResultRecord}
use realtime_game_backend.Room.Battle.State.{BattleRoom}
use realtime_game_backend.Room.Battle.Results.{result}
use realtime_game_backend.Room.Battle.Calls.{Call, run}
use realtime_game_backend.Room.Battle.Preserved.{Preserved, run_rule}

-- The edges of the phase diagram.
pub data Edge : RoomPhase → RoomPhase → Type 0 where
  first_join : Edge RoomPhase.created RoomPhase.waiting
  all_here : Edge RoomPhase.waiting RoomPhase.playing
  game_over : Edge RoomPhase.playing RoomPhase.finishing
  stored : Edge RoomPhase.finishing RoomPhase.finished
  created_aborted : Edge RoomPhase.created RoomPhase.aborted
  waiting_aborted : Edge RoomPhase.waiting RoomPhase.aborted
  playing_aborted : Edge RoomPhase.playing RoomPhase.aborted

-- A path in the diagram, of any length.
pub data Leads (p : RoomPhase) : RoomPhase → Type 0 where
  here : Leads p p
  next : {q s : RoomPhase} → Leads p q → Edge q s → Leads p s

abbrev pub Follows : RoomPhase → BattleRoom → Type 0
Follows p r = Leads p r.phase

final_stays :
    {p q : RoomPhase} → Leads p q → (p ≡ RoomPhase.finished) ⊎ (p ≡ RoomPhase.aborted) → q ≡ p
final_stays here f = refl
final_stays (next l e) f = absurd (no_edge e (rw (final_stays l f) f))
  where
    no_edge : {q s : RoomPhase} → Edge q s → ¬ ((q ≡ RoomPhase.finished) ⊎ (q ≡ RoomPhase.aborted))
    no_edge first_join = ground arith
    no_edge all_here = ground arith
    no_edge game_over = ground arith
    no_edge stored = ground arith
    no_edge created_aborted = ground arith
    no_edge waiting_aborted = ground arith
    no_edge playing_aborted = ground arith

abbrev HasResult : MatchResultRecord → BattleRoom → Type 0
HasResult m r = result r ≡ some m

results : (m : MatchResultRecord) → Preserved (HasResult m)
unfolding result
results m = record {
  clock = λ t r h. h;
  frame = λ now r p h. ground arith;
  disconnect = λ i now r p h. ground arith;
  stopped = λ now r e h. ground arith;
  admitted = λ id i now r f e c h. ground arith;
  pending = λ i r p h. ground arith;
  presence = λ i online now r e h. ground arith;
  persisted = λ r p h. ground arith;
  failed = λ now r h. h;
}

-- Once a game has a result, no call changes it: its winner, its players' number and its times stay.
pub result-run :
    (r : BattleRoom) (cs : List Call) (m : MatchResultRecord)
    → result r ≡ some m
    → result (run r cs) ≡ some m
result-run r cs m h = run_rule (results m) r cs h

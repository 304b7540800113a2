-- ===== src/Room/Battle/Preserved.antt =====
-- An invariant of battle_room.cpp holds after every call if a few changes keep it: the places
-- where the calls of a room write to it.
use realtime_game_backend.Base.{
  ℕ, zero, suc, ◌≡◌, inl, inr, List, [], ◌∷◌, Bool, true, false, some, arith, set, Bool-cases,
  Option-cases,
}
use realtime_game_backend.Base.Int.{ℤ, ◌+ℤ◌, ◌-ℤ◌, ◌*ℤ◌, ◌/ℤ◌, to_nat}
use realtime_game_backend.Base.Bytes.{Bytes}
use realtime_game_backend.Room.Types.{
  RoomPhase, FinishReason, InputKind, eq_phase, frame_interval_ms, max_catch_up_frames,
}
use realtime_game_backend.Room.Battle.State.{
  BattleRoom, finish, abort, index_of, find_player, has_ended,
}
use realtime_game_backend.Room.Battle.Commands.{
  admit, join, submit_input, set_presence, change_presence, is_connected,
}
use realtime_game_backend.Room.Battle.Frames.{
  advance_one_frame, resolve_reconnect_grace, count_presence, no_census, id_at, run_frames,
  catch_up, tick, pause,
}
use realtime_game_backend.Room.Battle.Results.{mark_result_persisted, mark_result_failed}
use realtime_game_backend.Room.Battle.Calls.{
  Call, joins, submits, sets_presence, ticks, persists, fails, aborts, step, run, abort_unfinished,
}

pub record Preserved (P : BattleRoom → Type 0) : Type 0 where
  pub clock : (t : ℤ) (r : BattleRoom) → P r → P (record r { last_tick_ms = t })
  pub frame :
      (now : ℤ) (r : BattleRoom) → r.phase ≡ RoomPhase.playing → P r → P (advance_one_frame now r)
  pub disconnect :
      (i : ℕ) (now : ℤ) (r : BattleRoom)
      → r.phase ≡ RoomPhase.playing
      → P r
      → P (finish FinishReason.disconnect (id_at r.players i) now r)
  pub stopped : (now : ℤ) (r : BattleRoom) → has_ended r.phase ≡ false → P r → P (abort now r)
  pub admitted :
      (id : Bytes) (i : ℕ) (now : ℤ) (r : BattleRoom)
      → index_of r id ≡ some i
      → has_ended r.phase ≡ false
      → is_connected r.players i ≡ false
      → P r
      → P (admit i now r)
  pub pending :
      (i : ℕ) (r : BattleRoom)
      → r.phase ≡ RoomPhase.playing
      → P r
      → P (record r { pending_attack = set r.pending_attack i true })
  pub presence :
      (i : ℕ) (online : Bool) (now : ℤ) (r : BattleRoom)
      → has_ended r.phase ≡ false
      → P r
      → P (change_presence i online now r)
  pub persisted :
      (r : BattleRoom)
      → r.phase ≡ RoomPhase.finishing
      → P r
      → P (record r { phase = RoomPhase.finished })
  pub failed : (now : ℤ) (r : BattleRoom) → P r → P (record r { last_persist_attempt_ms = now })

module _ {P : BattleRoom → Type 0} (k : Preserved P) where
  pub run_frames_rule :
      (n : ℕ) (now : ℤ) (r : BattleRoom) (changed : Bool) → P r → P (run_frames n now r changed).0
  unfolding run_frames
  run_frames_rule zero now r changed h = h
  run_frames_rule (suc n) now r changed h = elim (Bool-cases (eq_phase r.phase RoomPhase.playing)) [
    | inl going ↦ rw going (
        run_frames_rule n now _ true
          (k.frame now _ (ground arith) (k.clock (r.last_tick_ms +ℤ frame_interval_ms) r h)))
    | inr over ↦ rw over h
  ]

  catch_up_rule : (now : ℤ) (r : BattleRoom) → P r → P (catch_up now r).0
  unfolding catch_up
  catch_up_rule now r h =
      let frames = (now -ℤ r.last_tick_ms) /ℤ 100 in
      ground (
        arith,
        run_frames_rule (to_nat max_catch_up_frames) now _ false
            (k.clock (r.last_tick_ms +ℤ (frames -ℤ max_catch_up_frames) *ℤ frame_interval_ms) r h),
        run_frames_rule (to_nat frames) now r false h,
      )

  grace_rule : (now : ℤ) (r : BattleRoom) → P r → P (resolve_reconnect_grace now r).0
  unfolding resolve_reconnect_grace
  grace_rule now r h = ground (
    arith,
    k.stopped now r,
    k.disconnect (count_presence 0 r.runtime no_census).online_index now r,
  )

  pause_rule : (now : ℤ) (s : BattleRoom × Bool) → P s.0 → P (pause now s).0
  pause_rule now (r, true) h = h
  pause_rule now (r, false) h = k.clock now r h

  pub tick_rule : (now : ℤ) (r : BattleRoom) → P r → P (tick now r).0
  unfolding tick
  tick_rule now r h = ground (
    arith,
    k.stopped now r,
    catch_up_rule now r h,
    pause_rule now (resolve_reconnect_grace now r) (grace_rule now r h),
  )

  pub join_rule : (id : Bytes) (now : ℤ) (r : BattleRoom) → P r → P (join id now r).0
  unfolding join find_player
  join_rule id now r h = elim (Option-cases (index_of r id)) [
    | inl e ↦ ground arith
    | inr (i, e) ↦ ground (arith, k.admitted id i now r)
  ]

  pub submit_rule :
      (id : Bytes) (kind : InputKind) (r : BattleRoom) → P r → P (submit_input id kind r).0
  unfolding submit_input
  submit_rule id kind r h = elim (Option-cases (index_of r id)) [
    | inl e ↦ ground arith
    | inr (i, e) ↦ ground (arith, k.pending i r)
  ]

  pub presence_rule :
      (id : Bytes) (online : Bool) (now : ℤ) (r : BattleRoom)
      → P r
      → P (set_presence id online now r).0
  unfolding set_presence
  presence_rule id online now r h = elim (Option-cases (index_of r id)) [
    | inl e ↦ ground arith
    | inr (i, e) ↦ ground (arith, k.presence i online now r)
  ]

  pub step_rule : (r : BattleRoom) (c : Call) → P r → P (step r c)
  unfolding step abort_unfinished mark_result_persisted mark_result_failed
  step_rule r (joins id now) h = join_rule id now r h
  step_rule r (submits id kind) h = submit_rule id kind r h
  step_rule r (sets_presence id online now) h = presence_rule id online now r h
  step_rule r (ticks now) h = tick_rule now r h
  step_rule r persists h = ground (arith, k.persisted r)
  step_rule r (fails now) h = ground (arith, k.failed now r h)
  step_rule r (aborts now) h = ground (arith, k.stopped now r)

  pub run_rule : (r : BattleRoom) (cs : List Call) → P r → P (run r cs)
  unfolding run
  run_rule r [] h = h
  run_rule r (c ∷ cs) h = run_rule (step r c) cs (step_rule r c h)

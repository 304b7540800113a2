-- ===== src/Room/Battle/Clock.antt =====
-- The fixed-step clock of battle_room.cpp: how far one `Tick` moves a game that is being played,
-- and what it does with the time that it does not simulate.
use realtime_game_backend.Base.{
  ℕ, zero, suc, ◌+◌, ◌*◌, ◌≤◌, ◌<◌, ◌≡◌, refl, ◌∙◌, ap, inl, inr, arith, Bool, true, false,
  Bool-cases, length, leb, ltb, ◌/◌, ◌-◌, if◌then◌else◌,
}
use realtime_game_backend.Base.Int.{
  ℤ, pos, ◌+ℤ◌, ◌-ℤ◌, ◌*ℤ◌, ◌/ℤ◌, ◌≤ℤ◌, ◌<ℤ◌, int_laws, pos_part, neg_part, to_nat, parts_of_eq,
}
use realtime_game_backend.Room.Types.{RoomPhase, eq_phase, frame_interval_ms}
use realtime_game_backend.Room.Battle.State.{
  BattleRoom, push_snapshot, finish, is_waiting_for_reconnect,
}
use realtime_game_backend.Room.Battle.Frames.{
  settle_frame, advance_one_frame, resolve_attacks, resolve_attack, run_frames, catch_up, tick,
}

attack_clock :
    (i : ℕ) (r : BattleRoom)
    → ((resolve_attack i r).frame ≡ r.frame) × ((resolve_attack i r).last_tick_ms ≡ r.last_tick_ms)
unfolding resolve_attack
attack_clock i r = ground arith

attacks_clock :
    (n i : ℕ) (r : BattleRoom)
    → ((resolve_attacks n i r).frame ≡ r.frame)
      × ((resolve_attacks n i r).last_tick_ms ≡ r.last_tick_ms)
unfolding resolve_attacks
attacks_clock zero i r = (refl, refl)
attacks_clock (suc n) i r =
    ground (arith, attack_clock i r, attacks_clock n (i + 1) (resolve_attack i r))

settle_clock :
    (now : ℤ) (r : BattleRoom)
    → ((settle_frame now r).frame ≡ r.frame) × ((settle_frame now r).last_tick_ms ≡ r.last_tick_ms)
unfolding settle_frame finish push_snapshot
settle_clock now r = ground arith

frame_clock :
    (now : ℤ) (r : BattleRoom)
    → ((advance_one_frame now r).frame ≡ r.frame +ℤ pos 1)
      × ((advance_one_frame now r).last_tick_ms ≡ r.last_tick_ms)
unfolding advance_one_frame
frame_clock now r =
    let next = record r { frame = r.frame +ℤ pos 1 } in
    let (f, t) = attacks_clock (length r.players) 0 next in
    let (g, u) = settle_clock now (resolve_attacks (length r.players) 0 next) in (g ∙ f, u ∙ t)

-- `k` frames are simulated, all `n` unless the game ends before.
pub record Ran (n : ℕ) (r q : BattleRoom) : Type 0 where
  pub frames : ℕ
  pub within : frames ≤ n
  pub frame : q.frame ≡ r.frame +ℤ pos frames
  pub clock : q.last_tick_ms ≡ r.last_tick_ms +ℤ pos (100 * frames)
  pub all_run : q.phase ≡ RoomPhase.playing → frames ≡ n

next_count : (a b c : ℤ) (k : ℕ) → c ≡ b +ℤ pos k → b ≡ a +ℤ pos 1 → c ≡ a +ℤ pos (suc k)
next_count a b c k e f = rw (e, f) (omega int_laws)

next_time :
    (a b c : ℤ) (k : ℕ) → c ≡ b +ℤ pos (100 * k) → b ≡ a +ℤ pos 100 → c ≡ a +ℤ pos (100 * suc k)
next_time a b c k e f = rw (e, f) (omega int_laws)

none_run : (n : ℕ) (r : BattleRoom) → (r.phase ≡ RoomPhase.playing → 0 ≡ n) → Ran n r r
none_run n r h = record {
  frames = 0;
  within = omega arith;
  frame = omega int_laws;
  clock = omega int_laws;
  all_run = h;
}

pub run_frames-Ran :
    (n : ℕ) (now : ℤ) (r : BattleRoom) (changed : Bool) → Ran n r (run_frames n now r changed).0
unfolding run_frames
run_frames-Ran zero now r changed = none_run 0 r (λ _. refl)
run_frames-Ran (suc n) now r changed = elim (Bool-cases (eq_phase r.phase RoomPhase.playing)) [
  | inl going ↦
      rw going
        (more (run_frames-Ran n now (advance_one_frame now timed) true) (frame_clock now timed))
  | inr over ↦ rw over (none_run (suc n) r (ground arith))
]
  where
    timed : BattleRoom
    timed = record r { last_tick_ms = r.last_tick_ms +ℤ frame_interval_ms }

    more :
        {q : BattleRoom}
        → Ran n (advance_one_frame now timed) q
        → ((advance_one_frame now timed).frame ≡ r.frame +ℤ pos 1)
          × ((advance_one_frame now timed).last_tick_ms ≡ r.last_tick_ms +ℤ pos 100)
        → Ran (suc n) r q
    more {q} t (f, c) = record {
      frames = suc t.frames;
      within = omega (arith, t.within);
      frame = next_count r.frame (advance_one_frame now timed).frame q.frame t.frames t.frame f;
      clock =
          next_time r.last_tick_ms (advance_one_frame now timed).last_tick_ms q.last_tick_ms
            t.frames t.clock c;
      all_run = λ p. ap suc (t.all_run p);
    }

-- The frames due after `m` milliseconds: one for each full 100 of them, and ten at most.
abbrev pub due_frames : ℕ → ℕ
due_frames m = if ltb 10 (m / 100) then 10 else m / 100

-- A tick at `now` took the game `r` to `q`: `elapsed` milliseconds after the room's clock it simulated
-- `frames` frames, all that are due unless the game ended before.
pub record CaughtUp (now : ℤ) (r q : BattleRoom) : Type 0 where
  pub elapsed : ℕ
  pub elapsed_is : now -ℤ r.last_tick_ms ≡ pos elapsed
  pub frames : ℕ
  pub few : frames ≤ due_frames elapsed
  pub all_run : q.phase ≡ RoomPhase.playing → frames ≡ due_frames elapsed
  pub frame : q.frame ≡ r.frame +ℤ pos frames
  pub never_ahead : q.last_tick_ms ≤ℤ now
  pub no_debt : q.phase ≡ RoomPhase.playing → now <ℤ q.last_tick_ms +ℤ frame_interval_ms

time_passed : (last now : ℤ) → last ≤ℤ now → (m : ℕ) × (now -ℤ last ≡ pos m)
unfolding ◌-ℤ◌
time_passed last now h = (to_nat (now -ℤ last), ground arith)

-- Dropping all but the last ten frames of `m` milliseconds.
dropped : (m : ℕ) → 10 < m / 100 → (pos (m / 100) -ℤ pos 10) *ℤ pos 100 ≡ pos (100 * (m / 100 - 10))
unfolding ◌-ℤ◌ ◌*ℤ◌
dropped m h = ground arith

Ran-CaughtUp :
    (n m s : ℕ) (now : ℤ) (r start q : BattleRoom)
    → n ≡ due_frames m
    → now -ℤ r.last_tick_ms ≡ pos m
    → start.frame ≡ r.frame
    → start.last_tick_ms ≡ r.last_tick_ms +ℤ pos (100 * s)
    → s + n ≡ m / 100
    → Ran n start q
    → CaughtUp now r q
Ran-CaughtUp n m s now r start q due e f d total t = record {
  elapsed = m;
  elapsed_is = e;
  frames = t.frames;
  few = rw (← due) t.within;
  all_run = λ p. t.all_run p ∙ due;
  frame = rw (← f) t.frame;
  never_ahead = omega (int_laws, t.within, times.0, times.1, times.2);
  no_debt = λ p. omega (int_laws, t.all_run p, times.0, times.1, times.2);
}
  where
    times :
        (pos_part (now -ℤ r.last_tick_ms) ≡ m + neg_part (now -ℤ r.last_tick_ms))
        × (pos_part start.last_tick_ms + neg_part (r.last_tick_ms +ℤ pos (100 * s))
            ≡ pos_part (r.last_tick_ms +ℤ pos (100 * s)) + neg_part start.last_tick_ms)
        × (pos_part q.last_tick_ms + neg_part (start.last_tick_ms +ℤ pos (100 * t.frames))
            ≡ pos_part (start.last_tick_ms +ℤ pos (100 * t.frames)) + neg_part q.last_tick_ms)
    times = (omega (arith, parts_of_eq _ _ e), parts_of_eq _ _ d, parts_of_eq _ _ t.clock)

idle-CaughtUp :
    (m : ℕ) (now : ℤ) (r : BattleRoom) → now -ℤ r.last_tick_ms ≡ pos m → m < 100 → CaughtUp now r r
idle-CaughtUp m now r e h = record {
  elapsed = m;
  elapsed_is = e;
  frames = 0;
  few = ground arith;
  all_run = λ p. ground arith;
  frame = omega int_laws;
  never_ahead = omega (int_laws, parts_of_eq (now -ℤ r.last_tick_ms) (pos m) e);
  no_debt = λ p. omega (int_laws, parts_of_eq (now -ℤ r.last_tick_ms) (pos m) e);
}

catch_up-CaughtUp :
    (now : ℤ) (r : BattleRoom) → r.last_tick_ms ≤ℤ now → CaughtUp now r (catch_up now r).0
unfolding catch_up ◌/ℤ◌
catch_up-CaughtUp now r h =
    let (m, e) = time_passed r.last_tick_ms now h in
    rw e (elim (Bool-cases (leb (m / 100 + 0) 0)) [
      | inl little ↦ rw little (idle-CaughtUp m now r e (ground arith))
      | inr enough ↦ rw enough (elim (Bool-cases (ltb 10 (m / 100 + 0))) [
        | inl long ↦ rw long (
            Ran-CaughtUp 10 m (m / 100 - 10) now r _ _ (ground arith) e refl
              (rw (dropped m (ground arith)) refl) (ground arith) (run_frames-Ran 10 now _ false))
        | inr short ↦ rw short (
            Ran-CaughtUp (m / 100) m 0 now r r _ (ground arith) e refl (omega int_laws)
              (omega arith) (run_frames-Ran (m / 100) now r false))
      ])
    ])

tick-catch_up :
    (now : ℤ) (r : BattleRoom)
    → r.phase ≡ RoomPhase.playing
    → is_waiting_for_reconnect r.runtime ≡ false
    → r.last_tick_ms ≤ℤ now
    → tick now r ≡ catch_up now r
unfolding tick
tick-catch_up now r p online h = ground arith

-- A tick of a game that is being played, with everybody online and a clock that did not go back,
-- simulates at most one frame for each full 100 milliseconds since the room's clock and at most ten;
-- if the game goes on after it, exactly that many. It never takes the room's clock beyond `now`, and if
-- the game goes on it leaves less than one frame interval: what exceeds ten frames is dropped for good.
pub tick-CaughtUp :
    (now : ℤ) (r : BattleRoom)
    → r.phase ≡ RoomPhase.playing
    → is_waiting_for_reconnect r.runtime ≡ false
    → r.last_tick_ms ≤ℤ now
    → CaughtUp now r (tick now r).0
tick-CaughtUp now r p online h = rw (tick-catch_up now r p online h) (catch_up-CaughtUp now r h)

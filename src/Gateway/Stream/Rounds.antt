-- ===== src/Gateway/Stream/Rounds.antt =====
-- src/gateway/stream_hub.cpp: which subscriptions outlive a round of `Tick`.
use realtime_game_backend.Base.{
  ℕ, ◌≡◌, refl, ap, ◌∙◌, true, false, List, [], ◌∷◌, some, none, arith, ◌||◌,
}
use realtime_game_backend.Base.Int.{ℤ}
use realtime_game_backend.Base.Bytes.{Bytes, codes}
use realtime_game_backend.Gateway.Client.{Services}
use realtime_game_backend.Gateway.Events.{heartbeat, sse_event, session_ready_json}
use realtime_game_backend.Gateway.Stream.State.{StreamHub, Subscription, find_subscription, is_zero}
use realtime_game_backend.Gateway.Stream.Push.{SinkRef}
use realtime_game_backend.Gateway.Stream.Collect.{
  RoundWork, ReadyTarget, collect_work, is_heartbeat_due, nothing_collected,
}
use realtime_game_backend.Gateway.Stream.Commit.{commit}
use realtime_game_backend.Gateway.Stream.Tick.{
  run_backfills, tick_rooms, write_ready, write_heartbeats, exchange_round, tick,
}
use realtime_game_backend.Gateway.Stream.Table.{rows, row_of-find, Descending}
use realtime_game_backend.Gateway.Stream.Steps.{Accounted, rows-collect_work}
use realtime_game_backend.Gateway.Stream.Refinement.{is_among, commit-rows}
use realtime_game_backend.Gateway.Stream.Untouched.{exchange_round-SameTable}
use realtime_game_backend.Gateway.Stream.Writes.{
  has_ref, has_ready, will_write, is_among-last, row_of-none, collect_each-adds,
}

module _ {W : Type 0} (v : Services W) where
  write_heartbeats-dead :
      (id n : ℕ) (ts : List SinkRef) (w : W)
      → ((text : Bytes) (w' : W) → (v.write n text w').0 ≡ false)
      → has_ref id n ts ≡ true
      → is_among id (write_heartbeats v ts w).1 ≡ true
  unfolding write_heartbeats
  write_heartbeats-dead id n [] w dead h = ground arith
  write_heartbeats-dead id n (t ∷ ts) w dead h =
      let this : t.sink ≡ n → (v.write t.sink heartbeat w).0 ≡ false =
        λ e. rw e (dead heartbeat w) in
      let later : has_ref id n ts ≡ true
          → is_among id (write_heartbeats v ts (v.write t.sink heartbeat w).1).1 ≡ true =
        λ more. write_heartbeats-dead id n ts (v.write t.sink heartbeat w).1 dead more in
      ground (arith, this, later)

  write_ready-dead :
      (id n : ℕ) (ts : List ReadyTarget) (now : ℤ) (w : W)
      → ((text : Bytes) (w' : W) → (v.write n text w').0 ≡ false)
      → has_ready id n ts ≡ true
      → is_among id (write_ready v ts now w).1 ≡ true
  unfolding write_ready
  write_ready-dead id n [] now w dead h = ground arith
  write_ready-dead id n (t ∷ ts) now w dead h =
      let text =
        sse_event (codes "session.ready") (session_ready_json t.player_id t.room_id now) none in
      let this : t.sink ≡ n → (v.write t.sink text w).0 ≡ false = λ e. rw e (dead text w) in
      let later : has_ready id n ts ≡ true
          → is_among id (write_ready v ts now (v.write t.sink text w).1).1 ≡ true =
        λ more. write_ready-dead id n ts now (v.write t.sink text w).1 dead more in
      ground (arith, this, later)

  exchange_round-dead :
      (now : ℤ) (c : RoundWork) (h : StreamHub) (w : W) (id n : ℕ)
      → ((text : Bytes) (w' : W) → (v.write n text w').0 ≡ false)
      → will_write id n c ≡ true
      → is_among id (exchange_round v now c h w).1.failed ≡ true
  unfolding exchange_round
  exchange_round-dead now c h w id n dead written =
      let filled = run_backfills v c.need_backfill h w in
      let pushed = tick_rooms v c.by_room c.room_request_ids now filled.0.0 filled.0.1 in
      let greeted = write_ready v c.need_ready now pushed.0.1 in
      let unready : has_ready id n c.need_ready ≡ true → is_among id greeted.1 ≡ true =
        λ e. write_ready-dead id n c.need_ready now pushed.0.1 dead e in
      let unbeaten : has_ref id n c.need_heartbeat ≡ true
          → is_among id (write_heartbeats v c.need_heartbeat greeted.0).1 ≡ true =
        λ e. write_heartbeats-dead id n c.need_heartbeat greeted.0 dead e in
      let found : (is_among id greeted.1
            || is_among id (write_heartbeats v c.need_heartbeat greeted.0).1)
          ≡ true =
        ground (arith, unready, unbeaten) in
      is_among-last id filled.1.failed pushed.1 greeted.1
        (write_heartbeats v c.need_heartbeat greeted.0).1 found

  -- A connection on which nothing can be written any more is found by the first round in which its
  -- heartbeat is due, be its subscription waiting for a backfill or not: that round removes it from the
  -- table. The subscription has been through a round before, and the hub's ids are accounted.
  pub tick-removes_dead :
      (now : ℤ) (h : StreamHub) (w : W) (taken id n : ℕ) (s : Subscription)
      → Accounted h taken
      → find_subscription id h.subscriptions ≡ some s
      → is_zero s.created_ms ≡ false
      → s.sink ≡ some n
      → is_heartbeat_due h.heartbeat_interval_ms now s ≡ true
      → ((text : Bytes) (w' : W) → (v.write n text w').0 ≡ false)
      → find_subscription id (tick v now h w).0.subscriptions ≡ none
  unfolding tick
  tick-removes_dead now h w taken id n s ok there old sink due dead =
      let start = collect_work now h in
      let met = exchange_round v now start.1 start.0 w in
      let written : will_write id n start.1 ≡ true =
        unfold collect_work in
        collect_each-adds h.heartbeat_interval_ms now h.subscriptions nothing_collected id n s there
          old sink due in
      let failed = exchange_round-dead now start.1 start.0 w id n dead written in
      let table = exchange_round-SameTable v now start.1 start.0 w in
      let same : rows met.0.0.subscriptions ≡ rows h.subscriptions =
        ap (λ l. rows l) table.0 ∙ rows-collect_work now h in
      let next : met.0.0.next_id ≡ h.next_id = unfold collect_work in table.1 in
      let sorted : Descending met.0.0.next_id (rows met.0.0.subscriptions) = rw (same, next) ok.0 in
      let gone = commit-rows now met.1 met.0.0 id sorted in
      row_of-none (find_subscription id (commit now met.1 met.0.0).0.subscriptions)
        (row_of-find id (commit now met.1 met.0.0).0.subscriptions ∙ (gone ∙ rw failed refl))

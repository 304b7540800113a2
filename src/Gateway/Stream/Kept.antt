-- ===== src/Gateway/Stream/Kept.antt =====
-- src/gateway/stream_hub.cpp: a round of `Tick` in which no write fails and no room has ended.
use realtime_game_backend.Base.{
  ℕ, suc, ◌≡◌, refl, ap, ◌∙◌, true, false, List, [], ◌∷◌, Option, some, none, arith, inl, inr,
  Bool-cases, Option-cases,
}
use realtime_game_backend.Base.Int.{ℤ}
use realtime_game_backend.Base.Bytes.{Bytes, codes}
use realtime_game_backend.Base.Dict.{Dict, find}
use realtime_game_backend.Gateway.Client.{RoomView, SnapshotWindow, Services, RoomClient}
use realtime_game_backend.Gateway.Events.{
  poll_request_id, heartbeat, sse_event, session_ready_json, room_state_json,
}
use realtime_game_backend.Gateway.Stream.State.{StreamHub}
use realtime_game_backend.Gateway.Stream.Push.{
  SinkRef, push_room, tick_room, is_terminal, or_empty, write_state,
}
use realtime_game_backend.Gateway.Stream.Backfill.{
  BackfillTarget, BackfillOutcome, send_reset, reset_to, replay, backfill_range, backfill_unparsed,
  backfill_since, backfill_subscription, no_backfill, reset_reason_of, frame_event,
}
use realtime_game_backend.Gateway.Stream.Collect.{RoundWork, ReadyTarget, collect_work}
use realtime_game_backend.Gateway.Stream.Tick.{
  note_outcome, run_backfills, tick_rooms, write_ready, write_heartbeats, exchange_round, tick,
}
use realtime_game_backend.Gateway.Stream.Table.{rows, Descending}
use realtime_game_backend.Gateway.Stream.Steps.{Accounted, rows-collect_work}
use realtime_game_backend.Gateway.Stream.Refinement.{view, commit-rows}
use realtime_game_backend.Gateway.Stream.Untouched.{exchange_round-SameTable}

module _ {W : Type 0} (v : Services W)
    (live : (n : ℕ) (text : Bytes) (w : W) → (v.write n text w).0 ≡ true) where
  write_state-live : (text : Bytes) (ts : List SinkRef) (w : W) → (write_state v text ts w).1 ≡ []
  unfolding write_state
  write_state-live text [] w = refl
  write_state-live text (t ∷ ts) w =
      rw (live t.sink text w) (write_state-live text ts (v.write t.sink text w).1)

  write_heartbeats-live : (ts : List SinkRef) (w : W) → (write_heartbeats v ts w).1 ≡ []
  unfolding write_heartbeats
  write_heartbeats-live [] w = refl
  write_heartbeats-live (t ∷ ts) w =
      rw (live t.sink heartbeat w) (write_heartbeats-live ts (v.write t.sink heartbeat w).1)

  write_ready-live : (ts : List ReadyTarget) (now : ℤ) (w : W) → (write_ready v ts now w).1 ≡ []
  unfolding write_ready
  write_ready-live [] now w = refl
  write_ready-live (t ∷ ts) now w =
      let text =
        sse_event (codes "session.ready") (session_ready_json t.player_id t.room_id now) none in
      rw (live t.sink text w) (write_ready-live ts now (v.write t.sink text w).1)

  send_reset-live :
      (t : BackfillTarget) (reason : Bytes) (r : RoomView) (o : BackfillOutcome) (h : StreamHub)
      (w : W)
      → (send_reset v t reason r o h w).1.write_failed ≡ false
  unfolding send_reset
  send_reset-live t reason r o h w = rw (live t.sink _ w) refl

  replay-live :
      (t : BackfillTarget) (rs : List RoomView) (h : StreamHub) (w : W)
      → (replay v t rs h w).1 ≡ true
  unfolding replay
  replay-live t [] h w = refl
  replay-live t (r ∷ rs) h w = rw (live t.sink (frame_event v r w) w) (replay-live t rs _ _)

  reset_to-live :
      (t : BackfillTarget) (reason : Bytes) (o : BackfillOutcome) (current : Option RoomView)
      (h : StreamHub) (w : W)
      → (reset_to v t reason o current h w).1.write_failed ≡ false
  unfolding reset_to
  reset_to-live t reason o none h w = refl
  reset_to-live t reason o (some r) h w = send_reset-live t reason r o h w

  backfill_range-live :
      (client : RoomClient W) (t : BackfillTarget) (range : SnapshotWindow) (h : StreamHub) (w : W)
      → (backfill_range v client t range h w).1.write_failed ≡ false
  unfolding backfill_range
  backfill_range-live client t range h w =
      let current = client.get_state t.room_id (poll_request_id t.request_id t.room_id) w in
      ground (
        arith,
        reset_to-live t (reset_reason_of v range) no_backfill current.0 h current.1,
        replay-live t range.snapshots h w,
      )

  backfill_unparsed-live :
      (client : RoomClient W) (t : BackfillTarget) (h : StreamHub) (w : W)
      → (backfill_unparsed v client t h w).1.write_failed ≡ false
  unfolding backfill_unparsed
  backfill_unparsed-live client t h w =
      let current = client.get_state t.room_id (poll_request_id t.request_id t.room_id) w in
      reset_to-live t (codes "id_malformed") (record no_backfill { attempted = true }) current.0 h
        current.1

  backfill_since-live :
      (client : RoomClient W) (t : BackfillTarget) (since : ℤ) (h : StreamHub) (w : W)
      → (backfill_since v client t since h w).1.write_failed ≡ false
  unfolding backfill_since
  backfill_since-live client t since h w =
      let answer =
        client.get_snapshots_since t.room_id since (poll_request_id t.request_id t.room_id) w in
      elim (Option-cases answer.0) [
        | inl absent ↦ rw (backfill_since, absent) refl
        | inr (window, present) ↦
            rw (backfill_since, present) (backfill_range-live client t window h answer.1)
      ]

  backfill_subscription-live :
      (t : BackfillTarget) (h : StreamHub) (w : W)
      → (backfill_subscription v t h w).1.write_failed ≡ false
  unfolding backfill_subscription
  backfill_subscription-live t h w = elim (Option-cases v.room) [
    | inl absent ↦ rw (backfill_subscription, absent) refl
    | inr (client, present) ↦
        rw (backfill_subscription, present)
          (elim (Bool-cases t.malformed) [
            | inl e ↦ rw e (backfill_unparsed-live client t h w)
            | inr e ↦ rw e (elim (Option-cases t.since_frame) [
              | inl first ↦ rw first refl
              | inr (since, again) ↦ rw again (backfill_since-live client t since h w)
            ])
          ])
  ]

  run_backfills-live :
      (ts : List BackfillTarget) (h : StreamHub) (w : W) → (run_backfills v ts h w).1.failed ≡ []
  unfolding run_backfills note_outcome
  run_backfills-live [] h w = refl
  run_backfills-live (t ∷ ts) h w =
      let first = backfill_subscription-live t h w in
      let rest =
        run_backfills-live ts (backfill_subscription v t h w).0.0
          (backfill_subscription v t h w).0.1 in
      ground (arith, first, rest)

  -- A room that has not ended.
  push_room-live :
      (room_id : Bytes) (r : RoomView) (sinks : List SinkRef) (now : ℤ) (h : StreamHub) (w : W)
      → is_terminal r.state ≡ false
      → (push_room v room_id r sinks now h w).1 ≡ []
  unfolding push_room
  push_room-live room_id r sinks now h w going = ground (
    arith,
    going,
    write_state-live (sse_event (codes "room.state") (room_state_json r now) (some r.frame)) sinks
        w,
  )

  module _
      (going : (client : RoomClient W) (room_id request_id : Bytes) (w : W) (r : RoomView)
        → v.room ≡ some client
        → (client.get_state room_id request_id w).0 ≡ some r
        → is_terminal r.state ≡ false) where
    tick_room-live :
        (room_id : Bytes) (sinks : List SinkRef) (request_id : Bytes) (now : ℤ) (h : StreamHub)
        (w : W)
        → (tick_room v room_id sinks request_id now h w).1 ≡ []
    unfolding tick_room
    tick_room-live room_id sinks request_id now h w = elim (Option-cases v.room) [
      | inl absent ↦ rw (tick_room, absent) refl
      | inr (client, present) ↦
          let answer = client.get_state room_id request_id w in
          rw (tick_room, present)
            (elim (Option-cases answer.0) [
              | inl unknown ↦ rw unknown (ground arith)
              | inr (r, known) ↦
                  let pushed =
                    push_room-live room_id r sinks now
                      (record h { room_poll_count = suc h.room_poll_count }) answer.1
                      (going client room_id request_id w r present known) in
                  rw known (ground (arith, pushed))
            ])
    ]

    tick_rooms-live :
        (rooms : Dict (List SinkRef)) (ids : Dict Bytes) (now : ℤ) (h : StreamHub) (w : W)
        → (tick_rooms v rooms ids now h w).1 ≡ []
    unfolding tick_rooms
    tick_rooms-live [] ids now h w = refl
    tick_rooms-live ((room_id, sinks) ∷ rest) ids now h w =
        let id = poll_request_id (or_empty (find room_id ids)) room_id in
        let first = tick_room-live room_id sinks id now h w in
        rw first (
          tick_rooms-live rest ids now (tick_room v room_id sinks id now h w).0.0
            (tick_room v room_id sinks id now h w).0.1)

    exchange_round-live :
        (now : ℤ) (c : RoundWork) (h : StreamHub) (w : W)
        → (exchange_round v now c h w).1.failed ≡ []
    unfolding exchange_round
    exchange_round-live now c h w =
        let filled = run_backfills v c.need_backfill h w in
        let pushed = tick_rooms v c.by_room c.room_request_ids now filled.0.0 filled.0.1 in
        let greeted = write_ready v c.need_ready now pushed.0.1 in
        rw
          (
            run_backfills-live c.need_backfill h w,
            tick_rooms-live c.by_room c.room_request_ids now filled.0.0 filled.0.1,
            write_ready-live c.need_ready now pushed.0.1,
          )
          (write_heartbeats-live c.need_heartbeat greeted.0)

    -- A round closes no subscription and changes none's player, room or connection if every write of it
    -- succeeds and no room that the service answers for has ended; whether the service answers, and
    -- what backfills and resets the round sends, makes no difference. The hub's ids are accounted.
    pub tick-keeps_live :
        (now : ℤ) (h : StreamHub) (w : W) (taken id : ℕ)
        → Accounted h taken
        → view (tick v now h w).0 id ≡ view h id
    unfolding tick
    tick-keeps_live now h w taken id ok =
        let start = collect_work now h in
        let met = exchange_round v now start.1 start.0 w in
        let table = exchange_round-SameTable v now start.1 start.0 w in
        let same : rows met.0.0.subscriptions ≡ rows h.subscriptions =
          ap (λ l. rows l) table.0 ∙ rows-collect_work now h in
        let next : met.0.0.next_id ≡ h.next_id = unfold collect_work in table.1 in
        let sorted : Descending met.0.0.next_id (rows met.0.0.subscriptions) =
          rw (same, next) ok.0 in
        commit-rows now met.1 met.0.0 id sorted
        ∙ rw (exchange_round-live now start.1 start.0 w, same) refl

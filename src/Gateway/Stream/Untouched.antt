-- ===== src/Gateway/Stream/Untouched.antt =====
-- src/gateway/stream_hub.cpp: what the second and the third phase of a round leave alone. They run without
-- the lock, and of the hub they change only what was last pushed and how often rooms were polled.
use realtime_game_backend.Base.{
  suc, ◌≡◌, refl, ◌∙◌, Bool, true, false, List, [], ◌∷◌, Option, some, none, arith, inl, inr,
  Bool-cases, Option-cases,
}
use realtime_game_backend.Base.Int.{ℤ}
use realtime_game_backend.Base.Bytes.{Bytes, codes}
use realtime_game_backend.Base.Dict.{Dict, find}
use realtime_game_backend.Gateway.Client.{RoomView, SnapshotWindow, Services, RoomClient}
use realtime_game_backend.Gateway.Events.{poll_request_id}
use realtime_game_backend.Gateway.Stream.State.{StreamHub}
use realtime_game_backend.Gateway.Stream.Push.{
  SinkRef, set_last_pushed_state, push_room, tick_room, is_terminal, or_empty,
}
use realtime_game_backend.Gateway.Stream.Backfill.{
  BackfillTarget, BackfillOutcome, send_reset, reset_to, replay, backfill_range, backfill_unparsed,
  backfill_since, backfill_subscription, frame_event, reset_reason_of, no_backfill,
}
use realtime_game_backend.Gateway.Stream.Collect.{RoundWork}
use realtime_game_backend.Gateway.Stream.Tick.{run_backfills, tick_rooms, exchange_round}

abbrev pub SameTable : StreamHub → StreamHub → Type 0
SameTable h h' = (h'.subscriptions ≡ h.subscriptions) × (h'.next_id ≡ h.next_id)

set_last_pushed_state-SameTable :
    (room_id : Bytes) (r : RoomView) (terminal : Bool) (h : StreamHub)
    → SameTable h (set_last_pushed_state room_id r terminal h)
unfolding set_last_pushed_state
set_last_pushed_state-SameTable room_id r true h = (refl, refl)
set_last_pushed_state-SameTable room_id r false h = (refl, refl)

-- ++room_poll_count_
abbrev polled : StreamHub → StreamHub
polled h = record h { room_poll_count = suc h.room_poll_count }

module _ {W : Type 0} (v : Services W) where
  push_room-SameTable :
      (room_id : Bytes) (r : RoomView) (sinks : List SinkRef) (now : ℤ) (h : StreamHub) (w : W)
      → SameTable h (push_room v room_id r sinks now h w).0.0
  unfolding push_room
  push_room-SameTable room_id r sinks now h w =
      ground (arith, set_last_pushed_state-SameTable room_id r (is_terminal r.state) h)

  tick_room-SameTable :
      (room_id : Bytes) (sinks : List SinkRef) (request_id : Bytes) (now : ℤ) (h : StreamHub)
      (w : W)
      → SameTable h (tick_room v room_id sinks request_id now h w).0.0
  unfolding tick_room
  tick_room-SameTable room_id sinks request_id now h w =
      let push : (r : RoomView) (w' : W)
          → SameTable h (push_room v room_id r sinks now (polled h) w').0.0 =
        λ r w'. push_room-SameTable room_id r sinks now (polled h) w' in
      ground (arith, push)

  tick_rooms-SameTable :
      (rooms : Dict (List SinkRef)) (ids : Dict Bytes) (now : ℤ) (h : StreamHub) (w : W)
      → SameTable h (tick_rooms v rooms ids now h w).0.0
  unfolding tick_rooms
  tick_rooms-SameTable [] ids now h w = (refl, refl)
  tick_rooms-SameTable ((room_id, sinks) ∷ rest) ids now h w =
      let id = poll_request_id (or_empty (find room_id ids)) room_id in
      let first = tick_room-SameTable room_id sinks id now h w in
      let later =
        tick_rooms-SameTable rest ids now (tick_room v room_id sinks id now h w).0.0
          (tick_room v room_id sinks id now h w).0.1 in
      (later.0 ∙ first.0, later.1 ∙ first.1)

  replay-SameTable :
      (t : BackfillTarget) (rs : List RoomView) (h : StreamHub) (w : W)
      → SameTable h (replay v t rs h w).0.0
  unfolding replay
  replay-SameTable t [] h w = (refl, refl)
  replay-SameTable t (r ∷ rs) h w =
      let one = set_last_pushed_state-SameTable t.room_id r (is_terminal r.state) h in
      let rest =
        replay-SameTable t rs (set_last_pushed_state t.room_id r (is_terminal r.state) h)
          (v.write t.sink (frame_event v r w) w).1 in
      ground (arith, one, rest)

  send_reset-SameTable :
      (t : BackfillTarget) (reason : Bytes) (r : RoomView) (o : BackfillOutcome) (h : StreamHub)
      (w : W)
      → SameTable h (send_reset v t reason r o h w).0.0
  unfolding send_reset
  send_reset-SameTable t reason r o h w = set_last_pushed_state-SameTable t.room_id r false h

  reset_to-SameTable :
      (t : BackfillTarget) (reason : Bytes) (o : BackfillOutcome) (current : Option RoomView)
      (h : StreamHub) (w : W)
      → SameTable h (reset_to v t reason o current h w).0.0
  unfolding reset_to
  reset_to-SameTable t reason o none h w = (refl, refl)
  reset_to-SameTable t reason o (some r) h w = send_reset-SameTable t reason r o h w

  backfill_range-SameTable :
      (client : RoomClient W) (t : BackfillTarget) (range : SnapshotWindow) (h : StreamHub) (w : W)
      → SameTable h (backfill_range v client t range h w).0.0
  unfolding backfill_range
  backfill_range-SameTable client t range h w =
      let current = client.get_state t.room_id (poll_request_id t.request_id t.room_id) w in
      ground (
        arith,
        reset_to-SameTable t (reset_reason_of v range) no_backfill current.0 h current.1,
        replay-SameTable t range.snapshots h w,
      )

  backfill_unparsed-SameTable :
      (client : RoomClient W) (t : BackfillTarget) (h : StreamHub) (w : W)
      → SameTable h (backfill_unparsed v client t h w).0.0
  unfolding backfill_unparsed
  backfill_unparsed-SameTable client t h w =
      let current = client.get_state t.room_id (poll_request_id t.request_id t.room_id) w in
      reset_to-SameTable t (codes "id_malformed") (record no_backfill { attempted = true })
        current.0 h current.1

  backfill_since-SameTable :
      (client : RoomClient W) (t : BackfillTarget) (since : ℤ) (h : StreamHub) (w : W)
      → SameTable h (backfill_since v client t since h w).0.0
  unfolding backfill_since
  backfill_since-SameTable client t since h w =
      let answer =
        client.get_snapshots_since t.room_id since (poll_request_id t.request_id t.room_id) w in
      elim (Option-cases answer.0) [
        | inl absent ↦ rw (backfill_since, absent) (refl, refl)
        | inr (window, present) ↦
            rw (backfill_since, present) (backfill_range-SameTable client t window h answer.1)
      ]

  backfill_subscription-SameTable :
      (t : BackfillTarget) (h : StreamHub) (w : W) → SameTable h (backfill_subscription v t h w).0.0
  unfolding backfill_subscription
  backfill_subscription-SameTable t h w = elim (Option-cases v.room) [
    | inl absent ↦ rw (backfill_subscription, absent) (refl, refl)
    | inr (client, present) ↦
        rw (backfill_subscription, present)
          (elim (Bool-cases t.malformed) [
            | inl e ↦ rw e (backfill_unparsed-SameTable client t h w)
            | inr e ↦ rw e (elim (Option-cases t.since_frame) [
              | inl first ↦ rw first (refl, refl)
              | inr (since, again) ↦ rw again (backfill_since-SameTable client t since h w)
            ])
          ])
  ]

  run_backfills-SameTable :
      (ts : List BackfillTarget) (h : StreamHub) (w : W) → SameTable h (run_backfills v ts h w).0.0
  unfolding run_backfills
  run_backfills-SameTable [] h w = (refl, refl)
  run_backfills-SameTable (t ∷ ts) h w =
      let first = backfill_subscription-SameTable t h w in
      let later =
        run_backfills-SameTable ts (backfill_subscription v t h w).0.0
          (backfill_subscription v t h w).0.1 in
      (later.0 ∙ first.0, later.1 ∙ first.1)

  pub exchange_round-SameTable :
      (now : ℤ) (c : RoundWork) (h : StreamHub) (w : W)
      → SameTable h (exchange_round v now c h w).0.0
  unfolding exchange_round
  exchange_round-SameTable now c h w =
      let filled = run_backfills v c.need_backfill h w in
      let first = run_backfills-SameTable c.need_backfill h w in
      let later = tick_rooms-SameTable c.by_room c.room_request_ids now filled.0.0 filled.0.1 in
      (later.0 ∙ first.0, later.1 ∙ first.1)

-- ===== src/Gateway/Stream/Late.antt =====
-- src/gateway/stream_hub.cpp: rounds of `Tick` for a client that came back too late, whose missed frames the
-- room does not have any more.
use realtime_game_backend.Base.{
  ℕ, ◌+◌, ◌≡◌, refl, ◌∙◌, true, false, List, [], ◌∷◌, some, negate, ◌||◌, if◌then◌else◌, arith, inl,
  inr, Bool-cases,
}
use realtime_game_backend.Base.Int.{ℤ}
use realtime_game_backend.Base.Bytes.{Bytes, codes, is_empty}
use realtime_game_backend.Gateway.Client.{RoomView, SnapshotWindow, Services, RoomClient}
use realtime_game_backend.Gateway.Events.{poll_request_id, heartbeat, sse_event, stream_reset_json}
use realtime_game_backend.Gateway.Stream.State.{
  StreamHub, Subscription, is_zero, update_subscription,
}
use realtime_game_backend.Gateway.Stream.Push.{set_last_pushed_state}
use realtime_game_backend.Gateway.Stream.Backfill.{
  BackfillTarget, BackfillOutcome, no_backfill, send_reset, reset_to, backfill_range,
  backfill_since, backfill_subscription, is_ready, reset_reason_of,
}
use realtime_game_backend.Gateway.Stream.Collect.{
  is_heartbeat_due, collect_work, collect_each, collect_one, collect_backfill,
}
use realtime_game_backend.Gateway.Stream.Commit.{
  commit, commit_updates, remove_failed, finish_backfills, record_resets, update_each, beat,
  record_reset,
}
use realtime_game_backend.Gateway.Stream.Tick.{
  note_outcome, run_backfills, tick_rooms, write_ready, write_heartbeats, exchange_round,
  close_removed, report_removed, tick,
}

-- `s`, with the connection `n`, waiting for the frames after `since`.
abbrev pub waiting : ℕ → ℤ → Subscription → Subscription
waiting n since s = record s {
  sink = some n;
  backfill_pending = true;
  backfill_from = some since;
  backfill_malformed = false;
}

-- The rounds of `Tick` at the given times, with nothing in between.
abbrev pub run_ticks : {W : Type 0} → Services W → List ℤ → StreamHub → W → StreamHub × W
run_ticks v [] h w = (h, w)
run_ticks v (now ∷ nows) h w = run_ticks v nows (tick v now h w).0 (tick v now h w).1

update_only :
    (f : Subscription → Subscription) (s : Subscription)
    → update_subscription s.id f (s ∷ []) ≡ f s ∷ []
unfolding update_subscription
update_only f s = ground arith

module _ {W : Type 0} (v : Services W) (client : RoomClient W) (n : ℕ) (since : ℤ)
    (window : SnapshotWindow) (r : RoomView) where
  -- The world after one reset: the two calls of the room service, then one event with the current state.
  abbrev pub after_reset : Subscription → W → W
  after_reset s w =
      let id = poll_request_id s.request_id s.room_id in
      let w₁ = (client.get_snapshots_since s.room_id since id w).1 in
      let w₂ = (client.get_state s.room_id id w₁).1 in
      (v.write n
        (sse_event (codes "stream.reset")
          (stream_reset_json (reset_reason_of v window) r (v.clock w₂)) (some r.frame))
        w₂).1

  -- What one round makes of the subscription.
  abbrev pub reset_once : ℤ → Subscription → Subscription
  reset_once now s = record s {
    created_ms = if is_zero s.created_ms then now else s.created_ms;
    last_heartbeat_ms = now;
    reset_sent = true;
    reset_reason = reset_reason_of v window;
  }

  abbrev pub beaten_at : ℤ → Subscription → Subscription
  beaten_at now s = record s {
    last_heartbeat_ms = if is_zero s.created_ms then now else s.last_heartbeat_ms;
  }

  -- One round: the reset, and a heartbeat if it is due.
  abbrev pub round_world : ℤ → ℤ → Subscription → W → W
  round_world interval now s w =
      if is_heartbeat_due interval now (beaten_at now s)
      then (v.write n heartbeat (after_reset s w)).1
      else after_reset s w

  abbrev pub after_rounds : ℤ → List ℤ → Subscription → W → Subscription × W
  after_rounds interval [] s w = (s, w)
  after_rounds interval (now ∷ nows) s w =
      after_rounds interval nows (reset_once now s) (round_world interval now s w)

  module _ (live : (text : Bytes) (w : W) → (v.write n text w).0 ≡ true)
      (present : v.room ≡ some client)
      (missing : (negate (is_ready v window.status) || is_empty window.snapshots) ≡ true) where
    abbrev target : Subscription → BackfillTarget
    target s = record {
      id = s.id;
      sink = n;
      room_id = s.room_id;
      request_id = s.request_id;
      since_frame = some since;
      malformed = false;
    }

    abbrev sent : BackfillOutcome
    sent = record no_backfill { reset_sent = true; reset_reason = reset_reason_of v window }

    backfill_lem :
        (s : Subscription) (h : StreamHub) (w : W)
        → ((w' : W)
            → (client.get_snapshots_since s.room_id since
                (poll_request_id s.request_id s.room_id)
                w').0
              ≡ some window)
        → ((w' : W)
            → (client.get_state s.room_id (poll_request_id s.request_id s.room_id) w').0 ≡ some r)
        → backfill_subscription v (target s) h w
          ≡ ((set_last_pushed_state s.room_id r false h, after_reset s w), sent)
    unfolding backfill_subscription backfill_since backfill_range reset_to send_reset
    backfill_lem s h w answered current =
        let id = poll_request_id s.request_id s.room_id in
        let w₁ = (client.get_snapshots_since s.room_id since id w).1 in
        rw
          (
            backfill_subscription,
            present,
            backfill_since,
            answered w,
            backfill_range,
            missing,
            current w₁,
            live _ (client.get_state s.room_id id w₁).1,
          )
          refl

    abbrev collected : StreamHub → Subscription → ℕ → StreamHub
    collected h s k = record h {
      subscriptions = waiting n since s ∷ [];
      skipped_no_write_total = h.skipped_no_write_total + k;
    }

    told :
        (s : Subscription)
        → update_subscription s.id
            (record_reset (reset_reason_of v window))
            (waiting n since s ∷ [])
          ≡ record_reset (reset_reason_of v window) (waiting n since s) ∷ []
    told s = update_only (record_reset (reset_reason_of v window)) (waiting n since s)

    kept :
        (now : ℤ) (s : Subscription)
        → update_subscription s.id
            (beat now)
            (record_reset (reset_reason_of v window) (waiting n since s) ∷ [])
          ≡ beat now (record_reset (reset_reason_of v window) (waiting n since s)) ∷ []
    kept now s =
        update_only (beat now) (record_reset (reset_reason_of v window) (waiting n since s))

    one_round :
        (now : ℤ) (s : Subscription) (h : StreamHub) (w : W)
        → h.subscriptions ≡ waiting n since s ∷ []
        → ((w' : W)
            → (client.get_snapshots_since s.room_id since
                (poll_request_id s.request_id s.room_id)
                w').0
              ≡ some window)
        → ((w' : W)
            → (client.get_state s.room_id (poll_request_id s.request_id s.room_id) w').0 ≡ some r)
        → ((tick v now h w).0.subscriptions ≡ waiting n since (reset_once now s) ∷ [])
          × ((tick v now h w).0.heartbeat_interval_ms ≡ h.heartbeat_interval_ms)
          × ((tick v now h w).1 ≡ round_world h.heartbeat_interval_ms now s w)
    unfolding tick collect_work collect_each collect_one collect_backfill exchange_round
        run_backfills tick_rooms write_ready write_heartbeats note_outcome commit commit_updates
        remove_failed finish_backfills record_resets update_each close_removed report_removed
        set_last_pushed_state
    one_round now s h w alone answered current = elim (Bool-cases (is_zero s.created_ms)) [
      | inl new ↦
          let x = record s { created_ms = now; last_heartbeat_ms = now } in
          elim (Bool-cases (is_heartbeat_due h.heartbeat_interval_ms now x)) [
            | inl due ↦
                rw
                  (
                    alone,
                    new,
                    due,
                    backfill_lem x (collected h x 0) w answered current,
                    live _ (after_reset s w),
                    told x,
                    kept now x,
                    kept now (record x { last_heartbeat_ms = now }),
                  )
                  (refl, refl, refl)
            | inr early ↦
                rw
                  (
                    alone,
                    new,
                    early,
                    backfill_lem x (collected h x 1) w answered current,
                    told x,
                    kept now x,
                  )
                  (refl, refl, refl)
          ]
      | inr old ↦ elim (Bool-cases (is_heartbeat_due h.heartbeat_interval_ms now s)) [
        | inl due ↦
            rw
              (
                alone,
                old,
                due,
                backfill_lem s (collected h s 0) w answered current,
                live _ (after_reset s w),
                told s,
                kept now s,
                kept now (record s { last_heartbeat_ms = now }),
              )
              (refl, refl, refl)
        | inr early ↦
            rw
              (
                alone,
                old,
                early,
                backfill_lem s (collected h s 1) w answered current,
                told s,
                kept now s,
              )
              (refl, refl, refl)
      ]
    ]

    rounds_from :
        (nows : List ℤ) (interval : ℤ) (s : Subscription) (h : StreamHub) (u w : W)
        → h.heartbeat_interval_ms ≡ interval
        → u ≡ w
        → h.subscriptions ≡ waiting n since s ∷ []
        → ((w' : W)
            → (client.get_snapshots_since s.room_id since
                (poll_request_id s.request_id s.room_id)
                w').0
              ≡ some window)
        → ((w' : W)
            → (client.get_state s.room_id (poll_request_id s.request_id s.room_id) w').0 ≡ some r)
        → ((run_ticks v nows h u).0.subscriptions
            ≡ waiting n since (after_rounds interval nows s w).0 ∷ [])
          × ((run_ticks v nows h u).1 ≡ (after_rounds interval nows s w).1)
    rounds_from [] interval s h u w same here alone answered current = rw here (alone, refl)
    rounds_from (now ∷ nows) interval s h u w same here alone answered current =
        let (left, kept, world) = one_round now s h u alone answered current in
        rounds_from nows interval (reset_once now s) (tick v now h u).0 (tick v now h u).1
          (round_world interval now s w) (kept ∙ same) (world ∙ rw (same, here) refl) left answered
          current

    -- The only subscription of the hub has a connection and waits for the frames after an id, which was
    -- well formed. Its writes succeed, and the room
    -- service answers every call: that the frames are not all there, or that there are none, and with
    -- the current state of the room, the same each time. Then every round of `Tick`, for any number of
    -- rounds with nothing in between, does the same: it asks for the frames and for the state, writes a
    -- reset with the reason and the current state to the client, and a heartbeat behind it if one was
    -- due, and nothing else. The subscription notes the reset and goes on waiting for the same frames, so
    -- that it is never made ready or sent the state of the room.
    pub run_ticks-resets :
        (nows : List ℤ) (s : Subscription) (h : StreamHub) (w : W)
        → h.subscriptions ≡ waiting n since s ∷ []
        → ((w' : W)
            → (client.get_snapshots_since s.room_id since
                (poll_request_id s.request_id s.room_id)
                w').0
              ≡ some window)
        → ((w' : W)
            → (client.get_state s.room_id (poll_request_id s.request_id s.room_id) w').0 ≡ some r)
        → ((run_ticks v nows h w).0.subscriptions
            ≡ waiting n since (after_rounds h.heartbeat_interval_ms nows s w).0 ∷ [])
          × ((run_ticks v nows h w).1 ≡ (after_rounds h.heartbeat_interval_ms nows s w).1)
    run_ticks-resets nows s h w alone answered current =
        rounds_from nows h.heartbeat_interval_ms s h w w refl refl alone answered current

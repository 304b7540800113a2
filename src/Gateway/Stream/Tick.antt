-- ===== src/Gateway/Stream/Tick.antt =====
-- src/gateway/stream_hub.cpp: `StreamHub::Tick`, the second and third phase and the whole round. The
-- model runs a round at a stretch; Gateway/Stream/Steps.antt lets other calls in between its locked parts.
use realtime_game_backend.Base.{ℕ, ◌+◌, false, List, [], ◌∷◌, ◌++◌, map, none, if◌then◌else◌}
use realtime_game_backend.Base.Int.{ℤ}
use realtime_game_backend.Base.Bytes.{Bytes, codes}
use realtime_game_backend.Base.Dict.{Dict, find}
use realtime_game_backend.Gateway.Client.{Services}
use realtime_game_backend.Gateway.Events.{heartbeat, poll_request_id, sse_event, session_ready_json}
use realtime_game_backend.Gateway.Stream.State.{
  StreamHub, Subscription, report_presence, close_sink,
}
use realtime_game_backend.Gateway.Stream.Push.{SinkRef, tick_room, or_empty}
use realtime_game_backend.Gateway.Stream.Backfill.{
  BackfillTarget, BackfillOutcome, backfill_subscription,
}
use realtime_game_backend.Gateway.Stream.Collect.{ReadyTarget, RoundWork, collect_work}
use realtime_game_backend.Gateway.Stream.Commit.{Round, empty_round, commit}

-- What the loop over `need_backfill` notes of an outcome, before what it notes of the later ones.
unfoldable pub note_outcome : ℕ → BackfillOutcome → Round → Round
note_outcome id o r =
    if o.write_failed
    then record r { failed = id ∷ r.failed }
    else (let r' : Round =
          (if o.attempted
            then record r {
              backfilled = (id, o.frames) ∷ r.backfilled;
              backfilled_frames = o.frames + r.backfilled_frames;
            }
            else record r { backfill_pending_kept = id ∷ r.backfill_pending_kept }) in
        if o.reset_sent then record r' { reset_done = (id, o.reset_reason) ∷ r.reset_done } else r')

module _ {W : Type 0} (v : Services W) where
  unfoldable pub run_backfills : List BackfillTarget → StreamHub → W → (StreamHub × W) × Round
  unfolding backfill_subscription note_outcome
  run_backfills [] h w = ((h, w), empty_round)
  run_backfills (t ∷ ts) h w =
      let ((h', w'), outcome) = backfill_subscription v t h w in
      let (done, r) = run_backfills ts h' w' in (done, note_outcome t.id outcome r)

  -- The loop over `by_room`, with what it pushes onto `failed`.
  unfoldable pub tick_rooms :
      Dict (List SinkRef) → Dict Bytes → ℤ → StreamHub → W → (StreamHub × W) × List ℕ
  unfolding tick_room find
  tick_rooms [] request_ids now h w = ((h, w), [])
  tick_rooms ((room_id, sinks) ∷ rest) request_ids now h w =
      let request_id = poll_request_id (or_empty (find room_id request_ids)) room_id in
      let ((h', w'), failed) = tick_room v room_id sinks request_id now h w in
      let (done, failed') = tick_rooms rest request_ids now h' w' in (done, failed ++ failed')

  unfoldable pub write_ready : List ReadyTarget → ℤ → W → W × List ℕ
  unfolding session_ready_json sse_event
  write_ready [] now w = (w, [])
  write_ready (t ∷ ts) now w =
      let (alive, w') =
        v.write t.sink
          (sse_event (codes "session.ready") (session_ready_json t.player_id t.room_id now) none)
          w in
      let (w'', failed) = write_ready ts now w' in (w'', (if alive then failed else t.id ∷ failed))

  unfoldable pub write_heartbeats : List SinkRef → W → W × List ℕ
  write_heartbeats [] w = (w, [])
  write_heartbeats (t ∷ ts) w =
      let (alive, w') = v.write t.sink heartbeat w in
      let (w'', failed) = write_heartbeats ts w' in (w'', (if alive then failed else t.id ∷ failed))

  abbrev pub ready_ids : List ReadyTarget → List ℕ
  ready_ids ts = map (λ t. t.id) ts

  abbrev pub sink_ids : List SinkRef → List ℕ
  sink_ids ts = map (λ t. t.id) ts

  -- The second and the third phase.
  unfoldable pub exchange_round : ℤ → RoundWork → StreamHub → W → (StreamHub × W) × Round
  unfolding run_backfills tick_rooms write_ready write_heartbeats
  exchange_round now c h w =
      let ((h₁, w₁), r) = run_backfills c.need_backfill h w in
      let ((h₂, w₂), failed) = tick_rooms c.by_room c.room_request_ids now h₁ w₁ in
      let (w₃, unready) = write_ready c.need_ready now w₂ in
      let (w₄, unbeaten) = write_heartbeats c.need_heartbeat w₃ in
      let all : Round = record r {
        ready = ready_ids c.need_ready;
        beaten = sink_ids c.need_heartbeat;
        failed = r.failed ++ (failed ++ (unready ++ unbeaten));
      } in
      ((h₂, w₄), all)

  -- The sinks of the removed subscriptions are closed, then their players reported offline.
  unfoldable pub close_removed : List Subscription → W → W
  close_removed [] w = w
  close_removed (s ∷ ss) w = close_removed ss (close_sink v s.sink w)

  unfoldable pub report_removed : List Subscription → W → W
  unfolding report_presence
  report_removed [] w = w
  report_removed (s ∷ ss) w =
      report_removed ss (report_presence v s.room_id s.player_id false s.request_id w)

  -- Tick
  unfoldable pub tick : ℤ → StreamHub → W → StreamHub × W
  unfolding collect_work exchange_round commit close_removed report_removed
  tick now h w =
      let (h₁, c) = collect_work now h in
      let ((h₂, w₂), r) = exchange_round now c h₁ w in
      let (h₃, gone) = commit now r h₂ in (h₃, report_removed gone (close_removed gone w₂))

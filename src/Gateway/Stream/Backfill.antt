-- ===== src/Gateway/Stream/Backfill.antt =====
-- src/gateway/stream_hub.cpp: `BackfillSubscription`.
use realtime_game_backend.Base.{
  ℕ, Bool, true, false, List, [], ◌∷◌, Option, some, none, ◌||◌, if◌then◌else◌, negate, length,
}
use realtime_game_backend.Base.Int.{ℤ}
use realtime_game_backend.Base.Bytes.{Bytes, codes, is_empty}
use realtime_game_backend.Gateway.Client.{
  RoomView, SnapshotWindow, SnapshotWindowStatus, Services, RoomClient,
}
use realtime_game_backend.Gateway.Events.{
  poll_request_id, sse_event, room_state_json, room_finished_json, stream_reset_json,
}
use realtime_game_backend.Gateway.Stream.State.{StreamHub}
use realtime_game_backend.Gateway.Stream.Push.{set_last_pushed_state, is_terminal}

pub record BackfillTarget : Type 0 where
  pub id : ℕ
  pub sink : ℕ
  pub room_id : Bytes
  pub request_id : Bytes
  pub since_frame : Option ℤ
  pub malformed : Bool

pub record BackfillOutcome : Type 0 where
  pub attempted : Bool
  pub frames : ℕ
  pub write_failed : Bool
  pub reset_sent : Bool
  pub reset_reason : Bytes

abbrev pub no_backfill : BackfillOutcome
no_backfill = record {
  attempted = false;
  frames = 0;
  write_failed = false;
  reset_sent = false;
  reset_reason = [];
}

module _ {W : Type 0} (v : Services W) where
  -- The local function `send_reset`, with the outcome so far.
  unfoldable pub send_reset :
      BackfillTarget
      → Bytes
      → RoomView
      → BackfillOutcome
      → StreamHub
      → W
      → (StreamHub × W) × BackfillOutcome
  unfolding set_last_pushed_state
  send_reset t reason r outcome h w =
      let (alive, w') =
        v.write t.sink
          (sse_event (codes "stream.reset") (stream_reset_json reason r (v.clock w)) (some r.frame))
          w in
      (
        (set_last_pushed_state t.room_id r false h, w'),
        record outcome { write_failed = negate alive; reset_sent = alive; reset_reason = reason },
      )

  abbrev pub frame_event : RoomView → W → Bytes
  frame_event r w =
      if is_terminal r.state
      then sse_event (codes "room.finished") (room_finished_json r (v.clock w)) (some r.frame)
      else sse_event (codes "room.state") (room_state_json r (v.clock w)) (some r.frame)

  -- Each branch that sends a reset does so only if `GetState` gave it the current state.
  unfoldable pub reset_to :
      BackfillTarget
      → Bytes
      → BackfillOutcome
      → Option RoomView
      → StreamHub
      → W
      → (StreamHub × W) × BackfillOutcome
  unfolding send_reset
  reset_to t reason outcome none h w = ((h, w), no_backfill)
  reset_to t reason outcome (some r) h w = send_reset t reason r outcome h w

  -- The loop over the missed snapshots; the Boolean is false if a write failed.
  unfoldable pub replay : BackfillTarget → List RoomView → StreamHub → W → (StreamHub × W) × Bool
  unfolding set_last_pushed_state
  replay t [] h w = ((h, w), true)
  replay t (r ∷ rs) h w =
      let (alive, w') = v.write t.sink (frame_event r w) w in
      let next = replay t rs (set_last_pushed_state t.room_id r (is_terminal r.state) h) w' in
      if alive then next else ((h, w'), false)

  abbrev pub reset_reason_of : SnapshotWindow → Bytes
  reset_reason_of range = elim range.status [
    | SnapshotWindowStatus.ahead ↦ codes "id_ahead"
    | SnapshotWindowStatus.incomplete ↦ codes "id_out_of_window"
    | SnapshotWindowStatus.ready ↦ codes "id_current"
  ]

  abbrev pub is_ready : SnapshotWindowStatus → Bool
  is_ready SnapshotWindowStatus.ready = true
  is_ready _ = false

  -- From the answer of `GetSnapshotsSince` on.
  unfoldable pub backfill_range :
      RoomClient W
      → BackfillTarget
      → SnapshotWindow
      → StreamHub
      → W
      → (StreamHub × W) × BackfillOutcome
  unfolding reset_to replay
  backfill_range client t range h w =
      if negate (is_ready range.status) || is_empty range.snapshots
      then (let (current, w') =
            client.get_state t.room_id (poll_request_id t.request_id t.room_id) w in
          reset_to t (reset_reason_of range) no_backfill current h w')
      else let (done, alive) = replay t range.snapshots h w in
        (
          done,
          (if alive
              then record no_backfill { attempted = true; frames = length range.snapshots }
              else record no_backfill { write_failed = true }),
        )

  -- The branch for an id that could not be parsed, and the one for an id.
  unfoldable pub backfill_unparsed :
      RoomClient W → BackfillTarget → StreamHub → W → (StreamHub × W) × BackfillOutcome
  unfolding reset_to
  backfill_unparsed client t h w =
      let (current, w') = client.get_state t.room_id (poll_request_id t.request_id t.room_id) w in
      reset_to t (codes "id_malformed") (record no_backfill { attempted = true }) current h w'

  unfoldable pub backfill_since :
      RoomClient W → BackfillTarget → ℤ → StreamHub → W → (StreamHub × W) × BackfillOutcome
  unfolding backfill_range
  backfill_since client t since h w =
      let (range, w') =
        client.get_snapshots_since t.room_id since (poll_request_id t.request_id t.room_id) w in
      elim range [
        | none ↦ ((h, w'), no_backfill)
        | some window ↦ backfill_range client t window h w'
      ]

  -- BackfillSubscription
  unfoldable pub backfill_subscription :
      BackfillTarget → StreamHub → W → (StreamHub × W) × BackfillOutcome
  unfolding backfill_unparsed backfill_since
  backfill_subscription t h w = elim v.room [
    | none ↦ ((h, w), no_backfill)
    | some client ↦ if t.malformed then backfill_unparsed client t h w else elim t.since_frame [
      | none ↦ ((h, w), no_backfill)
      | some since ↦ backfill_since client t since h w
    ]
  ]

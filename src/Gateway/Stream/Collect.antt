-- ===== src/Gateway/Stream/Collect.antt =====
-- src/gateway/stream_hub.cpp: the first phase of `StreamHub::Tick`, which reads the table under the lock.
use realtime_game_backend.Base.{
  ℕ, suc, ◌+◌, Bool, List, [], ◌∷◌, ◌++◌, map, Option, some, none, ◌&&◌, ◌||◌, if◌then◌else◌,
  is_some,
}
use realtime_game_backend.Base.Int.{ℤ, leb_ℤ, ◌-ℤ◌}
use realtime_game_backend.Base.Bytes.{Bytes}
use realtime_game_backend.Base.Dict.{Dict, find, assign}
use realtime_game_backend.Gateway.Stream.State.{StreamHub, Subscription, is_zero}
use realtime_game_backend.Gateway.Stream.Push.{SinkRef}
use realtime_game_backend.Gateway.Stream.Backfill.{BackfillTarget}

pub record ReadyTarget : Type 0 where
  pub id : ℕ
  pub sink : ℕ
  pub player_id : Bytes
  pub room_id : Bytes

-- The local variables that the phase fills; `skipped` is what it adds to `skipped_no_write_total_`.
pub record RoundWork : Type 0 where
  pub by_room : Dict (List SinkRef)
  pub room_request_ids : Dict Bytes
  pub need_ready : List ReadyTarget
  pub need_heartbeat : List SinkRef
  pub need_backfill : List BackfillTarget
  pub skipped : ℕ

abbrev pub nothing_collected : RoundWork
nothing_collected = record {
  by_room = [];
  room_request_ids = [];
  need_ready = [];
  need_heartbeat = [];
  need_backfill = [];
  skipped = 0;
}

-- The first loop, on one subscription.
abbrev pub stamp_new : ℤ → Subscription → Subscription
stamp_new now s =
    if is_zero s.created_ms then record s { created_ms = now; last_heartbeat_ms = now } else s

abbrev pub should_backfill : Subscription → Bool
should_backfill s = s.backfill_pending && (is_some s.backfill_from || s.backfill_malformed)

unfoldable pub is_heartbeat_due : ℤ → ℤ → Subscription → Bool
unfolding ◌-ℤ◌
is_heartbeat_due interval now s = leb_ℤ interval (now -ℤ s.last_heartbeat_ms)

abbrev pub or_none : Option (List SinkRef) → List SinkRef
or_none none = []
or_none (some ts) = ts

-- The second loop, on one subscription, by what it is ready for.
unfoldable pub collect_backfill : ℤ → ℤ → Subscription → ℕ → RoundWork → RoundWork
unfolding is_heartbeat_due
collect_backfill interval now s sink c =
    let target : BackfillTarget = record {
      id = s.id;
      sink = sink;
      room_id = s.room_id;
      request_id = s.request_id;
      since_frame = s.backfill_from;
      malformed = s.backfill_malformed;
    } in
    let c' : RoundWork = record c { need_backfill = c.need_backfill ++ (target ∷ []) } in
    if is_heartbeat_due interval now s
    then record c' { need_heartbeat = c.need_heartbeat ++ (record { id = s.id; sink = sink } ∷ []) }
    else record c' { skipped = suc c.skipped }

unfoldable pub collect_live : ℤ → ℤ → Subscription → ℕ → RoundWork → RoundWork
unfolding is_heartbeat_due find assign
collect_live interval now s sink c =
    let ref : SinkRef = record { id = s.id; sink = sink } in
    let ready : ReadyTarget = record {
      id = s.id;
      sink = sink;
      player_id = s.player_id;
      room_id = s.room_id;
    } in
    let c' : RoundWork = record c {
      by_room = assign s.room_id (or_none (find s.room_id c.by_room) ++ (ref ∷ [])) c.by_room;
      room_request_ids = assign s.room_id s.request_id c.room_request_ids;
    } in
    if s.ready_sent
    then (if is_heartbeat_due interval now s
        then record c' { need_heartbeat = c.need_heartbeat ++ (ref ∷ []) }
        else c')
    else record c' { need_ready = c.need_ready ++ (ready ∷ []) }

unfoldable pub collect_one : ℤ → ℤ → Subscription → RoundWork → RoundWork
unfolding collect_backfill collect_live
collect_one interval now s c = elim s.sink [
  | none ↦ record c { skipped = suc c.skipped }
  | some sink ↦
      if should_backfill s
      then collect_backfill interval now s sink c
      else collect_live interval now s sink c
]

unfoldable pub collect_each : ℤ → ℤ → List Subscription → RoundWork → RoundWork
unfolding collect_one
collect_each interval now [] c = c
collect_each interval now (s ∷ ss) c = collect_each interval now ss (collect_one interval now s c)

-- Both loops.
unfoldable pub collect_work : ℤ → StreamHub → StreamHub × RoundWork
unfolding collect_each
collect_work now h =
    let ss = map (stamp_new now) h.subscriptions in
    let c = collect_each h.heartbeat_interval_ms now ss nothing_collected in
    (
      record h {
        subscriptions = ss;
        skipped_no_write_total = h.skipped_no_write_total + c.skipped;
      },
      c,
    )

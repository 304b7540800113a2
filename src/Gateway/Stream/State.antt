-- ===== src/Gateway/Stream/State.antt =====
-- src/gateway/stream_hub.hpp: the table of subscriptions, and the parts of src/gateway/stream_hub.cpp
-- that read it or close it.
use realtime_game_backend.Base.{
  ℕ, suc, Bool, true, false, List, [], ◌∷◌, Option, some, none, ◌&&◌, if◌then◌else◌, nat_eq,
}
use realtime_game_backend.Base.Int.{ℤ, pos, leb_ℤ}
use realtime_game_backend.Base.Bytes.{Bytes}
use realtime_game_backend.Base.Dict.{Dict, erase}
use realtime_game_backend.Gateway.Client.{Services}

abbrev pub is_zero : ℤ → Bool
is_zero z = leb_ℤ z (pos 0) && leb_ℤ (pos 0) z

pub record SubscribeOptions : Type 0 where
  pub last_event_id : Option ℤ
  pub last_event_id_malformed : Bool
  pub request_id : Bytes

pub record SubscriptionReport : Type 0 where
  pub id : ℕ
  pub reset_sent : Bool
  pub reset_reason : Bytes
  pub backfilled_frames : ℕ
  pub backfill_done : Bool

abbrev pub empty_subscription_report : SubscriptionReport
empty_subscription_report = record {
  id = 0;
  reset_sent = false;
  reset_reason = [];
  backfilled_frames = 0;
  backfill_done = false;
}

-- No sink stands for a null pointer.
pub record Subscription : Type 0 where
  pub id : ℕ
  pub player_id : Bytes
  pub room_id : Bytes
  pub request_id : Bytes
  pub sink : Option ℕ
  pub last_heartbeat_ms : ℤ
  pub created_ms : ℤ
  pub ready_sent : Bool
  pub backfill_pending : Bool
  pub backfill_from : Option ℤ
  pub backfill_malformed : Bool
  pub backfill_done : Bool
  pub reset_sent : Bool
  pub reset_reason : Bytes
  pub backfilled_frames : ℕ

-- `subscriptions` is a table keyed by the id that each subscription holds.
pub record StreamHub : Type 0 where
  pub heartbeat_interval_ms : ℤ
  pub subscriptions : List Subscription
  pub next_id : ℕ
  pub room_poll_count : ℕ
  pub backfilled_frame_count : ℕ
  pub reset_counts : Dict ℕ
  pub last_pushed_state : Dict Bytes
  pub draining : Bool
  pub created_total : ℕ
  pub closed_write_failed_total : ℕ
  pub closed_other_total : ℕ
  pub skipped_no_write_total : ℕ

abbrev pub new_hub : ℤ → StreamHub
new_hub heartbeat_interval_ms = record {
  heartbeat_interval_ms = heartbeat_interval_ms;
  subscriptions = [];
  next_id = 1;
  room_poll_count = 0;
  backfilled_frame_count = 0;
  reset_counts = [];
  last_pushed_state = [];
  draining = false;
  created_total = 0;
  closed_write_failed_total = 0;
  closed_other_total = 0;
  skipped_no_write_total = 0;
}

-- find, erase, and a change in place in the table
unfoldable pub find_subscription : ℕ → List Subscription → Option Subscription
find_subscription id [] = none
find_subscription id (s ∷ ss) = if nat_eq s.id id then some s else find_subscription id ss

unfoldable pub erase_subscription : ℕ → List Subscription → List Subscription
erase_subscription id [] = []
erase_subscription id (s ∷ ss) =
    let rest = erase_subscription id ss in if nat_eq s.id id then ss else s ∷ rest

unfoldable pub update_subscription :
    ℕ → (Subscription → Subscription) → List Subscription → List Subscription
update_subscription id f [] = []
update_subscription id f (s ∷ ss) =
    let rest = update_subscription id f ss in if nat_eq s.id id then f s ∷ ss else s ∷ rest

-- ReportPresence
unfoldable pub report_presence : {W : Type 0} → Services W → Bytes → Bytes → Bool → Bytes → W → W
report_presence v room_id player_id online request_id w = elim v.room [
  | none ↦ w
  | some client ↦ client.set_presence room_id player_id online request_id w
]

abbrev pub new_subscription : ℕ → Bytes → Bytes → ℕ → SubscribeOptions → Subscription
new_subscription id player_id room_id sink options = record {
  id = id;
  player_id = player_id;
  room_id = room_id;
  request_id = options.request_id;
  sink = some sink;
  last_heartbeat_ms = pos 0;
  created_ms = pos 0;
  ready_sent = false;
  backfill_pending = true;
  backfill_from = options.last_event_id;
  backfill_malformed = options.last_event_id_malformed;
  backfill_done = false;
  reset_sent = false;
  reset_reason = [];
  backfilled_frames = 0;
}

-- The locked block of `Subscribe`.
unfoldable pub register : Bytes → Bytes → ℕ → SubscribeOptions → StreamHub → StreamHub
unfolding erase
register player_id room_id sink options h = record h {
  next_id = suc h.next_id;
  created_total = suc h.created_total;
  last_pushed_state = erase room_id h.last_pushed_state;
  subscriptions = new_subscription h.next_id player_id room_id sink options ∷ h.subscriptions;
}

-- Subscribe
unfoldable pub subscribe :
    {W : Type 0}
    → Services W
    → Bytes
    → Bytes
    → Option ℕ
    → SubscribeOptions
    → StreamHub
    → W
    → (StreamHub × W) × SubscriptionReport
unfolding register report_presence
subscribe v player_id room_id none options h w = ((h, w), empty_subscription_report)
subscribe v player_id room_id (some sink) options h w =
    if h.draining then ((h, w), empty_subscription_report) else (
      (
        register player_id room_id sink options h,
        report_presence v room_id player_id true options.request_id w,
      ),
      record empty_subscription_report { id = h.next_id },
    )

-- SubscribeReport
unfoldable pub subscribe_report : ℕ → StreamHub → SubscriptionReport
unfolding find_subscription
subscribe_report id h = elim (find_subscription id h.subscriptions) [
  | none ↦ empty_subscription_report
  | some s ↦ record {
    id = id;
    reset_sent = s.reset_sent;
    reset_reason = s.reset_reason;
    backfilled_frames = s.backfilled_frames;
    backfill_done = s.backfill_done;
  }
]

abbrev pub close_sink : {W : Type 0} → Services W → Option ℕ → W → W
close_sink v sink w = elim sink [ none ↦ w | some n ↦ v.close n w ]

-- The locked block of `Unsubscribe`, for a subscription that is there.
unfoldable pub drop_subscription : ℕ → StreamHub → StreamHub
unfolding erase_subscription
drop_subscription id h = record h {
  subscriptions = erase_subscription id h.subscriptions;
  closed_other_total = suc h.closed_other_total;
}

-- Unsubscribe
unfoldable pub unsubscribe : {W : Type 0} → Services W → ℕ → StreamHub → W → StreamHub × W
unfolding find_subscription drop_subscription report_presence
unsubscribe v id h w = elim (find_subscription id h.subscriptions) [
  | none ↦ (h, w)
  | some s ↦ (
    drop_subscription id h,
    close_sink v s.sink (report_presence v s.room_id s.player_id false s.request_id w),
  )
]

-- BeginShutdown
unfoldable pub begin_draining : StreamHub → StreamHub
begin_draining h = record h { draining = true }

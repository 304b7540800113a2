-- ===== src/Gateway/Stream/Closing.antt =====
-- src/gateway/stream_hub.cpp: the closing of the whole hub, and the parts that only read the table.
use realtime_game_backend.Base.{
  ℕ, Bool, true, false, List, [], ◌∷◌, Option, some, none, if◌then◌else◌, length,
}
use realtime_game_backend.Base.Int.{ℤ, pos, ltb_ℤ, ◌-ℤ◌}
use realtime_game_backend.Base.Bytes.{Bytes, codes}
use realtime_game_backend.Base.Dict.{Dict, assign}
use realtime_game_backend.Gateway.Client.{Services}
use realtime_game_backend.Gateway.Events.{sse_event, stream_closed_json}
use realtime_game_backend.Gateway.Stream.State.{
  StreamHub, Subscription, report_presence, close_sink, is_zero,
}

-- The locked block of `CloseAll` and `CloseAllWithEvent`.
unfoldable pub take_all : StreamHub → StreamHub × List Subscription
take_all h = (record h { subscriptions = []; last_pushed_state = [] }, h.subscriptions)

unfoldable pub close_each : {W : Type 0} → Services W → List Subscription → W → W
unfolding report_presence
close_each v [] w = w
close_each v (s ∷ ss) w =
    close_each v ss
      (close_sink v s.sink (report_presence v s.room_id s.player_id false s.request_id w))

-- CloseAll
unfoldable pub close_all : {W : Type 0} → Services W → StreamHub → W → StreamHub × W
unfolding take_all close_each
close_all v h w = let (h', taken) = take_all h in (h', close_each v taken w)

unfoldable pub announce : {W : Type 0} → Services W → Bytes → Option ℕ → W → W
unfolding stream_closed_json sse_event
announce v reason none w = w
announce v reason (some n) w =
    (v.write n
      (sse_event (codes "stream.closed") (stream_closed_json reason (v.clock w)) (some (pos 0)))
      w).1

unfoldable pub announce_each : {W : Type 0} → Services W → Bytes → List Subscription → W → W
unfolding announce
announce_each v reason [] w = w
announce_each v reason (s ∷ ss) w = announce_each v reason ss (announce v reason s.sink w)

-- CloseAllWithEvent
unfoldable pub close_all_with_event :
    {W : Type 0} → Services W → Bytes → StreamHub → W → (StreamHub × W) × ℕ
unfolding take_all announce_each close_each
close_all_with_event v reason h w =
    let (h', taken) = take_all h in
    ((h', close_each v taken (announce_each v reason taken w)), length taken)

-- OldestSubscriptionAgeMs: the least creation time seen so far.
abbrev pub older : Option ℤ → ℤ → Option ℤ
older none t = some t
older (some o) t = if ltb_ℤ t o then some t else some o

unfoldable pub oldest_from : Option ℤ → List Subscription → Option ℤ
oldest_from o [] = o
oldest_from o (s ∷ ss) = oldest_from (if is_zero s.created_ms then o else older o s.created_ms) ss

unfoldable pub oldest_subscription_age_ms : ℤ → StreamHub → ℤ
unfolding oldest_from ◌-ℤ◌
oldest_subscription_age_ms now h = elim (oldest_from none h.subscriptions) [
  | none ↦ pos 0
  | some o ↦ now -ℤ o
]

unfoldable pub connection_count : StreamHub → ℕ
connection_count h = length h.subscriptions

-- The table of the rooms that SubscribedRoomCount fills.
unfoldable pub subscribed_rooms : List Subscription → Dict Bool
unfolding assign
subscribed_rooms [] = []
subscribed_rooms (s ∷ ss) = assign s.room_id true (subscribed_rooms ss)

unfoldable pub subscribed_room_count : StreamHub → ℕ
unfolding subscribed_rooms
subscribed_room_count h = length (subscribed_rooms h.subscriptions)

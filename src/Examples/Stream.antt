-- ===== src/Examples/Stream.antt =====
-- The event streams of stream_hub.cpp at concrete inputs.
use realtime_game_backend.Base.{
  ℕ, ◌+◌, length, nat_eq, negate, Bool, true, false, Option, some, none, ◌≡◌, refl, sym, ap, ◌∙◌,
  List, [], ◌∷◌, ◌++◌, arith,
}
use realtime_game_backend.Base.Int.{pos}
use realtime_game_backend.Base.Bytes.{◌==◌, Bytes, codes}
use realtime_game_backend.Base.Dict.{find, UniqueKeys}
use realtime_game_backend.Gateway.Client.{
  RoomState, RoomView, SnapshotWindowStatus, SnapshotWindow, RoomClient, Services,
}
use realtime_game_backend.Gateway.Events.{json_escape, sse_event}
use realtime_game_backend.Gateway.Events.Escaping.{Place, read_string, read_string-json_escape}
use realtime_game_backend.Gateway.Events.Framing.{
  take_line, skip_line_feed, message, no_message, read_message,
}
use realtime_game_backend.Gateway.Events.OneLine.{Event, event_name, event_data, read_message-event}
use realtime_game_backend.Gateway.Stream.State.{
  drop_subscription, SubscribeOptions, Subscription, StreamHub, new_hub, register,
  find_subscription,
}
use realtime_game_backend.Gateway.Stream.Push.{SinkRef, push_room, tick_room, is_terminal}
use realtime_game_backend.Gateway.Stream.Backfill.{BackfillTarget, no_backfill, send_reset}
use realtime_game_backend.Gateway.Stream.Collect.{is_heartbeat_due, collect_work, or_none}
use realtime_game_backend.Gateway.Stream.Tick.{tick, tick_rooms}
use realtime_game_backend.Gateway.Stream.Steps.{
  HubReach, HubStep, at, Accounted, HubReach-Accounted,
}
use realtime_game_backend.Gateway.Stream.Refinement.{view, SpecStep, HubStep-SpecStep}
use realtime_game_backend.Gateway.Stream.Delivery.{
  write_all, ids, finished_event, push_room-once, tick_room-finished,
}
use realtime_game_backend.Gateway.Stream.Rounds.{tick-removes_dead}
use realtime_game_backend.Gateway.Stream.Kept.{tick-keeps_live}
use realtime_game_backend.Gateway.Stream.Polling.{subscribers_of, tick_rooms-collect_work}
use realtime_game_backend.Gateway.Stream.Between.{QuietReach, QuietStep}
use realtime_game_backend.Gateway.Stream.Resets.{push_room-after_reset}

-- A world that holds the writes, the newest first.
abbrev pub World : Type 0
World = List (ℕ × Bytes)

abbrev pub room_in : RoomState → RoomView
room_in state = record {
  room_id = codes "r";
  match_id = codes "m";
  state = state;
  frame = pos 7;
  players = record { player_id = codes "a"; hp = pos 90; connected = true; online = true } ∷ [];
  finish_reason = [];
  winner_id = [];
  started_at_ms = pos 1;
  finished_at_ms = pos 0;
}

abbrev pub window : SnapshotWindow
window = record {
  status = SnapshotWindowStatus.incomplete;
  snapshots = [];
  oldest_frame = pos 5;
  latest_frame = pos 7;
}

abbrev pub client_of : RoomState → RoomClient World
client_of state = record {
  get_state = λ room_id request_id w. (some (room_in state), w);
  get_snapshots_since = λ room_id since request_id w. (some window, w);
  set_presence = λ room_id player_id online request_id w. w;
}

-- Nothing can be written to sink 9.
abbrev services : RoomState → Services World
services state = record {
  write = λ n text w. (negate (nat_eq n 9), (n, text) ∷ w);
  close = λ n w. w;
  clock = λ w. pos 1000;
  room = some (client_of state);
}

abbrev pub live_services : RoomState → Services World
live_services state = record {
  write = λ n text w. (true, (n, text) ∷ w);
  close = λ n w. w;
  clock = λ w. pos 1000;
  room = some (client_of state);
}

abbrev first_time : SubscribeOptions
first_time = record {
  last_event_id = none;
  last_event_id_malformed = false;
  request_id = codes "q";
}

abbrev pub again : SubscribeOptions
again = record {
  last_event_id = some (pos 2);
  last_event_id_malformed = false;
  request_id = codes "q";
}

abbrev hub_1 : StreamHub
hub_1 = register (codes "a") (codes "r") 3 first_time (new_hub (pos 500))

abbrev hub_2 : StreamHub
hub_2 = register (codes "b") (codes "r") 9 again hub_1

two_subscribe : HubReach (at (new_hub (pos 500)) 0) (at hub_2 0)
two_subscribe =
    HubReach.later
      (HubReach.later HubReach.here
        (HubStep.registers (new_hub (pos 500)) 0 (codes "a") (codes "r") 3 first_time))
      (HubStep.registers hub_1 0 (codes "b") (codes "r") 9 again)

HubReach-Accounted_example : Accounted hub_2 0
HubReach-Accounted_example = HubReach-Accounted (pos 500) (at hub_2 0) two_subscribe

hub_1-Accounted : Accounted hub_1 0
hub_1-Accounted = HubReach-Accounted (pos 500) (at hub_1 0) (
    HubReach.later HubReach.here
      (HubStep.registers (new_hub (pos 500)) 0 (codes "a") (codes "r") 3 first_time))

HubStep-SpecStep_example : SpecStep (view hub_1) (view hub_2)
HubStep-SpecStep_example =
    HubStep-SpecStep (HubStep.registers hub_1 0 (codes "b") (codes "r") 9 again) hub_1-Accounted

read_string-json_escape_example :
    read_string Place.plain (json_escape (codes "a\"b\\") ++ (34 ∷ codes ","))
    ≡ some (codes "a\"b\\", codes ",")
read_string-json_escape_example = read_string-json_escape (codes "a\"b\\") (codes ",")

abbrev ready : Event
ready = Event.ready (codes "a\nb") (codes "r") (pos 1000)

-- A carriage return ends a line, with or without a line feed behind it.
carriage_returns :
    (take_line (codes "a" ++ (13 ∷ (10 ∷ codes "b"))) ≡ some (codes "a", codes "b"))
    × (take_line (codes "a" ++ (13 ∷ codes "b")) ≡ some (codes "a", codes "b"))
unfolding take_line skip_line_feed
carriage_returns = (refl, refl)

read_message-event_example :
    read_message 4 no_message (sse_event (event_name ready) (event_data ready) none ++ codes ":")
    ≡ some (message none (event_name ready) (event_data ready), codes ":")
read_message-event_example = read_message-event ready none (codes ":")

-- A subscription with an id to go on from, some rounds old, whose connection is dead.
abbrev dead : Subscription
dead = record {
  id = 1;
  player_id = codes "b";
  room_id = codes "r";
  request_id = codes "q";
  sink = some 9;
  last_heartbeat_ms = pos 100;
  created_ms = pos 100;
  ready_sent = false;
  backfill_pending = true;
  backfill_from = some (pos 2);
  backfill_malformed = false;
  backfill_done = false;
  reset_sent = false;
  reset_reason = [];
  backfilled_frames = 0;
}

abbrev dead_hub : StreamHub
dead_hub = record (new_hub (pos 500)) { subscriptions = dead ∷ []; next_id = 2; created_total = 1 }

dead_found : find_subscription 1 dead_hub.subscriptions ≡ some dead
unfolding find_subscription
dead_found = refl

dead_due : is_heartbeat_due (pos 500) (pos 2000) dead ≡ true
unfolding is_heartbeat_due
dead_due = refl

tick-removes_dead_example :
    find_subscription 1 (tick (services RoomState.playing) (pos 2000) dead_hub []).0.subscriptions
    ≡ none
tick-removes_dead_example =
    tick-removes_dead (services RoomState.playing) (pos 2000) dead_hub [] 0 1 9 dead
      ((ground arith, tt), refl) dead_found refl refl dead_due (λ text w. refl)

abbrev answer_of : Bytes → Bytes → World → Option (RoomClient World) → Option RoomView
answer_of room_id request_id w none = none
answer_of room_id request_id w (some client) = (client.get_state room_id request_id w).0

abbrev has_ended : Option RoomView → Bool
has_ended none = false
has_ended (some r) = is_terminal r.state

room_goes_on :
    (client : RoomClient World) (room_id request_id : Bytes) (w : World) (r : RoomView)
    → (live_services RoomState.playing).room ≡ some client
    → (client.get_state room_id request_id w).0 ≡ some r
    → is_terminal r.state ≡ false
room_goes_on client room_id request_id w r present known =
    sym (ap (λ o. has_ended o) (ap (λ o. answer_of room_id request_id w o) present ∙ known))

tick-keeps_live_example :
    view (tick (live_services RoomState.playing) (pos 2000) hub_2 []).0 2 ≡ view hub_2 2
tick-keeps_live_example =
    tick-keeps_live (live_services RoomState.playing) (λ n text w. refl) room_goes_on (pos 2000)
      hub_2 [] 0 2 (HubReach-Accounted (pos 500) (at hub_2 0) two_subscribe)

abbrev sinks : List SinkRef
sinks = record { id = 1; sink = 3 } ∷ record { id = 2; sink = 9 } ∷ []

abbrev pushed_once : StreamHub
pushed_once =
    (push_room (services RoomState.playing) (codes "r") (room_in RoomState.playing) sinks (pos 2000)
      hub_2 []).0.0

-- Before the second poll, somebody subscribes to another room, and one of the subscribers leaves.
abbrev busy_elsewhere : StreamHub
busy_elsewhere = drop_subscription 1 (register (codes "c") (codes "r2") 11 again pushed_once)

push_room-once_example :
    push_room
      (services RoomState.playing)
      (codes "r")
      (room_in RoomState.playing)
      sinks
      (pos 2100)
      busy_elsewhere
      []
    ≡ ((busy_elsewhere, []), [])
unfolding ◌==◌
push_room-once_example =
    push_room-once (services RoomState.playing) (codes "r") (room_in RoomState.playing) sinks sinks
      (pos 2000) (pos 2100) hub_2 busy_elsewhere [] [] refl
      (QuietReach.later
        (QuietReach.later QuietReach.here
          (QuietStep.registers pushed_once (codes "c") (codes "r2") 11 again refl))
        (QuietStep.drops _ 1))

tick_room-finished_example :
    (tick_room (services RoomState.finished) (codes "r") sinks (codes "q") (pos 2000) hub_2 []).1
      ≡ ids sinks
    × ((tick_room
          (services RoomState.finished)
          (codes "r")
          sinks
          (codes "q")
          (pos 2000)
          hub_2
          []).0.1
        ≡ write_all
            (services RoomState.finished)
            (finished_event (room_in RoomState.finished) (pos 2000))
            sinks
            [])
    × (find
          (codes "r")
          (tick_room
            (services RoomState.finished)
            (codes "r")
            sinks
            (codes "q")
            (pos 2000)
            hub_2
            []).0.0.last_pushed_state
        ≡ none)
tick_room-finished_example =
    tick_room-finished (services RoomState.finished) (client_of RoomState.finished) (codes "r")
      sinks (codes "q") (pos 2000) hub_2 [] (room_in RoomState.finished) refl refl refl refl

abbrev behind : BackfillTarget
behind = record {
  id = 2;
  sink = 9;
  room_id = codes "r";
  request_id = codes "q";
  since_frame = some (pos 2);
  malformed = false;
}

push_room-after_reset_example :
    (push_room
      (live_services RoomState.playing)
      (codes "r")
      (room_in RoomState.playing)
      sinks
      (pos 2000)
      (send_reset
        (live_services RoomState.playing)
        behind
        (codes "id_ahead")
        (room_in RoomState.playing)
        no_backfill
        hub_2
        []).0.0
      []).0.1
    ≡ []
push_room-after_reset_example =
    push_room-after_reset (live_services RoomState.playing) behind (codes "id_ahead")
      (room_in RoomState.playing) no_backfill sinks (pos 2000) hub_2 [] [] refl

tick_rooms-collect_work_example :
    UniqueKeys (collect_work (pos 2000) hub_2).1.by_room
    × ((room_id : Bytes)
        → or_none (find room_id (collect_work (pos 2000) hub_2).1.by_room)
          ≡ subscribers_of room_id hub_2.subscriptions)
    × ((tick_rooms
          (services RoomState.playing)
          (collect_work (pos 2000) hub_2).1.by_room
          (collect_work (pos 2000) hub_2).1.room_request_ids
          (pos 2000)
          hub_2
          []).0.0.room_poll_count
        ≡ hub_2.room_poll_count + length (collect_work (pos 2000) hub_2).1.by_room)
tick_rooms-collect_work_example =
    tick_rooms-collect_work (services RoomState.playing) (pos 2000) hub_2 hub_2 []

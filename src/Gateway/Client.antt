-- ===== src/Gateway/Client.antt =====
-- src/gateway/room_client.hpp and event_sink.hpp: what the gateway sees of a room, the client through
-- which it calls the room service, and the sinks of event streams. The services act on a world `W`,
-- which stands for all that happens outside of the gateway.
use realtime_game_backend.Base.{ℕ, Bool, List, Option}
use realtime_game_backend.Base.Int.{ℤ}
use realtime_game_backend.Base.Bytes.{Bytes}

pub data RoomState : Type 0 where
  created waiting playing finishing finished aborted : RoomState

-- `RoomPlayerSnapshot`, `RoomSnapshot` and `SnapshotRange` of the gateway.
pub record PlayerView : Type 0 where
  pub player_id : Bytes
  pub hp : ℤ
  pub connected : Bool
  pub online : Bool

pub record RoomView : Type 0 where
  pub room_id : Bytes
  pub match_id : Bytes
  pub state : RoomState
  pub frame : ℤ
  pub players : List PlayerView
  pub finish_reason : Bytes
  pub winner_id : Bytes
  pub started_at_ms : ℤ
  pub finished_at_ms : ℤ

pub data SnapshotWindowStatus : Type 0 where
  ready incomplete ahead : SnapshotWindowStatus

pub record SnapshotWindow : Type 0 where
  pub status : SnapshotWindowStatus
  pub snapshots : List RoomView
  pub oldest_frame : ℤ
  pub latest_frame : ℤ

pub data RoomCallStatus : Type 0 where
  ok unavailable invalid_argument not_a_member not_playing not_found : RoomCallStatus
  shutting_down already_finished result_pending store_unavailable internal : RoomCallStatus

-- The calls of a `RoomClient` that the event streams make. `none` stands for any status but `kOk`,
-- on which they do not look further; the last argument before the world is the request id.
pub record RoomClient (W : Type 0) : Type 0 where
  pub get_state : Bytes → Bytes → W → Option RoomView × W
  pub get_snapshots_since : Bytes → ℤ → Bytes → W → Option SnapshotWindow × W
  pub set_presence : Bytes → Bytes → Bool → Bytes → W → W

-- Sinks are named by numbers. `write` is `Write`, which tells whether the connection is alive; `clock`
-- is the system's time in milliseconds; no client stands for a null pointer.
pub record Services (W : Type 0) : Type 0 where
  pub write : ℕ → Bytes → W → Bool × W
  pub close : ℕ → W → W
  pub clock : W → ℤ
  pub room : Option (RoomClient W)

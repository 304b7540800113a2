-- ===== src/Gateway/Stream/Resets.antt =====
-- src/gateway/stream_hub.cpp: what a `stream.reset` means for the other subscribers of the room.
use realtime_game_backend.Base.{◌≡◌, refl, false, List}
use realtime_game_backend.Base.Int.{ℤ}
use realtime_game_backend.Base.Bytes.{Bytes}
use realtime_game_backend.Gateway.Client.{RoomView, Services}
use realtime_game_backend.Gateway.Stream.State.{StreamHub}
use realtime_game_backend.Gateway.Stream.Push.{SinkRef, is_terminal, push_room}
use realtime_game_backend.Gateway.Stream.Backfill.{BackfillTarget, BackfillOutcome, send_reset}
use realtime_game_backend.Gateway.Stream.Delivery.{is_changed-set, push_room-quiet}

-- A reset that goes to one subscriber counts as a push to its whole room: a poll that finds the same state of
-- the room, going on, writes nothing to any other subscriber of it.
pub push_room-after_reset :
    {W : Type 0} (v : Services W) (t : BackfillTarget) (reason : Bytes) (r : RoomView)
    (o : BackfillOutcome) (others : List SinkRef) (now : ℤ) (h : StreamHub) (w w' : W)
    → is_terminal r.state ≡ false
    → (push_room v t.room_id r others now (send_reset v t reason r o h w).0.0 w').0.1 ≡ w'
unfolding send_reset
push_room-after_reset v t reason r o others now h w w' going =
    rw
      (push_room-quiet v t.room_id r others now (send_reset v t reason r o h w).0.0 w'
        (is_changed-set t.room_id r h going))
      refl

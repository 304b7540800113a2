-- ===== src/Examples/Late.antt =====
-- Rounds of stream_hub.cpp for a client that came back too late, at concrete inputs.
use realtime_game_backend.Base.{true, false, some, ◌≡◌, refl, List, [], ◌∷◌, map}
use realtime_game_backend.Base.Int.{pos, ℤ}
use realtime_game_backend.Base.Bytes.{codes}
use realtime_game_backend.Gateway.Client.{RoomState}
use realtime_game_backend.Gateway.Stream.State.{
  Subscription, StreamHub, new_hub, register, find_subscription, new_subscription,
}
use realtime_game_backend.Gateway.Stream.Tick.{tick}
use realtime_game_backend.Gateway.Stream.Late.{waiting, run_ticks, after_rounds, run_ticks-resets}
use realtime_game_backend.Examples.Stream.{World, room_in, window, client_of, live_services, again}

-- A client that comes back too late is sent the same reset in every round, and nothing else.
abbrev late_hub : StreamHub
late_hub = register (codes "b") (codes "r") 4 again (new_hub (pos 500))

abbrev late_rounds : StreamHub × World
late_rounds =
    let (h, w) = tick (live_services RoomState.playing) (pos 1100) late_hub [] in
    tick (live_services RoomState.playing) (pos 1200) h w

still_pending :
    find_subscription 1 late_rounds.0.subscriptions
    ≡ some (record {
      id = 1;
      player_id = codes "b";
      room_id = codes "r";
      request_id = codes "q";
      sink = some 4;
      last_heartbeat_ms = pos 1200;
      created_ms = pos 1100;
      ready_sent = false;
      backfill_pending = true;
      backfill_from = some (pos 2);
      backfill_malformed = false;
      backfill_done = false;
      reset_sent = true;
      reset_reason = codes "id_out_of_window";
      backfilled_frames = 0;
    })
unfolding find_subscription tick register
still_pending = refl

two_resets : map (λ x. x.0) late_rounds.1 ≡ 4 ∷ 4 ∷ []
unfolding tick register
two_resets = refl

abbrev late : Subscription
late = new_subscription 1 (codes "b") (codes "r") 4 again

abbrev times : List ℤ
times = pos 1100 ∷ pos 1200 ∷ []

run_ticks-resets_example :
    ((run_ticks (live_services RoomState.playing) times late_hub []).0.subscriptions
      ≡ waiting 4
          (pos 2)
          (after_rounds
            (live_services RoomState.playing)
            (client_of RoomState.playing)
            4
            (pos 2)
            window
            (room_in RoomState.playing)
            (pos 500)
            times
            late
            []).0
        ∷ [])
    × ((run_ticks (live_services RoomState.playing) times late_hub []).1
        ≡ (after_rounds
            (live_services RoomState.playing)
            (client_of RoomState.playing)
            4
            (pos 2)
            window
            (room_in RoomState.playing)
            (pos 500)
            times
            late
            []).1)
unfolding register
run_ticks-resets_example =
    run_ticks-resets (live_services RoomState.playing) (client_of RoomState.playing) 4 (pos 2)
      window (room_in RoomState.playing) (λ text w. refl) refl refl times late late_hub [] refl
      (λ w. refl) (λ w. refl)

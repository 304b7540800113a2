-- ===== src/Gateway/Events/OneLine.antt =====
-- src/gateway/stream_hub.cpp: the data of every event stays on one line.
use realtime_game_backend.Base.{
  ◌≡◌, Bool, true, false, List, [], ◌∷◌, ◌++◌, Option, some, arith, All-append,
}
use realtime_game_backend.Base.Int.{ℤ, pos}
use realtime_game_backend.Base.Bytes.{Bytes, codes}
use realtime_game_backend.Base.Decimal.{int_text}
use realtime_game_backend.Gateway.Client.{RoomState, PlayerView, RoomView}
use realtime_game_backend.Gateway.Events.{
  json_escape, envelope, bool_text, room_state_name, player_json, players_list, players_json,
  room_payload, session_ready_json, room_state_json, room_finished_json, stream_closed_json,
  stream_reset_json, sse_event,
}
use realtime_game_backend.Gateway.Events.Escaping.{
  IsPrintable, json_escape-IsPrintable, int_text-IsPrintable,
}
use realtime_game_backend.Gateway.Events.Framing.{
  message, no_message, read_message, read_message-sse_event,
}

-- A literal of the source, followed by printable text.
join : (a b : Bytes) → IsPrintable a → IsPrintable b → IsPrintable (a ++ b)
join a b ha hb = All-append _ a b ha hb

bool_text-IsPrintable : (b : Bool) → IsPrintable (bool_text b)
bool_text-IsPrintable true = ground arith
bool_text-IsPrintable false = ground arith

room_state_name-IsPrintable : (s : RoomState) → IsPrintable (room_state_name s)
unfolding room_state_name
room_state_name-IsPrintable RoomState.created = ground arith
room_state_name-IsPrintable RoomState.waiting = ground arith
room_state_name-IsPrintable RoomState.playing = ground arith
room_state_name-IsPrintable RoomState.finishing = ground arith
room_state_name-IsPrintable RoomState.finished = ground arith
room_state_name-IsPrintable RoomState.aborted = ground arith

envelope-IsPrintable :
    (type : Bytes) (sequence now : ℤ) (payload : Bytes)
    → IsPrintable type
    → IsPrintable payload
    → IsPrintable (envelope type sequence now payload)
unfolding envelope
envelope-IsPrintable type sequence now payload ht hp =
    join (codes "{\"version\":1,\"type\":\"") _ (ground arith) (
      join type _ ht (
        join (codes "\",\"sequence\":") _ (ground arith) (
          join (int_text sequence) _ (int_text-IsPrintable sequence) (
            join (codes ",\"timestamp_ms\":") _ (ground arith) (
              join (int_text now) _ (int_text-IsPrintable now) (
                join (codes ",\"payload\":") _ (ground arith)
                  (join payload _ hp (ground arith))))))))

player_json-IsPrintable : (p : PlayerView) → IsPrintable (player_json p)
unfolding player_json
player_json-IsPrintable p = join (codes "{\"player_id\":\"") _ (ground arith) (
    join (json_escape p.player_id) _ (json_escape-IsPrintable p.player_id) (
      join (codes "\",\"hp\":") _ (ground arith) (
        join (int_text p.hp) _ (int_text-IsPrintable p.hp) (
          join (codes ",\"connected\":") _ (ground arith) (
            join (bool_text p.connected) _ (bool_text-IsPrintable p.connected) (
              join (codes ",\"online\":") _ (ground arith)
                (join (bool_text p.online) _ (bool_text-IsPrintable p.online) (ground arith))))))))

players_list-IsPrintable : (ps : List PlayerView) → IsPrintable (players_list ps)
unfolding players_list
players_list-IsPrintable [] = tt
players_list-IsPrintable (p ∷ []) = player_json-IsPrintable p
players_list-IsPrintable (p ∷ (q ∷ ps)) =
    join (player_json p) _ (player_json-IsPrintable p)
      (join (codes ",") _ (ground arith) (players_list-IsPrintable (q ∷ ps)))

players_json-IsPrintable : (ps : List PlayerView) → IsPrintable (players_json ps)
unfolding players_json
players_json-IsPrintable ps =
    join (codes "[") _ (ground arith)
      (join (players_list ps) _ (players_list-IsPrintable ps) (ground arith))

room_payload-IsPrintable : (r : RoomView) → IsPrintable (room_payload r)
unfolding room_payload
room_payload-IsPrintable r = join (codes "{\"room_id\":\"") _ (ground arith) (
    join (json_escape r.room_id) _ (json_escape-IsPrintable r.room_id) (
      join (codes "\",\"match_id\":\"") _ (ground arith) (
        join (json_escape r.match_id) _ (json_escape-IsPrintable r.match_id) (
          join (codes "\",\"state\":\"") _ (ground arith) (
            join (room_state_name r.state) _ (room_state_name-IsPrintable r.state) (
              join (codes "\",\"frame\":") _ (ground arith) (
                join (int_text r.frame) _ (int_text-IsPrintable r.frame) (
                  join (codes ",\"players\":") _ (ground arith) (
                    join (players_json r.players) _ (players_json-IsPrintable r.players) (
                      join (codes ",\"finish_reason\":\"") _ (ground arith) (
                        join (json_escape r.finish_reason) _
                          (json_escape-IsPrintable r.finish_reason)
                          (join (codes "\",\"winner_id\":\"") _ (ground arith) (
                            join (json_escape r.winner_id) _ (json_escape-IsPrintable r.winner_id) (
                              join (codes "\",\"started_at_ms\":") _ (ground arith) (
                                join (int_text r.started_at_ms) _
                                  (int_text-IsPrintable r.started_at_ms)
                                  (join (codes ",\"finished_at_ms\":") _ (ground arith) (
                                    join (int_text r.finished_at_ms) _
                                      (int_text-IsPrintable r.finished_at_ms)
                                      (ground arith))))))))))))))))))

-- The events of a stream.
pub data Event : Type 0 where
  ready : Bytes → Bytes → ℤ → Event
  state finish : RoomView → ℤ → Event
  reset : Bytes → RoomView → ℤ → Event
  closed : Bytes → ℤ → Event

abbrev pub event_name : Event → Bytes
event_name (Event.ready player_id room_id now) = codes "session.ready"
event_name (Event.state r now) = codes "room.state"
event_name (Event.finish r now) = codes "room.finished"
event_name (Event.reset reason r now) = codes "stream.reset"
event_name (Event.closed reason now) = codes "stream.closed"

abbrev pub event_data : Event → Bytes
event_data (Event.ready player_id room_id now) = session_ready_json player_id room_id now
event_data (Event.state r now) = room_state_json r now
event_data (Event.finish r now) = room_finished_json r now
event_data (Event.reset reason r now) = stream_reset_json reason r now
event_data (Event.closed reason now) = stream_closed_json reason now

event_name-IsPrintable : (e : Event) → IsPrintable (event_name e)
event_name-IsPrintable (Event.ready player_id room_id now) = ground arith
event_name-IsPrintable (Event.state r now) = ground arith
event_name-IsPrintable (Event.finish r now) = ground arith
event_name-IsPrintable (Event.reset reason r now) = ground arith
event_name-IsPrintable (Event.closed reason now) = ground arith

event_data-IsPrintable : (e : Event) → IsPrintable (event_data e)
unfolding session_ready_json room_state_json room_finished_json stream_reset_json stream_closed_json
event_data-IsPrintable (Event.ready player_id room_id now) =
    envelope-IsPrintable _ (pos 0) now _ (ground arith) (
      join (codes "{\"player_id\":\"") _ (ground arith) (
        join (json_escape player_id) _ (json_escape-IsPrintable player_id) (
          join (codes "\",\"room_id\":\"") _ (ground arith) (
            join (json_escape room_id) _ (json_escape-IsPrintable room_id) (
              join (codes "\",\"server_time_ms\":") _ (ground arith)
                (join (int_text now) _ (int_text-IsPrintable now) (ground arith)))))))
event_data-IsPrintable (Event.state r now) =
    envelope-IsPrintable _ r.frame now _ (ground arith) (room_payload-IsPrintable r)
event_data-IsPrintable (Event.finish r now) =
    envelope-IsPrintable _ r.frame now _ (ground arith) (room_payload-IsPrintable r)
event_data-IsPrintable (Event.reset reason r now) =
    envelope-IsPrintable _ r.frame now _ (ground arith) (
      join (codes "{\"reason\":\"") _ (ground arith) (
        join (json_escape reason) _ (json_escape-IsPrintable reason) (
          join (codes "\",\"room\":") _ (ground arith)
            (join (room_payload r) _ (room_payload-IsPrintable r) (ground arith)))))
event_data-IsPrintable (Event.closed reason now) =
    envelope-IsPrintable _ (pos 0) now _ (ground arith) (
      join (codes "{\"reason\":\"") _ (ground arith) (
        join (json_escape reason) _ (json_escape-IsPrintable reason) (
          join (codes "\",\"server_time_ms\":") _ (ground arith)
            (join (int_text now) _ (int_text-IsPrintable now) (ground arith)))))

-- A client that reads a stream at the start of any event of the hub, and takes a line feed, a carriage
-- return or the two of them as the end of a line, gets the name, the id and the whole document of that
-- event, and goes on right behind it: no player id, reason or number in it, whatever bytes it has, can
-- break the event up or add a line to it.
pub read_message-event :
    (e : Event) (id : Option ℤ) (after : Bytes)
    → read_message 4 no_message (sse_event (event_name e) (event_data e) id ++ after)
      ≡ some (message id (event_name e) (event_data e), after)
read_message-event e id after =
    read_message-sse_event (event_name e) (event_data e) id after (event_name-IsPrintable e)
      (event_data-IsPrintable e)

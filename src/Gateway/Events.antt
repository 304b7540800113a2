-- ===== src/Gateway/Events.antt =====
-- src/gateway/stream_hub.cpp: the text of the events.
pub mod Escaping
pub mod Framing
pub mod OneLine
use realtime_game_backend.Base.{
  ℕ, ◌+◌, ◌/◌, ◌%◌, Bool, true, false, List, [], ◌∷◌, ◌++◌, Option, some, none, if◌then◌else◌, ltb,
  nat_eq,
}
use realtime_game_backend.Base.Int.{ℤ, pos}
use realtime_game_backend.Base.Bytes.{Bytes, codes, is_empty}
use realtime_game_backend.Base.Decimal.{int_text}
use realtime_game_backend.Gateway.Client.{RoomState, PlayerView, RoomView}

-- kHeartbeat
abbrev pub heartbeat : Bytes
heartbeat = codes ": ping" ++ (10 ∷ 10 ∷ [])

-- PollRequestId
unfoldable pub poll_request_id : Bytes → Bytes → Bytes
poll_request_id request_id room_id =
    if is_empty request_id then codes "room:" ++ room_id else request_id ++ codes ":poll"

unfoldable pub hex_digit : ℕ → ℕ
hex_digit d = if ltb d 10 then 48 + d else 87 + d

-- What `JsonEscape` appends for one character.
unfoldable pub escape_char : ℕ → Bytes
unfolding hex_digit
escape_char c =
    if nat_eq c 34
    then 92 ∷ 34 ∷ []
    else if nat_eq c 92
    then 92 ∷ 92 ∷ []
    else if nat_eq c 10
    then 92 ∷ 110 ∷ []
    else if nat_eq c 13
    then 92 ∷ 114 ∷ []
    else if nat_eq c 9
    then 92 ∷ 116 ∷ []
    else if ltb c 32
    then 92 ∷ 117 ∷ 48 ∷ 48 ∷ hex_digit (c / 16) ∷ hex_digit (c % 16) ∷ []
    else c ∷ []

-- JsonEscape
unfoldable pub json_escape : Bytes → Bytes
unfolding escape_char
json_escape [] = []
json_escape (c ∷ s) = escape_char c ++ json_escape s

unfoldable pub room_state_name : RoomState → Bytes
room_state_name RoomState.created = codes "created"
room_state_name RoomState.waiting = codes "waiting"
room_state_name RoomState.playing = codes "playing"
room_state_name RoomState.finishing = codes "finishing"
room_state_name RoomState.finished = codes "finished"
room_state_name RoomState.aborted = codes "aborted"

-- SseEvent
unfoldable pub sse_event : Bytes → Bytes → Option ℤ → Bytes
sse_event event data_text id =
    (elim id [ none ↦ [] | some n ↦ codes "id: " ++ (int_text n ++ (10 ∷ [])) ])
    ++ (codes "event: " ++ (event ++ ((10 ∷ codes "data: ") ++ (data_text ++ (10 ∷ 10 ∷ [])))))

-- Envelope
unfoldable pub envelope : Bytes → ℤ → ℤ → Bytes → Bytes
envelope type sequence now payload =
    codes "{\"version\":1,\"type\":\""
    ++ (type
        ++ (codes "\",\"sequence\":"
            ++ (int_text sequence
                ++ (codes ",\"timestamp_ms\":"
                    ++ (int_text now ++ (codes ",\"payload\":" ++ (payload ++ codes "}")))))))

abbrev pub bool_text : Bool → Bytes
bool_text true = codes "true"
bool_text false = codes "false"

unfoldable pub player_json : PlayerView → Bytes
player_json p =
    codes "{\"player_id\":\""
    ++ (json_escape p.player_id
        ++ (codes "\",\"hp\":"
            ++ (int_text p.hp
                ++ (codes ",\"connected\":"
                    ++ (bool_text p.connected
                        ++ (codes ",\"online\":" ++ (bool_text p.online ++ codes "}")))))))

-- The loop of `PlayersJson`, with its commas.
unfoldable pub players_list : List PlayerView → Bytes
unfolding player_json
players_list [] = []
players_list (p ∷ []) = player_json p
players_list (p ∷ (q ∷ ps)) = player_json p ++ (codes "," ++ players_list (q ∷ ps))

unfoldable pub players_json : List PlayerView → Bytes
players_json ps = codes "[" ++ (players_list ps ++ codes "]")

-- RoomPayload
unfoldable pub room_payload : RoomView → Bytes
room_payload r =
    codes "{\"room_id\":\""
    ++ (json_escape r.room_id
        ++ (codes "\",\"match_id\":\""
            ++ (json_escape r.match_id
                ++ (codes "\",\"state\":\""
                    ++ (room_state_name r.state
                        ++ (codes "\",\"frame\":"
                            ++ (int_text r.frame
                                ++ (codes ",\"players\":"
                                    ++ (players_json r.players
                                        ++ (codes ",\"finish_reason\":\""
                                            ++ (json_escape r.finish_reason
                                                ++ (codes "\",\"winner_id\":\""
                                                    ++ (json_escape r.winner_id
                                                        ++ (codes "\",\"started_at_ms\":"
                                                            ++ (int_text r.started_at_ms
                                                            ++ (codes ",\"finished_at_ms\":"
                                                            ++ (int_text r.finished_at_ms
                                                            ++ codes "}")))))))))))))))))

-- SessionReadyJson
unfoldable pub session_ready_json : Bytes → Bytes → ℤ → Bytes
session_ready_json player_id room_id now = envelope (codes "session.ready") (pos 0) now (
    codes "{\"player_id\":\""
    ++ (json_escape player_id
        ++ (codes "\",\"room_id\":\""
            ++ (json_escape room_id
                ++ (codes "\",\"server_time_ms\":" ++ (int_text now ++ codes "}"))))))

unfoldable pub room_state_json : RoomView → ℤ → Bytes
room_state_json r now = envelope (codes "room.state") r.frame now (room_payload r)

unfoldable pub room_finished_json : RoomView → ℤ → Bytes
room_finished_json r now = envelope (codes "room.finished") r.frame now (room_payload r)

unfoldable pub stream_closed_json : Bytes → ℤ → Bytes
stream_closed_json reason now = envelope (codes "stream.closed") (pos 0) now (
    codes "{\"reason\":\""
    ++ (json_escape reason ++ (codes "\",\"server_time_ms\":" ++ (int_text now ++ codes "}"))))

unfoldable pub stream_reset_json : Bytes → RoomView → ℤ → Bytes
stream_reset_json reason r now = envelope (codes "stream.reset") r.frame now (
    codes "{\"reason\":\""
    ++ (json_escape reason ++ (codes "\",\"room\":" ++ (room_payload r ++ codes "}"))))

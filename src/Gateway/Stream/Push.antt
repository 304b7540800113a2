-- ===== src/Gateway/Stream/Push.antt =====
-- src/gateway/stream_hub.cpp: `StateSignature`, `SetLastPushedState` and `TickRoom`.
use realtime_game_backend.Base.{
  ℕ, suc, Bool, true, false, List, [], ◌∷◌, ◌++◌, Option, some, none, ◌||◌, if◌then◌else◌, negate,
}
use realtime_game_backend.Base.Int.{ℤ, pos}
use realtime_game_backend.Base.Bytes.{Bytes, codes, ◌==◌, is_empty}
use realtime_game_backend.Base.Decimal.{int_text}
use realtime_game_backend.Base.Dict.{find, erase, assign}
use realtime_game_backend.Gateway.Client.{RoomState, PlayerView, RoomView, Services}
use realtime_game_backend.Gateway.Events.{sse_event, room_state_json, room_finished_json}
use realtime_game_backend.Gateway.Stream.State.{StreamHub}

-- static_cast<int>(state)
unfoldable pub state_number : RoomState → ℤ
state_number RoomState.created = pos 0
state_number RoomState.waiting = pos 1
state_number RoomState.playing = pos 2
state_number RoomState.finishing = pos 3
state_number RoomState.finished = pos 4
state_number RoomState.aborted = pos 5

abbrev pub is_terminal : RoomState → Bool
is_terminal RoomState.finished = true
is_terminal RoomState.aborted = true
is_terminal _ = false

unfoldable pub players_signature : List PlayerView → Bytes
players_signature [] = []
players_signature (p ∷ ps) =
    (124 ∷ p.player_id)
    ++ ((58 ∷ int_text p.hp) ++ ((if p.online then 49 else 48) ∷ players_signature ps))

-- StateSignature
unfoldable pub state_signature : RoomView → Bytes
unfolding state_number players_signature
state_signature r =
    int_text r.frame ++ ((124 ∷ int_text (state_number r.state)) ++ players_signature r.players)

-- SetLastPushedState
unfoldable pub set_last_pushed_state : Bytes → RoomView → Bool → StreamHub → StreamHub
unfolding state_signature erase assign
set_last_pushed_state room_id r terminal h =
    if terminal
    then record h { last_pushed_state = erase room_id h.last_pushed_state }
    else record h { last_pushed_state = assign room_id (state_signature r) h.last_pushed_state }

pub record SinkRef : Type 0 where
  pub id : ℕ
  pub sink : ℕ

-- The loops of `TickRoom` over the sinks: the ids that it pushes onto `failed`.
unfoldable pub write_finished : {W : Type 0} → Services W → Bytes → List SinkRef → W → W × List ℕ
write_finished v text [] w = (w, [])
write_finished v text (t ∷ ts) w =
    let (w', failed) = write_finished v text ts (v.write t.sink text w).1 in (w', t.id ∷ failed)

unfoldable pub write_state : {W : Type 0} → Services W → Bytes → List SinkRef → W → W × List ℕ
write_state v text [] w = (w, [])
write_state v text (t ∷ ts) w =
    let (alive, w') = v.write t.sink text w in
    let (w'', failed) = write_state v text ts w' in (w'', (if alive then failed else t.id ∷ failed))

abbrev pub or_empty : Option Bytes → Bytes
or_empty none = []
or_empty (some s) = s

-- Whether `TickRoom` has something to push.
unfoldable pub is_changed : Bytes → RoomView → StreamHub → Bool
unfolding state_signature find ◌==◌
is_changed room_id r h =
    negate (state_signature r == or_empty (find room_id h.last_pushed_state)) || is_terminal r.state

-- `TickRoom` from the answer of the room on.
unfoldable pub push_room :
    {W : Type 0}
    → Services W
    → Bytes
    → RoomView
    → List SinkRef
    → ℤ
    → StreamHub
    → W
    → (StreamHub × W) × List ℕ
unfolding is_changed set_last_pushed_state write_finished write_state
push_room v room_id r sinks now h w =
    if is_changed room_id r h
    then (let h' = set_last_pushed_state room_id r (is_terminal r.state) h in
        let (w', failed) =
          (if is_terminal r.state
            then write_finished v
                (sse_event (codes "room.finished") (room_finished_json r now) (some r.frame)) sinks
                w
            else write_state v
                (sse_event (codes "room.state") (room_state_json r now) (some r.frame)) sinks w) in
        ((h', w'), failed))
    else ((h, w), [])

-- TickRoom; the last result is what it pushes onto `failed`.
unfoldable pub tick_room :
    {W : Type 0}
    → Services W
    → Bytes
    → List SinkRef
    → Bytes
    → ℤ
    → StreamHub
    → W
    → (StreamHub × W) × List ℕ
unfolding push_room
tick_room v room_id sinks request_id now h w =
    let h' = record h { room_poll_count = suc h.room_poll_count } in
    elim v.room [
      | none ↦ ((h', w), [])
      | some client ↦
          if is_empty sinks
          then ((h', w), [])
          else let (answer, w') = client.get_state room_id request_id w in
            elim answer [ none ↦ ((h', w'), []) | some r ↦ push_room v room_id r sinks now h' w' ]
    ]

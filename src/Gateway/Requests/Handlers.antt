-- ===== src/Gateway/Requests/Handlers.antt =====
-- src/gateway/gateway_service.cpp: the handlers of requests about matches and rooms, from the token that the
-- request carries to the answer. What they show of a room or of a match is what the client gave them.
use realtime_game_backend.Base.{
  ◌&&◌, Bool, true, false, List, Option, some, none, if◌then◌else◌, nat_eq,
}
use realtime_game_backend.Base.Int.{ℤ}
use realtime_game_backend.Base.Bytes.{Bytes, codes, is_empty}
use realtime_game_backend.Gateway.Client.{RoomView, RoomCallStatus}
use realtime_game_backend.Gateway.Requests.Failures.{
  ErrorCode, Answer, fill_error, MatchCallStatus, handle_room_failure, handle_match_failure,
  IsCoherent,
}
use realtime_game_backend.Gateway.Requests.Sessions.{SessionStore, resolve_player_id}

-- `MatchSnapshot`, with the state by its name
pub record MatchView : Type 0 where
  pub state : Bytes
  pub match_id : Bytes
  pub room_id : Bytes
  pub player_ids : List Bytes
  pub queued_at_ms : ℤ
  pub queue_size : ℤ

pub record MatchCalls (W : Type 0) : Type 0 where
  pub enqueue : Bytes → Bytes → W → (MatchCallStatus × MatchView) × W
  pub get_status : Bytes → W → (MatchCallStatus × MatchView) × W
  pub cancel : Bytes → Bytes → W → (MatchCallStatus × MatchView) × W

pub record RoomCalls (W : Type 0) : Type 0 where
  pub join : Bytes → Bytes → Bytes → W → (RoomCallStatus × RoomView) × W
  pub submit_attack : Bytes → Bytes → Bytes → W → (RoomCallStatus × RoomView) × W
  pub get_state : Bytes → Bytes → W → (RoomCallStatus × RoomView) × W

pub data Body : Type 0 where
  nothing : Body
  match : MatchView → Body
  room : RoomView → Body

pub record Reply : Type 0 where
  pub answer : Answer
  pub body : Body

abbrev pub refusal : ErrorCode → Bytes → Bytes → Reply
refusal code reason request_id = record {
  answer = fill_error code reason request_id;
  body = Body.nothing;
}

-- The end of each handler, once the other service has answered.
unfoldable pub answer_match : Bytes → MatchCallStatus → MatchView → Reply
unfolding handle_match_failure
answer_match request_id status snapshot =
    let answer = handle_match_failure status request_id in
    record {
      answer = answer;
      body = (if nat_eq answer.status 200 then Body.match snapshot else Body.nothing);
    }

unfoldable pub answer_room : Bytes → RoomCallStatus → RoomView → Reply
unfolding handle_room_failure
answer_room request_id status snapshot =
    let answer = handle_room_failure status request_id (codes "room_not_found") in
    record {
      answer = answer;
      body = (if nat_eq answer.status 200 then Body.room snapshot else Body.nothing);
    }

-- The guards on the room, then the call.
unfoldable pub with_room :
    {W : Type 0}
    → Option (RoomCalls W)
    → Bytes
    → Bytes
    → (RoomCalls W → (RoomCallStatus × RoomView) × W)
    → W
    → Reply × W
unfolding answer_room fill_error
with_room none room_id request_id call w =
    if is_empty room_id
    then (refusal ErrorCode.invalid_argument (codes "room_id_required") request_id, w)
    else (refusal ErrorCode.unavailable (codes "room_unavailable") request_id, w)
with_room (some rooms) room_id request_id call w =
    if is_empty room_id
    then (refusal ErrorCode.invalid_argument (codes "room_id_required") request_id, w)
    else (let ((status, snapshot), w') = call rooms in (answer_room request_id status snapshot, w'))

-- The requests, with the room's id where they have one.
pub data Request : Type 0 where
  enqueue_match get_match_status cancel_match : Request
  join_room submit_input get_room_state : Bytes → Request

-- Whether a handler refuses to work while the gateway drains.
unfoldable pub is_new_work : Request → Bool
is_new_work Request.enqueue_match = true
is_new_work Request.cancel_match = true
is_new_work Request.get_match_status = false
is_new_work (Request.join_room room_id) = true
is_new_work (Request.submit_input room_id) = true
is_new_work (Request.get_room_state room_id) = false

abbrev pub IsCoherentReply : Bytes → Reply → Type 0
IsCoherentReply request_id reply = IsCoherent request_id reply.answer.error reply.answer.status

module _ {W : Type 0} (sessions : SessionStore W) (matches : MatchCalls W)
    (rooms : Option (RoomCalls W)) where
  -- The handlers from the player that the token stands for on: EnqueueMatch, GetMatchStatus, CancelMatch,
  -- JoinRoom, SubmitInput, GetRoomState.
  unfoldable pub serve : Request → Bytes → Bytes → W → Reply × W
  unfolding answer_match with_room
  serve Request.enqueue_match player_id request_id w =
      let ((status, snapshot), w') = matches.enqueue player_id request_id w in
      (answer_match request_id status snapshot, w')
  serve Request.get_match_status player_id request_id w =
      let ((status, snapshot), w') = matches.get_status player_id w in
      (answer_match request_id status snapshot, w')
  serve Request.cancel_match player_id request_id w =
      let ((status, snapshot), w') = matches.cancel player_id request_id w in
      (answer_match request_id status snapshot, w')
  serve (Request.join_room room_id) player_id request_id w =
      with_room rooms room_id request_id (λ calls. calls.join room_id player_id request_id w) w
  serve (Request.submit_input room_id) player_id request_id w =
      with_room rooms room_id request_id
        (λ calls. calls.submit_attack room_id player_id request_id w) w
  serve (Request.get_room_state room_id) player_id request_id w =
      with_room rooms room_id request_id (λ calls. calls.get_state room_id request_id w) w

  -- A whole handler.
  unfoldable pub handle : Bool → Request → Bytes → Bytes → W → Reply × W
  unfolding is_new_work serve resolve_player_id fill_error
  handle shutting_down q token request_id w =
      let (answer, player_id) = resolve_player_id sessions token request_id w in
      let served = serve q player_id request_id w in
      if is_new_work q && shutting_down
      then (refusal ErrorCode.unavailable (codes "shutting_down") request_id, w)
      else if nat_eq answer.status 200
      then served
      else (record { answer = answer; body = Body.nothing }, w)

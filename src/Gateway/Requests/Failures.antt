-- ===== src/Gateway/Requests/Failures.antt =====
-- src/gateway/error.cpp, and from gateway_service.cpp what becomes of a call of another service that fails. The
-- message, a text for people, is left out.
use realtime_game_backend.Base.{
  ℕ, ◌≤◌, ◌≡◌, refl, Bool, true, false, Option, some, none, ◌||◌, nat_eq, arith,
}
use realtime_game_backend.Base.Bytes.{Bytes, codes}
use realtime_game_backend.Gateway.Client.{RoomCallStatus}

pub data ErrorCode : Type 0 where
  unspecified invalid_argument unauthenticated not_found resource_exhausted conflict unavailable
        internal :
      ErrorCode

-- HttpStatusOf
unfoldable pub http_status_of : ErrorCode → ℕ
http_status_of ErrorCode.invalid_argument = 400
http_status_of ErrorCode.unauthenticated = 401
http_status_of ErrorCode.not_found = 404
http_status_of ErrorCode.resource_exhausted = 429
http_status_of ErrorCode.conflict = 409
http_status_of ErrorCode.unavailable = 503
http_status_of ErrorCode.internal = 500
http_status_of ErrorCode.unspecified = 500

-- IsRetryable
unfoldable pub is_retryable : ErrorCode → Bool
is_retryable ErrorCode.unavailable = true
is_retryable ErrorCode.resource_exhausted = true
is_retryable _ = false

pub record Error : Type 0 where
  pub code : ErrorCode
  pub reason : Bytes
  pub request_id : Bytes

-- The status that a handler returns, and the error if it filled one in.
pub record Answer : Type 0 where
  pub status : ℕ
  pub error : Option Error

-- FillError
unfoldable pub fill_error : ErrorCode → Bytes → Bytes → Answer
unfolding http_status_of
fill_error code reason request_id = record {
  status = http_status_of code;
  error = some (record { code = code; reason = reason; request_id = request_id });
}

abbrev pub fine : Answer
fine = record { status = 200; error = none }

-- HandleRoomFailure
unfoldable pub handle_room_failure : RoomCallStatus → Bytes → Bytes → Answer
unfolding fill_error
handle_room_failure RoomCallStatus.ok request_id not_found_reason = fine
handle_room_failure RoomCallStatus.unavailable request_id not_found_reason =
    fill_error ErrorCode.unavailable (codes "room_unavailable") request_id
handle_room_failure RoomCallStatus.store_unavailable request_id not_found_reason =
    fill_error ErrorCode.unavailable (codes "result_store_unavailable") request_id
handle_room_failure RoomCallStatus.result_pending request_id not_found_reason =
    fill_error ErrorCode.unavailable (codes "result_pending") request_id
handle_room_failure RoomCallStatus.shutting_down request_id not_found_reason =
    fill_error ErrorCode.unavailable (codes "shutting_down") request_id
handle_room_failure RoomCallStatus.not_found request_id not_found_reason =
    fill_error ErrorCode.not_found not_found_reason request_id
handle_room_failure RoomCallStatus.already_finished request_id not_found_reason =
    fill_error ErrorCode.conflict (codes "room_already_finished") request_id
handle_room_failure RoomCallStatus.invalid_argument request_id not_found_reason =
    fill_error ErrorCode.invalid_argument (codes "room_invalid_argument") request_id
handle_room_failure RoomCallStatus.not_a_member request_id not_found_reason =
    fill_error ErrorCode.invalid_argument (codes "not_a_member") request_id
handle_room_failure RoomCallStatus.not_playing request_id not_found_reason =
    fill_error ErrorCode.invalid_argument (codes "room_not_playing") request_id
handle_room_failure RoomCallStatus.internal request_id not_found_reason =
    fill_error ErrorCode.internal (codes "room_internal") request_id

pub data MatchCallStatus : Type 0 where
  ok unavailable invalid_argument queue_full internal shutting_down : MatchCallStatus

-- HandleMatchFailure
unfoldable pub handle_match_failure : MatchCallStatus → Bytes → Answer
unfolding fill_error
handle_match_failure MatchCallStatus.ok request_id = fine
handle_match_failure MatchCallStatus.unavailable request_id =
    fill_error ErrorCode.unavailable (codes "match_unavailable") request_id
handle_match_failure MatchCallStatus.shutting_down request_id =
    fill_error ErrorCode.unavailable (codes "shutting_down") request_id
handle_match_failure MatchCallStatus.invalid_argument request_id =
    fill_error ErrorCode.invalid_argument (codes "match_invalid_argument") request_id
handle_match_failure MatchCallStatus.queue_full request_id =
    fill_error ErrorCode.resource_exhausted (codes "match_queue_full") request_id
handle_match_failure MatchCallStatus.internal request_id =
    fill_error ErrorCode.internal (codes "match_internal") request_id

-- An answer that fits together: no error with 200, and with an error the status of its code, a status of
-- failure, the id of the request, and 429 or 503 exactly if the code may be tried again.
abbrev pub IsCoherent : Bytes → Option Error → ℕ → Type 0
IsCoherent request_id none status = status ≡ 200
IsCoherent request_id (some e) status =
    (status ≡ http_status_of e.code)
    × (400 ≤ status)
    × (e.request_id ≡ request_id)
    × ((nat_eq status 429 || nat_eq status 503) ≡ is_retryable e.code)

pub fill_error-IsCoherent :
    (code : ErrorCode) (reason request_id : Bytes)
    → IsCoherent request_id
        (fill_error code reason request_id).error
        (fill_error code reason request_id).status
unfolding fill_error http_status_of is_retryable
fill_error-IsCoherent ErrorCode.unspecified reason request_id = ground arith
fill_error-IsCoherent ErrorCode.invalid_argument reason request_id = ground arith
fill_error-IsCoherent ErrorCode.unauthenticated reason request_id = ground arith
fill_error-IsCoherent ErrorCode.not_found reason request_id = ground arith
fill_error-IsCoherent ErrorCode.resource_exhausted reason request_id = ground arith
fill_error-IsCoherent ErrorCode.conflict reason request_id = ground arith
fill_error-IsCoherent ErrorCode.unavailable reason request_id = ground arith
fill_error-IsCoherent ErrorCode.internal reason request_id = ground arith

pub handle_room_failure-IsCoherent :
    (s : RoomCallStatus) (request_id not_found_reason : Bytes)
    → IsCoherent request_id
        (handle_room_failure s request_id not_found_reason).error
        (handle_room_failure s request_id not_found_reason).status
unfolding handle_room_failure fill_error http_status_of is_retryable
handle_room_failure-IsCoherent RoomCallStatus.ok request_id not_found_reason = refl
handle_room_failure-IsCoherent RoomCallStatus.unavailable request_id not_found_reason = ground arith
handle_room_failure-IsCoherent RoomCallStatus.store_unavailable request_id not_found_reason =
    ground arith
handle_room_failure-IsCoherent RoomCallStatus.result_pending request_id not_found_reason =
    ground arith
handle_room_failure-IsCoherent RoomCallStatus.shutting_down request_id not_found_reason =
    ground arith
handle_room_failure-IsCoherent RoomCallStatus.not_found request_id not_found_reason = ground arith
handle_room_failure-IsCoherent RoomCallStatus.already_finished request_id not_found_reason =
    ground arith
handle_room_failure-IsCoherent RoomCallStatus.invalid_argument request_id not_found_reason =
    ground arith
handle_room_failure-IsCoherent RoomCallStatus.not_a_member request_id not_found_reason =
    ground arith
handle_room_failure-IsCoherent RoomCallStatus.not_playing request_id not_found_reason = ground arith
handle_room_failure-IsCoherent RoomCallStatus.internal request_id not_found_reason = ground arith

pub handle_match_failure-IsCoherent :
    (s : MatchCallStatus) (request_id : Bytes)
    → IsCoherent request_id
        (handle_match_failure s request_id).error
        (handle_match_failure s request_id).status
unfolding handle_match_failure fill_error http_status_of is_retryable
handle_match_failure-IsCoherent MatchCallStatus.ok request_id = refl
handle_match_failure-IsCoherent MatchCallStatus.unavailable request_id = ground arith
handle_match_failure-IsCoherent MatchCallStatus.shutting_down request_id = ground arith
handle_match_failure-IsCoherent MatchCallStatus.invalid_argument request_id = ground arith
handle_match_failure-IsCoherent MatchCallStatus.queue_full request_id = ground arith
handle_match_failure-IsCoherent MatchCallStatus.internal request_id = ground arith

-- ===== src/Gateway/Requests/Sessions.antt =====
-- src/gateway/gateway_service.cpp: logging in, out, and who a token stands for; with IsValidTokenFormat of
-- src/common/token.cpp and src/gateway/in_memory_player_directory.cpp. The store of sessions acts on a
-- world `W`. HTTP headers, logging and metrics are left out.
use realtime_game_backend.Base.{
  ℕ, Bool, true, false, List, [], ◌∷◌, Option, some, none, ◌||◌, ◌&&◌, if◌then◌else◌, ltb, nat_eq,
  length, negate,
}
use realtime_game_backend.Base.Int.{ℤ}
use realtime_game_backend.Base.Bytes.{Bytes, codes, is_empty, ◌==◌}
use realtime_game_backend.Gateway.Requests.Failures.{ErrorCode, Answer, fill_error, fine}

pub record SessionRecord : Type 0 where
  pub token : Bytes
  pub player_id : Bytes
  pub client_type : Bytes

pub data StoreStatus : Type 0 where
  ok not_found unavailable : StoreStatus

pub record PlayerInfo : Type 0 where
  pub player_id : Bytes
  pub display_name : Bytes
  pub status : Bytes

pub data CredentialStatus : Type 0 where
  ok : PlayerInfo → CredentialStatus
  invalid_credential account_disabled unavailable : CredentialStatus

-- `SessionStore`; the arguments of `create_session` are the request id, the player's id, the type of client and
-- the seconds to live.
pub record SessionStore (W : Type 0) : Type 0 where
  pub create_session : Bytes → Bytes → Bytes → ℤ → W → (StoreStatus × Bytes) × W
  pub get_session : Bytes → W → StoreStatus × SessionRecord
  pub delete_session : Bytes → W → StoreStatus × W

-- `PlayerDirectory::Authenticate`, with the player that it fills in on success.
pub record PlayerDirectory (W : Type 0) : Type 0 where
  pub authenticate : Bytes → Bytes → W → CredentialStatus

pub record Entry : Type 0 where
  pub account : Bytes
  pub password_hash : Bytes
  pub player_id : Bytes
  pub display_name : Bytes
  pub status : Bytes

-- InMemoryPlayerDirectory::Authenticate, over what `HashPassword` makes of a password
unfoldable pub authenticate_in : (Bytes → Bytes) → List Entry → Bytes → Bytes → CredentialStatus
unfolding ◌==◌
authenticate_in hash [] account password = CredentialStatus.invalid_credential
authenticate_in hash (e ∷ es) account password =
    let rest = authenticate_in hash es account password in
    if negate (e.account == account)
    then rest
    else if negate (hash password == e.password_hash)
    then CredentialStatus.invalid_credential
    else if negate (e.status == codes "active")
    then CredentialStatus.account_disabled
    else CredentialStatus.ok
        (record { player_id = e.player_id; display_name = e.display_name; status = e.status })

-- InMemoryPlayerDirectory::FindByPlayerId
unfoldable pub find_by_player_id : List Entry → Bytes → Option PlayerInfo
unfolding ◌==◌
find_by_player_id [] player_id = none
find_by_player_id (e ∷ es) player_id =
    if e.player_id == player_id
    then some (record { player_id = e.player_id; display_name = e.display_name; status = e.status })
    else find_by_player_id es player_id

abbrev pub max_account_length : ℕ
max_account_length = 64

abbrev pub max_password_length : ℕ
max_password_length = 128

abbrev pub max_request_id_length : ℕ
max_request_id_length = 64

abbrev pub max_token_length : ℕ
max_token_length = 256

pub record LoginRequest : Type 0 where
  pub account : Bytes
  pub password : Bytes
  pub client_type : Bytes
  pub request_id : Bytes

-- ValidateLoginRequest: the reason of a refusal, empty for none
unfoldable pub validate_login_request : LoginRequest → Bytes
unfolding ◌==◌
validate_login_request q =
    if is_empty q.account
    then codes "account_required"
    else if ltb max_account_length (length q.account)
    then codes "account_too_long"
    else if is_empty q.password
    then codes "password_required"
    else if ltb max_password_length (length q.password)
    then codes "password_too_long"
    else if ltb max_request_id_length (length q.request_id)
    then codes "request_id_too_long"
    else if negate (is_empty q.client_type)
        && (negate (q.client_type == codes "web") && negate (q.client_type == codes "bot"))
    then codes "unsupported_client_type"
    else []

abbrev pub is_member : ℕ → Bytes → Bool
is_member c [] = false
is_member c (d ∷ ds) = nat_eq c d || is_member c ds

-- kTokenAlphabet
abbrev pub token_alphabet : Bytes
token_alphabet = codes "ABCDEFGHIJKLMNOPQRSTUVWXYZabcdefghijklmnopqrstuvwxyz0123456789-_"

unfoldable pub all_members : Bytes → Bytes → Bool
all_members alphabet [] = true
all_members alphabet (c ∷ s) = is_member c alphabet && all_members alphabet s

unfoldable pub is_valid_token_format : Bytes → Bool
unfolding all_members
is_valid_token_format token =
    if is_empty token || ltb max_token_length (length token)
    then false
    else all_members token_alphabet token

-- ValidateToken
unfoldable pub validate_token : Bytes → Bytes
unfolding is_valid_token_format
validate_token token =
    if is_empty token
    then codes "token_required"
    else if ltb max_token_length (length token)
    then codes "token_too_long"
    else if negate (is_valid_token_format token)
    then codes "token_malformed"
    else []

-- ResolvePlayerId from the answer of the session store on
unfoldable pub player_of : Bytes → StoreStatus → SessionRecord → Answer × Bytes
unfolding fill_error
player_of request_id StoreStatus.unavailable session =
    (fill_error ErrorCode.unavailable (codes "session_store_unavailable") request_id, [])
player_of request_id StoreStatus.not_found session =
    (fill_error ErrorCode.unauthenticated (codes "session_not_found") request_id, [])
player_of request_id StoreStatus.ok session = (fine, session.player_id)

module _ {W : Type 0} (sessions : SessionStore W) where
  -- ResolvePlayerId; the second result is the player's id where the status is 200
  unfoldable pub resolve_player_id : Bytes → Bytes → W → Answer × Bytes
  unfolding validate_token fill_error player_of
  resolve_player_id token request_id w =
      if negate (is_empty (validate_token token))
      then (fill_error ErrorCode.invalid_argument (validate_token token) request_id, [])
      else player_of request_id (sessions.get_session token w).0 (sessions.get_session token w).1

  -- Logout
  unfoldable pub logout : Bytes → Bytes → W → Answer × W
  unfolding validate_token fill_error
  logout token request_id w =
      if negate (is_empty (validate_token token))
      then (fill_error ErrorCode.invalid_argument (validate_token token) request_id, w)
      else (let (status, w') = sessions.delete_session token w in
          elim status [
            | StoreStatus.unavailable ↦ (
              fill_error ErrorCode.unavailable (codes "session_store_unavailable") request_id,
              w',
            )
            | StoreStatus.not_found ↦ (fine, w')
            | StoreStatus.ok ↦ (fine, w')
          ])

  -- Login from the answer of the session store on
  unfoldable pub answer_created : LoginRequest → StoreStatus → Bytes → W → (Answer × Bytes) × W
  unfolding fill_error
  answer_created q StoreStatus.ok token w = ((fine, token), w)
  answer_created q StoreStatus.not_found token w =
      ((fill_error ErrorCode.unavailable (codes "session_store_unavailable") q.request_id, []), w)
  answer_created q StoreStatus.unavailable token w =
      ((fill_error ErrorCode.unavailable (codes "session_store_unavailable") q.request_id, []), w)

  -- Login from the answer of the directory on
  unfoldable pub login_as : LoginRequest → ℤ → CredentialStatus → W → (Answer × Bytes) × W
  unfolding fill_error answer_created
  login_as q ttl_seconds CredentialStatus.invalid_credential w =
      ((fill_error ErrorCode.unauthenticated (codes "invalid_credential") q.request_id, []), w)
  login_as q ttl_seconds CredentialStatus.account_disabled w =
      ((fill_error ErrorCode.unauthenticated (codes "account_disabled") q.request_id, []), w)
  login_as q ttl_seconds CredentialStatus.unavailable w =
      ((fill_error ErrorCode.unavailable (codes "player_store_unavailable") q.request_id, []), w)
  login_as q ttl_seconds (CredentialStatus.ok player) w =
      let client_type : Bytes = if is_empty q.client_type then codes "web" else q.client_type in
      let ((created, token), w') =
        sessions.create_session q.request_id player.player_id client_type ttl_seconds w in
      answer_created q created token w'

  -- Login; the second result is the token where the status is 200
  unfoldable pub login : PlayerDirectory W → Bool → LoginRequest → ℤ → W → (Answer × Bytes) × W
  unfolding validate_login_request login_as fill_error
  login players shutting_down q ttl_seconds w =
      if shutting_down
      then ((fill_error ErrorCode.unavailable (codes "shutting_down") q.request_id, []), w)
      else if negate (is_empty (validate_login_request q))
      then ((fill_error ErrorCode.invalid_argument (validate_login_request q) q.request_id, []), w)
      else login_as q ttl_seconds (players.authenticate q.account q.password w) w

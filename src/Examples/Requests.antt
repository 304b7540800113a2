-- ===== src/Examples/Requests.antt =====
-- The request handlers of the gateway at concrete inputs.
use realtime_game_backend.Base.{suc, some, none, ◌≡◌, refl, [], ◌∷◌, true, false, arith, ℕ}
use realtime_game_backend.Base.Int.{pos}
use realtime_game_backend.Base.Bytes.{Bytes, codes, ◌==◌}
use realtime_game_backend.Base.Dict.{Dict, find, assign}
use realtime_game_backend.Gateway.Events.Framing.{message}
use realtime_game_backend.Gateway.Requests.LastEventId.{
  parse_last_event_id, subscribe_options, subscribe_options-message,
}
use realtime_game_backend.Gateway.Requests.Failures.{fine, MatchCallStatus}
use realtime_game_backend.Gateway.Requests.Handlers.{MatchView, MatchCalls, Request, handle}
use realtime_game_backend.Gateway.Requests.Sessions.{
  SessionStore, SessionRecord, StoreStatus, PlayerInfo, CredentialStatus, PlayerDirectory,
  LoginRequest, login, validate_login_request,
}
use realtime_game_backend.Gateway.Requests.Redis.{
  Redis, redis_sessions, key_for_login_idempotency, login-same_token,
}

subscribe_options-message_example :
    subscribe_options
      (parse_last_event_id (message (some (pos 41)) (codes "room.state") (codes "{}")).last_id)
      (codes "q")
    ≡ record {
      last_event_id = some (pos 41);
      last_event_id_malformed = false;
      request_id = codes "q";
    }
subscribe_options-message_example =
    subscribe_options-message 41 (codes "room.state") (codes "{}") (codes "q") (ground arith)

abbrev idle : MatchView
idle = record {
  state = codes "queued";
  match_id = [];
  room_id = [];
  player_ids = [];
  queued_at_ms = pos 5;
  queue_size = pos 1;
}

-- A world that counts the calls of the match service, where everybody is known and the line is full.
abbrev everybody : SessionStore ℕ
everybody = record {
  create_session =
      λ request_id player_id client_type ttl_seconds w. ((StoreStatus.ok, codes "t"), w);
  get_session = λ token w.
      (StoreStatus.ok, record { token = token; player_id = codes "p"; client_type = codes "web" });
  delete_session = λ token w. (StoreStatus.ok, w);
}

abbrev full : MatchCalls ℕ
full = record {
  enqueue = λ player_id request_id w. ((MatchCallStatus.queue_full, idle), suc w);
  get_status = λ player_id w. ((MatchCallStatus.ok, idle), suc w);
  cancel = λ player_id request_id w. ((MatchCallStatus.ok, idle), suc w);
}

too_many :
    (handle everybody full none false Request.enqueue_match
      (codes "t")
      (codes "q")
      0).0.answer.status
    ≡ 429
unfolding handle
too_many = refl

-- The strings that Redis holds; sessions are left out.
abbrev Strings : Type 0
Strings = Dict Bytes

abbrev redis : Redis Strings
redis = record {
  get = λ key w. (some (find key w), w);
  hset = λ key session w. (true, w);
  expire = λ key ttl w. (true, w);
  set_nx = λ key value ttl w. (some true, assign key value w);
  del = λ key w. w;
  generate_token = λ w. (codes "t2", w);
}

abbrev bob : PlayerInfo
bob = record { player_id = codes "p-0002"; display_name = codes "Bob"; status = codes "active" }

abbrev players : PlayerDirectory Strings
players = record { authenticate = λ account password w. CredentialStatus.ok bob }

-- A login without a request id, after another one without a request id.
abbrev request : LoginRequest
request = record {
  account = codes "bob";
  password = codes "secret";
  client_type = [];
  request_id = [];
}

abbrev held : Strings
held = (codes "dev:gateway:idem:login:", codes "t1") ∷ []

request_valid : validate_login_request request ≡ []
unfolding validate_login_request
request_valid = refl

token_held :
    redis.get (key_for_login_idempotency (codes "dev") []) held ≡ (some (some (codes "t1")), held)
unfolding key_for_login_idempotency find ◌==◌
token_held = refl

abbrev some_session : Bytes → Strings → StoreStatus × SessionRecord
some_session token w = (
  StoreStatus.ok,
  record { token = token; player_id = codes "p-0001"; client_type = codes "web" },
)

abbrev deleted : Bytes → Strings → StoreStatus × Strings
deleted token w = (StoreStatus.ok, w)

login-same_token_example :
    login
      (redis_sessions redis (codes "dev") (pos 3600) some_session deleted)
      players
      false
      request
      (pos 3600)
      held
    ≡ ((fine, codes "t1"), held)
login-same_token_example =
    login-same_token redis (codes "dev") (pos 3600) some_session deleted players request (pos 3600)
      held held bob 116 (codes "1") request_valid refl token_held

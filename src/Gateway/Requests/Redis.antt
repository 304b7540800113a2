-- ===== src/Gateway/Requests/Redis.antt =====
-- src/gateway/redis_session_store.cpp: the creation of a session, over the commands of Redis that it sends.
use realtime_game_backend.Base.{
  ℕ, ◌≡◌, ap, Bool, true, false, [], ◌∷◌, ◌++◌, Option, some, none, if◌then◌else◌,
}
use realtime_game_backend.Base.Int.{ℤ, pos, ltb_ℤ}
use realtime_game_backend.Base.Bytes.{Bytes, codes, is_empty}
use realtime_game_backend.Gateway.Requests.Failures.{fine}
use realtime_game_backend.Gateway.Requests.Sessions.{
  SessionRecord, StoreStatus, PlayerInfo, CredentialStatus, SessionStore, PlayerDirectory,
  LoginRequest, validate_login_request, answer_created, login_as, login,
}

-- Redis and the generator of tokens. `get` gives none if there is no reply, and else the string under the key, if
-- there is one; `hset` and `expire` tell whether there was a reply; `set_nx` gives none if there was no
-- reply, and else whether it wrote. The time of a session's creation is left out.
pub record Redis (W : Type 0) : Type 0 where
  pub get : Bytes → W → Option (Option Bytes) × W
  pub hset : Bytes → SessionRecord → W → Bool × W
  pub expire : Bytes → ℤ → W → Bool × W
  pub set_nx : Bytes → Bytes → ℤ → W → Option Bool × W
  pub del : Bytes → W → W
  pub generate_token : W → Bytes × W

abbrev pub idempotency_ttl_seconds : ℤ
idempotency_ttl_seconds = pos 604800

-- KeyForSession and KeyForLoginIdempotency
unfoldable pub key_for_session : Bytes → Bytes → Bytes
key_for_session env_prefix token = env_prefix ++ (codes ":gateway:session:" ++ token)

unfoldable pub key_for_login_idempotency : Bytes → Bytes → Bytes
key_for_login_idempotency env_prefix request_id =
    env_prefix ++ (codes ":gateway:idem:login:" ++ request_id)

-- The string of a reply, empty where there is none.
abbrev pub reply_text : Option Bytes → Bytes
reply_text none = []
reply_text (some s) = s

module _ {W : Type 0} (redis : Redis W) (env_prefix : Bytes) (session_ttl_seconds : ℤ) where
  abbrev pub failed : W → (StoreStatus × Bytes) × W
  failed w = ((StoreStatus.unavailable, []), w)

  -- The branch for a race that is lost: the other token wins.
  unfoldable pub yield_to_winner : Bytes → Bytes → W → (StoreStatus × Bytes) × W
  unfolding key_for_session
  yield_to_winner idem_key token w =
      let (reply, w') = redis.get idem_key w in
      elim reply [
        | none ↦ failed w'
        | some winner ↦ if is_empty (reply_text winner) then failed w' else (
          (StoreStatus.ok, reply_text winner),
          redis.del (key_for_session env_prefix token) w',
        )
      ]

  -- The third step, the note of the token under the request id.
  unfoldable pub note_token : Bytes → Bytes → ℤ → W → (StoreStatus × Bytes) × W
  unfolding yield_to_winner
  note_token idem_key token ttl w =
      let (reply, w') =
        redis.set_nx idem_key token
          (if ltb_ℤ ttl idempotency_ttl_seconds then ttl else idempotency_ttl_seconds) w in
      elim reply [
        | none ↦ failed w'
        | some true ↦ ((StoreStatus.ok, token), w')
        | some false ↦ yield_to_winner idem_key token w'
      ]

  -- The second step, a new session.
  unfoldable pub write_session : Bytes → Bytes → Bytes → ℤ → W → (StoreStatus × Bytes) × W
  unfolding note_token key_for_session
  write_session idem_key player_id client_type ttl w =
      let (token, w₁) = redis.generate_token w in
      let (written, w₂) =
        redis.hset (key_for_session env_prefix token)
          (record { token = token; player_id = player_id; client_type = client_type }) w₁ in
      let (expires, w₃) = redis.expire (key_for_session env_prefix token) ttl w₂ in
      let noted = note_token idem_key token ttl w₃ in
      if written then (if expires then noted else failed w₃) else failed w₂

  -- RedisSessionStore::CreateSession
  unfoldable pub create_session_in_redis : Bytes → Bytes → Bytes → ℤ → W → (StoreStatus × Bytes) × W
  unfolding write_session key_for_login_idempotency
  create_session_in_redis request_id player_id client_type ttl_seconds w =
      let ttl : ℤ = if ltb_ℤ (pos 0) ttl_seconds then ttl_seconds else session_ttl_seconds in
      let (reply, w') = redis.get (key_for_login_idempotency env_prefix request_id) w in
      elim reply [
        | none ↦ failed w'
        | some existing ↦
            if is_empty (reply_text existing)
            then write_session (key_for_login_idempotency env_prefix request_id) player_id
                client_type ttl w'
            else ((StoreStatus.ok, reply_text existing), w')
      ]

  abbrev pub redis_sessions :
      (Bytes → W → StoreStatus × SessionRecord) → (Bytes → W → StoreStatus × W) → SessionStore W
  redis_sessions get_session delete_session = record {
    create_session = λ request_id player_id client_type ttl_seconds w.
        create_session_in_redis request_id player_id client_type ttl_seconds w;
    get_session = get_session;
    delete_session = delete_session;
  }

  -- While Redis holds a token under the request id of a login, the empty one included, a login that is let in
  -- gets that token, whoever logs in, and no session of its own.
  pub login-same_token :
      (get_session : Bytes → W → StoreStatus × SessionRecord)
      (delete_session : Bytes → W → StoreStatus × W) (players : PlayerDirectory W)
      (q : LoginRequest) (ttl_seconds : ℤ) (w w' : W) (player : PlayerInfo) (c : ℕ) (token : Bytes)
      → validate_login_request q ≡ []
      → players.authenticate q.account q.password w ≡ CredentialStatus.ok player
      → redis.get (key_for_login_idempotency env_prefix q.request_id) w
        ≡ (some (some (c ∷ token)), w')
      → login (redis_sessions get_session delete_session) players false q ttl_seconds w
        ≡ ((fine, c ∷ token), w')
  unfolding login login_as answer_created create_session_in_redis
  login-same_token get_session delete_session players q ttl_seconds w w' player c token valid known
        held =
      let client_type : Bytes = if is_empty q.client_type then codes "web" else q.client_type in
      let reply : (redis.get (key_for_login_idempotency env_prefix q.request_id) w).0
          ≡ some (some (c ∷ token)) =
        ap (λ x. x.0) held in
      let made : create_session_in_redis q.request_id player.player_id client_type ttl_seconds w
          ≡ ((StoreStatus.ok, c ∷ token), w') =
        rw (create_session_in_redis, reply) (ap (λ x. ((StoreStatus.ok, c ∷ token), x.1)) held) in
      rw (valid, known)
        (ap (λ x. answer_created (redis_sessions get_session delete_session) q x.0.0 x.0.1 x.1)
          made)

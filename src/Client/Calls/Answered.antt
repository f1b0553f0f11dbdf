-- ===== src/Client/Calls/Answered.antt =====
-- Which clients of zakura-grpc-client/src/lib.rs the service of zakura-grpc-geyser/src/server.rs
-- answers.
use zakura_grpc.Common.{
  ℤ, ◌≡◌, ◌⊎◌, ◌≢◌, refl, sym, ap, ◌∙◌, Bool, Option, none, some, String, ok, err, string_eq, ◌==◌,
  arith, beq_refl, ok-injective, Bool-cases, Option-cases, >>=-eq-ok, inl, inr, if◌then◌else◌,
}
use zakura_grpc.Status.{Status, Message, unauthenticated}
use zakura_grpc.Proto.{PingRequest}
use zakura_grpc.Geyser.Auth.{RequestMetadata, TokenAuth, authorize, subscriber_id}
use zakura_grpc.Geyser.Service.{GrpcService, ping as answer_ping}
use zakura_grpc.Client.Reconnect.{ZakuraGrpcClientError}
use zakura_grpc.Client.Builder.{
  new_builder, insert_header, ZakuraGrpcBuilder, metadata_value, x_token, subscription_id, build,
  call,
}
use zakura_grpc.Client.Calls.{request_from, client_result, ping}

module _ (valid_metadata : String → Bool) where
  pub metadata_value-kept :
      (value checked : Option String)
      → metadata_value valid_metadata value ≡ ok checked
      → checked ≡ value
  unfolding metadata_value
  metadata_value-kept none checked h = sym (ok-injective h)
  metadata_value-kept (some v) checked h = ground (arith, h)

  pub x_token-kept :
      (token : Option String) (b c : ZakuraGrpcBuilder)
      → x_token valid_metadata token b ≡ ok c
      → c ≡ record b { x_token = token }
  unfolding x_token
  x_token-kept token b c h =
      let (checked, e, k) = >>=-eq-ok (metadata_value valid_metadata token) _ h in
      sym (ok-injective k)
      ∙ ap (λ t. record b { x_token = t }) (metadata_value-kept token checked e)

  subscription_id-kept :
      (id : Option String) (b c : ZakuraGrpcBuilder)
      → subscription_id valid_metadata id b ≡ ok c
      → c ≡ record b { subscription_id = id }
  unfolding subscription_id
  subscription_id-kept id b c h =
      let (checked, e, k) = >>=-eq-ok (metadata_value valid_metadata id) _ h in
      sym (ok-injective k)
      ∙ ap (λ t. record b { subscription_id = t }) (metadata_value-kept id checked e)

  -- The metadata with which a client of the builder arrives.
  arrives :
      (token id address : Option String) (b c : ZakuraGrpcBuilder)
      → x_token valid_metadata token new_builder ≡ ok b
      → subscription_id valid_metadata id b ≡ ok c
      → call (build c).interceptor (request_from address)
        ≡ record { x_token = token; x_subscription_id = id; remote_ip = address }
  unfolding call build
  arrives token id address b c h k =
      rw (subscription_id-kept id b c k, x_token-kept token new_builder b h) (by_headers token id)
    where
      by_headers :
          (token id : Option String)
          → Path RequestMetadata
              (record {
                x_token = insert_header token none;
                x_subscription_id = insert_header id none;
                remote_ip = address;
              })
              (record { x_token = token; x_subscription_id = id; remote_ip = address })
      by_headers none none = refl
      by_headers none (some i) = refl
      by_headers (some t) none = refl
      by_headers (some t) (some i) = refl

authorize-none : (a : TokenAuth) (r : RequestMetadata) → a.expected ≡ none → authorize a r ≡ ok tt
unfolding authorize
authorize-none a r e = rw (e, authorize) refl

authorize-same :
    (a : TokenAuth) (r : RequestMetadata) (t : String)
    → a.expected ≡ some t
    → r.x_token ≡ some t
    → authorize a r ≡ ok tt
unfolding authorize
authorize-same a r t e h = rw (e, h, authorize, beq_refl t) refl

authorize-other :
    (a : TokenAuth) (r : RequestMetadata) (t : String)
    → a.expected ≡ some t
    → r.x_token ≢ some t
    → authorize a r ≡ err (unauthenticated Message.invalid_token)
unfolding authorize
authorize-other a r t e h = elim (Option-cases r.x_token) [
  | inl n ↦ rw (e, n, authorize) refl
  | inr (x, n) ↦ elim (Bool-cases (x == t)) [
    | inl same ↦ absurd (h (n ∙ ap some ((string_eq.beq_iff x t).0 same)))
    | inr other ↦ rw (e, n, other, authorize) refl
  ]
]

-- The name under which the server counts the streams of a client.
abbrev pub peer_name : Option String → String
peer_name none = "anonymous"
peer_name (some ip) = ip

abbrev pub known_as : Option String → Option String → String
known_as none address = peer_name address
known_as (some id) address = if id == "" then peer_name address else id

subscriber_id-known_as :
    (token id address : Option String)
    → subscriber_id (record { x_token = token; x_subscription_id = id; remote_ip = address })
      ≡ known_as id address
unfolding subscriber_id
subscriber_id-known_as token none none = refl
subscriber_id-known_as token none (some ip) = refl
subscriber_id-known_as token (some id) none = refl
subscriber_id-known_as token (some id) (some ip) = refl

answer_ping-authorized :
    (r : RequestMetadata) (m : PingRequest) (s : GrpcService)
    → authorize s.auth r ≡ ok tt
    → answer_ping r m s ≡ ok (record { count = m.count })
unfolding answer_ping
answer_ping-authorized r m s e = rw (e, answer_ping) refl

answer_ping-refused :
    (r : RequestMetadata) (m : PingRequest) (s : GrpcService) (x : Status)
    → authorize s.auth r ≡ err x
    → answer_ping r m s ≡ err x
unfolding answer_ping
answer_ping-refused r m s x e = rw (e, answer_ping) refl

authorize-token :
    (a : TokenAuth) (r : RequestMetadata)
    → (a.expected ≡ none) ⊎ (a.expected ≡ r.x_token)
    → authorize a r ≡ ok tt
authorize-token a r (inl e) = authorize-none a r e
authorize-token a r (inr e) = elim (Option-cases r.x_token) [
  | inl n ↦ authorize-none a r (e ∙ n)
  | inr (t, n) ↦ authorize-same a r t (e ∙ n) n
]

authorize-wrong :
    (a : TokenAuth) (r : RequestMetadata)
    → a.expected ≢ none
    → a.expected ≢ r.x_token
    → authorize a r ≡ err (unauthenticated Message.invalid_token)
authorize-wrong a r h k = elim (Option-cases a.expected) [
  | inl n ↦ absurd (h n)
  | inr (t, n) ↦ authorize-other a r t n (λ q. k (n ∙ sym q))
]

module _ (valid_metadata : String → Bool) where
  -- A client that the builder makes with a token and an identity gets the reply to its ping, with
  -- the same count, if the server expects no token or that token, and UNAUTHENTICATED otherwise;
  -- its streams are counted under its identity, if that is not empty, or else under its address.
  pub built_client_answered :
      (token id address : Option String) (b c : ZakuraGrpcBuilder) (count : ℤ) (s : GrpcService)
      → x_token valid_metadata token new_builder ≡ ok b
      → subscription_id valid_metadata id b ≡ ok c
      → let answer = ping (λ r m. answer_ping r m s) address count (build c) in
        ((s.auth.expected ≡ none) ⊎ (s.auth.expected ≡ token)
          → answer ≡ ok (record { count = count }))
        × (s.auth.expected ≢ none
            → s.auth.expected ≢ token
            → answer ≡ err (ZakuraGrpcClientError.status (unauthenticated Message.invalid_token)))
        × (subscriber_id (call (build c).interceptor (request_from address)) ≡ known_as id address)
  unfolding ping
  built_client_answered token id address b c count s h k =
      let r : RequestMetadata = record {
        x_token = token;
        x_subscription_id = id;
        remote_ip = address;
      } in
      rw (arrives valid_metadata token id address b c h k) (
        λ e. ap client_result (answer_ping-authorized r _ s (authorize-token s.auth r e)),
        λ e f. ap client_result (answer_ping-refused r _ s _ (authorize-wrong s.auth r e f)),
        subscriber_id-known_as token id address,
      )

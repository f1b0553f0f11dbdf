-- ===== src/Client/Calls/Configured.antt =====
-- A client of zakura-grpc-client with the token of the configuration from which the plugin of
-- zakura-grpc-geyser/src/lib.rs is made.
use zakura_grpc.Common.{
  ℕ, ℤ, ◌≡◌, refl, sym, ap, subst, ◌∙◌, Bool, Option, none, some, String, is_some, Result, ok, err,
  ok-injective, Bool-cases, Result-cases, inl, inr,
}
use zakura_grpc.Chain.{Chain}
use zakura_grpc.Geyser.Config.{Config}
use zakura_grpc.Geyser.Config.Validate.{validate}
use zakura_grpc.Geyser.Config.Usable.{validate_iff_IsUsable}
use zakura_grpc.Geyser.Event.Source.{PluginError}
use zakura_grpc.Geyser.Service.{GrpcService, ping as answer_ping}
use zakura_grpc.Geyser.Plugin.Lifecycle.{
  Managed, LoadAnswers, from_plugin_config, new_plugin, create_pool, listen, on_load,
}
use zakura_grpc.Client.Builder.{
  ZakuraGrpcBuilder, new_builder, metadata_value, x_token, subscription_id, build,
}
use zakura_grpc.Client.Calls.{ping}
use zakura_grpc.Client.Calls.Answered.{built_client_answered}

-- What a load that succeeds runs expects the token of the configuration.
ServiceOf : Option String → Result PluginError GrpcService → Type 0
ServiceOf token (err e) = Unit
ServiceOf token (ok s) = s.auth.expected ≡ token

on_load-ServiceOf :
    (unit : ℕ) (a : LoadAnswers) (number : ℕ) (m : Managed)
    → ServiceOf m.config.x_token (on_load unit a number m).0
unfolding on_load ServiceOf
on_load-ServiceOf unit a number m = elim (Bool-cases (is_some m.server)) [
  | inl running ↦ rw (running, on_load) tt
  | inr stopped ↦ elim (Result-cases (create_pool a m).0) [
    | inr (x, e) ↦ rw (stopped, e, on_load) tt
    | inl (u, e) ↦ elim (Result-cases (listen a)) [
      | inr (x, f) ↦ rw (stopped, e, f, on_load) tt
      | inl (v, f) ↦ rw (stopped, e, f, on_load) refl
    ]
  ]
]

module _ (chain : Chain) (valid_metadata : String → Bool) where
  -- A plugin is made from a valid configuration only.
  from_plugin_config-valid :
      (unit : ℕ) (c : Config) (m : Managed)
      → from_plugin_config chain valid_metadata unit (ok c) ≡ ok m
      → (validate chain valid_metadata c ≡ ok tt) × (new_plugin unit c ≡ m)
  unfolding from_plugin_config
  from_plugin_config-valid unit c m h = by_answer (validate chain valid_metadata c) refl h
    where
      by_answer :
          (r : Result _ (Unit {0}))
          → validate chain valid_metadata c ≡ r
          → (elim r [
            | err e ↦ err PluginError.invalid_configuration
            | ok _ ↦ ok (new_plugin unit c)
          ])
            ≡ ok m
          → (validate chain valid_metadata c ≡ ok tt) × (new_plugin unit c ≡ m)
      by_answer (ok u) e h = (e, ok-injective h)
      by_answer (err x) e h = absurd (cc h)

  metadata_value-configured :
      (c : Config)
      → validate chain valid_metadata c ≡ ok tt
      → metadata_value valid_metadata c.x_token ≡ ok c.x_token
  unfolding metadata_value
  metadata_value-configured c h = by_token c.x_token refl
    where
      by_token :
          (token : Option String)
          → c.x_token ≡ token
          → metadata_value valid_metadata token ≡ ok token
      by_token none e = refl
      by_token (some t) e =
          rw (((validate_iff_IsUsable chain valid_metadata c).0 h).metadata t e) refl

  configured_builder :
      (c : Config)
      → validate chain valid_metadata c ≡ ok tt
      → x_token valid_metadata c.x_token new_builder
        ≡ ok (record new_builder { x_token = c.x_token })
  unfolding x_token
  configured_builder c h = rw (metadata_value-configured c h) refl

  no_identity :
      (b : ZakuraGrpcBuilder)
      → subscription_id valid_metadata none b ≡ ok (record b { subscription_id = none })
  unfolding subscription_id metadata_value
  no_identity b = refl

  -- Where a plugin is made from a configuration and its load succeeds, the builder of a client
  -- takes the token of the configuration, or none if there is none, and the client gets the reply
  -- to its ping from the service of that load, with the same count.
  pub configured_client_answered :
      (unit number : ℕ) (c : Config) (m : Managed) (a : LoadAnswers) (s : GrpcService)
      (address : Option String) (count : ℤ)
      → from_plugin_config chain valid_metadata unit (ok c) ≡ ok m
      → (on_load unit a number m).0 ≡ ok s
      → (b : ZakuraGrpcBuilder) × (x_token valid_metadata c.x_token new_builder ≡ ok b)
        × (ping (λ r message. answer_ping r message s) address count (build b)
            ≡ ok (record { count = count }))
  unfolding ServiceOf new_plugin
  configured_client_answered unit number c m a s address count made loaded =
      let (valid, same) = from_plugin_config-valid unit c m made in
      let token : s.auth.expected ≡ c.x_token =
        subst (ServiceOf m.config.x_token) loaded (on_load-ServiceOf unit a number m)
        ∙ ap (λ m. m.config.x_token) (sym same) in
      let b = record new_builder { x_token = c.x_token } in
      let built = configured_builder c valid in
      (
        b,
        built,
        (built_client_answered valid_metadata c.x_token none address b b count s built
              (no_identity b)).0
            (inr token),
      )

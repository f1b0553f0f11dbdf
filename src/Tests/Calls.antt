-- ===== src/Tests/Calls.antt =====
-- The theorems on the client and its calls at concrete inputs.
use zakura_grpc.Common.{
  ◌≡◌, ◌≢◌, ◌⊎◌, refl, false, none, some, String, Bool, [], ◌∷◌, map, contains, int_eq, string_eq,
  ◌==◌, not, ok, err, pos, is_some, traverse,
}
use zakura_grpc.Status.{Message, unauthenticated}
use zakura_grpc.Proto.{
  EventType, event_type_into, event_type_try_from, block_payload_try_from,
  transaction_payload_try_from,
}
use zakura_grpc.Geyser.Config.{Config, default_config, default_limits}
use zakura_grpc.Geyser.Auth.{subscriber_id}
use zakura_grpc.Geyser.Filter.Compile.{
  from_proto, compile_kinds, kind_bit, event_type_bit, compile_transaction_ids, compile_values,
  validate_list_size, compile_addresses,
}
use zakura_grpc.Geyser.Filter.Request.{new_filter, matched, compile_legacy, compile_all}
use zakura_grpc.Geyser.Server.Subscribe.{new_state}
use zakura_grpc.Geyser.Server.Stream.{on_request, apply_subscription_request}
use zakura_grpc.Geyser.Server.Stream.Live.{accepting}
use zakura_grpc.Geyser.Service.{GrpcService, new_service, ping as answer_ping}
use zakura_grpc.Client.Reconnect.{ZakuraGrpcClientError}
use zakura_grpc.Client.Builder.{
  ZakuraGrpcBuilder, new_builder, x_token, subscription_id, metadata_value, build, call,
}
use zakura_grpc.Client.Calls.{request_from, ping, set_event_types}
use zakura_grpc.Client.Calls.Answered.{known_as, built_client_answered}
use zakura_grpc.Client.Calls.Selected.{set_event_types_selects}
use zakura_grpc.Geyser.Config.Validate.{validate, validate_limits, check_ids, check_addresses}
use zakura_grpc.Geyser.Plugin.Lifecycle.{
  new_plugin, from_plugin_config, create_pool, listen, on_load,
}
use zakura_grpc.Client.Calls.Configured.{configured_client_answered}
use zakura_grpc.Tests.Events.{granted}
use zakura_grpc.Tests.Samples.{sample_chain, sample_len, block_at}
use zakura_grpc.Tests.Streams.{to_all}

abbrev guarded_config : Config
guarded_config = record default_config { x_token = some "secret" }

abbrev guarded : GrpcService
guarded = new_service 1 (new_state 1 guarded_config) guarded_config

-- Metadata without a line break, as far as this goes.
abbrev is_metadata : String → Bool
is_metadata v = not (v == "\n")

abbrev with_token : ZakuraGrpcBuilder
with_token = record new_builder { x_token = some "secret" }

abbrev with_identity : ZakuraGrpcBuilder
with_identity = record with_token { subscription_id = some "app" }

token_set : x_token is_metadata (some "secret") new_builder ≡ ok with_token
unfolding x_token metadata_value
token_set = refl

identity_set : subscription_id is_metadata (some "app") with_token ≡ ok with_identity
unfolding subscription_id metadata_value
identity_set = refl

built_client_answered_example :
    let answer = ping (λ r m. answer_ping r m guarded) none (pos 3) (build with_identity) in
    ((guarded.auth.expected ≡ none) ⊎ (guarded.auth.expected ≡ some "secret")
      → answer ≡ ok (record { count = pos 3 }))
    × (guarded.auth.expected ≢ none
        → guarded.auth.expected ≢ some "secret"
        → answer ≡ err (ZakuraGrpcClientError.status (unauthenticated Message.invalid_token)))
    × (subscriber_id (call (build with_identity).interceptor (request_from none))
        ≡ known_as (some "app") none)
built_client_answered_example =
    built_client_answered is_metadata (some "secret") (some "app") none with_token with_identity
      (pos 3) guarded token_set identity_set

blocks_accepted :
    (on_request sample_chain sample_len default_limits accepting
      (set_event_types (EventType.block_accepted ∷ []))
      to_all).disconnect
    ≡ none
unfolding on_request apply_subscription_request set_event_types new_filter compile_legacy from_proto
    compile_kinds kind_bit event_type_try_from event_type_bit compile_transaction_ids compile_values
    validate_list_size traverse compile_addresses block_payload_try_from
    transaction_payload_try_from compile_all
blocks_accepted = refl

set_event_types_selects_example :
    let answered =
      on_request sample_chain sample_len default_limits accepting
        (set_event_types (EventType.block_accepted ∷ []))
        to_all in
    (answered.sent ≡ [])
    × (answered.stream ≡ record to_all { filter = answered.stream.filter })
    × (is_some (matched answered.stream.filter (block_at 9 "aa" false 1))
        ≡ contains
            (map event_type_into (EventType.block_accepted ∷ []))
            (block_at 9 "aa" false 1).event_type)
set_event_types_selects_example =
    set_event_types_selects sample_chain sample_len default_limits (EventType.block_accepted ∷ [])
      accepting to_all (block_at 9 "aa" false 1) refl blocks_accepted

made :
    from_plugin_config sample_chain is_metadata 1 (ok guarded_config)
    ≡ ok (new_plugin 1 guarded_config)
unfolding from_plugin_config validate validate_limits check_ids check_addresses
made = refl

loaded : (on_load 1 granted 0 (new_plugin 1 guarded_config)).0 ≡ ok guarded
unfolding on_load new_plugin create_pool listen
loaded = refl

configured_client_answered_example :
    (b : ZakuraGrpcBuilder) × (x_token is_metadata (some "secret") new_builder ≡ ok b)
    × (ping (λ r message. answer_ping r message guarded) none (pos 3) (build b)
        ≡ ok (record { count = pos 3 }))
configured_client_answered_example =
    configured_client_answered sample_chain is_metadata 1 0 guarded_config
      (new_plugin 1 guarded_config) granted guarded none (pos 3) made loaded

-- ===== src/Geyser/Config/Validate.antt =====
-- `Config::validate` and `FilterLimits::validate` of config.rs.
use zakura_grpc.Common.{
  Bool, not, String, List, [], ◌∷◌, Result, ok, ◌>>◌, reject_if, is_some, is_some_and, ◌==◌,
  string_eq, nat_eq,
}
use zakura_grpc.Chain.{Chain}
use zakura_grpc.Geyser.Config.{Config, FilterLimits}

pub data ConfigError : Type 0 where
  zero_replay_max_events zero_replay_max_bytes zero_replay_max_age : ConfigError
  zero_broadcast_capacity zero_client_channel_capacity zero_subscription_ping_interval : ConfigError
  zero_max_decoding_message_size zero_max_encoding_message_size : ConfigError
  zero_event_encoding_threads zero_parallel_encoding_min_transactions : ConfigError
  empty_token invalid_token : ConfigError
  zero_max_named_filters zero_max_event_types zero_max_filter_name_bytes : ConfigError
  invalid_rejected_transaction_id : String → ConfigError
  invalid_rejected_transparent_address : String → String → ConfigError

module _ (chain : Chain) where
  unfoldable pub check_ids : List String → Result ConfigError (Unit {0})
  check_ids [] = ok tt
  check_ids (id ∷ ids) =
      reject_if (not (is_some (chain.parse_hash id)))
        (ConfigError.invalid_rejected_transaction_id id)
      >> check_ids ids

  unfoldable pub check_addresses : String → List String → Result ConfigError (Unit {0})
  check_addresses field [] = ok tt
  check_addresses field (a ∷ as') =
      reject_if (not (is_some (chain.parse_address a)))
        (ConfigError.invalid_rejected_transparent_address field a)
      >> check_addresses field as'

  unfoldable pub validate_limits : FilterLimits → Result ConfigError (Unit {0})
  validate_limits l = do
    reject_if (l.max_named_filters == 0) ConfigError.zero_max_named_filters
    reject_if (l.max_event_types == 0) ConfigError.zero_max_event_types
    reject_if (l.max_name_bytes == 0) ConfigError.zero_max_filter_name_bytes
    check_ids l.transaction_id_reject
    check_addresses "transparent_address_reject" l.transparent_address_reject
    check_addresses "address_include_reject" l.address_include_reject
    check_addresses "address_exclude_reject" l.address_exclude_reject
    check_addresses "address_required_reject" l.address_required_reject

-- `valid_metadata` is whether `token.parse::<AsciiMetadataValue>()` succeeds.
module _ (chain : Chain) (valid_metadata : String → Bool) where
  unfoldable pub validate : Config → Result ConfigError (Unit {0})
  validate c = do
    reject_if (c.broadcast_capacity == 0) ConfigError.zero_broadcast_capacity
    reject_if (c.replay_max_events == 0) ConfigError.zero_replay_max_events
    reject_if (c.replay_max_bytes == 0) ConfigError.zero_replay_max_bytes
    reject_if (is_some_and c.replay_max_age_seconds (λ n. n == 0)) ConfigError.zero_replay_max_age
    reject_if (c.client_channel_capacity == 0) ConfigError.zero_client_channel_capacity
    reject_if (is_some_and c.subscription_ping_interval_seconds (λ n. n == 0))
        ConfigError.zero_subscription_ping_interval
    reject_if (c.max_decoding_message_size == 0) ConfigError.zero_max_decoding_message_size
    reject_if (c.max_encoding_message_size == 0) ConfigError.zero_max_encoding_message_size
    reject_if (c.event_encoding_threads == 0) ConfigError.zero_event_encoding_threads
    reject_if (c.parallel_encoding_min_transactions == 0)
        ConfigError.zero_parallel_encoding_min_transactions
    reject_if (is_some_and c.x_token (λ t. t == "")) ConfigError.empty_token
    reject_if (is_some_and c.x_token (λ t. not (valid_metadata t))) ConfigError.invalid_token
    validate_limits chain c.filter_limits

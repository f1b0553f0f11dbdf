-- ===== src/Geyser/Config.antt =====
-- zakura-grpc-geyser/src/config.rs: the configuration, its defaults and its validation. The socket
-- address and the HTTP/2 and compression settings are passed to Tonic unread and are left out.
pub mod Validate
pub mod Usable
use zakura_grpc.Common.{ℕ, ◌*◌, Bool, true, false, Option, none, some, String, List, [], ◌≡◌}

pub record FilterLimits : Type 0 where
  pub max_named_filters : ℕ
  pub max_event_types : ℕ
  pub max_name_bytes : ℕ
  pub max_transaction_ids : ℕ
  pub transaction_id_reject : List String
  pub max_transparent_addresses : ℕ
  pub transparent_address_reject : List String
  pub max_address_include : ℕ
  pub address_include_reject : List String
  pub max_address_exclude : ℕ
  pub address_exclude_reject : List String
  pub max_address_required : ℕ
  pub address_required_reject : List String
  pub allow_all : Bool

pub record Config : Type 0 where
  pub transaction_updates : Bool
  pub mempool_transaction_updates : Bool
  pub utxo_updates : Bool
  pub replay_stored_blocks : ℕ
  pub replay_max_events : ℕ
  pub replay_max_bytes : ℕ
  pub replay_max_age_seconds : Option ℕ
  pub broadcast_capacity : ℕ
  pub client_channel_capacity : ℕ
  pub subscription_ping_interval_seconds : Option ℕ
  pub max_decoding_message_size : ℕ
  pub max_encoding_message_size : ℕ
  pub x_token : Option String
  pub subscription_limit : ℕ
  pub subscription_limit_enforce : Bool
  pub filter_limits : FilterLimits
  pub event_encoding_threads : ℕ
  pub parallel_encoding_min_transactions : ℕ

-- `FilterLimits::default()`
abbrev pub default_limits : FilterLimits
default_limits = record {
  max_named_filters = 32;
  max_event_types = 7;
  max_name_bytes = 128;
  max_transaction_ids = 256;
  transaction_id_reject = [];
  max_transparent_addresses = 256;
  transparent_address_reject = [];
  max_address_include = 256;
  address_include_reject = [];
  max_address_exclude = 256;
  address_exclude_reject = [];
  max_address_required = 256;
  address_required_reject = [];
  allow_all = true;
}

-- `Config::default()`
abbrev pub default_config : Config
default_config = record {
  transaction_updates = true;
  mempool_transaction_updates = true;
  utxo_updates = true;
  replay_stored_blocks = 150;
  replay_max_events = 250_000;
  replay_max_bytes = 512 * 1024 * 1024;
  replay_max_age_seconds = some (4 * 60 * 60);
  broadcast_capacity = 100_000;
  client_channel_capacity = 10_000;
  subscription_ping_interval_seconds = some 15;
  max_decoding_message_size = 4 * 1024 * 1024;
  max_encoding_message_size = 50 * 1024 * 1024;
  x_token = none;
  subscription_limit = 1_000;
  subscription_limit_enforce = false;
  filter_limits = default_limits;
  event_encoding_threads = 1;
  parallel_encoding_min_transactions = 32;
}

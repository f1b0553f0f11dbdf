-- ===== src/Status/Codes.antt =====
-- `tonic::Status`: a code, and a message. A message is kept as the constructor of the text that the
-- source formats, with the values that it puts in.
use zakura_grpc.Common.{ℕ, ℤ, String}

-- `tonic::Code`
pub data Code : Type 0 where
  ok cancelled unknown invalid_argument deadline_exceeded not_found already_exists : Code
  permission_denied resource_exhausted failed_precondition aborted out_of_range : Code
  unimplemented internal unavailable data_loss unauthenticated : Code

pub data Message : Type 0 where
  -- filter.rs
  too_many_named_filters : ℕ → Message
  empty_filter_disabled : Message
  named_filter_empty : String → Message
  too_many_event_types : ℕ → Message
  unknown_event_type : ℤ → Message
  unspecified_event_type : Message
  unknown_block_payload : ℤ → Message
  unknown_transaction_payload : ℤ → Message
  invalid_transaction_id : String → Message
  rejected_transaction_id : String → Message
  invalid_configured_transaction_id : Message
  invalid_address : String → Message
  rejected_address : String → String → Message
  invalid_configured_address : Message
  too_many_values : ℕ → String → Message
  empty_filter_name : Message
  long_filter_name : ℕ → Message
  -- the panic of an `expect`
  expectation_failed : Message
  -- server.rs
  checkpoint_hash_empty : Message
  from_height_differs : Message
  partial_blocks_not_above : Message
  height_evicted : ℕ → ℕ → Message
  replay_window_empty : ℕ → Message
  checkpoint_hash_mismatch : ℕ → Message
  checkpoint_not_retained : ℕ → Message
  subscriber_lagged : ℕ → Message
  first_request_required : Message
  -- auth.rs
  invalid_token : Message
  subscription_limit : String → ℕ → Message
  -- reconnect.rs
  ping_reply_failed : Message
  request_stream_closed : Message
  reconnect_failed : String → Message
  -- a status of the peer
  remote : String → Message

pub record Status : Type 0 where
  pub code : Code
  pub message : Message

-- ===== src/Proto/Requests.antt =====
-- The messages that a client sends.
use zakura_grpc.Common.{ℕ, ℤ, pos, Bool, false, Option, none, String, List, []}
use zakura_grpc.Proto.Updates.{CanonicalBlock, Bytes}

pub record SubscribeRequestPing : Type 0 where
  pub id : ℤ

pub record SubscribeRequestFilter : Type 0 where
  pub event_types : List ℤ
  pub min_height : Option ℕ
  pub transaction_ids : List String
  pub transparent_addresses : List String
  pub address_include : List String
  pub address_exclude : List String
  pub address_required : List String
  pub coinbase : Option Bool
  pub transaction_version : Option ℕ
  pub has_transparent : Option Bool
  pub has_sapling : Option Bool
  pub has_orchard : Option Bool
  pub min_value_zat : Option ℕ
  pub block_payload : ℤ
  pub transaction_payload : ℤ

-- `SubscribeRequestFilter::default()`
abbrev pub default_filter : SubscribeRequestFilter
default_filter = record {
  event_types = [];
  min_height = none;
  transaction_ids = [];
  transparent_addresses = [];
  address_include = [];
  address_exclude = [];
  address_required = [];
  coinbase = none;
  transaction_version = none;
  has_transparent = none;
  has_sapling = none;
  has_orchard = none;
  min_value_zat = none;
  block_payload = pos 0;
  transaction_payload = pos 0;
}

pub record ResumeCheckpoint : Type 0 where
  pub finalized_height : ℕ
  pub finalized_block_hash : String
  pub partial_blocks : List CanonicalBlock

-- `filters` is a hash map: the list is the order in which it is iterated, and no name stands in
-- it twice.
pub record SubscribeRequest : Type 0 where
  pub event_types : List ℤ
  pub from_height : Option ℕ
  pub ping : Option SubscribeRequestPing
  pub filters : List (String × SubscribeRequestFilter)
  pub resume : Option ResumeCheckpoint
  pub include_mempool_snapshot : Bool

-- `SubscribeRequest::default()`
abbrev pub default_request : SubscribeRequest
default_request = record {
  event_types = [];
  from_height = none;
  ping = none;
  filters = [];
  resume = none;
  include_mempool_snapshot = false;
}

pub record SubscribeReplayInfoResponse : Type 0 where
  pub first_available_height : Option ℕ
  pub latest_height : Option ℕ
  pub retained_block_capacity : ℕ
  pub session_id : Bytes
  pub first_available_sequence : Option ℕ
  pub latest_sequence : Option ℕ
  pub first_available_hash : Option String
  pub latest_hash : Option String
  pub replay_ready : Bool

pub record PingRequest : Type 0 where
  pub count : ℤ

pub record PongResponse : Type 0 where
  pub count : ℤ

pub record GetVersionResponse : Type 0 where
  pub version : String
  pub interface_version : ℕ
  pub event_schema_version : ℕ

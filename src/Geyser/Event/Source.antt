-- ===== src/Geyser/Event/Source.antt =====
-- What event.rs takes from the crates zakura_chain and zakura_geyser_plugin_interface, as
-- parameters: the printing functions, and the values whose fields and methods the source reads. A
-- transaction or a block is what its methods answer. Amounts are not negative by type there.
use zakura_grpc.Common.{ℕ, ℤ, Bool, Option, String, List, Result}
use zakura_grpc.Chain.{Address}
use zakura_grpc.Proto.{Bytes}

-- Networks are told apart by a number.
abbrev pub Network : Type 0
Network = ℕ

pub record OutPoint : Type 0 where
  pub hash : Bytes
  pub index : ℕ

-- `transparent::Output`
pub record Output : Type 0 where
  pub value : ℕ
  pub lock_script : Bytes

-- `transparent::OrderedUtxo`, with the fields of its `utxo`
pub record OrderedUtxo : Type 0 where
  pub output : Output
  pub height : ℕ
  pub from_coinbase : Bool

-- `transparent::Input`
pub data ChainInput : Type 0 where
  prev_out : OutPoint → Bytes → ℕ → ChainInput
  coinbase : ℕ → Bytes → ℕ → ChainInput

pub record Transaction : Type 0 where
  pub txid : Bytes
  pub auth_digest : Option Bytes
  -- `zcash_serialize_to_vec`
  pub serialized : Result String Bytes
  pub inputs : List ChainInput
  pub outputs : List Output
  pub version : ℕ
  pub raw_lock_time : ℕ
  pub lock_time_is_time : Bool
  pub expiry_height : Option ℕ
  pub is_coinbase : Bool
  pub has_transparent_inputs_or_outputs : Bool
  pub has_sapling_shielded_data : Bool
  pub has_orchard_shielded_data : Bool

pub record Formats : Type 0 where
  -- `to_string` of a transaction hash, a block hash, a digest and a network
  pub show_hash : Bytes → String
  pub show_block_hash : Bytes → String
  pub show_digest : Bytes → String
  pub show_network : Network → String
  -- `output.address(network)`, and `to_string`
  pub output_address : Network → Output → Option Address
  pub show_address : Address → String

-- The time that `chrono` gives: `timestamp` and `timestamp_subsec_nanos`.
pub record AdmissionTime : Type 0 where
  pub timestamp : ℤ
  pub subsec_nanos : ℕ

pub record VerifiedUnminedTx : Type 0 where
  pub transaction : Transaction
  pub spent_outputs : List Output
  pub miner_fee : ℕ
  pub time : Option AdmissionTime
  pub height : Option ℕ
  pub conventional_actions : ℕ
  pub unpaid_actions : ℕ
  pub legacy_sigop_count : ℕ
  pub p2sh_sigop_count : ℕ
  pub fee_weight_ratio_bits : ℕ

pub record BlockEvent : Type 0 where
  pub height : ℕ
  pub hash : Bytes
  pub network : Network
  pub receipt_order : Option ℕ
  -- `block.zcash_serialize_to_vec`
  pub serialized : Result String Bytes
  pub transactions : List Transaction
  -- a hash map, under the outpoint's hash and index
  pub spent_outputs : List ((Bytes × ℕ) × OrderedUtxo)

pub record ChainBlock : Type 0 where
  pub height : ℕ
  pub hash : Bytes
  pub previous_block_hash : Bytes

pub data BestChainChange : Type 0 where
  grow : ℕ → Bytes → Bytes → List Bytes → BestChainChange
  reset : ℕ → Bytes → List ChainBlock → List ChainBlock → Bool → BestChainChange

pub data MempoolEventKind : Type 0 where
  added invalidated mined : MempoolEventKind

-- `UnminedTxId`: `mined_id` and `auth_digest`
pub record UnminedTxId : Type 0 where
  pub mined_id : Bytes
  pub auth_digest : Option Bytes

pub record MempoolEvent : Type 0 where
  pub kind : MempoolEventKind
  pub network : Network
  pub transaction_ids : List UnminedTxId
  pub transactions : List VerifiedUnminedTx

pub data PluginEvent : Type 0 where
  block_accepted block_finalized : BlockEvent → PluginEvent
  best_chain_changed : BestChainChange → PluginEvent
  mempool_changed : MempoolEvent → PluginEvent

-- `SystemTime`, as the duration since the epoch, or before it
pub data SystemTime : Type 0 where
  since_epoch : ℕ → ℕ → SystemTime
  before_epoch : SystemTime

pub record EventEnvelope : Type 0 where
  pub schema_version : ℕ
  -- `session_id.0.to_be_bytes()`
  pub session_id : Bytes
  pub sequence : ℕ
  pub observed_at : SystemTime
  pub payload : PluginEvent

-- `PluginError::new`, a constructor for each message
pub data PluginError : Type 0 where
  block_not_encoded transaction_not_encoded : String → PluginError
  transaction_index_out_of_range input_index_out_of_range output_index_out_of_range : PluginError
  input_value_out_of_range output_value_out_of_range sequence_exhausted : PluginError
  already_running : PluginError
  invalid_configuration : PluginError
  pool_not_created runtime_unavailable listener_not_bound listener_not_configured :
      String → PluginError
  listener_not_created reflection_not_built : String → PluginError

-- ===== src/Proto/Updates.antt =====
-- The messages that the server sends. Bytes are lists of numbers; a float is its bit pattern,
-- which the source only copies.
use zakura_grpc.Common.{ℕ, ℤ, pos, Bool, Option, none, String, List, []}

abbrev pub Bytes : Type 0
Bytes = List ℕ

pub record Timestamp : Type 0 where
  pub seconds : ℤ
  pub nanos : ℤ

pub record CanonicalBlock : Type 0 where
  pub height : ℕ
  pub hash : String
  pub previous_block_hash : String

pub record BlockUpdate : Type 0 where
  pub height : ℕ
  pub hash : String
  pub block : Bytes
  pub receipt_order : Option ℕ
  pub finalized : Bool
  pub payload : ℤ

pub record BestChainGrow : Type 0 where
  pub previous_block_hash : String
  pub transaction_ids : List String

pub record BestChainReset : Type 0 where
  pub disconnected_blocks : List CanonicalBlock
  pub connected_blocks : List CanonicalBlock
  pub diff_complete : Bool

pub data Change : Type 0 where
  grow : BestChainGrow → Change
  reset : BestChainReset → Change

pub record BestChainUpdate : Type 0 where
  pub height : ℕ
  pub hash : String
  pub change : Option Change

pub record MempoolUpdate : Type 0 where
  pub action : ℤ
  pub transaction_ids : List String

pub record Outpoint : Type 0 where
  pub transaction_id : String
  pub output_index : ℕ

pub record TransparentPrevoutInput : Type 0 where
  pub previous_output : Option Outpoint
  pub unlock_script : Bytes
  pub previous_value_zat : Option ℕ
  pub previous_lock_script : Option Bytes
  pub previous_address : Option String
  pub previous_height : Option ℕ
  pub previous_from_coinbase : Option Bool

pub record TransparentCoinbaseInput : Type 0 where
  pub height : ℕ
  pub coinbase_data : Bytes

pub data Input : Type 0 where
  prevout : TransparentPrevoutInput → Input
  coinbase : TransparentCoinbaseInput → Input

pub record TransparentInput : Type 0 where
  pub input_index : ℕ
  pub sequence : ℕ
  pub input : Option Input

pub record TransparentOutput : Type 0 where
  pub output_index : ℕ
  pub value_zat : ℕ
  pub lock_script : Bytes
  pub address : Option String

pub record TransactionUpdate : Type 0 where
  pub transaction_id : String
  pub unmined_transaction_id : String
  pub auth_digest : Option String
  pub transaction : Bytes
  pub height : ℕ
  pub block_hash : String
  pub transaction_index : ℕ
  pub commitment : ℤ
  pub coinbase : Bool
  pub transparent_inputs : List TransparentInput
  pub transparent_outputs : List TransparentOutput
  pub version : ℕ
  pub lock_time : ℕ
  pub lock_time_is_time : Bool
  pub expiry_height : Option ℕ
  pub network : String
  pub transparent_input_value_zat : Option ℕ
  pub transparent_output_value_zat : ℕ
  pub has_transparent : Bool
  pub has_sapling : Bool
  pub has_orchard : Bool
  pub payload : ℤ

pub record MempoolTransactionUpdate : Type 0 where
  pub transaction_id : String
  pub unmined_transaction_id : String
  pub auth_digest : Option String
  pub transaction : Bytes
  pub network : String
  pub transparent_inputs : List TransparentInput
  pub transparent_outputs : List TransparentOutput
  pub version : ℕ
  pub lock_time : ℕ
  pub lock_time_is_time : Bool
  pub expiry_height : Option ℕ
  pub transparent_input_value_zat : Option ℕ
  pub transparent_output_value_zat : ℕ
  pub miner_fee_zat : ℕ
  pub admitted_at : Option Timestamp
  pub admitted_height : Option ℕ
  pub conventional_actions : ℕ
  pub unpaid_actions : ℕ
  pub legacy_sigop_count : ℕ
  pub p2sh_sigop_count : ℕ
  pub fee_weight_ratio_bits : ℕ
  pub coinbase : Bool
  pub has_transparent : Bool
  pub has_sapling : Bool
  pub has_orchard : Bool
  pub payload : ℤ

pub record UtxoCreated : Type 0 where
  pub outpoint : Option Outpoint
  pub value_zat : ℕ
  pub lock_script : Bytes
  pub address : Option String

pub record UtxoSpent : Type 0 where
  pub outpoint : Option Outpoint
  pub input_index : ℕ
  pub unlock_script : Bytes
  pub sequence : ℕ
  pub previous_value_zat : Option ℕ
  pub previous_lock_script : Option Bytes
  pub previous_address : Option String
  pub previous_height : Option ℕ
  pub previous_from_coinbase : Option Bool

pub data UtxoChangeKind : Type 0 where
  created : UtxoCreated → UtxoChangeKind
  spent : UtxoSpent → UtxoChangeKind

pub record UtxoChange : Type 0 where
  pub change : Option UtxoChangeKind

pub record UtxoUpdate : Type 0 where
  pub height : ℕ
  pub block_hash : String
  pub transaction_id : String
  pub transaction_index : ℕ
  pub commitment : ℤ
  pub changes : List UtxoChange
  pub coinbase : Bool
  pub version : ℕ
  pub has_transparent : Bool
  pub has_sapling : Bool
  pub has_orchard : Bool
  pub transparent_input_value_zat : Option ℕ
  pub transparent_output_value_zat : ℕ

pub record PongUpdate : Type 0 where
  pub id : ℤ

pub record PingUpdate : Type 0 where
  pub id : ℤ

pub record ReconnectUpdate : Type 0 where
  pub finalized_height : ℕ
  pub finalized_block_hash : String
  pub discarded_blocks : List CanonicalBlock

pub record MempoolSnapshotUpdate : Type 0 where
  pub phase : ℤ
  pub revision : ℕ
  pub transaction_count : ℕ

-- `subscribe_update::Update`
pub data Update : Type 0 where
  block : BlockUpdate → Update
  best_chain : BestChainUpdate → Update
  mempool : MempoolUpdate → Update
  pong : PongUpdate → Update
  transaction : TransactionUpdate → Update
  utxo : UtxoUpdate → Update
  mempool_transaction : MempoolTransactionUpdate → Update
  ping : PingUpdate → Update
  reconnect : ReconnectUpdate → Update
  mempool_snapshot : MempoolSnapshotUpdate → Update

pub record SubscribeUpdate : Type 0 where
  pub schema_version : ℕ
  pub session_id : Bytes
  pub sequence : ℕ
  pub observed_at : Option Timestamp
  pub event_type : ℤ
  pub filters : List String
  pub source_sequence : ℕ
  pub mempool_revision : Option ℕ
  pub update : Option Update

-- `SubscribeUpdate::default()`
abbrev pub default_update : SubscribeUpdate
default_update = record {
  schema_version = 0;
  session_id = [];
  sequence = 0;
  observed_at = none;
  event_type = pos 0;
  filters = [];
  source_sequence = 0;
  mempool_revision = none;
  update = none;
}

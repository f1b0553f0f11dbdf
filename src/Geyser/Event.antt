-- ===== src/Geyser/Event.antt =====
-- zakura-grpc-geyser/src/event.rs: the encoding of events, in its children, and the height of an
-- update.
pub mod Source
pub mod Previous
pub mod Transparent
pub mod Encode
pub mod Pool
pub mod Transactions
pub mod Mempool
pub mod Whole
pub mod Pooled
pub mod Updates
pub mod Heights
use zakura_grpc.Common.{ℕ, Option, none, some}
use zakura_grpc.Proto.{SubscribeUpdate, Update}

unfoldable pub block_height : SubscribeUpdate → Option ℕ
block_height u = elim u.update [
  | some (Update.block b) ↦ some b.height
  | some (Update.best_chain c) ↦ some c.height
  | some (Update.transaction t) ↦ some t.height
  | some (Update.utxo x) ↦ some x.height
  | _ ↦ none
]

-- ===== src/Geyser/Server/Projection.antt =====
-- `apply_payload_projection`, `PreparedPayload`, `PayloadProjectionCache` and `PublishedUpdate` of
-- server.rs. `encoded_len` is `Message::encoded_len` of Prost.
use zakura_grpc.Common.{ℕ, Bool, true, false, Option, none, some, [], if◌then◌else◌}
use zakura_grpc.Proto.{
  BlockPayload, TransactionPayload, SubscribeUpdate, Update, BlockUpdate, TransactionUpdate,
  MempoolTransactionUpdate, block_payload_into, transaction_payload_into,
}

abbrev pub is_meta_only : BlockPayload → Bool
is_meta_only BlockPayload.meta_only = true
is_meta_only _ = false

unfoldable pub project_block : BlockPayload → BlockUpdate → BlockUpdate
project_block p b =
    let marked = record b { payload = block_payload_into p } in
    if is_meta_only p then record marked { block = [] } else marked

unfoldable pub project_transaction : TransactionPayload → TransactionUpdate → TransactionUpdate
project_transaction p t =
    let marked = record t { payload = transaction_payload_into p } in
    elim p [
      | TransactionPayload.meta_only ↦ record marked {
        transaction = [];
        transparent_inputs = [];
        transparent_outputs = [];
      }
      | TransactionPayload.raw_only ↦ record marked {
        transparent_inputs = [];
        transparent_outputs = [];
      }
      | TransactionPayload.transparent_only ↦ record marked { transaction = [] }
      | _ ↦ marked
    ]

unfoldable pub project_mempool_transaction :
    TransactionPayload → MempoolTransactionUpdate → MempoolTransactionUpdate
project_mempool_transaction p t =
    let marked = record t { payload = transaction_payload_into p } in
    elim p [
      | TransactionPayload.meta_only ↦ record marked {
        transaction = [];
        transparent_inputs = [];
        transparent_outputs = [];
      }
      | TransactionPayload.raw_only ↦ record marked {
        transparent_inputs = [];
        transparent_outputs = [];
      }
      | TransactionPayload.transparent_only ↦ record marked { transaction = [] }
      | _ ↦ marked
    ]

unfoldable pub project_update : BlockPayload → TransactionPayload → Option Update → Option Update
project_update bp tp (some (Update.block b)) = some (Update.block (project_block bp b))
project_update bp tp (some (Update.transaction t)) =
    some (Update.transaction (project_transaction tp t))
project_update bp tp (some (Update.mempool_transaction t)) =
    some (Update.mempool_transaction (project_mempool_transaction tp t))
project_update bp tp other = other

unfoldable pub apply_payload_projection :
    SubscribeUpdate → BlockPayload → TransactionPayload → SubscribeUpdate
unfolding project_update
apply_payload_projection m bp tp = record m { update = project_update bp tp m.update }

pub record PreparedPayload : Type 0 where
  pub message : SubscribeUpdate
  pub encoded_len : ℕ

-- A `OnceLock` is empty or holds its value for good.
pub record PayloadProjectionCache : Type 0 where
  pub block_meta : Option PreparedPayload
  pub transaction_meta : Option PreparedPayload
  pub transaction_raw : Option PreparedPayload
  pub transaction_transparent : Option PreparedPayload

-- `PayloadProjectionCache::default()`
abbrev pub empty_cache : PayloadProjectionCache
empty_cache = record {
  block_meta = none;
  transaction_meta = none;
  transaction_raw = none;
  transaction_transparent = none;
}

pub record PublishedUpdate : Type 0 where
  pub message : SubscribeUpdate
  pub encoded_len : ℕ
  pub projections : PayloadProjectionCache

-- The field of the cache that `payload` picks.
pub data Slot : Type 0 where
  block_meta transaction_meta transaction_raw transaction_transparent : Slot

abbrev pub transaction_slot : TransactionPayload → Option Slot
transaction_slot TransactionPayload.meta_only = some Slot.transaction_meta
transaction_slot TransactionPayload.raw_only = some Slot.transaction_raw
transaction_slot TransactionPayload.transparent_only = some Slot.transaction_transparent
transaction_slot _ = none

-- None where `payload` returns the message itself.
unfoldable pub slot_of : Option Update → BlockPayload → TransactionPayload → Option Slot
slot_of (some (Update.block b)) bp tp = if is_meta_only bp then some Slot.block_meta else none
slot_of (some (Update.transaction t)) bp tp = transaction_slot tp
slot_of (some (Update.mempool_transaction t)) bp tp = transaction_slot tp
slot_of _ bp tp = none

abbrev pub get_slot : Slot → PayloadProjectionCache → Option PreparedPayload
get_slot Slot.block_meta c = c.block_meta
get_slot Slot.transaction_meta c = c.transaction_meta
get_slot Slot.transaction_raw c = c.transaction_raw
get_slot Slot.transaction_transparent c = c.transaction_transparent

abbrev pub set_slot : Slot → PreparedPayload → PayloadProjectionCache → PayloadProjectionCache
set_slot Slot.block_meta p c = record c { block_meta = some p }
set_slot Slot.transaction_meta p c = record c { transaction_meta = some p }
set_slot Slot.transaction_raw p c = record c { transaction_raw = some p }
set_slot Slot.transaction_transparent p c = record c { transaction_transparent = some p }

module _ (encoded_len : SubscribeUpdate → ℕ) where
  -- `PreparedPayload::new`
  unfoldable pub prepare : SubscribeUpdate → BlockPayload → TransactionPayload → PreparedPayload
  prepare source bp tp =
      let message = apply_payload_projection source bp tp in
      record { message = message; encoded_len = encoded_len message }

  -- `PublishedUpdate::new`
  unfoldable pub publish : SubscribeUpdate → PublishedUpdate
  publish m =
      let message = apply_payload_projection m BlockPayload.full TransactionPayload.full in
      record { message = message; encoded_len = encoded_len message; projections = empty_cache }

  -- `cache.get_or_init`, with the cache that it leaves
  unfoldable pub get_or_init :
      Slot → BlockPayload → TransactionPayload → PublishedUpdate → PreparedPayload × PublishedUpdate
  get_or_init s bp tp p = elim (get_slot s p.projections) [
    | some found ↦ (found, p)
    | none ↦
        let made = prepare p.message bp tp in
        (made, record p { projections = set_slot s made p.projections })
  ]

  -- `PublishedUpdate::payload`: the message and its length, and the update with its cache.
  unfoldable pub payload :
      PublishedUpdate → BlockPayload → TransactionPayload → PreparedPayload × PublishedUpdate
  payload p bp tp = elim (slot_of p.message.update bp tp) [
    | none ↦ (record { message = p.message; encoded_len = p.encoded_len }, p)
    | some s ↦ get_or_init s bp tp p
  ]

-- ===== src/Geyser/Event/Encode.antt =====
-- `UpdateMetadata`, `new_update` and the encoding of blocks, of changes of the best chain and of
-- times in event.rs.
use zakura_grpc.Common.{
  ℕ, pos, Bool, Option, none, some, String, [], map, ltb, Result, ok, err, if◌then◌else◌, ◌-◌, ◌^◌,
  concat,
}
use zakura_grpc.Proto.{
  Bytes, Timestamp, EventType, SubscribeUpdate, Update, BlockUpdate, BestChainUpdate, Change,
  CanonicalBlock, BlockPayload, event_type_into, block_payload_into,
}
use zakura_grpc.Geyser.Event.Source.{
  SystemTime, EventEnvelope, BlockEvent, ChainBlock, BestChainChange, Formats, PluginError,
}

pub record UpdateMetadata : Type 0 where
  pub schema_version : ℕ
  pub session_id : Bytes
  pub observed_at : Timestamp
  pub source_sequence : ℕ

-- Seconds above the largest `i64` are cut off there.
unfoldable pub timestamp : SystemTime → Timestamp
timestamp (SystemTime.since_epoch secs nanos) = record {
  seconds = pos (if ltb secs (2 ^ 63) then secs else 2 ^ 63 - 1);
  nanos = pos nanos;
}
timestamp SystemTime.before_epoch = record { seconds = pos 0; nanos = pos 0 }

-- `UpdateMetadata::new`
unfoldable pub metadata_of : EventEnvelope → UpdateMetadata
metadata_of event = record {
  schema_version = event.schema_version;
  session_id = event.session_id;
  observed_at = timestamp event.observed_at;
  source_sequence = event.sequence;
}

unfoldable pub new_update : UpdateMetadata → EventType → Update → SubscribeUpdate
new_update metadata event_type update = record {
  schema_version = metadata.schema_version;
  session_id = metadata.session_id;
  sequence = 0;
  observed_at = some metadata.observed_at;
  event_type = event_type_into event_type;
  filters = [];
  source_sequence = metadata.source_sequence;
  mempool_revision = none;
  update = some update;
}

-- `map_err(|error| PluginError::new(..))`
abbrev pub map_err {ℓ κ μ} :
    {E : Type ℓ} {F : Type κ} {A : Type μ} → (E → F) → Result E A → Result F A
map_err f (ok a) = ok a
map_err f (err e) = err (f e)

abbrev pub map_ok {ℓ κ μ} :
    {E : Type ℓ} {A : Type κ} {B : Type μ} → (A → B) → Result E A → Result E B
map_ok f (ok a) = ok (f a)
map_ok f (err e) = err e

module _ (formats : Formats) where
  unfoldable pub encode_block : BlockEvent → Bool → Result PluginError BlockUpdate
  encode_block block finalized =
      map_ok
        (λ bytes. record {
          height = block.height;
          hash = formats.show_block_hash block.hash;
          block = bytes;
          receipt_order = block.receipt_order;
          finalized = finalized;
          payload = block_payload_into BlockPayload.full;
        })
        (map_err PluginError.block_not_encoded block.serialized)

  unfoldable pub encode_canonical_block : ChainBlock → CanonicalBlock
  encode_canonical_block block = record {
    height = block.height;
    hash = formats.show_block_hash block.hash;
    previous_block_hash = formats.show_block_hash block.previous_block_hash;
  }

  unfoldable pub encode_best_chain : BestChainChange → BestChainUpdate
  encode_best_chain (BestChainChange.grow height hash previous transaction_ids) = record {
    height = height;
    hash = formats.show_block_hash hash;
    change = some (
        Change.grow (record {
          previous_block_hash = formats.show_block_hash previous;
          transaction_ids = map formats.show_hash transaction_ids;
        }));
  }
  encode_best_chain (BestChainChange.reset height hash disconnected connected complete) = record {
    height = height;
    hash = formats.show_block_hash hash;
    change = some (
        Change.reset (record {
          disconnected_blocks = map encode_canonical_block disconnected;
          connected_blocks = map encode_canonical_block connected;
          diff_complete = complete;
        }));
  }

  unfoldable pub encode_unmined_transaction_id : Bytes → Option Bytes → String
  encode_unmined_transaction_id transaction_id auth_digest = elim auth_digest [
    | none ↦ formats.show_hash transaction_id
    | some digest ↦ concat (formats.show_hash transaction_id) (formats.show_digest digest)
  ]

-- ===== src/Geyser/Event/Transactions.antt =====
-- The updates of the transactions of a block, in event.rs.
use zakura_grpc.Common.{
  ℕ, Bool, true, false, not, ◌&&◌, List, [], ◌∷◌, ◌++◌, is_empty, flat_map, enumerate_from, Result,
  ok, ◌>>=◌, if◌then◌else◌,
}
use zakura_grpc.Proto.{
  EventType, SubscribeUpdate, Update, TransactionUpdate, UtxoUpdate, BlockCommitment,
  TransactionPayload, commitment_into, transaction_payload_into,
}
use zakura_grpc.Geyser.Event.Source.{Transaction, BlockEvent, Formats, PluginError}
use zakura_grpc.Geyser.Event.Previous.{PreviousOutputs}
use zakura_grpc.Geyser.Event.Transparent.{
  EncodedTransparentUpdates, encode_transparent_updates, u32_or,
}
use zakura_grpc.Geyser.Event.Encode.{
  UpdateMetadata, new_update, map_err, encode_unmined_transaction_id,
}
use zakura_grpc.Geyser.Event.Pool.{Options, collect_with, show_option}

module _ (formats : Formats) where
  unfoldable pub transaction_row :
      BlockEvent
      → BlockCommitment
      → ℕ
      → Transaction
      → EncodedTransparentUpdates
      → List ℕ
      → TransactionUpdate
  transaction_row block commitment index t e bytes = record {
    transaction_id = formats.show_hash t.txid;
    unmined_transaction_id = encode_unmined_transaction_id formats t.txid t.auth_digest;
    auth_digest = show_option formats.show_digest t.auth_digest;
    transaction = bytes;
    height = block.height;
    block_hash = formats.show_block_hash block.hash;
    transaction_index = index;
    commitment = commitment_into commitment;
    coinbase = t.is_coinbase;
    transparent_inputs = e.transaction_inputs;
    transparent_outputs = e.transaction_outputs;
    version = t.version;
    lock_time = t.raw_lock_time;
    lock_time_is_time = t.lock_time_is_time;
    expiry_height = t.expiry_height;
    network = formats.show_network block.network;
    transparent_input_value_zat = e.transparent_input_value_zat;
    transparent_output_value_zat = e.transparent_output_value_zat;
    has_transparent = t.has_transparent_inputs_or_outputs;
    has_sapling = t.has_sapling_shielded_data;
    has_orchard = t.has_orchard_shielded_data;
    payload = transaction_payload_into TransactionPayload.full;
  }

  unfoldable pub utxo_row :
      BlockEvent → BlockCommitment → ℕ → Transaction → EncodedTransparentUpdates → UtxoUpdate
  utxo_row block commitment index t e = record {
    height = block.height;
    block_hash = formats.show_block_hash block.hash;
    transaction_id = formats.show_hash t.txid;
    transaction_index = index;
    commitment = commitment_into commitment;
    changes = e.utxo_changes;
    coinbase = t.is_coinbase;
    version = t.version;
    has_transparent = t.has_transparent_inputs_or_outputs;
    has_sapling = t.has_sapling_shielded_data;
    has_orchard = t.has_orchard_shielded_data;
    transparent_input_value_zat = e.transparent_input_value_zat;
    transparent_output_value_zat = e.transparent_output_value_zat;
  }

  -- The transaction update, where it is wanted.
  unfoldable pub push_transaction :
      UpdateMetadata
      → BlockEvent
      → BlockCommitment
      → Bool
      → ℕ
      → Transaction
      → EncodedTransparentUpdates
      → Result PluginError (List SubscribeUpdate)
  push_transaction metadata block commitment false index t e = ok []
  push_transaction metadata block commitment true index t e = do
    bytes ← map_err PluginError.transaction_not_encoded t.serialized
    ok (
        new_update metadata EventType.transaction
          (Update.transaction (transaction_row block commitment index t e bytes))
        ∷ [])

  -- The update of the outputs, where it is wanted and there is a change.
  unfoldable pub push_utxo :
      UpdateMetadata
      → BlockEvent
      → BlockCommitment
      → Bool
      → ℕ
      → Transaction
      → EncodedTransparentUpdates
      → List SubscribeUpdate
  push_utxo metadata block commitment wanted index t e =
      if wanted && not (is_empty e.utxo_changes)
      then new_update metadata EventType.utxo (Update.utxo (utxo_row block commitment index t e))
        ∷ []
      else []

  unfoldable pub encode_transaction_updates :
      UpdateMetadata
      → BlockEvent
      → BlockCommitment
      → Bool
      → Bool
      → ℕ × Transaction
      → Result PluginError (List SubscribeUpdate)
  encode_transaction_updates metadata block commitment transaction_updates utxo_updates (i, t) = do
    index ← u32_or i PluginError.transaction_index_out_of_range
    encoded ←
        encode_transparent_updates formats t (formats.show_hash t.txid) block.network
          (PreviousOutputs.block block.spent_outputs) transaction_updates utxo_updates
    updates ← push_transaction metadata block commitment transaction_updates index t encoded
    ok (updates ++ push_utxo metadata block commitment utxo_updates index t encoded)

  unfoldable pub append_block_updates :
      UpdateMetadata
      → BlockEvent
      → BlockCommitment
      → Options
      → List SubscribeUpdate
      → Result PluginError (List SubscribeUpdate)
  append_block_updates metadata block commitment o updates =
      if not o.transaction_updates && not o.utxo_updates then ok updates else (do
        encoded ←
            collect_with o
              (encode_transaction_updates metadata block commitment o.transaction_updates
                o.utxo_updates)
              (enumerate_from 0 block.transactions)
        ok (updates ++ flat_map (λ rows. rows) encoded))

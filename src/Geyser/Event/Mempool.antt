-- ===== src/Geyser/Event/Mempool.antt =====
-- The updates of the mempool, in event.rs.
use zakura_grpc.Common.{
  ℕ, pos, Bool, true, false, not, ◌||◌, Option, none, some, String, List, ◌++◌, map, is_empty,
  Result, ok, ◌>>=◌, if◌then◌else◌,
}
use zakura_grpc.Proto.{
  Timestamp, EventType, SubscribeUpdate, Update, MempoolTransactionUpdate, MempoolUpdate,
  MempoolAction, TransactionPayload, mempool_action_into, transaction_payload_into,
}
use zakura_grpc.Geyser.Event.Source.{
  MempoolEvent, MempoolEventKind, VerifiedUnminedTx, AdmissionTime, Formats, PluginError,
  UnminedTxId,
}
use zakura_grpc.Geyser.Event.Previous.{PreviousOutputs}
use zakura_grpc.Geyser.Event.Transparent.{EncodedTransparentUpdates, encode_transparent_updates}
use zakura_grpc.Geyser.Event.Encode.{
  UpdateMetadata, new_update, map_err, encode_unmined_transaction_id,
}
use zakura_grpc.Geyser.Event.Pool.{Options, collect_with, show_option}

-- `verified.time.as_ref().map(..)`
abbrev pub admitted : Option AdmissionTime → Option Timestamp
admitted none = none
admitted (some t) = some (record { seconds = t.timestamp; nanos = pos t.subsec_nanos })

abbrev pub is_added : MempoolEventKind → Bool
is_added MempoolEventKind.added = true
is_added _ = false

unfoldable pub action_of_kind : MempoolEventKind → MempoolAction
action_of_kind MempoolEventKind.added = MempoolAction.added
action_of_kind MempoolEventKind.invalidated = MempoolAction.invalidated
action_of_kind MempoolEventKind.mined = MempoolAction.mined

module _ (formats : Formats) where
  unfoldable pub mempool_row :
      MempoolEvent
      → VerifiedUnminedTx
      → EncodedTransparentUpdates
      → List ℕ
      → MempoolTransactionUpdate
  mempool_row change v e bytes =
      let t = v.transaction in
      record {
        transaction_id = formats.show_hash t.txid;
        unmined_transaction_id = encode_unmined_transaction_id formats t.txid t.auth_digest;
        auth_digest = show_option formats.show_digest t.auth_digest;
        transaction = bytes;
        network = formats.show_network change.network;
        transparent_inputs = e.transaction_inputs;
        transparent_outputs = e.transaction_outputs;
        version = t.version;
        lock_time = t.raw_lock_time;
        lock_time_is_time = t.lock_time_is_time;
        expiry_height = t.expiry_height;
        transparent_input_value_zat = e.transparent_input_value_zat;
        transparent_output_value_zat = e.transparent_output_value_zat;
        miner_fee_zat = v.miner_fee;
        admitted_at = admitted v.time;
        admitted_height = v.height;
        conventional_actions = v.conventional_actions;
        unpaid_actions = v.unpaid_actions;
        legacy_sigop_count = v.legacy_sigop_count;
        p2sh_sigop_count = v.p2sh_sigop_count;
        fee_weight_ratio_bits = v.fee_weight_ratio_bits;
        coinbase = t.is_coinbase;
        has_transparent = t.has_transparent_inputs_or_outputs;
        has_sapling = t.has_sapling_shielded_data;
        has_orchard = t.has_orchard_shielded_data;
        payload = transaction_payload_into TransactionPayload.full;
      }

  unfoldable pub encode_mempool_transaction_update :
      UpdateMetadata → MempoolEvent → VerifiedUnminedTx → Result PluginError SubscribeUpdate
  encode_mempool_transaction_update metadata change v = do
    encoded ←
        encode_transparent_updates formats v.transaction (formats.show_hash v.transaction.txid)
          change.network (PreviousOutputs.mempool v.spent_outputs) true false
    bytes ← map_err PluginError.transaction_not_encoded v.transaction.serialized
    ok (
        new_update metadata EventType.mempool_transaction
          (Update.mempool_transaction (mempool_row change v encoded bytes)))

  unfoldable pub append_mempool_transaction_updates :
      UpdateMetadata
      → MempoolEvent
      → Options
      → List SubscribeUpdate
      → Result PluginError (List SubscribeUpdate)
  append_mempool_transaction_updates metadata change o updates =
      if not o.mempool_transaction_updates
        || not (is_added change.kind)
        || is_empty change.transactions
      then ok updates
      else (do
        encoded ←
            collect_with o (encode_mempool_transaction_update metadata change) change.transactions
        ok (updates ++ encoded))

  abbrev pub unmined_id : UnminedTxId → String
  unmined_id id = encode_unmined_transaction_id formats id.mined_id id.auth_digest

  unfoldable pub mempool_summary : MempoolEvent → MempoolUpdate
  mempool_summary change = record {
    action = mempool_action_into (action_of_kind change.kind);
    transaction_ids = map unmined_id change.transaction_ids;
  }

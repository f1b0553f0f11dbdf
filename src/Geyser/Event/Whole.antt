-- ===== src/Geyser/Event/Whole.antt =====
-- `encode_event` of event.rs.
use zakura_grpc.Common.{true, false, List, [], ◌∷◌, Result, ok, ◌>>=◌}
use zakura_grpc.Proto.{EventType, SubscribeUpdate, Update, BlockCommitment}
use zakura_grpc.Geyser.Event.Source.{PluginEvent, EventEnvelope, Formats, PluginError}
use zakura_grpc.Geyser.Event.Encode.{
  UpdateMetadata, metadata_of, new_update, encode_block, encode_best_chain,
}
use zakura_grpc.Geyser.Event.Pool.{Options}
use zakura_grpc.Geyser.Event.Transactions.{append_block_updates}
use zakura_grpc.Geyser.Event.Mempool.{mempool_summary, append_mempool_transaction_updates}

module _ (formats : Formats) where
  -- The first update of an event
  unfoldable pub encode_head : UpdateMetadata → PluginEvent → Result PluginError SubscribeUpdate
  encode_head metadata (PluginEvent.block_accepted block) = do
    encoded ← encode_block formats block false
    ok (new_update metadata EventType.block_accepted (Update.block encoded))
  encode_head metadata (PluginEvent.block_finalized block) = do
    encoded ← encode_block formats block true
    ok (new_update metadata EventType.block_finalized (Update.block encoded))
  encode_head metadata (PluginEvent.best_chain_changed change) = ok (
      new_update metadata EventType.best_chain_changed
        (Update.best_chain (encode_best_chain formats change)))
  encode_head metadata (PluginEvent.mempool_changed change) = ok (
      new_update metadata EventType.mempool_changed
        (Update.mempool (mempool_summary formats change)))

  -- The second `match` of `encode_event`
  unfoldable pub append_updates :
      UpdateMetadata
      → PluginEvent
      → Options
      → List SubscribeUpdate
      → Result PluginError (List SubscribeUpdate)
  append_updates metadata (PluginEvent.block_accepted block) o updates =
      append_block_updates formats metadata block BlockCommitment.accepted o updates
  append_updates metadata (PluginEvent.block_finalized block) o updates =
      append_block_updates formats metadata block BlockCommitment.finalized o updates
  append_updates metadata (PluginEvent.best_chain_changed change) o updates = ok updates
  append_updates metadata (PluginEvent.mempool_changed change) o updates =
      append_mempool_transaction_updates formats metadata change o updates

  unfoldable pub encode_event : EventEnvelope → Options → Result PluginError (List SubscribeUpdate)
  encode_event event o = do
    let metadata = metadata_of event
    head ← encode_head metadata event.payload
    append_updates metadata event.payload o (head ∷ [])

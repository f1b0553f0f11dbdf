-- ===== src/Geyser/Event/Heights.antt =====
-- The updates that `encode_event` of event.rs makes of an event: their heights and what they say
-- of the event.
use zakura_grpc.Common.{
  ℕ, ◌≡◌, refl, ap, ◌∙◌, ◌-◌, ◌^◌, pos, min, arith, All-map, ◌||◌, not, Bool, true, false, Option,
  none, some, List, [], ◌∷◌, is_empty, traverse, All, All-append, ok, >>=-eq-ok, Bool-cases, inl,
  inr, ok-injective, subst, sym, Result-cases,
}
use zakura_grpc.Proto.{Timestamp, SubscribeUpdate, Update, EventType, BlockCommitment, BlockUpdate}
use zakura_grpc.Geyser.Event.{block_height}
use zakura_grpc.Geyser.Event.Source.{
  SystemTime, BlockEvent, BestChainChange, MempoolEvent, VerifiedUnminedTx, PluginEvent,
  EventEnvelope, Formats, PluginError,
}
use zakura_grpc.Geyser.Event.Transparent.{encode_transparent_updates}
use zakura_grpc.Geyser.Event.Previous.{PreviousOutputs}
use zakura_grpc.Geyser.Event.Encode.{
  UpdateMetadata, metadata_of, timestamp, new_update, encode_block, encode_best_chain, map_err,
}
use zakura_grpc.Geyser.Event.Pool.{Options, collect_with}
use zakura_grpc.Geyser.Event.Mempool.{
  encode_mempool_transaction_update, append_mempool_transaction_updates, is_added, mempool_row,
}
use zakura_grpc.Geyser.Event.Whole.{encode_head, append_updates, encode_event}
use zakura_grpc.Geyser.Event.Pooled.{PoolOf, without_pool, encode_event_pooled}
use zakura_grpc.Geyser.Event.Updates.{
  IsUpdateOf, new_update-IsUpdateOf, traverse-All, append_block-IsUpdateOf,
}

-- The height at which an event belongs.
abbrev pub event_height : PluginEvent → Option ℕ
event_height (PluginEvent.block_accepted block) = some block.height
event_height (PluginEvent.block_finalized block) = some block.height
event_height (PluginEvent.best_chain_changed (BestChainChange.grow height hash previous ids)) =
    some height
event_height (PluginEvent.best_chain_changed (BestChainChange.reset height hash off on full)) =
    some height
event_height (PluginEvent.mempool_changed change) = none

-- A time as seconds and nanoseconds after the epoch, with seconds at most the largest `i64`.
abbrev pub time_of : SystemTime → Timestamp
time_of (SystemTime.since_epoch secs nanos) = record {
  seconds = pos (min secs (2 ^ 63 - 1));
  nanos = pos nanos;
}
time_of SystemTime.before_epoch = record { seconds = pos 0; nanos = pos 0 }

-- What an update says of the event, and that it has no number, filter or revision of its own.
pub record TellsOf (e : EventEnvelope) (u : SubscribeUpdate) : Type 0 where
  pub schema_version : u.schema_version ≡ e.schema_version
  pub session_id : u.session_id ≡ e.session_id
  pub observed_at : u.observed_at ≡ some (time_of e.observed_at)
  pub source_sequence : u.source_sequence ≡ e.sequence
  pub unnumbered : u.sequence ≡ 0
  pub unfiltered : u.filters ≡ []
  pub unrevised : u.mempool_revision ≡ none
  pub at_height : block_height u ≡ event_height e.payload

timestamp_lem : (t : SystemTime) → timestamp t ≡ time_of t
unfolding timestamp
timestamp_lem (SystemTime.since_epoch secs nanos) =
    ap (λ n. record { seconds = pos n; nanos = pos nanos }) (ground arith)
timestamp_lem SystemTime.before_epoch = refl

TellsOf-IsUpdateOf :
    (e : EventEnvelope) (u : SubscribeUpdate)
    → IsUpdateOf (metadata_of e) (event_height e.payload) u
    → TellsOf e u
unfolding metadata_of
TellsOf-IsUpdateOf e u k = record {
  schema_version = k.schema_version;
  session_id = k.session_id;
  observed_at = k.observed_at ∙ ap some (timestamp_lem e.observed_at);
  source_sequence = k.source_sequence;
  unnumbered = k.unnumbered;
  unfiltered = k.unfiltered;
  unrevised = k.unrevised;
  at_height = k.at_height;
}

module _ (formats : Formats) where
  encode_mempool-IsUpdateOf :
      (m : UpdateMetadata) (change : MempoolEvent) (v : VerifiedUnminedTx) (u : SubscribeUpdate)
      → encode_mempool_transaction_update formats m change v ≡ ok u
      → IsUpdateOf m none u
  unfolding encode_mempool_transaction_update mempool_row block_height new_update
  encode_mempool-IsUpdateOf m change v u h =
      let (encoded, _, h1) =
        >>=-eq-ok
          (encode_transparent_updates formats v.transaction (formats.show_hash v.transaction.txid)
            change.network (PreviousOutputs.mempool v.spent_outputs) true false)
          _ h in
      let (bytes, _, done) =
        >>=-eq-ok (map_err PluginError.transaction_not_encoded v.transaction.serialized) _ h1 in
      subst (IsUpdateOf m none) (ok-injective done)
        (new_update-IsUpdateOf m EventType.mempool_transaction _ none refl)

  append_mempool-IsUpdateOf :
      (m : UpdateMetadata) (change : MempoolEvent) (o : Options) (us vs : List SubscribeUpdate)
      → All (IsUpdateOf m none) us
      → append_mempool_transaction_updates formats m change (without_pool o) us ≡ ok vs
      → All (IsUpdateOf m none) vs
  unfolding append_mempool_transaction_updates collect_with
  append_mempool-IsUpdateOf m change o us vs before h =
      elim (Bool-cases (
        not o.mempool_transaction_updates
        || not (is_added change.kind)
        || is_empty change.transactions)) [
          | inl e ↦ subst (All (IsUpdateOf m none)) (ok-injective (rw e at h)) before
          | inr e ↦
              let encode = encode_mempool_transaction_update formats m change in
              let (rows, first, done) =
                >>=-eq-ok (traverse encode change.transactions) _ (rw e at h) in
              let each =
                traverse-All (IsUpdateOf m none) encode (encode_mempool-IsUpdateOf m change)
                  change.transactions rows first in
              subst (All (IsUpdateOf m none)) (ok-injective done) (All-append _ us rows before each)
        ]

  encode_block-height :
      (block : BlockEvent) (finalized : Bool) (b : BlockUpdate)
      → encode_block formats block finalized ≡ ok b
      → b.height ≡ block.height
  unfolding encode_block
  encode_block-height block finalized b h = elim (Result-cases block.serialized) [
    | inl (bytes, e) ↦ sym (ap (λ (x : BlockUpdate). x.height) (ok-injective (rw e at h)))
    | inr (bad, e) ↦ absurd (let h' = rw e at h in cc)
  ]

  encode_head-IsUpdateOf :
      (m : UpdateMetadata) (e : PluginEvent) (u : SubscribeUpdate)
      → encode_head formats m e ≡ ok u
      → IsUpdateOf m (event_height e) u
  unfolding encode_head encode_best_chain block_height new_update
  encode_head-IsUpdateOf m (PluginEvent.block_accepted block) u h =
      let (b, first, done) = >>=-eq-ok (encode_block formats block false) _ h in
      subst (IsUpdateOf m (some block.height)) (ok-injective done) (
        new_update-IsUpdateOf m EventType.block_accepted (Update.block b) _
          (ap some (encode_block-height block false b first)))
  encode_head-IsUpdateOf m (PluginEvent.block_finalized block) u h =
      let (b, first, done) = >>=-eq-ok (encode_block formats block true) _ h in
      subst (IsUpdateOf m (some block.height)) (ok-injective done) (
        new_update-IsUpdateOf m EventType.block_finalized (Update.block b) _
          (ap some (encode_block-height block true b first)))
  encode_head-IsUpdateOf m
        (PluginEvent.best_chain_changed (BestChainChange.grow height hash previous ids)) u h =
      subst (IsUpdateOf m (some height)) (ok-injective h)
        (new_update-IsUpdateOf m EventType.best_chain_changed _ _ refl)
  encode_head-IsUpdateOf m
        (PluginEvent.best_chain_changed (BestChainChange.reset height hash off on full)) u h =
      subst (IsUpdateOf m (some height)) (ok-injective h)
        (new_update-IsUpdateOf m EventType.best_chain_changed _ _ refl)
  encode_head-IsUpdateOf m (PluginEvent.mempool_changed change) u h =
      subst (IsUpdateOf m none) (ok-injective h)
        (new_update-IsUpdateOf m EventType.mempool_changed _ none refl)

  append_updates-IsUpdateOf :
      (m : UpdateMetadata) (e : PluginEvent) (o : Options) (us vs : List SubscribeUpdate)
      → All (IsUpdateOf m (event_height e)) us
      → append_updates formats m e (without_pool o) us ≡ ok vs
      → All (IsUpdateOf m (event_height e)) vs
  unfolding append_updates
  append_updates-IsUpdateOf m (PluginEvent.block_accepted block) o us vs before h =
      append_block-IsUpdateOf formats m block BlockCommitment.accepted o us vs before h
  append_updates-IsUpdateOf m (PluginEvent.block_finalized block) o us vs before h =
      append_block-IsUpdateOf formats m block BlockCommitment.finalized o us vs before h
  append_updates-IsUpdateOf m (PluginEvent.best_chain_changed change) o us vs before h =
      subst (All (IsUpdateOf m (event_height (PluginEvent.best_chain_changed change))))
        (ok-injective h) before
  append_updates-IsUpdateOf m (PluginEvent.mempool_changed change) o us vs before h =
      append_mempool-IsUpdateOf m change o us vs before h

  sequential-IsUpdateOf :
      (e : EventEnvelope) (o : Options) (us : List SubscribeUpdate)
      → encode_event formats e (without_pool o) ≡ ok us
      → All (IsUpdateOf (metadata_of e) (event_height e.payload)) us
  unfolding encode_event
  sequential-IsUpdateOf e o us h =
      let m = metadata_of e in
      let (head, first, rest) = >>=-eq-ok (encode_head formats m e.payload) _ h in
      append_updates-IsUpdateOf m e.payload o (head ∷ []) us
        (encode_head-IsUpdateOf m e.payload head first, tt) rest

  -- Every update that an event is encoded to carries the version, session and number of the event
  -- and its time, with seconds cut at the largest `i64` and a time before the epoch as the epoch,
  -- is at the height of the event, or at none for a change of the mempool, and has no number,
  -- filter or revision of its own, with a thread pool that keeps the order or without one.
  pub encode_event-TellsOf :
      (e : EventEnvelope) (o : Options) (us : List SubscribeUpdate)
      → PoolOf o
      → encode_event formats e o ≡ ok us
      → All (TellsOf e) us
  encode_event-TellsOf e o us p h =
      All-map (IsUpdateOf (metadata_of e) (event_height e.payload)) (TellsOf e)
        (TellsOf-IsUpdateOf e) us
        (sequential-IsUpdateOf e o us ((encode_event_pooled formats e o us p).0 h))

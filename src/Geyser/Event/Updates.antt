-- ===== src/Geyser/Event/Updates.antt =====
-- What every update that event.rs makes says of its event, for the updates of a block.
use zakura_grpc.Common.{
  ℕ, ◌≡◌, refl, ◌&&◌, not, Bool, true, false, Option, none, some, List, [], ◌∷◌, flat_map,
  enumerate_from, is_empty, traverse, All, All-append, Result, ok, >>=-eq-ok, Bool-cases, inl, inr,
  ok-injective, subst,
}
use zakura_grpc.Proto.{SubscribeUpdate, Update, EventType, BlockCommitment}
use zakura_grpc.Geyser.Event.{block_height}
use zakura_grpc.Geyser.Event.Source.{Transaction, BlockEvent, Formats, PluginError}
use zakura_grpc.Geyser.Event.Transparent.{
  EncodedTransparentUpdates, encode_transparent_updates, u32_or,
}
use zakura_grpc.Geyser.Event.Previous.{PreviousOutputs}
use zakura_grpc.Geyser.Event.Encode.{UpdateMetadata, new_update, map_err}
use zakura_grpc.Geyser.Event.Pool.{Options, collect_with}
use zakura_grpc.Geyser.Event.Transactions.{
  push_transaction, push_utxo, encode_transaction_updates, append_block_updates, transaction_row,
  utxo_row,
}
use zakura_grpc.Geyser.Event.Pooled.{without_pool}

-- The update tells of the event, at its height, and has no number, filter or revision.
pub record IsUpdateOf (m : UpdateMetadata) (height : Option ℕ) (u : SubscribeUpdate) : Type 0 where
  pub schema_version : u.schema_version ≡ m.schema_version
  pub session_id : u.session_id ≡ m.session_id
  pub observed_at : u.observed_at ≡ some m.observed_at
  pub source_sequence : u.source_sequence ≡ m.source_sequence
  pub unnumbered : u.sequence ≡ 0
  pub unfiltered : u.filters ≡ []
  pub unrevised : u.mempool_revision ≡ none
  pub at_height : block_height u ≡ height

pub new_update-IsUpdateOf :
    (m : UpdateMetadata) (t : EventType) (x : Update) (height : Option ℕ)
    → block_height (new_update m t x) ≡ height
    → IsUpdateOf m height (new_update m t x)
unfolding new_update
new_update-IsUpdateOf m t x height h = record {
  schema_version = refl;
  session_id = refl;
  observed_at = refl;
  source_sequence = refl;
  unnumbered = refl;
  unfiltered = refl;
  unrevised = refl;
  at_height = h;
}

pub traverse-All :
    {A : Type 0} {B : Type 0} (P : B → Type 0) (f : A → Result PluginError B)
    → ((x : A) (y : B) → f x ≡ ok y → P y)
    → (xs : List A) (ys : List B) → traverse f xs ≡ ok ys
    → All P ys
unfolding traverse
traverse-All P f each [] ys h = subst (All P) (ok-injective h) tt
traverse-All P f each (x ∷ xs) ys h =
    let (y, first, rest) = >>=-eq-ok (f x) _ h in
    let (others, more, done) = >>=-eq-ok (traverse f xs) _ rest in
    subst (All P) (ok-injective done) (each x y first, traverse-All P f each xs others more)

All-flatten :
    {B : Type 0} (P : B → Type 0) (rows : List (List B))
    → All (All P) rows
    → All P (flat_map (λ row. row) rows)
unfolding flat_map
All-flatten P [] h = tt
All-flatten P (row ∷ rows) h =
    All-append P row (flat_map (λ r. r) rows) (h.0) (All-flatten P rows (h.1))

module _ (formats : Formats) where
  push_transaction-IsUpdateOf :
      (m : UpdateMetadata) (block : BlockEvent) (c : BlockCommitment) (wanted : Bool) (i : ℕ)
      (t : Transaction) (e : EncodedTransparentUpdates) (us : List SubscribeUpdate)
      → push_transaction formats m block c wanted i t e ≡ ok us
      → All (IsUpdateOf m (some block.height)) us
  unfolding push_transaction transaction_row block_height new_update
  push_transaction-IsUpdateOf m block c false i t e us h =
      subst (All (IsUpdateOf m (some block.height))) (ok-injective h) tt
  push_transaction-IsUpdateOf m block c true i t e us h =
      let (bytes, first, done) =
        >>=-eq-ok (map_err PluginError.transaction_not_encoded t.serialized) _ h in
      subst (All (IsUpdateOf m (some block.height))) (ok-injective done)
        (new_update-IsUpdateOf m EventType.transaction _ _ refl, tt)

  push_utxo-IsUpdateOf :
      (m : UpdateMetadata) (block : BlockEvent) (c : BlockCommitment) (wanted : Bool) (i : ℕ)
      (t : Transaction) (e : EncodedTransparentUpdates)
      → All (IsUpdateOf m (some block.height)) (push_utxo formats m block c wanted i t e)
  unfolding push_utxo utxo_row block_height new_update
  push_utxo-IsUpdateOf m block c wanted i t e =
      elim (Bool-cases (wanted && not (is_empty e.utxo_changes))) [
        | inl yes_wanted ↦ rw yes_wanted (new_update-IsUpdateOf m EventType.utxo _ _ refl, tt)
        | inr unwanted ↦ rw unwanted tt
      ]

  encode_transaction-IsUpdateOf :
      (m : UpdateMetadata) (block : BlockEvent) (c : BlockCommitment) (tu uu : Bool)
      (x : ℕ × Transaction) (us : List SubscribeUpdate)
      → encode_transaction_updates formats m block c tu uu x ≡ ok us
      → All (IsUpdateOf m (some block.height)) us
  unfolding encode_transaction_updates
  encode_transaction-IsUpdateOf m block c tu uu (i, t) us h =
      let (index, _, h1) = >>=-eq-ok (u32_or i PluginError.transaction_index_out_of_range) _ h in
      let (encoded, _, h2) =
        >>=-eq-ok
          (encode_transparent_updates formats t (formats.show_hash t.txid) block.network
            (PreviousOutputs.block block.spent_outputs) tu uu)
          _ h1 in
      let (rows, pushed, done) =
        >>=-eq-ok (push_transaction formats m block c tu index t encoded) _ h2 in
      subst (All (IsUpdateOf m (some block.height))) (ok-injective done) (
        All-append _ rows _ (push_transaction-IsUpdateOf m block c tu index t encoded rows pushed)
          (push_utxo-IsUpdateOf m block c uu index t encoded))

  pub append_block-IsUpdateOf :
      (m : UpdateMetadata) (block : BlockEvent) (c : BlockCommitment) (o : Options)
      (us vs : List SubscribeUpdate)
      → All (IsUpdateOf m (some block.height)) us
      → append_block_updates formats m block c (without_pool o) us ≡ ok vs
      → All (IsUpdateOf m (some block.height)) vs
  unfolding append_block_updates collect_with
  append_block-IsUpdateOf m block c o us vs before h =
      elim (Bool-cases (not o.transaction_updates && not o.utxo_updates)) [
        | inl e ↦ subst (All (IsUpdateOf m (some block.height))) (ok-injective (rw e at h)) before
        | inr e ↦
            let encode =
              encode_transaction_updates formats m block c o.transaction_updates o.utxo_updates in
            let items = enumerate_from 0 block.transactions in
            let (rows, first, done) = >>=-eq-ok (traverse encode items) _ (rw e at h) in
            let each =
              traverse-All (All (IsUpdateOf m (some block.height))) encode
                (encode_transaction-IsUpdateOf m block c o.transaction_updates o.utxo_updates) items
                rows first in
            subst (All (IsUpdateOf m (some block.height))) (ok-injective done)
              (All-append _ us _ before (All-flatten (IsUpdateOf m (some block.height)) rows each))
      ]

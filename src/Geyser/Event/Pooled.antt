-- ===== src/Geyser/Event/Pooled.antt =====
-- The thread pool of event.rs makes no difference.
use zakura_grpc.Common.{
  ◌≡◌, ◌↔◌, ◌&&◌, ◌||◌, not, none, some, List, [], ◌∷◌, ◌++◌, flat_map, enumerate_from, leb, length,
  is_empty, traverse, Result, ok, ◌>>=◌, >>=-eq-ok, Bool-cases, Option-cases, inl, inr,
}
use zakura_grpc.Proto.{SubscribeUpdate, BlockCommitment}
use zakura_grpc.Geyser.Event.Source.{
  BlockEvent, MempoolEvent, PluginEvent, EventEnvelope, Formats, PluginError,
}
use zakura_grpc.Geyser.Event.Encode.{UpdateMetadata, metadata_of}
use zakura_grpc.Geyser.Event.Pool.{ThreadPool, Options, collect_with}
use zakura_grpc.Geyser.Event.Transactions.{encode_transaction_updates, append_block_updates}
use zakura_grpc.Geyser.Event.Mempool.{
  encode_mempool_transaction_update, append_mempool_transaction_updates, is_added,
}
use zakura_grpc.Geyser.Event.Whole.{encode_head, append_updates, encode_event}

-- What Rayon documents of `collect` into a `Result` over an indexed iterator: it succeeds exactly
-- if every call does, with the values in the order of the items. Which error it gives is open.
pub record IsOrdered (pool : ThreadPool) : Type 1 where
  pub ordered :
      {A : Type 0} {B : Type 0} (f : A → Result PluginError B) (xs : List A) (ys : List B)
      → (pool.collect f xs ≡ ok ys) ↔ (traverse f xs ≡ ok ys)

abbrev pub PoolOf : Options → Type 1
PoolOf o = (pool : ThreadPool) → o.encoding_pool ≡ some pool → IsOrdered pool

abbrev pub without_pool : Options → Options
without_pool o = record o { encoding_pool = none }

bind_iff :
    {A : Type 0} {B : Type 0} (m n : Result PluginError A) (k : A → Result PluginError B) (b : B)
    → ((a : A) → (m ≡ ok a) ↔ (n ≡ ok a))
    → ((m >>= k) ≡ ok b) ↔ ((n >>= k) ≡ ok b)
bind_iff m n k b same = (
  λ h. let (a, first, rest) = >>=-eq-ok m k h in rw ((same a).0 first) rest,
  λ h. let (a, first, rest) = >>=-eq-ok n k h in rw ((same a).1 first) rest,
)

collect_with_iff :
    {A : Type 0} {B : Type 0} (o : Options) (f : A → Result PluginError B) (xs : List A)
    (ys : List B)
    → PoolOf o
    → (collect_with o f xs ≡ ok ys) ↔ (collect_with (without_pool o) f xs ≡ ok ys)
unfolding collect_with
collect_with_iff o f xs ys p = elim (Option-cases o.encoding_pool) [
  | inl e ↦ rw e (λ h. h, λ h. h)
  | inr (pool, e) ↦ elim (Bool-cases (leb o.parallel_encoding_min_transactions (length xs))) [
    | inl large ↦ rw (e, large) ((p pool e).ordered f xs ys)
    | inr small ↦ rw (e, small) (λ h. h, λ h. h)
  ]
]

collect_bind_iff :
    {A : Type 0} {B : Type 0} {C : Type 0} (o : Options) (f : A → Result PluginError B)
    (xs : List A) (k : List B → Result PluginError C) (c : C)
    → PoolOf o
    → ((collect_with o f xs >>= k) ≡ ok c) ↔ ((collect_with (without_pool o) f xs >>= k) ≡ ok c)
collect_bind_iff o f xs k c p =
    bind_iff (collect_with o f xs) (collect_with (without_pool o) f xs) k c
      (λ ys. collect_with_iff o f xs ys p)

module _ (formats : Formats) where
  append_block_updates_iff :
      (m : UpdateMetadata) (block : BlockEvent) (c : BlockCommitment) (o : Options)
      (us vs : List SubscribeUpdate)
      → PoolOf o
      → (append_block_updates formats m block c o us ≡ ok vs)
        ↔ (append_block_updates formats m block c (without_pool o) us ≡ ok vs)
  unfolding append_block_updates
  append_block_updates_iff m block c o us vs p =
      elim (Bool-cases (not o.transaction_updates && not o.utxo_updates)) [
        | inl e ↦ rw e (λ h. h, λ h. h)
        | inr e ↦ rw e (
            collect_bind_iff o
              (encode_transaction_updates formats m block c o.transaction_updates o.utxo_updates)
              (enumerate_from 0 block.transactions)
              (λ encoded. ok (us ++ flat_map (λ rows. rows) encoded)) vs p)
      ]

  append_mempool_iff :
      (m : UpdateMetadata) (change : MempoolEvent) (o : Options) (us vs : List SubscribeUpdate)
      → PoolOf o
      → (append_mempool_transaction_updates formats m change o us ≡ ok vs)
        ↔ (append_mempool_transaction_updates formats m change (without_pool o) us ≡ ok vs)
  unfolding append_mempool_transaction_updates
  append_mempool_iff m change o us vs p =
      elim (Bool-cases (
        not o.mempool_transaction_updates
        || not (is_added change.kind)
        || is_empty change.transactions)) [
          | inl e ↦ rw e (λ h. h, λ h. h)
          | inr e ↦ rw e (
              collect_bind_iff o (encode_mempool_transaction_update formats m change)
                change.transactions (λ encoded. ok (us ++ encoded)) vs p)
        ]

  append_updates_iff :
      (m : UpdateMetadata) (e : PluginEvent) (o : Options) (us vs : List SubscribeUpdate)
      → PoolOf o
      → (append_updates formats m e o us ≡ ok vs)
        ↔ (append_updates formats m e (without_pool o) us ≡ ok vs)
  unfolding append_updates
  append_updates_iff m (PluginEvent.block_accepted block) o us vs p =
      append_block_updates_iff m block BlockCommitment.accepted o us vs p
  append_updates_iff m (PluginEvent.block_finalized block) o us vs p =
      append_block_updates_iff m block BlockCommitment.finalized o us vs p
  append_updates_iff m (PluginEvent.best_chain_changed change) o us vs p = (λ h. h, λ h. h)
  append_updates_iff m (PluginEvent.mempool_changed change) o us vs p =
      append_mempool_iff m change o us vs p

  -- An event is encoded to given updates with a thread pool that keeps the order exactly if it is
  -- encoded to them without a pool.
  pub encode_event_pooled :
      (e : EventEnvelope) (o : Options) (us : List SubscribeUpdate)
      → PoolOf o
      → (encode_event formats e o ≡ ok us) ↔ (encode_event formats e (without_pool o) ≡ ok us)
  unfolding encode_event
  encode_event_pooled e o us p = (
    λ h.
        let (head, first, rest) = >>=-eq-ok (encode_head formats (metadata_of e) e.payload) _ h in
        rw first ((append_updates_iff (metadata_of e) e.payload o (head ∷ []) us p).0 rest),
    λ h.
        let (head, first, rest) = >>=-eq-ok (encode_head formats (metadata_of e) e.payload) _ h in
        rw first ((append_updates_iff (metadata_of e) e.payload o (head ∷ []) us p).1 rest),
  )

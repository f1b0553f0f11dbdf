-- ===== src/Geyser/Server/Slots.antt =====
-- The fields of `PayloadProjectionCache` of server.rs and the modes that share one.
use zakura_grpc.Common.{
  ◌≡◌, refl, sym, ap, ◌∙◌, Option, none, some, if◌then◌else◌, inl, inr, ◌⊎◌, ◌≢◌,
}
use zakura_grpc.Proto.{BlockPayload, TransactionPayload, Update}
use zakura_grpc.Geyser.Filter.Compile.{normal_block_payload, normal_transaction_payload}
use zakura_grpc.Geyser.Server.Projection.{
  project_block, project_transaction, project_mempool_transaction, project_update, PreparedPayload,
  PayloadProjectionCache, Slot, slot_of, get_slot, set_slot, transaction_slot, is_meta_only,
  empty_cache,
}

meta_only_lem :
    (bp : BlockPayload) (s : Slot)
    → (if is_meta_only bp then some Slot.block_meta else none) ≡ some s
    → bp ≡ BlockPayload.meta_only
meta_only_lem BlockPayload.meta_only s h = refl
meta_only_lem _ s h = cc

transaction_slot-injective :
    (tp tp' : TransactionPayload) (s : Slot)
    → transaction_slot tp ≡ some s
    → transaction_slot tp' ≡ some s
    → tp ≡ tp'
transaction_slot-injective TransactionPayload.meta_only TransactionPayload.meta_only s h k = refl
transaction_slot-injective TransactionPayload.raw_only TransactionPayload.raw_only s h k = refl
transaction_slot-injective TransactionPayload.transparent_only TransactionPayload.transparent_only s
      h k =
    refl
transaction_slot-injective _ _ s h k = cc

-- Two modes that share a field of the cache make the same projection.
pub same_slot :
    (u : Option Update) (bp bp' : BlockPayload) (tp tp' : TransactionPayload) (s : Slot)
    → slot_of u bp tp ≡ some s
    → slot_of u bp' tp' ≡ some s
    → project_update bp tp u ≡ project_update bp' tp' u
unfolding slot_of project_update
same_slot (some (Update.block b)) bp bp' tp tp' s h k =
    ap (λ p. some (Update.block (project_block p b)))
      (meta_only_lem bp s h ∙ sym (meta_only_lem bp' s k))
same_slot (some (Update.transaction t)) bp bp' tp tp' s h k =
    ap (λ p. some (Update.transaction (project_transaction p t)))
      (transaction_slot-injective tp tp' s h k)
same_slot (some (Update.mempool_transaction t)) bp bp' tp tp' s h k =
    ap (λ p. some (Update.mempool_transaction (project_mempool_transaction p t)))
      (transaction_slot-injective tp tp' s h k)
same_slot _ bp bp' tp tp' s h k = cc

pub normal_modes :
    (u : Option Update) (bp : BlockPayload) (tp : TransactionPayload) (s : Slot)
    → slot_of u bp tp ≡ some s
    → project_update (normal_block_payload bp) (normal_transaction_payload tp) u
      ≡ project_update bp tp u
unfolding slot_of project_update normal_block_payload normal_transaction_payload
normal_modes (some (Update.block b)) bp tp s h = rw (meta_only_lem bp s h) refl
normal_modes (some (Update.transaction t)) bp TransactionPayload.unspecified s h = cc
normal_modes (some (Update.mempool_transaction t)) bp TransactionPayload.unspecified s h = cc
normal_modes _ bp tp s h = refl

-- A projection of the full representation is the projection of the original.
pub project_full :
    (u : Option Update) (bp : BlockPayload) (tp : TransactionPayload)
    → project_update bp tp (project_update BlockPayload.full TransactionPayload.full u)
      ≡ project_update bp tp u
unfolding project_update project_block project_transaction project_mempool_transaction
project_full (some (Update.block b)) bp tp = refl
project_full (some (Update.transaction t)) bp TransactionPayload.unspecified = refl
project_full (some (Update.transaction t)) bp _ = refl
project_full (some (Update.mempool_transaction t)) bp TransactionPayload.unspecified = refl
project_full (some (Update.mempool_transaction t)) bp _ = refl
project_full _ bp tp = refl

-- Where the cache is not used the full representation is what was asked for.
pub no_slot :
    (u : Option Update) (bp : BlockPayload) (tp : TransactionPayload)
    → slot_of u bp tp ≡ none
    → project_update (normal_block_payload bp) (normal_transaction_payload tp) u
      ≡ project_update BlockPayload.full TransactionPayload.full u
unfolding slot_of project_update normal_block_payload normal_transaction_payload
no_slot (some (Update.block b)) BlockPayload.meta_only tp h = cc
no_slot (some (Update.block b)) _ tp h = refl
no_slot (some (Update.transaction t)) bp TransactionPayload.unspecified h = refl
no_slot (some (Update.transaction t)) bp TransactionPayload.full h = refl
no_slot (some (Update.transaction t)) bp _ h = cc
no_slot (some (Update.mempool_transaction t)) bp TransactionPayload.unspecified h = refl
no_slot (some (Update.mempool_transaction t)) bp TransactionPayload.full h = refl
no_slot (some (Update.mempool_transaction t)) bp _ h = cc
no_slot _ bp tp h = refl

pub get-set_slot :
    (s q : Slot) (made found : PreparedPayload) (c : PayloadProjectionCache)
    → get_slot q (set_slot s made c) ≡ some found
    → (q ≡ s) × (made ≡ found) ⊎ (get_slot q c ≡ some found)
get-set_slot Slot.block_meta Slot.block_meta made found c h = inl (refl, cc)
get-set_slot Slot.transaction_meta Slot.transaction_meta made found c h = inl (refl, cc)
get-set_slot Slot.transaction_raw Slot.transaction_raw made found c h = inl (refl, cc)
get-set_slot Slot.transaction_transparent Slot.transaction_transparent made found c h =
    inl (refl, cc)
get-set_slot Slot.block_meta _ made found c h = inr h
get-set_slot Slot.transaction_meta _ made found c h = inr h
get-set_slot Slot.transaction_raw _ made found c h = inr h
get-set_slot Slot.transaction_transparent _ made found c h = inr h

pub get-empty_cache : (s : Slot) (found : PreparedPayload) → get_slot s empty_cache ≢ some found
get-empty_cache Slot.block_meta found h = cc
get-empty_cache Slot.transaction_meta found h = cc
get-empty_cache Slot.transaction_raw found h = cc
get-empty_cache Slot.transaction_transparent found h = cc

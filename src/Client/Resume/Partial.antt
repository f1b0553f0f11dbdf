-- ===== src/Client/Resume/Partial.antt =====
-- What `observe` of reconnect.rs keeps true of the partial blocks.
use zakura_grpc.Common.{
  ℕ, ◌≡◌, refl, Bool, true, false, Option, none, some, String, List, [], ◌∷◌, filter, map_remove,
  string_eq, nat_eq, pair_eq, nat_ord, text_ord, pair_ord, ltb, is_none_or, All, Ascending,
  All-tree_insert, All-map_remove, tree_insert-Ascending, map_remove-Ascending, filter-Ascending,
  Bool-cases, inl, inr,
}
use zakura_grpc.Proto.{CanonicalBlock, BestChainUpdate, Change, Update, SubscribeUpdate}
use zakura_grpc.Client.Resume.{
  Key, Partial, ChainResumeState, empty_chain, block_key, put_block, remove_blocks, insert_partial,
  insert_partials, observe_block, observe_change, observe_update, observe, is_finalized,
}

-- An entry stands under the key of its block, above the finalized block.
abbrev pub Fits : Option Key → Key × CanonicalBlock → Type 0
Fits finalized e = (block_key e.1 ≡ e.0) × (is_none_or finalized (λ f. ltb f.0 e.0.0) ≡ true)

pub record IsChain (s : ChainResumeState) : Type 0 where
  pub ascending : Ascending s.partial
  pub fits : All (Fits s.finalized) s.partial

pub IsChain-empty_chain : IsChain empty_chain
IsChain-empty_chain = record { ascending = tt; fits = tt }

insert_partial-IsChain :
    (b : CanonicalBlock) (s : ChainResumeState) → IsChain s → IsChain (insert_partial b s)
unfolding insert_partial put_block
insert_partial-IsChain b s v = elim (Bool-cases (is_none_or s.finalized (λ f. ltb f.0 b.height))) [
  | inl e ↦
      rw (e, insert_partial)
        (record {
          ascending = tree_insert-Ascending (block_key b) b s.partial v.ascending;
          fits = All-tree_insert (Fits s.finalized) (block_key b) b s.partial (refl, e) v.fits;
        })
  | inr e ↦ rw (e, insert_partial) v
]

insert_partials-IsChain :
    (bs : List CanonicalBlock) (s : ChainResumeState) → IsChain s → IsChain (insert_partials bs s)
unfolding insert_partials
insert_partials-IsChain [] s v = v
insert_partials-IsChain (b ∷ bs) s v =
    insert_partials-IsChain bs (insert_partial b s) (insert_partial-IsChain b s v)

remove_blocks-Ascending :
    (bs : List CanonicalBlock) (m : Partial) → Ascending m → Ascending (remove_blocks bs m)
unfolding remove_blocks
remove_blocks-Ascending [] m a = a
remove_blocks-Ascending (b ∷ bs) m a =
    remove_blocks-Ascending bs (map_remove (block_key b) m) (map_remove-Ascending (block_key b) m a)

All-remove_blocks {ℓ} :
    (P : Key × CanonicalBlock → Type ℓ) (bs : List CanonicalBlock) (m : Partial)
    → All P m
    → All P (remove_blocks bs m)
unfolding remove_blocks
All-remove_blocks P [] m a = a
All-remove_blocks P (b ∷ bs) m a =
    All-remove_blocks P bs (map_remove (block_key b) m) (All-map_remove P (block_key b) m a)

removed-IsChain :
    (bs : List CanonicalBlock) (s : ChainResumeState)
    → IsChain s
    → IsChain (record s { partial = remove_blocks bs s.partial })
removed-IsChain bs s v = record {
  ascending = remove_blocks-Ascending bs s.partial v.ascending;
  fits = All-remove_blocks (Fits s.finalized) bs s.partial v.fits;
}

-- `retain` keeps what lies above the new finalized block.
All-above :
    (h : ℕ) (hash : String) (finalized : Option Key) (m : Partial)
    → All (Fits finalized) m
    → All (Fits (some (h, hash))) (filter (λ e. ltb h e.0.0) m)
unfolding filter
All-above h hash finalized [] a = tt
All-above h hash finalized (e ∷ m) a = elim (Bool-cases (ltb h e.0.0)) [
  | inl t ↦ rw t ((a.0.0, t), All-above h hash finalized m a.1)
  | inr f ↦ rw f (All-above h hash finalized m a.1)
]

observe_block-IsChain :
    (h : ℕ) (hash : String) (finalized : Bool) (s : ChainResumeState)
    → IsChain s
    → IsChain (observe_block h hash finalized s)
unfolding observe_block
observe_block-IsChain h hash true s v = record {
  ascending = filter-Ascending (λ e. ltb h e.0.0) s.partial v.ascending;
  fits = All-above h hash s.finalized s.partial v.fits;
}
observe_block-IsChain h hash false s v = insert_partial-IsChain _ s v

observe_change-IsChain :
    (change : Option Change) (c : BestChainUpdate) (s : ChainResumeState)
    → c.change ≡ change
    → IsChain s
    → IsChain (observe_change c s)
unfolding observe_change
observe_change-IsChain none c s e v = rw (e, observe_change) v
observe_change-IsChain (some (Change.grow g)) c s e v =
    rw (e, observe_change) (insert_partial-IsChain _ s v)
observe_change-IsChain (some (Change.reset r)) c s e v =
    rw (e, observe_change)
      (insert_partials-IsChain r.connected_blocks _ (removed-IsChain r.disconnected_blocks s v))

observe_update-IsChain :
    (u : Option Update) (s : ChainResumeState) → IsChain s → IsChain (observe_update u s)
unfolding observe_update
observe_update-IsChain (some (Update.block b)) s v =
    observe_block-IsChain b.height b.hash b.finalized s v
observe_update-IsChain (some (Update.best_chain c)) s v = observe_change-IsChain c.change c s refl v
observe_update-IsChain (some (Update.transaction t)) s v =
    observe_block-IsChain t.height t.block_hash (is_finalized t.commitment) s v
observe_update-IsChain (some (Update.utxo x)) s v =
    observe_block-IsChain x.height x.block_hash (is_finalized x.commitment) s v
observe_update-IsChain (some (Update.reconnect r)) s v = removed-IsChain r.discarded_blocks s v
observe_update-IsChain _ s v = v

-- Whatever update arrives, growth, reset, finalization or reconnect, the partial blocks stay in
-- strictly rising order of height and hash, each under its own key, and all above the finalized
-- block.
pub observe-IsChain :
    (u : SubscribeUpdate) (s : ChainResumeState) → IsChain s → IsChain (observe u s)
observe-IsChain u s v = observe_update-IsChain u.update s v

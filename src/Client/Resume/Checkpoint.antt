-- ===== src/Client/Resume/Checkpoint.antt =====
-- `checkpoint` and `from_request` of reconnect.rs, and the checks of `replay_height` of server.rs
-- on a checkpoint.
use zakura_grpc.Common.{
  ℕ, ◌≡◌, refl, sym, ap, ◌∙◌, false, not, Option, some, List, [], ◌∷◌, ◌++◌, reverse, values,
  tree_insert, string_eq, nat_eq, pair_eq, nat_ord, text_ord, pair_ord, ◌==◌, leb, eqb, is_some_and,
  All, Above, Ascending, tree_insert-below, subst, any, any-append, arith, ok,
}
use zakura_grpc.Proto.{CanonicalBlock, SubscribeRequest}
use zakura_grpc.Client.Resume.{
  Key, Partial, ChainResumeState, block_key, put_block, put_blocks, from_request, checkpoint,
}
use zakura_grpc.Client.Resume.Partial.{Fits, IsChain}
use zakura_grpc.Geyser.Server.Subscribe.{replay_height}

put_blocks-append :
    (xs ys : List CanonicalBlock) (m : Partial)
    → put_blocks (xs ++ ys) m ≡ put_blocks ys (put_blocks xs m)
unfolding put_blocks
put_blocks-append [] ys m = refl
put_blocks-append (x ∷ xs) ys m = put_blocks-append xs ys (put_block x m)

-- A block below all others comes first.
put_below :
    (k : Key) (b : CanonicalBlock) (m : Partial)
    → block_key b ≡ k
    → All (Above k) m
    → put_block b m ≡ (k, b) ∷ m
unfolding put_block
put_below k b m e a = ap (λ q. tree_insert q b m) e ∙ tree_insert-below k b m a

put_reversed :
    (finalized : Option Key) (m : Partial)
    → Ascending m
    → All (Fits finalized) m
    → put_blocks (reverse (values m)) [] ≡ m
unfolding reverse put_blocks
put_reversed finalized [] a f = refl
put_reversed finalized ((k, b) ∷ m) a f =
    put_blocks-append (reverse (values m)) (b ∷ []) []
    ∙ ap (put_block b) (put_reversed finalized m a.1 f.1)
    ∙ put_below k b m f.0.0 a.0

round_trip :
    (f : Key) (m : Partial) (r : SubscribeRequest)
    → Ascending m
    → All (Fits (some f)) m
    → from_request (record r { resume = checkpoint (record { finalized = some f; partial = m }) })
      ≡ record { finalized = some f; partial = m }
unfolding from_request checkpoint
round_trip f m r a fits =
    ap (λ p. record { finalized = some f; partial = p }) (put_reversed (some f) m a fits)

-- A client that starts from the checkpoint of another one has the same chain state: nothing of it
-- is lost on the way through a `SubscribeRequest`.
pub checkpoint_round_trip :
    (s : ChainResumeState) (f : Key) (r : SubscribeRequest)
    → IsChain s
    → s.finalized ≡ some f
    → from_request (record r { resume = checkpoint s }) ≡ s
checkpoint_round_trip s f r v e =
    let same : s ≡ record { finalized = some f; partial = s.partial } =
      λ i. record { finalized = e i; partial = s.partial } in
    subst (λ x. from_request (record r { resume = checkpoint x }) ≡ x) (sym same)
      (round_trip f s.partial r v.ascending (subst (λ o. All (Fits o) s.partial) e v.fits))

none-at_most :
    (f : Key) (m : Partial)
    → All (Fits (some f)) m
    → any (λ b. leb b.height (f.0)) (reverse (values m)) ≡ false
unfolding any reverse
none-at_most f [] a = refl
none-at_most f ((k, b) ∷ m) a =
    let height : b.height ≡ k.0 = ap (λ (q : Key). q.0) (a.0.0) in
    any-append (λ c. leb c.height (f.0)) (reverse (values m)) (b ∷ [])
    ∙ ground (arith, none-at_most f m (a.1), a.0.1, height)

-- The checks of the server, whether or not a height is sent with the checkpoint.
pub accepted :
    (f : Key) (m : Partial) (from : Option ℕ) (r : SubscribeRequest)
    → All (Fits (some f)) m
    → (f.1 == "") ≡ false
    → is_some_and from (λ h. not (eqb h (f.0))) ≡ false
    → replay_height (record r {
      resume = checkpoint (record { finalized = some f; partial = m });
      from_height = from;
    })
      ≡ ok (some (f.0))
unfolding replay_height checkpoint
accepted f m from r a hash same = rw (none-at_most f m a, hash, same) refl

-- The checkpoint of a client passes the checks of `replay_height`, with a hash that is not empty.
pub checkpoint_accepted :
    (s : ChainResumeState) (f : Key) (r : SubscribeRequest)
    → IsChain s
    → s.finalized ≡ some f
    → (f.1 == "") ≡ false
    → replay_height (record r { resume = checkpoint s; from_height = some (f.0) }) ≡ ok (some (f.0))
checkpoint_accepted s f r v e hash =
    let same : s ≡ record { finalized = some f; partial = s.partial } =
      λ i. record { finalized = e i; partial = s.partial } in
    subst
      (λ x.
        replay_height (record r { resume = checkpoint x; from_height = some (f.0) })
        ≡ ok (some (f.0)))
      (sym same)
      (accepted f s.partial (some (f.0)) r (subst (λ o. All (Fits o) s.partial) e v.fits) hash
        (ground arith))

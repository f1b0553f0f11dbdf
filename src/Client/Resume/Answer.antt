-- ===== src/Client/Resume/Answer.antt =====
-- What `subscribe` of server.rs answers to the checkpoint of reconnect.rs.
use zakura_grpc.Common.{
  ℕ, ◌≡◌, refl, sym, subst, true, false, none, some, List, reverse, values, Result, ok, string_eq,
  nat_eq, ◌==◌, All, arith, pos, if◌then◌else◌,
}
use zakura_grpc.Status.{Status}
use zakura_grpc.Proto.{SubscribeUpdate, SubscribeRequest, Update, CanonicalBlock, default_update}
use zakura_grpc.Geyser.Server.Mempool.{snapshot}
use zakura_grpc.Geyser.Server.Replay.{ReplayBucket}
use zakura_grpc.Geyser.Server.Replay.Within.{IsValid, longest_within}
use zakura_grpc.Geyser.Server.Replay.Serve.{from_on, newest_sequence, snapshot-Serves}
use zakura_grpc.Geyser.Server.Subscribe.{
  SharedState, InitialSubscription, subscribe, reconnect_update,
}
use zakura_grpc.Client.Resume.{Key, Partial, ChainResumeState, checkpoint}
use zakura_grpc.Client.Resume.Partial.{Fits, IsChain}
use zakura_grpc.Client.Resume.Checkpoint.{accepted}
use zakura_grpc.Client.Resume.Held.{
  holds, has_bucket, Refuses, refusal, holds-within, holds-reaches, verified, not_verified,
}

module _ (encoded_len : SubscribeUpdate → ℕ) where
  -- A subscription at finalized block `f` with `blocks` above it: from the height of `f` on, and
  -- first the update that tells the client of both.
  pub record Resumed (f : Key) (blocks : List CanonicalBlock) (kept : List ReplayBucket)
      (answer : Result Status InitialSubscription) : Type 0 where
    pub initial : InitialSubscription
    pub answered : answer ≡ ok initial
    pub replayed :
        initial.replay ≡ record { updates = from_on f.0 kept; watermark = newest_sequence kept }
    pub told :
        initial.reconnect
        ≡ some (record default_update {
          event_type = pos 0;
          update = some (
              Update.reconnect (record {
                finalized_height = f.0;
                finalized_block_hash = f.1;
                discarded_blocks = blocks;
              }));
        })

  resumed :
      (f : Key) (m : Partial) (r : SubscribeRequest) (now : ℕ) (s : SharedState)
      → All (Fits (some f)) m
      → (f.1 == "") ≡ false
      → IsValid s.replay
      → holds f (longest_within s.replay.limits now s.replay.buckets) ≡ true
      → Resumed f (reverse (values m)) (longest_within s.replay.limits now s.replay.buckets) (
          subscribe encoded_len
            (record r {
              resume = checkpoint (record { finalized = some f; partial = m });
              from_height = some f.0;
            })
            now
            s)
  unfolding subscribe checkpoint reconnect_update
  resumed f m r now s a hash v h =
      let kept = longest_within s.replay.limits now s.replay.buckets in
      let passes = accepted f m (some f.0) r a hash (ground arith) in
      let found = verified f (reverse (values m)) s (holds-within s.replay.limits now f _ h) in
      let replay = (snapshot-Serves f.0 now s.replay v).reached (holds-reaches f kept h) in
      record {
        initial = record {
          replay = record { updates = from_on f.0 kept; watermark = newest_sequence kept };
          mempool =
              if r.include_mempool_snapshot then some (snapshot encoded_len s.mempool) else none;
          reconnect = some (
              reconnect_update (record {
                finalized_height = f.0;
                finalized_block_hash = f.1;
                partial_blocks = reverse (values m);
              }));
        };
        answered = rw (passes, found, replay, subscribe) refl;
        replayed = refl;
        told = refl;
      }

  -- A client with a valid chain state and a finalized block whose hash is not empty, which asks
  -- with its checkpoint and the finalized height, is answered while the window that the limits
  -- leave holds that block as finalized: with all updates of the window from the finalized height
  -- on, and an update that tells the finalized block and the client's partial blocks as discarded.
  pub checkpoint_resumes :
      (c : ChainResumeState) (f : Key) (r : SubscribeRequest) (now : ℕ) (s : SharedState)
      → IsChain c
      → c.finalized ≡ some f
      → (f.1 == "") ≡ false
      → IsValid s.replay
      → holds f (longest_within s.replay.limits now s.replay.buckets) ≡ true
      → Resumed f
          (reverse (values c.partial))
          (longest_within s.replay.limits now s.replay.buckets)
          (subscribe encoded_len (record r { resume = checkpoint c; from_height = some f.0 }) now s)
  unfolding subscribe checkpoint
  checkpoint_resumes c f r now s chain e hash v h =
      let same : c ≡ record { finalized = some f; partial = c.partial } =
        λ i. record { finalized = e i; partial = c.partial } in
      subst
        (λ x.
          Resumed f (reverse (values c.partial))
            (longest_within s.replay.limits now s.replay.buckets)
            (subscribe encoded_len (record r { resume = checkpoint x; from_height = some f.0 }) now
              s))
        (sym same)
        (resumed f c.partial r now s (subst (λ o. All (Fits o) c.partial) e chain.fits) hash v h)

  refused :
      (f : Key) (m : Partial) (r : SubscribeRequest) (now : ℕ) (s : SharedState)
      → All (Fits (some f)) m
      → (f.1 == "") ≡ false
      → holds f s.replay.buckets ≡ false
      → Refuses (refusal (has_bucket f.0 s.replay.buckets)) (
          subscribe encoded_len
            (record r {
              resume = checkpoint (record { finalized = some f; partial = m });
              from_height = some f.0;
            })
            now
            s)
  unfolding subscribe checkpoint Refuses
  refused f m r now s a hash h =
      let passes = accepted f m (some f.0) r a hash (ground arith) in
      let (e, fails, code) = not_verified f (reverse (values m)) s h in
      (e, rw (passes, fails, subscribe) refl, code)

  -- A client with a valid chain state and a finalized block whose hash is not empty, which asks
  -- with its checkpoint and the finalized height, is refused where no bucket of that height holds
  -- the block as finalized: with FAILED_PRECONDITION if some bucket has the height, with
  -- OUT_OF_RANGE if none has.
  pub checkpoint_refused :
      (c : ChainResumeState) (f : Key) (r : SubscribeRequest) (now : ℕ) (s : SharedState)
      → IsChain c
      → c.finalized ≡ some f
      → (f.1 == "") ≡ false
      → holds f s.replay.buckets ≡ false
      → Refuses
          (refusal (has_bucket f.0 s.replay.buckets))
          (subscribe encoded_len (record r { resume = checkpoint c; from_height = some f.0 }) now s)
  unfolding subscribe checkpoint
  checkpoint_refused c f r now s chain e hash h =
      let same : c ≡ record { finalized = some f; partial = c.partial } =
        λ i. record { finalized = e i; partial = c.partial } in
      subst
        (λ x. Refuses (refusal (has_bucket f.0 s.replay.buckets)) (
          subscribe encoded_len (record r { resume = checkpoint x; from_height = some f.0 }) now s))
        (sym same)
        (refused f c.partial r now s (subst (λ o. All (Fits o) c.partial) e chain.fits) hash h)

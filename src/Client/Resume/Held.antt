-- ===== src/Client/Resume/Held.antt =====
-- Whether the replay buffer of server.rs holds a finalized block, and what `verify_checkpoint`
-- says of it.
use zakura_grpc.Common.{
  ℕ, ◌≡◌, refl, Bool, true, false, ◌&&◌, ◌||◌, Option, none, some, String, List, [], ◌∷◌, any,
  Result, ok, err, Bool-cases, inl, inr, string_eq, nat_eq, ◌==◌, eqb, arith,
}
use zakura_grpc.Status.{Status, Code}
use zakura_grpc.Proto.{Update, CanonicalBlock}
use zakura_grpc.Geyser.Server.Projection.{PublishedUpdate}
use zakura_grpc.Geyser.Server.Replay.{
  ReplayBucket, ReplayLimits, verify_checkpoint, is_finalized_block,
}
use zakura_grpc.Geyser.Server.Replay.Within.{longest_within}
use zakura_grpc.Geyser.Server.Replay.Serve.{reaches}
use zakura_grpc.Geyser.Server.Subscribe.{SharedState, verify_resume}
use zakura_grpc.Client.Resume.{Key}

-- An update that tells a finalized block of this hash.
unfoldable pub is_final : String → Option Update → Bool
is_final hash (some (Update.block b)) = b.finalized && b.hash == hash
is_final hash _ = false

unfoldable pub tells_final : String → List PublishedUpdate → Bool
tells_final hash [] = false
tells_final hash (u ∷ us) = is_final hash u.message.update || tells_final hash us

-- The finalized block stands in a bucket of its height.
unfoldable pub holds : Key → List ReplayBucket → Bool
holds f [] = false
holds f (b ∷ bs) = eqb b.height f.0 && tells_final f.1 b.updates || holds f bs

final_by_kind :
    (x : Option Update) (hash : String) (u : PublishedUpdate)
    → u.message.update ≡ x
    → is_finalized_block hash u ≡ is_final hash x
unfolding is_final
final_by_kind (some (Update.block b)) hash u e = rw e refl
final_by_kind none hash u e = rw e refl
final_by_kind _ hash u e = rw e refl

tells_final_lem :
    (hash : String) (us : List PublishedUpdate)
    → any (is_finalized_block hash) us ≡ tells_final hash us
unfolding any tells_final
tells_final_lem hash [] = refl
tells_final_lem hash (u ∷ us) =
    ground (arith, tells_final_lem hash us, final_by_kind u.message.update hash u refl)

holds_lem :
    (f : Key) (bs : List ReplayBucket)
    → any (λ b. b.height == f.0 && any (is_finalized_block f.1) b.updates) bs ≡ holds f bs
unfolding any holds
holds_lem f [] = refl
holds_lem f (b ∷ bs) = ground (arith, holds_lem f bs, tells_final_lem f.1 b.updates)

-- Whether some bucket is at the height.
unfoldable pub has_bucket : ℕ → List ReplayBucket → Bool
has_bucket h [] = false
has_bucket h (b ∷ bs) = eqb b.height h || has_bucket h bs

has_bucket_lem : (h : ℕ) (bs : List ReplayBucket) → any (λ b. b.height == h) bs ≡ has_bucket h bs
unfolding any has_bucket
has_bucket_lem h [] = refl
has_bucket_lem h (b ∷ bs) = ground (arith, has_bucket_lem h bs)

pub holds-within :
    (l : ReplayLimits) (now : ℕ) (f : Key) (bs : List ReplayBucket)
    → holds f (longest_within l now bs) ≡ true
    → holds f bs ≡ true
unfolding longest_within holds
holds-within l now f [] h = h
holds-within l now f (b ∷ bs) h = ground (arith, holds-within l now f bs)

pub holds-reaches : (f : Key) (bs : List ReplayBucket) → holds f bs ≡ true → reaches f.0 bs ≡ true
unfolding reaches holds any
holds-reaches f [] h = h
holds-reaches f (b ∷ bs) h = ground (arith, holds-reaches f bs)

pub verified :
    (f : Key) (blocks : List CanonicalBlock) (s : SharedState)
    → holds f s.replay.buckets ≡ true
    → verify_resume
        (some
          (record { finalized_height = f.0; finalized_block_hash = f.1; partial_blocks = blocks }))
        s.replay
      ≡ ok tt
unfolding verify_resume verify_checkpoint
verified f blocks s h = rw (holds_lem f s.replay.buckets, h) refl

-- The answer refuses, with this code.
unfoldable pub Refuses {ℓ} : {A : Type ℓ} → Code → Result Status A → Type ℓ
Refuses code answer = (e : Status) × (answer ≡ err e) × (e.code ≡ code)

-- The code for a block that is not held: whether or not its height is.
pub refusal : Bool → Code
refusal true = Code.failed_precondition
refusal false = Code.out_of_range

pub not_verified :
    (f : Key) (blocks : List CanonicalBlock) (s : SharedState)
    → holds f s.replay.buckets ≡ false
    → Refuses (refusal (has_bucket f.0 s.replay.buckets)) (
        verify_resume
          (some (record {
            finalized_height = f.0;
            finalized_block_hash = f.1;
            partial_blocks = blocks;
          }))
          s.replay)
unfolding verify_resume verify_checkpoint Refuses refusal
not_verified f blocks s h = elim (Bool-cases (has_bucket f.0 s.replay.buckets)) [
  | inl e ↦
      rw (holds_lem f s.replay.buckets, h, has_bucket_lem f.0 s.replay.buckets, e) (_, refl, refl)
  | inr e ↦
      rw (holds_lem f s.replay.buckets, h, has_bucket_lem f.0 s.replay.buckets, e) (_, refl, refl)
]

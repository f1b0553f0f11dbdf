-- ===== src/Geyser/Plugin/Sequences.antt =====
-- The sequences of the updates that `publish_encoded` of zakura-grpc-geyser/src/lib.rs publishes.
use zakura_grpc.Common.{
  ℕ, suc, ◌+◌, ◌≤◌, ◌<◌, ◌≡◌, ◌⊎◌, refl, sym, ap, subst, ◌∙◌, none, some, List, [], ◌∷◌, map,
  length, any, ok, err, arith, checked_add, u64_max, Bool-cases, inl, inr,
}
use zakura_grpc.Proto.{SubscribeUpdate}
use zakura_grpc.Geyser.Server.Projection.{PublishedUpdate, publish, apply_payload_projection}
use zakura_grpc.Geyser.Server.Mempool.{publish_mempool, mark, is_mempool_update}
use zakura_grpc.Geyser.Server.Subscribe.{SharedState, publish_batch}
use zakura_grpc.Geyser.Server.Stream.Live.{Rising}
use zakura_grpc.Geyser.Plugin.{GrpcPlugin, number, publish_encoded}
use zakura_grpc.Geyser.Event.Source.{PluginError}

-- Sequences one after the other, from the one after `n` up to `last`.
abbrev pub Consecutive : ℕ → List PublishedUpdate → ℕ → Type 0
Consecutive n [] last = n ≡ last
Consecutive n (u ∷ us) last = (u.message.sequence ≡ suc n) × Consecutive (suc n) us last

-- The updates with the numbers after `n`.
pub numbered : ℕ → List SubscribeUpdate → List SubscribeUpdate
numbered n [] = []
numbered n (u ∷ us) = record u { sequence = suc n } ∷ numbered (suc n) us

checked_add-suc : (n : ℕ) → suc n ≤ u64_max → checked_add n 1 ≡ some (suc n)
checked_add-suc n h = ground arith

checked_add-full : (n : ℕ) → u64_max < suc n → checked_add n 1 ≡ none
checked_add-full n h = ground arith

≤-< : (a b : ℕ) → (a ≤ b) ⊎ (b < a)
≤-< a b = ground arith

number-fits :
    (n : ℕ) (us : List SubscribeUpdate)
    → n + length us ≤ u64_max
    → number n us ≡ (some (numbered n us), n + length us)
unfolding number numbered
number-fits n [] h = ap (λ m. (some [], m)) (omega arith)
number-fits n (u ∷ us) h =
    let ih = number-fits (suc n) us (omega arith) in
    let total : suc n + length us ≡ n + suc (length us) = omega arith in
    rw (checked_add-suc n (omega arith), ih, number)
      (ap (λ m. (some (record u { sequence = suc n } ∷ numbered (suc n) us), m)) total)

number-exhausted :
    (n : ℕ) (us : List SubscribeUpdate)
    → n ≤ u64_max
    → u64_max < n + length us
    → number n us ≡ (none, u64_max)
unfolding number
number-exhausted n [] k h = absurd (omega arith)
number-exhausted n (u ∷ us) k h = elim (≤-< (suc n) u64_max) [
  | inl fits ↦
      rw (checked_add-suc n fits, number-exhausted (suc n) us fits (omega arith), number) refl
  | inr full ↦ rw (checked_add-full n full, number) (ap (λ m. (none, m)) (omega arith))
]

pub Rising-Consecutive :
    (n last : ℕ) (us : List PublishedUpdate) → Consecutive n us last → Rising n us
Rising-Consecutive n last [] c = tt
Rising-Consecutive n last (u ∷ us) (e, c) =
    (omega arith, subst (λ m. Rising m us) (sym e) (Rising-Consecutive (suc n) last us c))

module _ (encoded_len : SubscribeUpdate → ℕ) where
  publish-sequence : (u : SubscribeUpdate) → (publish encoded_len u).message.sequence ≡ u.sequence
  unfolding publish apply_payload_projection
  publish-sequence u = refl

  mark-sequence : (r : ℕ) (u : SubscribeUpdate) → (mark r u).sequence ≡ u.sequence
  unfolding mark
  mark-sequence r u = elim (Bool-cases (is_mempool_update u)) [
    | inl e ↦ rw e refl
    | inr e ↦ rw e refl
  ]

  Consecutive-map :
      (f : SubscribeUpdate → PublishedUpdate) (n : ℕ) (us : List SubscribeUpdate)
      → ((u : SubscribeUpdate) → (f u).message.sequence ≡ u.sequence)
      → Consecutive n (map f (numbered n us)) (n + length us)
  unfolding numbered
  Consecutive-map f n [] h = omega arith
  Consecutive-map f n (u ∷ us) h = (
    h _,
    subst (λ m. Consecutive (suc n) (map f (numbered (suc n) us)) m) (omega arith)
        (Consecutive-map f (suc n) us h),
  )

  Consecutive-publish_batch :
      (n : ℕ) (us : List SubscribeUpdate) (now : ℕ) (s : SharedState)
      → Consecutive n (publish_batch encoded_len (numbered n us) now s).0 (n + length us)
  unfolding publish_batch publish_mempool
  Consecutive-publish_batch n us now s = elim (Bool-cases (any is_mempool_update (numbered n us))) [
    | inl e ↦
        rw (e, publish_batch)
          (Consecutive-map _ n us (λ u. publish-sequence (mark _ u) ∙ mark-sequence _ u))
    | inr e ↦ rw (e, publish_batch) (Consecutive-map _ n us publish-sequence)
  ]

  -- Where the numbers up to the largest `u64` suffice for the updates of an event, all are
  -- published as a batch, with the numbers after the last one used, one after the other: their
  -- sequences rise, and the last is kept.
  pub sequences-Consecutive :
      (us : List SubscribeUpdate) (now : ℕ) (p : GrpcPlugin)
      → p.next_sequence + length us ≤ u64_max
      → let answer = publish_encoded encoded_len (ok us) now p in
        let out = (publish_batch encoded_len (numbered p.next_sequence us) now p.state).0 in
        (answer.0 ≡ ok out)
        × Consecutive p.next_sequence out (p.next_sequence + length us)
        × Rising p.next_sequence out
        × (answer.1.next_sequence ≡ p.next_sequence + length us)
  unfolding publish_encoded
  sequences-Consecutive us now p h =
      let c = Consecutive-publish_batch p.next_sequence us now p.state in
      let fits = number-fits p.next_sequence us h in
      (
        rw (publish_encoded, fits) refl,
        c,
        Rising-Consecutive _ _ _ c,
        rw (publish_encoded, fits) (ap (λ r. r.1) fits),
      )

  -- Where the last number used is at most the largest `u64` and the numbers up to that do not
  -- suffice for the updates of an event, it fails, nothing is published, the state is as it was, and
  -- the numbers are used up.
  pub sequences_exhausted :
      (us : List SubscribeUpdate) (now : ℕ) (p : GrpcPlugin)
      → p.next_sequence ≤ u64_max
      → u64_max < p.next_sequence + length us
      → publish_encoded encoded_len (ok us) now p
        ≡ (err PluginError.sequence_exhausted, record p { next_sequence = u64_max })
  unfolding publish_encoded
  sequences_exhausted us now p k h =
      let full = number-exhausted p.next_sequence us k h in
      rw (publish_encoded, full)
        (ap (λ r. (err PluginError.sequence_exhausted, record p { next_sequence = r.1 })) full)

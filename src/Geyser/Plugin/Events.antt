-- ===== src/Geyser/Plugin/Events.antt =====
-- One call of `on_event` of zakura-grpc-geyser/src/lib.rs: the numbers that it publishes.
use zakura_grpc.Common.{
  ℕ, suc, ◌+◌, ◌≤◌, ◌<◌, ◌≡◌, ◌⊎◌, refl, sym, subst, List, [], ◌∷◌, ◌++◌, length, Result, ok, err,
  arith, u64_max, inl, inr,
}
use zakura_grpc.Proto.{SubscribeUpdate}
use zakura_grpc.Geyser.Server.Projection.{PublishedUpdate}
use zakura_grpc.Geyser.Plugin.{GrpcPlugin, on_event, publish_encoded}
use zakura_grpc.Geyser.Event.Source.{EventEnvelope, Formats, PluginError}
use zakura_grpc.Geyser.Event.Whole.{encode_event}
use zakura_grpc.Geyser.Plugin.Sequences.{Consecutive, sequences-Consecutive, sequences_exhausted}

-- What an answer has published.
abbrev pub sent : Result PluginError (List PublishedUpdate) → List PublishedUpdate
sent (ok out) = out
sent (err e) = []

pub Consecutive-length :
    (a b : ℕ) (xs : List PublishedUpdate) → Consecutive a xs b → a + length xs ≡ b
Consecutive-length a b [] c = ground arith
Consecutive-length a b (x ∷ xs) (e, c) = let ih = Consecutive-length (suc a) b xs c in omega arith

pub Consecutive-append :
    (a b c : ℕ) (xs ys : List PublishedUpdate)
    → Consecutive a xs b
    → Consecutive b ys c
    → Consecutive a (xs ++ ys) c
Consecutive-append a b c [] ys e h = subst (λ m. Consecutive m ys c) (sym e) h
Consecutive-append a b c (x ∷ xs) ys (e, k) h = (e, Consecutive-append (suc a) b c xs ys k h)

pub no_updates : (a : ℕ) (xs : List PublishedUpdate) → Consecutive a xs a → xs ≡ []
no_updates a [] c = refl
no_updates a (x ∷ xs) c = let l = Consecutive-length a a (x ∷ xs) c in absurd (omega arith)

≤-cases : (a b : ℕ) → (a ≤ b) ⊎ (b < a)
≤-cases a b = ground arith

module _ (encoded_len : SubscribeUpdate → ℕ) (formats : Formats) where
  -- An event publishes the next numbers, or nothing since they ran out.
  abbrev pub StepOf : GrpcPlugin → Result PluginError (List PublishedUpdate) × GrpcPlugin → Type 0
  StepOf p r =
      (r.1.next_sequence ≤ u64_max)
      × (Consecutive p.next_sequence (sent r.0) r.1.next_sequence
          ⊎ ((sent r.0 ≡ []) × (r.1.next_sequence ≡ u64_max)))

  publish_encoded-StepOf :
      (x : Result PluginError (List SubscribeUpdate)) (now : ℕ) (p : GrpcPlugin)
      → p.next_sequence ≤ u64_max
      → StepOf p (publish_encoded encoded_len x now p)
  unfolding publish_encoded
  publish_encoded-StepOf (err e) now p k = (k, inl refl)
  publish_encoded-StepOf (ok us) now p k = elim (≤-cases (p.next_sequence + length us) u64_max) [
    | inl fits ↦
        let answer = publish_encoded encoded_len (ok us) now p in
        let (published, c, r, last) = sequences-Consecutive encoded_len us now p fits in
        (
          subst (λ m. m ≤ u64_max) (sym last) fits,
          inl (
              subst (λ a. Consecutive p.next_sequence (sent a) answer.1.next_sequence)
                (sym published) (subst (Consecutive p.next_sequence _) (sym last) c)),
        )
    | inr full ↦
        subst (StepOf p) (sym (sequences_exhausted encoded_len us now p k full))
          (omega arith, inr (refl, refl))
  ]

  pub on_event-StepOf :
      (e : EventEnvelope) (now : ℕ) (p : GrpcPlugin)
      → p.next_sequence ≤ u64_max
      → StepOf p (on_event encoded_len formats e now p)
  unfolding on_event
  on_event-StepOf e now p k = publish_encoded-StepOf (encode_event formats e p.options) now p k

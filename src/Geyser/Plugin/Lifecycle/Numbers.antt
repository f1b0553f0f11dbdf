-- ===== src/Geyser/Plugin/Lifecycle/Numbers.antt =====
-- The numbers that a plugin of zakura-grpc-geyser/src/lib.rs publishes over its life.
use zakura_grpc.Common.{
  ℕ, ◌≤◌, ◌≡◌, ◌⊎◌, refl, sym, ap, subst, ◌∙◌, List, [], ◌∷◌, u64_max, arith, inl, inr, Result,
}
use zakura_grpc.Proto.{SubscribeUpdate}
use zakura_grpc.Geyser.Event.Source.{Formats, PluginError}
use zakura_grpc.Geyser.Server.Projection.{PublishedUpdate}
use zakura_grpc.Geyser.Server.Stream.Live.{Rising}
use zakura_grpc.Geyser.Service.{GrpcService}
use zakura_grpc.Geyser.Plugin.Events.{
  Consecutive-length, Consecutive-append, no_updates, on_event-StepOf,
}
use zakura_grpc.Geyser.Plugin.Sequences.{Consecutive, Rising-Consecutive}
use zakura_grpc.Geyser.Plugin.Lifecycle.{Managed, Call, Node, on_unload, perform, perform_all}
use zakura_grpc.Geyser.Plugin.Lifecycle.Servers.{Loads, on_load-Loads}

-- The last number that the plugin of a node used.
abbrev pub number_of : Node → ℕ
number_of n = n.managed.plugin.next_sequence

loaded-number :
    (number : ℕ) (m : Managed) (r : Result PluginError GrpcService × Managed)
    → Loads number m r
    → r.1.plugin.next_sequence ≡ m.plugin.next_sequence
loaded-number number m r (Loads.failed e k server shutdown plugin) =
    ap (λ p. p.next_sequence) plugin
loaded-number number m r (Loads.started s k stopped server shutdown plugin) =
    ap (λ p. p.next_sequence) plugin

module _ (unit : ℕ) (encoded_len : SubscribeUpdate → ℕ) (formats : Formats) where
  -- A call publishes the next numbers, or nothing since they ran out.
  CallOf : Node → List PublishedUpdate × Node → Type 0
  CallOf n r =
      (number_of r.1 ≤ u64_max)
      × (Consecutive (number_of n) r.0 (number_of r.1) ⊎ ((r.0 ≡ []) × (number_of r.1 ≡ u64_max)))

  perform-CallOf :
      (c : Call) (n : Node)
      → number_of n ≤ u64_max
      → CallOf n (perform unit encoded_len formats c n)
  unfolding perform CallOf on_unload
  perform-CallOf (Call.load a) n k =
      let kept = loaded-number n.spawned n.managed _ (on_load-Loads unit a n.spawned n.managed) in
      (omega (arith, kept), inl (sym kept))
  perform-CallOf (Call.event e now) n k =
      on_event-StepOf encoded_len formats e now n.managed.plugin k
  perform-CallOf Call.unload n k = (k, inl refl)

  nothing_left :
      (cs : List Call) (n : Node)
      → number_of n ≡ u64_max
      → (perform_all unit encoded_len formats cs n).0 ≡ []
  unfolding perform_all CallOf
  nothing_left [] n h = refl
  nothing_left (c ∷ cs) n h =
      let r = perform unit encoded_len formats c n in
      let (bound, step) = perform-CallOf c n (omega arith) in
      elim step [
        | inl s ↦
            let l = Consecutive-length (number_of n) (number_of r.1) r.0 s in
            let stays : number_of r.1 ≡ number_of n = omega arith in
            let nothing = no_updates _ _ (subst (Consecutive (number_of n) r.0) stays s) in
            rw (perform_all, nothing) (nothing_left cs r.1 (stays ∙ h))
        | inr (nothing, last) ↦ rw (perform_all, nothing) (nothing_left cs r.1 last)
      ]

  consecutive :
      (cs : List Call) (n : Node)
      → number_of n ≤ u64_max
      → (last : ℕ) × Consecutive (number_of n) (perform_all unit encoded_len formats cs n).0 last
  unfolding perform_all CallOf
  consecutive [] n k = (number_of n, refl)
  consecutive (c ∷ cs) n k =
      let r = perform unit encoded_len formats c n in
      let (bound, step) = perform-CallOf c n k in
      let (last, ih) = consecutive cs r.1 bound in
      elim step [
        | inl s ↦ (last, Consecutive-append _ _ last r.0 _ s ih)
        | inr (nothing, end) ↦
            (number_of n, rw (perform_all, nothing, nothing_left cs r.1 end) refl)
      ]

  -- Over the whole life of a plugin, with loads, unloads, failures of the encoder and an exhaustion
  -- of the numbers among its calls, the published sequences follow the last number used before,
  -- without a gap and in order, if that number is at most the largest `u64`.
  pub life-Consecutive :
      (calls : List Call) (n : Node)
      → number_of n ≤ u64_max
      → ((last : ℕ) × Consecutive
            (number_of n)
            (perform_all unit encoded_len formats calls n).0
            last)
        × Rising (number_of n) (perform_all unit encoded_len formats calls n).0
  life-Consecutive calls n k =
      let (last, c) = consecutive calls n k in
      ((last, c), Rising-Consecutive (number_of n) last _ c)

-- ===== src/Geyser/Service/Calls.antt =====
-- What each call of `GrpcService` of zakura-grpc-geyser/src/server.rs does to the tracker and the
-- mempool.
use zakura_grpc.Common.{
  ℕ, ◌≡◌, refl, subst, Option, String, List, Result, ok, err, Bool-cases, Result-cases, inl, inr,
  any,
}
use zakura_grpc.Status.{Status}
use zakura_grpc.Proto.{SubscribeUpdate, SubscribeRequest}
use zakura_grpc.Chain.{Chain}
use zakura_grpc.Geyser.Auth.{RequestMetadata, authorize, drop_guard}
use zakura_grpc.Geyser.Server.Subscribe.{
  SharedState, InitialSubscription, publish_batch, state_after, subscribe, replay_height,
  verify_resume,
}
use zakura_grpc.Geyser.Server.Mempool.{is_mempool_update, publish_mempool}
use zakura_grpc.Geyser.Server.Mempool.Filed.{IsValid, apply-IsValid}
use zakura_grpc.Geyser.Service.{
  GrpcService, SubscriptionContext, open_stream, receive_initial_filter, subscribe_replay_info,
}

-- What a call of `open_stream` may do to the service.
abbrev pub Opens :
    String
    → GrpcService
    → Result Status (InitialSubscription × SubscriptionContext) × GrpcService
    → Type 0
Opens guard s (err e, t) =
    (t.subscriptions ≡ drop_guard guard s.subscriptions) × (t.state.mempool ≡ s.state.mempool)
Opens guard s (ok (initial, c), t) =
    (c.guard ≡ guard) × (t.subscriptions ≡ s.subscriptions) × (t.state.mempool ≡ s.state.mempool)

state_after-mempool :
    (r : SubscribeRequest) (now : ℕ) (s : SharedState) → (state_after r now s).mempool ≡ s.mempool
unfolding state_after
state_after-mempool r now s = elim (Result-cases (replay_height r)) [
  | inr (e, q) ↦ rw (q, state_after) refl
  | inl (h, q) ↦ elim (Result-cases (verify_resume r.resume s.replay)) [
    | inr (e, k) ↦ rw (q, k, state_after) refl
    | inl (u, k) ↦ rw (q, k, state_after) refl
  ]
]

module _ (chain : Chain) (encoded_len : SubscribeUpdate → ℕ) where
  pub open_stream-Opens :
      (guard : String) (inbound : Result Status (Option SubscribeRequest)) (now : ℕ)
      (s : GrpcService)
      → Opens guard s (open_stream chain encoded_len guard inbound now s)
  unfolding open_stream
  open_stream-Opens guard inbound now s =
      elim (Result-cases (receive_initial_filter chain inbound s.filter_limits)) [
        | inr (e, q) ↦ rw (q, open_stream) (refl, refl)
        | inl ((f, r), q) ↦
            let kept = state_after-mempool r now s.state in
            elim (Result-cases (subscribe encoded_len r now s.state)) [
              | inr (e, k) ↦ rw (q, k, open_stream) (refl, kept)
              | inl (initial, k) ↦ rw (q, k, open_stream) (refl, refl, kept)
            ]
      ]

  pub published-pool :
      (updates : List SubscribeUpdate) (now : ℕ) (s : SharedState)
      → IsValid s.mempool
      → IsValid (publish_batch encoded_len updates now s).1.mempool
  unfolding publish_batch publish_mempool
  published-pool updates now s v = elim (Bool-cases (any is_mempool_update updates)) [
    | inl e ↦
        rw (e, publish_batch)
          (apply-IsValid _ _ (record { ascending = v.ascending; filed = v.filed }))
    | inr e ↦ rw (e, publish_batch) v
  ]

  pub informed-kept :
      (r : RequestMetadata) (now : ℕ) (s : GrpcService)
      → let t = (subscribe_replay_info r now s).1 in
        (t.subscriptions ≡ s.subscriptions) × (t.state.mempool ≡ s.state.mempool)
  unfolding subscribe_replay_info
  informed-kept r now s = elim (Result-cases (authorize s.auth r)) [
    | inl (u, q) ↦ rw (q, subscribe_replay_info) (refl, refl)
    | inr (e, q) ↦ rw (q, subscribe_replay_info) (refl, refl)
  ]

  pub failed-Opens :
      (guard : String) (s t : GrpcService)
      (answer : Result Status (InitialSubscription × SubscriptionContext)) (e : Status)
      → answer ≡ err e
      → Opens guard s (answer, t)
      → (t.subscriptions ≡ drop_guard guard s.subscriptions) × (t.state.mempool ≡ s.state.mempool)
  failed-Opens guard s t (err x) e h o = o
  failed-Opens guard s t (ok x) e h o = absurd (cc)

  pub opened-Opens :
      (guard : String) (s t : GrpcService)
      (answer : Result Status (InitialSubscription × SubscriptionContext))
      (initial : InitialSubscription) (c : SubscriptionContext)
      → answer ≡ ok (initial, c)
      → Opens guard s (answer, t)
      → (c.guard ≡ guard)
        × (t.subscriptions ≡ s.subscriptions)
        × (t.state.mempool ≡ s.state.mempool)
  opened-Opens guard s t (err x) initial c h o = absurd (cc)
  opened-Opens guard s t (ok (i, d)) initial c h o = subst (λ a. Opens guard s (a, t)) h o

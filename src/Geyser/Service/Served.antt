-- ===== src/Geyser/Service/Served.antt =====
-- What holds of the service of zakura-grpc-geyser/src/server.rs however its calls interleave.
use zakura_grpc.Common.{
  ℕ, ◌≤◌, ◌<◌, ◌≡◌, refl, sym, ap, subst, ◌∙◌, String, List, ◌∷◌, ◌++◌, map, map-append, Result, ok,
  err, u64_max, Result-cases, inl, inr,
}
use zakura_grpc.Status.{Status}
use zakura_grpc.Proto.{SubscribeUpdate}
use zakura_grpc.Chain.{Chain}
use zakura_grpc.Geyser.Auth.{RequestMetadata, authorize, acquire, drop_guard}
use zakura_grpc.Geyser.Server.Mempool.Filed.{IsValid}
use zakura_grpc.Geyser.Service.Guarded.{
  acquired-Guarded, denied-Guarded, front_dropped-Guarded, back_dropped-Guarded, moved-Guarded,
}
use zakura_grpc.Geyser.Service.{GrpcService, SubscriptionContext, release, admit}
use zakura_grpc.Geyser.Service.Running.{Running, guards, Step, Reaches, Served}
use zakura_grpc.Geyser.Service.Calls.{
  open_stream-Opens, published-pool, informed-kept, failed-Opens, opened-Opens,
}

admit-unauthorized :
    (r : RequestMetadata) (s : GrpcService) (e : Status)
    → authorize s.auth r ≡ err e
    → admit r s ≡ (err e, s)
unfolding admit
admit-unauthorized r s e h = rw (h, admit) refl

admit-authorized :
    (r : RequestMetadata) (s : GrpcService) (u : Unit {0})
    → authorize s.auth r ≡ ok u
    → admit r s
      ≡ ((acquire r s.subscriptions).0, record s { subscriptions = (acquire r s.subscriptions).1 })
unfolding admit
admit-authorized r s u h = rw (h, admit) refl

module _ (limit : ℕ) (positive : 0 < limit) (word : limit ≤ u64_max) where
  refused-Served :
      (r : RequestMetadata) (e : Status) (m : Running)
      → Served limit m
      → (admit r m.service).0 ≡ err e
      → Served limit (record m { service = (admit r m.service).1 })
  refused-Served r e m v h = elim (Result-cases (authorize m.service.auth r)) [
    | inl (u, q) ↦
        let k = admit-authorized r m.service u q in
        rw k (record {
          guarded =
              denied-Guarded limit positive word r e m.service.subscriptions (guards m) v.guarded
                (ap (λ a. a.0) (sym k) ∙ h);
          pool = v.pool;
        })
    | inr (x, q) ↦
        rw (admit-unauthorized r m.service x q) (record { guarded = v.guarded; pool = v.pool })
  ]

  admitted-Served :
      (r : RequestMetadata) (guard : String) (m : Running)
      → Served limit m
      → (admit r m.service).0 ≡ ok guard
      → Served limit (record m { service = (admit r m.service).1; waiting = guard ∷ m.waiting })
  admitted-Served r guard m v h = elim (Result-cases (authorize m.service.auth r)) [
    | inl (u, q) ↦
        let k = admit-authorized r m.service u q in
        rw k (record {
          guarded =
              acquired-Guarded limit positive word r guard m.service.subscriptions (guards m)
                v.guarded (ap (λ a. a.0) (sym k) ∙ h);
          pool = v.pool;
        })
    | inr (x, q) ↦
        absurd (err_ne_ok x (sym (ap (λ a. a.0) (admit-unauthorized r m.service x q)) ∙ h))
  ]
    where
      err_ne_ok : (e : Status) → Path (Result Status String) (err e) (ok guard) → ⊥
      err_ne_ok e p = cc p

  -- A call has a subscription, or fails, with the tracker and the mempool as told.
  opened-Served :
      (m : Running) (front back : List String) (guard : String) (s : GrpcService)
      (c : SubscriptionContext)
      → m.waiting ≡ front ++ guard ∷ back
      → (c.guard ≡ guard)
        × (s.subscriptions ≡ m.service.subscriptions)
        × (s.state.mempool ≡ m.service.state.mempool)
      → Served limit m
      → Served limit (record { service = s; waiting = front ++ back; streams = c ∷ m.streams })
  opened-Served m front back guard s c w (same, kept, pool) v = record {
    guarded =
        rw (same, kept)
          (moved-Guarded limit positive word guard _ m.waiting front back _ w v.guarded);
    pool = subst IsValid (sym pool) v.pool;
  }

  failed-Served :
      (m : Running) (front back : List String) (guard : String) (s : GrpcService)
      → m.waiting ≡ front ++ guard ∷ back
      → (s.subscriptions ≡ drop_guard guard m.service.subscriptions)
        × (s.state.mempool ≡ m.service.state.mempool)
      → Served limit m
      → Served limit (record m { service = s; waiting = front ++ back })
  failed-Served m front back guard s w (dropped, pool) v = record {
    guarded =
        rw dropped
          (front_dropped-Guarded limit positive word guard _ m.waiting front back _ w v.guarded);
    pool = subst IsValid (sym pool) v.pool;
  }

  ended-Served :
      (m : Running) (front back : List SubscriptionContext) (c : SubscriptionContext)
      → m.streams ≡ front ++ c ∷ back
      → Served limit m
      → Served limit (record m { service = release c.guard m.service; streams = front ++ back })
  ended-Served m front back c w v = record {
    guarded = rw (map-append (λ c. c.guard) front back) (
        back_dropped-Guarded limit positive word c.guard _ m.waiting _ _ _
          (ap (map (λ c. c.guard)) w ∙ map-append (λ c. c.guard) front (c ∷ back)) v.guarded);
    pool = v.pool;
  }

module _ (chain : Chain) (encoded_len : SubscribeUpdate → ℕ) where
  module _ (limit : ℕ) (positive : 0 < limit) (word : limit ≤ u64_max) where
    Step-Served : (a b : Running) → Step chain encoded_len a b → Served limit a → Served limit b
    Step-Served a b (Step.refused m r e h) v = refused-Served limit positive word r e m v h
    Step-Served a b (Step.admitted m r guard h) v =
        admitted-Served limit positive word r guard m v h
    Step-Served a b (Step.cancelled m front back guard w) v =
        failed-Served limit positive word m front back guard (release guard m.service) w
          (refl, refl) v
    Step-Served a b (Step.failed m front back guard inbound now e w h) v =
        failed-Served limit positive word m front back guard _ w
          (failed-Opens chain encoded_len guard m.service _ _ e h
            (open_stream-Opens chain encoded_len guard inbound now m.service))
          v
    Step-Served a b (Step.opened m front back guard inbound now initial c w h) v =
        opened-Served limit positive word m front back guard _ c w
          (opened-Opens chain encoded_len guard m.service _ _ initial c h
            (open_stream-Opens chain encoded_len guard inbound now m.service))
          v
    Step-Served a b (Step.ended m front back c w) v =
        ended-Served limit positive word m front back c w v
    Step-Served a b (Step.published m updates now) v = record {
      guarded = v.guarded;
      pool = published-pool chain encoded_len updates now m.service.state v.pool;
    }
    Step-Served a b (Step.informed m r now) v =
        let (kept, pool) = informed-kept chain encoded_len r now m.service in
        record { guarded = rw kept v.guarded; pool = subst IsValid (sym pool) v.pool }

    -- From a service of which it holds, with the limit enforced, positive and a `u64`: however the
    -- calls of the service and the batches that are published interleave, with clients that go
    -- away and first requests that fail among them, the map counts exactly the guards of the calls
    -- that wait and of the streams that run, no subscriber has more of them than the limit, and the
    -- mempool stays valid.
    pub reached-Served :
        (a b : Running) → Reaches chain encoded_len a b → Served limit a → Served limit b
    reached-Served a b (Reaches.here m) v = v
    reached-Served a b (Reaches.next x y z path last) v =
        Step-Served y z last (reached-Served x y path v)

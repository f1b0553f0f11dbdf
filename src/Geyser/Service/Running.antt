-- ===== src/Geyser/Service/Running.antt =====
-- The service of zakura-grpc-geyser/src/server.rs while its calls interleave.
use zakura_grpc.Common.{ℕ, ◌≡◌, Option, String, List, ◌∷◌, ◌++◌, map, Result, ok, err}
use zakura_grpc.Status.{Status}
use zakura_grpc.Proto.{SubscribeUpdate, SubscribeRequest}
use zakura_grpc.Chain.{Chain}
use zakura_grpc.Geyser.Auth.{RequestMetadata}
use zakura_grpc.Geyser.Server.Subscribe.{InitialSubscription, publish_batch}
use zakura_grpc.Geyser.Server.Mempool.Filed.{IsValid}
use zakura_grpc.Geyser.Service.Guarded.{Guarded}
use zakura_grpc.Geyser.Service.{
  GrpcService, SubscriptionContext, release, admit, open_stream, subscribe_replay_info,
}

-- The service, the guards of the calls of `subscribe` that wait for their first request, and the
-- contexts of the tasks that were spawned.
pub record Running : Type 0 where
  pub service : GrpcService
  pub waiting : List String
  pub streams : List SubscriptionContext

abbrev pub guards : Running → List String
guards m = m.waiting ++ map (λ c. c.guard) m.streams

module _ (chain : Chain) (encoded_len : SubscribeUpdate → ℕ) where
  -- `subscribe` is refused, or waits; its client goes away; it fails at the first request, or
  -- spawns its task; a task ends. A batch is published, and `subscribe_replay_info` is called.
  pub data Step : Running → Running → Type 0 where
    refused :
        (m : Running) (r : RequestMetadata) (e : Status)
        → (admit r m.service).0 ≡ err e
        → Step m (record m { service = (admit r m.service).1 })
    admitted :
        (m : Running) (r : RequestMetadata) (guard : String)
        → (admit r m.service).0 ≡ ok guard
        → Step m (record m { service = (admit r m.service).1; waiting = guard ∷ m.waiting })
    cancelled :
        (m : Running) (front back : List String) (guard : String)
        → m.waiting ≡ front ++ guard ∷ back
        → Step m (record m { service = release guard m.service; waiting = front ++ back })
    failed :
        (m : Running) (front back : List String) (guard : String)
        (inbound : Result Status (Option SubscribeRequest)) (now : ℕ) (e : Status)
        → m.waiting ≡ front ++ guard ∷ back
        → (open_stream chain encoded_len guard inbound now m.service).0 ≡ err e
        → Step m (record m {
          service = (open_stream chain encoded_len guard inbound now m.service).1;
          waiting = front ++ back;
        })
    opened :
        (m : Running) (front back : List String) (guard : String)
        (inbound : Result Status (Option SubscribeRequest)) (now : ℕ)
        (initial : InitialSubscription) (c : SubscriptionContext)
        → m.waiting ≡ front ++ guard ∷ back
        → (open_stream chain encoded_len guard inbound now m.service).0 ≡ ok (initial, c)
        → Step m (record {
          service = (open_stream chain encoded_len guard inbound now m.service).1;
          waiting = front ++ back;
          streams = c ∷ m.streams;
        })
    ended :
        (m : Running) (front back : List SubscriptionContext) (c : SubscriptionContext)
        → m.streams ≡ front ++ c ∷ back
        → Step m (record m { service = release c.guard m.service; streams = front ++ back })
    published :
        (m : Running) (updates : List SubscribeUpdate) (now : ℕ)
        → Step m (record m {
          service = record m.service {
            state = (publish_batch encoded_len updates now m.service.state).1;
          };
        })
    informed :
        (m : Running) (r : RequestMetadata) (now : ℕ)
        → Step m (record m { service = (subscribe_replay_info r now m.service).1 })

  pub data Reaches : Running → Running → Type 0 where
    here : (m : Running) → Reaches m m
    next : (a b c : Running) → Reaches a b → Step b c → Reaches a c

-- With the limit enforced: the guards that wait or belong to a stream are counted, and the names
-- of the mempool are in order, with details under their own name.
pub record Served (limit : ℕ) (m : Running) : Type 0 where
  pub guarded : Guarded limit m.service.subscriptions (guards m)
  pub pool : IsValid m.service.state.mempool

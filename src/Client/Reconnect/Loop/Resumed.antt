-- ===== src/Client/Reconnect/Loop/Resumed.antt =====
-- The requests with which `run_subscription` of reconnect.rs reconnects, over whole runs.
use zakura_grpc.Common.{
  ℕ, ◌≡◌, refl, ap, ◌∙◌, subst, Bool, true, Option, none, some, List, [], ◌∷◌, Result, ok, err, All,
  Bool-cases, Result-cases, inl, inr,
}
use zakura_grpc.Status.{Status}
use zakura_grpc.Proto.{SubscribeRequest}
use zakura_grpc.Client.Resume.{Key, checkpoint, from_request}
use zakura_grpc.Client.Resume.Partial.{IsChain, IsChain-empty_chain}
use zakura_grpc.Client.Resume.Checkpoint.{checkpoint_accepted}
use zakura_grpc.Client.Dedup.Observe.{IsValid-with_height_retention}
use zakura_grpc.Client.Reconnect.{
  Session, ReconnectConfig, ReconnectionPolicy, ReplayGapPolicy, ZakuraGrpcClientError,
  forget_position, reconnect_request, reconnect_subscription, connect_with_backoff,
  is_recoverable_status, is_out_of_range, is_out_of_range_error, new_session, policy_dedup,
  finalized_of,
}
use zakura_grpc.Client.Reconnect.Handling.{Disconnect, Handled}
use zakura_grpc.Client.Reconnect.Loop.{
  Event, receive, reconnect, recover, give_up, after, turn, run_from, run_subscription,
}
use zakura_grpc.Client.Reconnect.Loop.Kept.{IsKept, KnownHash, DedupOf, Hashed, receive-IsKept}
use zakura_grpc.Geyser.Server.Subscribe.{replay_height}

forget-IsKept : (s : Session) → IsKept s → IsKept (forget_position s)
unfolding forget_position
forget-IsKept s v = record { chain = IsChain-empty_chain; hash = tt; dedup = v.dedup }

module _ {S : Type 0} (connect : ℕ → SubscribeRequest → Result ZakuraGrpcClientError S) where
  reconnect_subscription-IsKept :
      (c : ReconnectConfig) (n : ℕ) (s : Session)
      → IsKept s
      → IsKept (reconnect_subscription connect c n s).1
  unfolding reconnect_subscription
  reconnect_subscription-IsKept c n s v =
      elim (Result-cases (connect_with_backoff connect c.backoff n (reconnect_request c s)).0) [
        | inl (subscription, e) ↦ rw (e, reconnect_subscription) v
        | inr (x, e) ↦ elim (Bool-cases (is_out_of_range_error x)) [
          | inr other ↦ rw (e, reconnect_subscription) (rw other v)
          | inl gap ↦ by_policy x e gap c.replay_gap_policy refl
        ]
      ]
    where
      by_policy :
          (x : ZakuraGrpcClientError)
          → (connect_with_backoff connect c.backoff n (reconnect_request c s)).0 ≡ err x
          → is_out_of_range_error x ≡ true
          → (p : ReplayGapPolicy) → c.replay_gap_policy ≡ p
          → IsKept (reconnect_subscription connect c n s).1
      by_policy x e gap ReplayGapPolicy.fail p = rw (e, gap, p, reconnect_subscription) v
      by_policy x e gap ReplayGapPolicy.skip_to_live p =
          rw (e, gap, p, reconnect_subscription) (forget-IsKept s v)

  reconnect-IsKept :
      (c : ReconnectConfig) (o : Bool) (n : ℕ) (s : Session)
      → IsKept s
      → IsKept (reconnect connect c o n s).session
  unfolding reconnect
  reconnect-IsKept c o n s v =
      let kept = reconnect_subscription-IsKept c n s v in
      elim (Result-cases (reconnect_subscription connect c n s).0.0) [
        | inl (subscription, e) ↦ rw (e, reconnect) kept
        | inr (x, e) ↦ rw (e, reconnect) kept
      ]

  skip-IsKept :
      (p : ReplayGapPolicy) (c : ReconnectConfig) (o : Bool) (n : ℕ) (s : Session) (status : Status)
      → IsKept s
      → c.replay_gap_policy ≡ p
      → is_recoverable_status status.code ≡ true
      → is_out_of_range status.code ≡ true
      → IsKept (recover connect c o n s (Disconnect.status status)).session
  unfolding recover
  skip-IsKept ReplayGapPolicy.fail c o n s status v p again gap = rw (again, gap, p, recover) v
  skip-IsKept ReplayGapPolicy.skip_to_live c o n s status v p again gap =
      rw (again, gap, p, recover) (reconnect-IsKept c o n (forget_position s) (forget-IsKept s v))

  recover-IsKept :
      (c : ReconnectConfig) (o : Bool) (n : ℕ) (s : Session) (d : Disconnect)
      → IsKept s
      → IsKept (recover connect c o n s d).session
  unfolding recover
  recover-IsKept c o n s Disconnect.ended v = reconnect-IsKept c o n s v
  recover-IsKept c o n s (Disconnect.status status) v =
      elim (Bool-cases (is_recoverable_status status.code)) [
        | inr never ↦ rw never v
        | inl again ↦ elim (Bool-cases (is_out_of_range status.code)) [
          | inr other ↦ rw (again, other) (reconnect-IsKept c o n s v)
          | inl gap ↦ skip-IsKept c.replay_gap_policy c o n s status v refl again gap
        ]
      ]

  give_up-IsKept :
      (o : Bool) (n : ℕ) (s : Session) (d : Disconnect)
      → IsKept s
      → IsKept (give_up connect o n s d).session
  unfolding give_up
  give_up-IsKept o n s Disconnect.ended v = v
  give_up-IsKept o n s (Disconnect.status status) v = v

  after-IsKept :
      (config : Option ReconnectConfig) (o : Bool) (n : ℕ) (h : Handled)
      → IsKept h.session
      → IsKept (after connect config o n h).session
  unfolding after
  after-IsKept config o n h v = by_outcome h.outcome config refl
    where
      by_outcome :
          (x : Result (Unit {0}) (Option Disconnect)) (config : Option ReconnectConfig)
          → h.outcome ≡ x
          → IsKept (after connect config o n h).session
      by_outcome (err gone) config e = rw (e, after) v
      by_outcome (ok none) config e = rw (e, after) v
      by_outcome (ok (some d)) none e = rw (e, after) (give_up-IsKept o n h.session d v)
      by_outcome (ok (some d)) (some c) e = rw (e, after) (recover-IsKept c o n h.session d v)

  run-IsKept :
      (config : Option ReconnectConfig) (es : List Event) (n : ℕ) (s : Session)
      → All Hashed es
      → IsKept s
      → IsKept (run_from connect config es n s).session
  unfolding run_from turn
  run-IsKept config [] n s h v = v
  run-IsKept config (e ∷ es) n s (h, hs) v =
      let t = turn connect config e n s in
      let kept = after-IsKept config e.output_open n (receive e s) (receive-IsKept e s h v) in
      elim (Bool-cases t.running) [
        | inl on ↦ rw (on, run_from) (run-IsKept config es _ _ hs kept)
        | inr off ↦ rw (off, run_from) kept
      ]

no_resume : (r : SubscribeRequest) → r.resume ≡ none → replay_height r ≡ ok r.from_height
unfolding replay_height
no_resume r h = rw (h, replay_height) refl

checkpoint-none : (s : Session) → s.chain.finalized ≡ none → checkpoint s.chain ≡ none
unfolding checkpoint
checkpoint-none s k = rw (k, checkpoint) refl

finalized_of-checkpoint :
    (s : Session) (f : Key)
    → s.chain.finalized ≡ some f
    → finalized_of (checkpoint s.chain) ≡ some (f.0)
unfolding checkpoint
finalized_of-checkpoint s f k = rw (k, checkpoint) refl

reconnect_request_lem :
    (c : ReconnectConfig) (s : Session) (m : ℕ) (f : Key)
    → c.policy ≡ ReconnectionPolicy.recover_missed_data m
    → s.chain.finalized ≡ some f
    → reconnect_request c s
      ≡ record s.current_request { resume = checkpoint s.chain; from_height = some (f.0) }
unfolding reconnect_request
reconnect_request_lem c s m f e k =
    rw (e, reconnect_request) (rw (finalized_of-checkpoint s f k) refl)

-- The request of a session in order passes the checks of the server.
request_accepted :
    (p : ReconnectionPolicy) (f : Option Key) (c : ReconnectConfig) (s : Session)
    → c.policy ≡ p
    → s.chain.finalized ≡ f
    → IsKept s
    → (from_height : Option ℕ) × (replay_height (reconnect_request c s) ≡ ok from_height)
unfolding reconnect_request
request_accepted ReconnectionPolicy.skip_missed_data f c s e k v =
    (_, no_resume (reconnect_request c s) (rw (e, reconnect_request) refl))
request_accepted (ReconnectionPolicy.recover_missed_data m) none c s e k v =
    (_, no_resume (reconnect_request c s) (rw (e, reconnect_request) (checkpoint-none s k)))
request_accepted (ReconnectionPolicy.recover_missed_data m) (some f) c s e k v = (
  some (f.0),
  ap replay_height (reconnect_request_lem c s m f e k)
      ∙ checkpoint_accepted s.chain f s.current_request v.chain k (subst KnownHash k v.hash),
)

policy-DedupOf :
    (config : Option ReconnectConfig)
    → DedupOf (elim config [ none ↦ none | some c ↦ policy_dedup c.policy ])
policy-DedupOf none = tt
policy-DedupOf (some c) = by_policy c.policy
  where
    by_policy : (p : ReconnectionPolicy) → DedupOf (policy_dedup p)
    by_policy ReconnectionPolicy.skip_missed_data = tt
    by_policy (ReconnectionPolicy.recover_missed_data n) = IsValid-with_height_retention n

new_session-IsKept :
    (initial : SubscribeRequest) (config : Option ReconnectConfig)
    → IsChain (from_request initial)
    → KnownHash (from_request initial).finalized
    → IsKept (new_session initial config)
unfolding new_session
new_session-IsKept initial config v h = record {
  chain = v;
  hash = h;
  dedup = policy-DedupOf config;
}

module _ {S : Type 0} (connect : ℕ → SubscribeRequest → Result ZakuraGrpcClientError S) where
  -- Whatever happens in a subscription, commands, updates whose blocks have hashes, disconnects,
  -- reconnections, replay gaps and closed channels, the height and the checkpoint of the request
  -- with which it would reconnect next pass the checks of `replay_height`, if the chain state of
  -- the first request is valid and its finalized block has a hash.
  pub resumes_validly :
      (initial : SubscribeRequest) (c : ReconnectConfig) (es : List Event)
      → IsChain (from_request initial)
      → KnownHash (from_request initial).finalized
      → All Hashed es
      → let session = (run_subscription connect initial (some c) es).session in
        (from_height : Option ℕ) × (replay_height (reconnect_request c session) ≡ ok from_height)
  unfolding run_subscription
  resumes_validly initial c es v h hashed = request_accepted c.policy _ c _ refl refl (
      run-IsKept connect (some c) es 0 (new_session initial (some c)) hashed
        (new_session-IsKept initial (some c) v h))

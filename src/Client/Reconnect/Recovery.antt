-- ===== src/Client/Reconnect/Recovery.antt =====
-- `reconnect_subscription` of reconnect.rs against `subscribe` of server.rs.
use zakura_grpc.Common.{
  ℕ, zero, suc, ◌-◌, reverse, values, ◌≡◌, refl, sym, ap, ◌∙◌, subst, Bool, false, not, ◌&&◌,
  Option, none, some, List, [], ◌∷◌, any, Result, ok, err, All, string_eq, nat_eq, ◌==◌, eqb,
  is_some_and, arith,
}
use zakura_grpc.Status.{Status, Message, out_of_range}
use zakura_grpc.Proto.{SubscribeUpdate, SubscribeRequest, ResumeCheckpoint}
use zakura_grpc.Geyser.Server.Replay.{
  ReplayBuffer, ReplayBucket, verify_checkpoint, is_finalized_block,
}
use zakura_grpc.Geyser.Server.Subscribe.{SharedState, InitialSubscription, subscribe, verify_resume}
use zakura_grpc.Client.Resume.{Key, Partial, ChainResumeState, checkpoint}
use zakura_grpc.Client.Resume.Partial.{Fits, IsChain}
use zakura_grpc.Client.Resume.Checkpoint.{accepted}
use zakura_grpc.Client.Reconnect.{
  ReconnectConfig, ReconnectionPolicy, ReplayGapPolicy, Session, ZakuraGrpcClientError,
  reconnect_request, live_request, forget_position, attempts, reconnect_subscription,
  is_recoverable_client_error, is_out_of_range_error, or_else, finalized_of,
}

-- After `OUT_OF_RANGE` on the stream itself, the position is forgotten before the next request is
-- made: under either policy it asks for the live head, with no height and no checkpoint.
pub forgotten_request :
    (c : ReconnectConfig) (s : Session)
    → ((reconnect_request c (forget_position s)).from_height ≡ none)
      × ((reconnect_request c (forget_position s)).resume ≡ none)
unfolding reconnect_request forget_position checkpoint
forgotten_request c s = by_policy c.policy refl
  where
    by_policy :
        (p : ReconnectionPolicy)
        → c.policy ≡ p
        → ((reconnect_request c (forget_position s)).from_height ≡ none)
          × ((reconnect_request c (forget_position s)).resume ≡ none)
    by_policy ReconnectionPolicy.skip_missed_data e = rw (e, reconnect_request) (refl, refl)
    by_policy (ReconnectionPolicy.recover_missed_data n) e = rw (e, reconnect_request) (refl, refl)

-- No bucket of the height, no finalized block of it.
none_available :
    (h : ℕ) (p : ReplayBucket → Bool) (bs : List ReplayBucket)
    → any (λ b. b.height == h) bs ≡ false
    → any (λ b. b.height == h && p b) bs ≡ false
unfolding any
none_available h p [] e = refl
none_available h p (b ∷ bs) e = ground (arith, none_available h p bs)

verify-evicted :
    (c : ResumeCheckpoint) (r : ReplayBuffer)
    → any (λ b. b.height == c.finalized_height) r.buckets ≡ false
    → verify_checkpoint c r
      ≡ err (out_of_range (Message.checkpoint_not_retained c.finalized_height))
unfolding verify_checkpoint
verify-evicted c r e =
    rw
      (
        none_available c.finalized_height
            (λ b. any (is_finalized_block c.finalized_block_hash) b.updates) r.buckets e,
        e,
      )
      refl

module _ (encoded_len : SubscribeUpdate → ℕ) (now : ℕ) (server : SharedState) where
  -- A connection to a server in this state.
  abbrev pub answer_of :
      Result Status InitialSubscription → Result ZakuraGrpcClientError InitialSubscription
  answer_of (ok i) = ok i
  answer_of (err e) = err (ZakuraGrpcClientError.status e)

  pub connect_to : ℕ → SubscribeRequest → Result ZakuraGrpcClientError InitialSubscription
  unfolding subscribe
  connect_to n r = answer_of (subscribe encoded_len r now server)

  refused :
      (f : Key) (m : Partial) (from : Option ℕ) (r : SubscribeRequest)
      → All (Fits (some f)) m
      → (f.1 == "") ≡ false
      → is_some_and from (λ h. not (eqb h (f.0))) ≡ false
      → any (λ b. b.height == f.0) server.replay.buckets ≡ false
      → subscribe encoded_len
          (record r {
            resume = checkpoint (record { finalized = some f; partial = m });
            from_height = from;
          })
          now
          server
        ≡ err (out_of_range (Message.checkpoint_not_retained (f.0)))
  unfolding subscribe verify_resume checkpoint
  refused f m from r a hash same evicted =
      let c : ResumeCheckpoint = record {
        finalized_height = f.0;
        finalized_block_hash = f.1;
        partial_blocks = reverse (values m);
      } in
      rw (accepted f m from r a hash same, verify-evicted c server.replay evicted) refl

  refused_by :
      (s : ChainResumeState) (f : Key) (from : Option ℕ) (r : SubscribeRequest)
      → IsChain s
      → s.finalized ≡ some f
      → (f.1 == "") ≡ false
      → is_some_and from (λ h. not (eqb h (f.0))) ≡ false
      → any (λ b. b.height == f.0) server.replay.buckets ≡ false
      → subscribe encoded_len (record r { resume = checkpoint s; from_height = from }) now server
        ≡ err (out_of_range (Message.checkpoint_not_retained (f.0)))
  refused_by s f from r v e hash same evicted =
      let whole : s ≡ record { finalized = some f; partial = s.partial } =
        λ i. record { finalized = e i; partial = s.partial } in
      subst
        (λ x.
          subscribe encoded_len (record r { resume = checkpoint x; from_height = from }) now server
          ≡ err (out_of_range (Message.checkpoint_not_retained (f.0))))
        (sym whole)
        (refused f s.partial from r (subst (λ o. All (Fits o) s.partial) e v.fits) hash same
          evicted)

  attempts-refused :
      (left n : ℕ) (r : SubscribeRequest) (h : ℕ)
      → subscribe encoded_len r now server ≡ err (out_of_range (Message.checkpoint_not_retained h))
      → attempts connect_to left n r ≡ (
        err (ZakuraGrpcClientError.status (out_of_range (Message.checkpoint_not_retained h))),
        suc n,
      )
  unfolding attempts connect_to is_recoverable_client_error
  attempts-refused zero n r h e = rw e refl
  attempts-refused (suc left) n r h e = rw (e, attempts) refl

  -- The height that is sent with the checkpoint is the finalized one.
  from_finalized :
      (s : ChainResumeState) (f : Key) (other : Option ℕ)
      → s.finalized ≡ some f
      → or_else (finalized_of (checkpoint s)) other ≡ some (f.0)
  unfolding checkpoint
  from_finalized s f other e = rw (e, checkpoint) refl

  resume_request :
      (c : ReconnectConfig) (s : Session) (k : ℕ)
      → c.policy ≡ ReconnectionPolicy.recover_missed_data k
      → reconnect_request c s ≡ record s.current_request {
        resume = checkpoint s.chain;
        from_height = or_else (finalized_of (checkpoint s.chain)) (
            or_else
              (elim s.checkpoint [
                | none ↦ none
                | some height ↦ some (height - c.checkpoint_height_buffer)
              ])
              s.current_request.from_height);
      }
  unfolding reconnect_request
  resume_request c s k e = rw (e, reconnect_request) refl

  -- Both requests of `reconnect_subscription` carry the checkpoint.
  requests-refused :
      (c : ReconnectConfig) (s : Session) (f : Key) (k : ℕ)
      → c.policy ≡ ReconnectionPolicy.recover_missed_data k
      → IsChain s.chain
      → s.chain.finalized ≡ some f
      → (f.1 == "") ≡ false
      → any (λ b. b.height == f.0) server.replay.buckets ≡ false
      → (subscribe encoded_len (reconnect_request c s) now server
          ≡ err (out_of_range (Message.checkpoint_not_retained (f.0))))
        × (subscribe encoded_len (live_request c s) now server
            ≡ err (out_of_range (Message.checkpoint_not_retained (f.0))))
  unfolding live_request
  requests-refused c s f k e v fin hash evicted = (
    ap (λ r. subscribe encoded_len r now server) (resume_request c s k e)
        ∙ refused_by s.chain f _ s.current_request v fin hash
            (rw
              (from_finalized s.chain f
                (or_else
                  (elim s.checkpoint [
                    | none ↦ none
                    | some height ↦ some (height - c.checkpoint_height_buffer)
                  ])
                  s.current_request.from_height)
                fin)
              (ground arith))
            evicted,
    ap (λ r. subscribe encoded_len (record r { from_height = none }) now server)
          (resume_request c s k e)
        ∙ refused_by s.chain f none s.current_request v fin hash refl evicted,
  )

  -- With the policies to recover and to skip to the live head, a client that reconnects to a server
  -- which no longer retains its finalized height gets `OUT_OF_RANGE` and no subscription: after
  -- the first refusal the second request asks for no height but still carries the checkpoint, and
  -- is refused in the same words.
  pub skip_to_live_refused :
      (c : ReconnectConfig) (s : Session) (f : Key) (k n : ℕ)
      → c.policy ≡ ReconnectionPolicy.recover_missed_data k
      → c.replay_gap_policy ≡ ReplayGapPolicy.skip_to_live
      → IsChain s.chain
      → s.chain.finalized ≡ some f
      → (f.1 == "") ≡ false
      → any (λ b. b.height == f.0) server.replay.buckets ≡ false
      → (reconnect_subscription connect_to c n s).0 ≡ (
        err (ZakuraGrpcClientError.status (out_of_range (Message.checkpoint_not_retained (f.0)))),
        suc (suc n),
      )
  unfolding reconnect_subscription is_out_of_range_error
  skip_to_live_refused c s f k n policy gap v fin hash evicted =
      let both = requests-refused c s f k policy v fin hash evicted in
      let most = c.backoff.max_retries in
      let first = attempts-refused most n (reconnect_request c s) (f.0) (both.0) in
      let second = attempts-refused most (suc n) (live_request c s) (f.0) (both.1) in
      rw (first, gap, reconnect_subscription) (rw (first, second) refl)

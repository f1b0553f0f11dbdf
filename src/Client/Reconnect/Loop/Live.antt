-- ===== src/Client/Reconnect/Loop/Live.antt =====
-- A session that can reconnect goes on, in `run_subscription` of reconnect.rs.
use zakura_grpc.Common.{
  ℕ, zero, suc, ◌≡◌, refl, subst, ◌⊎◌, inl, inr, Bool, true, false, Option, none, some, List, [],
  ◌∷◌, Result, ok, err, Bool-cases, Option-cases, All, arith, if◌then◌else◌,
}
use zakura_grpc.Status.{Status, Code}
use zakura_grpc.Proto.{SubscribeUpdate, SubscribeRequest}
use zakura_grpc.Client.Reconnect.{
  Session, ReconnectConfig, ReplayGapPolicy, ZakuraGrpcClientError, is_recoverable_status,
  is_out_of_range, forget_position, attempts, connect_with_backoff, reconnect_request,
  reconnect_subscription,
}
use zakura_grpc.Client.Reconnect.Attempts.{Retryable}
use zakura_grpc.Client.Reconnect.Handling.{
  Disconnect, Handled, handle_update, heartbeat, pass, Heartbeat,
}
use zakura_grpc.Client.Reconnect.Loop.{
  Incoming, Event, on_command, receive, reconnect, recover, after, turn, run_from,
}

-- A stream failure from which the configuration lets the session recover.
unfoldable pub is_recovered : ReplayGapPolicy → Code → Bool
is_recovered ReplayGapPolicy.skip_to_live code = is_recoverable_status code
is_recovered ReplayGapPolicy.fail code =
    if is_out_of_range code then false else is_recoverable_status code

abbrev pub IsRecovered : ReplayGapPolicy → Incoming → Type 0
IsRecovered p (Incoming.failed status) = is_recovered p status.code ≡ true
IsRecovered p _ = Unit

-- The application still listens, and a failure of the stream is one to recover from.
abbrev pub Harmless : ReconnectConfig → Event → Type 0
Harmless c e = (e.output_open ≡ true) × IsRecovered c.replay_gap_policy e.incoming

-- A turn without a disconnect, or with one from which the session recovers.
abbrev pub Fine : ReconnectConfig → Result (Unit {0}) (Option Disconnect) → Type 0
Fine c (err gone) = ⊥
Fine c (ok none) = Unit
Fine c (ok (some Disconnect.ended)) = Unit
Fine c (ok (some (Disconnect.status status))) = is_recovered c.replay_gap_policy status.code ≡ true

recovered_recoverable :
    (p : ReplayGapPolicy) (code : Code)
    → is_recovered p code ≡ true
    → is_recoverable_status code ≡ true
unfolding is_recovered
recovered_recoverable ReplayGapPolicy.skip_to_live code h = h
recovered_recoverable ReplayGapPolicy.fail code h = ground arith

recovered_skips :
    (p : ReplayGapPolicy) (code : Code)
    → is_out_of_range code ≡ true
    → is_recovered p code ≡ true
    → p ≡ ReplayGapPolicy.skip_to_live
unfolding is_recovered
recovered_skips ReplayGapPolicy.skip_to_live code o h = refl
recovered_skips ReplayGapPolicy.fail code o h = absurd (ground arith)

unavailable_recovered : (p : ReplayGapPolicy) → is_recovered p Code.unavailable ≡ true
unfolding is_recovered is_recoverable_status
unavailable_recovered ReplayGapPolicy.skip_to_live = refl
unavailable_recovered ReplayGapPolicy.fail = refl

handle_update-Fine :
    (c : ReconnectConfig) (request_open : Bool) (u : SubscribeUpdate) (s : Session)
    → Fine c (handle_update request_open true u s).outcome
unfolding handle_update
handle_update-Fine c request_open u s = by_heartbeat (heartbeat u.update) request_open refl
  where
    by_heartbeat :
        (x : Option Heartbeat) (open_now : Bool)
        → heartbeat u.update ≡ x
        → Fine c (handle_update open_now true u s).outcome
    by_heartbeat none open_now e = elim (Bool-cases (pass s.dedup u).1) [
      | inl new ↦ rw (e, handle_update) (rw new tt)
      | inr old ↦ rw (e, handle_update) (rw old tt)
    ]
    by_heartbeat (some (Heartbeat.ping id)) true e = rw (e, handle_update) tt
    by_heartbeat (some (Heartbeat.ping id)) false e =
        rw (e, handle_update) (unavailable_recovered c.replay_gap_policy)
    by_heartbeat (some Heartbeat.own_pong) open_now e = rw (e, handle_update) tt

on_command-Fine :
    (c : ReconnectConfig) (request_open : Bool) (r : SubscribeRequest) (s : Session)
    → Fine c (on_command request_open r s).outcome
unfolding on_command
on_command-Fine c true r s = elim (Option-cases r.ping) [
  | inl e ↦ rw (e, on_command) tt
  | inr (ping, e) ↦ rw (e, on_command) tt
]
on_command-Fine c false r s = elim (Option-cases r.ping) [
  | inl e ↦ rw (e, on_command) (unavailable_recovered c.replay_gap_policy)
  | inr (ping, e) ↦ rw (e, on_command) (unavailable_recovered c.replay_gap_policy)
]

receive-Fine :
    (c : ReconnectConfig) (e : Event) (s : Session) → Harmless c e → Fine c (receive e s).outcome
unfolding receive
receive-Fine c e s h = by_incoming e.incoming refl
  where
    by_incoming : (x : Incoming) → e.incoming ≡ x → Fine c (receive e s).outcome
    by_incoming (Incoming.command r) k = elim (Bool-cases s.commands_open) [
      | inl on ↦
          rw (k, receive)
            (rw on (on_command-Fine c e.request_open r (record s { commands_open = true })))
      | inr off ↦ rw (k, receive) (rw off tt)
    ]
    by_incoming Incoming.commands_closed k = rw (k, receive) tt
    by_incoming (Incoming.update u) k =
        rw (k, receive) (rw (h.0) (handle_update-Fine c e.request_open u s))
    by_incoming Incoming.ended k = rw (k, receive) tt
    by_incoming (Incoming.failed status) k =
        rw (k, receive) (subst (IsRecovered c.replay_gap_policy) k (h.1))

module _ {S : Type 0} (connect : ℕ → SubscribeRequest → Result ZakuraGrpcClientError S) where
  -- One of the attempts from number `n` on succeeds, and the ones before it may be repeated.
  unfoldable pub Succeeds : ℕ → ℕ → SubscribeRequest → Type 0
  Succeeds zero n r = (subscription : S) × (connect n r ≡ ok subscription)
  Succeeds (suc left) n r =
      ((subscription : S) × (connect n r ≡ ok subscription))
      ⊎ (Retryable connect (connect n r) × Succeeds left (suc n) r)

  attempts-Succeeds :
      (left n : ℕ) (r : SubscribeRequest)
      → Succeeds left n r
      → (subscription : S) × ((attempts connect left n r).0 ≡ ok subscription)
  unfolding attempts Succeeds
  attempts-Succeeds zero n r h = h
  attempts-Succeeds (suc left) n r h = elim h [
    | inl (subscription, e) ↦ (subscription, rw (e, attempts) refl)
    | inr ((x, e, again), later) ↦
        let (subscription, ih) = attempts-Succeeds left (suc n) r later in
        (subscription, rw (e, attempts) (rw again ih))
  ]

  module _ (c : ReconnectConfig)
      (served : (n : ℕ) (r : SubscribeRequest) → Succeeds c.backoff.max_retries n r) where
    reconnect_running :
        (o : Bool) (n : ℕ) (s : Session) → (reconnect connect c o n s).running ≡ true
    unfolding reconnect reconnect_subscription attempts
    reconnect_running o n s =
        let r = reconnect_request c s in
        let (subscription, e) = attempts-Succeeds c.backoff.max_retries n r (served n r) in
        let same : reconnect_subscription connect c n s
            ≡ (connect_with_backoff connect c.backoff n r, s) =
          rw (e, reconnect_subscription) refl in
        rw (same, reconnect) (rw e refl)

    recover_running :
        (o : Bool) (n : ℕ) (s : Session) (status : Status)
        → is_recovered c.replay_gap_policy status.code ≡ true
        → (recover connect c o n s (Disconnect.status status)).running ≡ true
    unfolding recover
    recover_running o n s status h =
        let known = recovered_recoverable c.replay_gap_policy status.code h in
        elim (Bool-cases (is_out_of_range status.code)) [
          | inr e ↦ rw (known, e) (reconnect_running o n s)
          | inl e ↦
              let policy = recovered_skips c.replay_gap_policy status.code e h in
              rw (known, e, policy, recover) (reconnect_running o n (forget_position s))
        ]

    after_running :
        (o : Bool) (n : ℕ) (h : Handled)
        → Fine c h.outcome
        → (after connect (some c) o n h).running ≡ true
    unfolding after recover reconnect
    after_running o n h fine = by_outcome h.outcome refl fine
      where
        by_outcome :
            (x : Result (Unit {0}) (Option Disconnect))
            → h.outcome ≡ x
            → Fine c x
            → (after connect (some c) o n h).running ≡ true
        by_outcome (err gone) e f = absurd f
        by_outcome (ok none) e f = rw (e, after) refl
        by_outcome (ok (some Disconnect.ended)) e f =
            rw (e, after) (reconnect_running o n h.session)
        by_outcome (ok (some (Disconnect.status status))) e f =
            rw (e, after) (recover_running o n h.session status f)

    -- With a configuration of reconnects, while the server is reached within the retries of each
    -- reconnection, the application listens and the failures of the stream are ones to recover
    -- from, the session goes on: after any number of events it is running and has reported no
    -- status to the application.
    pub session_goes_on :
        (es : List Event) (n : ℕ) (s : Session)
        → All (Harmless c) es
        → ((run_from connect (some c) es n s).running ≡ true)
          × ((run_from connect (some c) es n s).reported ≡ none)
    unfolding run_from turn
    session_goes_on [] n s h = (refl, refl)
    session_goes_on (e ∷ es) n s (h, hs) =
        let goes = after_running e.output_open n (receive e s) (receive-Fine c e s h) in
        rw (goes, run_from) (session_goes_on es _ _ hs)

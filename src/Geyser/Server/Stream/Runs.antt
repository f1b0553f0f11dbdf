-- ===== src/Geyser/Server/Stream/Runs.antt =====
-- Runs of the loop of `run_subscription` of server.rs, in which requests, pings and live updates mix.
use zakura_grpc.Common.{
  ℕ, ◌≤◌, ◌<◌, ◌≡◌, ◌⊎◌, refl, sym, ap, subst, All, append-nil, ◌∙◌, not, ◌&&◌, Option, none, some,
  List, [], ◌∷◌, ◌++◌, max, leb, Result, ok, err, arith, Bool-cases, Option-cases, inl, inr,
}
use zakura_grpc.Status.{Status}
use zakura_grpc.Proto.{
  SubscribeRequestPing, SubscribeUpdate, SubscribeRequest, BlockPayload, TransactionPayload,
}
use zakura_grpc.Chain.{Chain}
use zakura_grpc.Geyser.Config.{FilterLimits}
use zakura_grpc.Geyser.Filter.Request.{EventFilter, FilterMatch, matched, new_filter}
use zakura_grpc.Geyser.Server.Projection.{
  PreparedPayload, publish, payload, prepare, apply_payload_projection,
}
use zakura_grpc.Geyser.Server.Cache.{answers, projected, answers_are_projections}
use zakura_grpc.Geyser.Server.Stream.{
  Channel, Event, Subscription, SubscribeResult, Stepped, DisconnectReason, filtered, step, on_live,
  on_request, on_tick, is_in_snapshot, apply_subscription_request, subscription_pong,
  subscription_ping, send_subscription_ping, PingSend,
}

module _ (chain : Chain) (encoded_len : SubscribeUpdate → ℕ) (limits : FilterLimits) where
  -- The loop over the events that it takes up, with the outbound queue at each: what is sent, and
  -- why it ends, if it does.
  unfoldable pub run_stream :
      List (Channel × Event) → Subscription → List SubscribeResult × Option DisconnectReason
  run_stream [] s = ([], none)
  run_stream (x ∷ xs) s =
      let k = step chain encoded_len limits x.0 x.1 s in
      let rest = run_stream xs k.stream in
      elim k.disconnect [ some reason ↦ (k.sent, some reason) | none ↦ (k.sent ++ rest.0, rest.1) ]

-- The numbers of updates rise strictly from above `w`; pings, pongs and statuses have none.
abbrev pub Rises : ℕ → List SubscribeResult → Type 0
Rises w [] = Unit
Rises w (err e ∷ rs) = Rises w rs
Rises w (ok m ∷ rs) = ((m.sequence ≡ 0) ⊎ (w < m.sequence)) × Rises (max w m.sequence) rs

-- A live update of the ring was published.
abbrev pub IsPublished : (SubscribeUpdate → ℕ) → Channel × Event → Type 0
IsPublished encoded_len (c, Event.live u) = (m : SubscribeUpdate) × (u ≡ publish encoded_len m)
IsPublished encoded_len (c, e) = Unit

module _ (encoded_len : SubscribeUpdate → ℕ) where
  abbrev first_number : List PreparedPayload → ℕ
  first_number [] = 0
  first_number (p ∷ ps) = p.message.sequence

  payload-sequence :
      (m : SubscribeUpdate) (bp : BlockPayload) (tp : TransactionPayload)
      → (payload encoded_len (publish encoded_len m) bp tp).0.message.sequence ≡ m.sequence
  unfolding answers projected prepare apply_payload_projection
  payload-sequence m bp tp = ap first_number (answers_are_projections encoded_len m ((bp, tp) ∷ []))

  publish-sequence : (m : SubscribeUpdate) → (publish encoded_len m).message.sequence ≡ m.sequence
  unfolding publish apply_payload_projection
  publish-sequence m = refl

  filtered-sequence :
      (f : EventFilter) (m out : SubscribeUpdate)
      → filtered encoded_len f (publish encoded_len m) ≡ some out
      → out.sequence ≡ (publish encoded_len m).message.sequence
  unfolding filtered
  filtered-sequence f m out h = by_match (matched f (publish encoded_len m).message) h
    where
      by_match :
          (found : Option FilterMatch)
          → (elim found [
            | none ↦ none
            | some r ↦
                some
                  (record (payload encoded_len
                    (publish encoded_len m)
                    r.block_payload
                    r.transaction_payload).0.message { filters = r.names })
          ])
            ≡ some out
          → out.sequence ≡ (publish encoded_len m).message.sequence
      by_match none h = absurd (cc h)
      by_match (some r) h =
          ap (λ o. elim o [ none ↦ 0 | some x ↦ x.sequence ]) (sym h)
          ∙ payload-sequence m r.block_payload r.transaction_payload
          ∙ sym (publish-sequence m)

Rises-mono : (a b : ℕ) (rs : List SubscribeResult) → a ≤ b → Rises b rs → Rises a rs
Rises-mono a b [] h r = tt
Rises-mono a b (err e ∷ rs) h r = Rises-mono a b rs h r
Rises-mono a b (ok m ∷ rs) h (first, r) = (
  elim first [ inl z ↦ inl z | inr k ↦ inr (omega arith) ],
  Rises-mono (max a m.sequence) (max b m.sequence) rs (omega arith) r,
)

abbrev number_of_answer : Result Status (EventFilter × Option SubscribeUpdate) → ℕ
number_of_answer (ok (f, some m)) = m.sequence
number_of_answer _ = 0

-- What is sent at a step fits before what is sent after it.
Follows : Subscription → Stepped → Type 0
Follows s k =
    (rest : List SubscribeResult)
    → Rises k.stream.replay_watermark rest
    → Rises s.replay_watermark (k.sent ++ rest)

-- A message without a number.
unnumbered :
    (w : ℕ) (m : SubscribeUpdate) (rest : List SubscribeResult)
    → m.sequence ≡ 0
    → Rises w rest
    → Rises w (ok m ∷ rest)
unnumbered w m rest z r = (inl z, subst (λ n. Rises n rest) (omega arith) r)

module _ (chain : Chain) (encoded_len : SubscribeUpdate → ℕ) (limits : FilterLimits) where
  on_live-Follows :
      (c : Channel) (m : SubscribeUpdate) (s : Subscription)
      → Follows s (on_live chain encoded_len limits c (publish encoded_len m) s)
  unfolding on_live Follows
  on_live-Follows c m s =
      let u = publish encoded_len m in
      elim (Bool-cases (leb u.message.sequence s.replay_watermark)) [
        | inl old ↦ rw (old, on_live) (λ rest r. r)
        | inr new ↦
            let above : s.replay_watermark < u.message.sequence = ground arith in
            let later : (rest : List SubscribeResult)
                → Rises u.message.sequence rest
                → Rises s.replay_watermark rest =
              λ rest r. Rises-mono s.replay_watermark u.message.sequence rest (omega arith) r in
            elim (Bool-cases (is_in_snapshot s.mempool_watermark u.message.mempool_revision)) [
              | inl known ↦ rw (new, known, on_live) later
              | inr unknown ↦ elim (Option-cases (filtered encoded_len s.filter u)) [
                | inl e ↦ rw (new, unknown, e, on_live) later
                | inr (out, e) ↦
                    let same = filtered-sequence encoded_len s.filter m out e in
                    elim (Bool-cases c.is_open) [
                      | inl o ↦
                          rw (new, unknown, e, o, on_live)
                            (λ rest r.
                              (inr (omega arith), subst (λ n. Rises n rest) (omega arith) r))
                      | inr o ↦ rw (new, unknown, e, o, on_live) later
                    ]
              ]
            ]
      ]

  response-number :
      (f : EventFilter) (r : SubscribeRequest) (response : SubscribeUpdate) (s : Subscription)
      → apply_subscription_request chain s.filter r limits ≡ ok (f, some response)
      → response.sequence ≡ 0
  unfolding apply_subscription_request subscription_pong
  response-number f r response s h = by_ping r.ping (new_filter chain r limits) h
    where
      by_ping :
          (ping : Option SubscribeRequestPing) (made : Result Status EventFilter)
          → Path
              (Result Status (EventFilter × Option SubscribeUpdate))
              (elim ping [
                | some p ↦ ok (s.filter, some (subscription_pong p.id))
                | none ↦ elim made [ ok g ↦ ok (g, none) | err e ↦ err e ]
              ])
              (ok (f, some response))
          → response.sequence ≡ 0
      by_ping (some p) made h = ap number_of_answer (sym h)
      by_ping none (ok g) h = absurd (cc h)
      by_ping none (err e) h = absurd (cc h)

  on_request-Follows :
      (c : Channel) (r : SubscribeRequest) (s : Subscription)
      → Follows s (on_request chain encoded_len limits c r s)
  unfolding on_request Follows
  on_request-Follows c r s = by_answer (apply_subscription_request chain s.filter r limits) refl
    where
      by_answer :
          (o : Result Status (EventFilter × Option SubscribeUpdate))
          → apply_subscription_request chain s.filter r limits ≡ o
          → Follows s (on_request chain encoded_len limits c r s)
      by_answer (ok (f, none)) e = rw (e, on_request) (λ rest r. r)
      by_answer (ok (f, some response)) e = elim (Bool-cases c.is_open) [
        | inl o ↦
            rw (e, o, on_request)
              (λ rest k.
                unnumbered s.replay_watermark response rest (response-number f r response s e) k)
        | inr o ↦ rw (e, o, on_request) (λ rest r. r)
      ]
      by_answer (err x) e = elim (Bool-cases c.is_open) [
        | inl o ↦ rw (e, o, on_request) (λ rest r. r)
        | inr o ↦ rw (e, o, on_request) (λ rest r. r)
      ]

  on_tick-Follows :
      (c : Channel) (s : Subscription) → Follows s (on_tick chain encoded_len limits c s)
  unfolding on_tick Follows subscription_ping
  on_tick-Follows c s = by_answer (send_subscription_ping c s.ping_id) refl
    where
      by_answer :
          (o : PingSend)
          → send_subscription_ping c s.ping_id ≡ o
          → Follows s (on_tick chain encoded_len limits c s)
      by_answer (PingSend.sent next) e =
          rw (e, on_tick)
            (λ rest r. unnumbered s.replay_watermark (subscription_ping s.ping_id) rest refl r)
      by_answer PingSend.skipped e = rw (e, on_tick) (λ rest r. r)
      by_answer PingSend.closed e = rw (e, on_tick) (λ rest r. r)

  step-Follows :
      (x : Channel × Event) (s : Subscription)
      → IsPublished encoded_len x
      → Follows s (step chain encoded_len limits x.0 x.1 s)
  unfolding step Follows
  step-Follows (c, Event.request r) s p = on_request-Follows c r s
  step-Follows (c, Event.request_closed) s p = λ rest r. r
  step-Follows (c, Event.request_failed) s p = λ rest r. r
  step-Follows (c, Event.live u) s (m, e) =
      subst (λ u. Follows s (on_live chain encoded_len limits c u s)) (sym e)
        (on_live-Follows c m s)
  step-Follows (c, Event.lagged n) s p = elim (Bool-cases (c.is_open && not c.is_full)) [
    | inl e ↦ rw e (λ rest r. r)
    | inr e ↦ rw e (λ rest r. r)
  ]
  step-Follows (c, Event.closed) s p = λ rest r. r
  step-Follows (c, Event.tick) s p = on_tick-Follows c s

  -- Whatever a stream meets, requests, pings, the end of its requests, and published updates that
  -- the ring delivers in any order and more than once, the numbers of the updates that it sends
  -- rise strictly from above the watermark of its replay.
  pub run_stream-Rises :
      (xs : List (Channel × Event)) (s : Subscription)
      → All (IsPublished encoded_len) xs
      → Rises s.replay_watermark (run_stream chain encoded_len limits xs s).0
  unfolding run_stream Follows
  run_stream-Rises [] s p = tt
  run_stream-Rises (x ∷ xs) s (p, ps) =
      let k = step chain encoded_len limits x.0 x.1 s in
      let follows = step-Follows x s p in
      elim (Option-cases k.disconnect) [
        | inl e ↦ rw (e, run_stream) (follows _ (run_stream-Rises xs k.stream ps))
        | inr (reason, e) ↦
            rw (e, run_stream)
              (subst (Rises s.replay_watermark) (append-nil k.sent) (follows [] tt))
      ]

-- ===== src/Client/Reconnect/Attempts.antt =====
-- `connect_with_backoff` of reconnect.rs.
use zakura_grpc.Common.{
  ℕ, zero, suc, ◌+◌, ◌≤◌, ◌<◌, ◌≡◌, refl, sym, ap, true, false, Result, err, Result-cases, ◌⊎◌, inl,
  inr, arith, Bool-cases, eqb, eqb_iff, subst,
}
use zakura_grpc.Proto.{SubscribeRequest}
use zakura_grpc.Client.Reconnect.{
  ZakuraGrpcClientError, Backoff, is_recoverable_client_error, attempts, connect_with_backoff,
}

module _ {S : Type 0} (connect : ℕ → SubscribeRequest → Result ZakuraGrpcClientError S) where
  -- The attempt fails, and the error allows another one.
  abbrev pub Retryable : Result ZakuraGrpcClientError S → Type 0
  Retryable answer =
      (e : ZakuraGrpcClientError) × (answer ≡ err e) × (is_recoverable_client_error e ≡ true)

  -- Of `most` attempts from number `n` on, the result is that of attempt number `last`.
  pub record IsOutcome (n most last : ℕ) (r : SubscribeRequest)
      (result : Result ZakuraGrpcClientError S) : Type 0 where
    pub started : n ≤ last
    pub bounded : last < n + most
    pub result_of_last : result ≡ connect last r
    pub earlier : (i : ℕ) → n ≤ i → i < last → Retryable (connect i r)
    pub stops : Retryable result → suc last ≡ n + most

  one_attempt : (n : ℕ) (r : SubscribeRequest) → IsOutcome n 1 n r (connect n r)
  one_attempt n r = record {
    started = omega arith;
    bounded = omega arith;
    result_of_last = refl;
    earlier = λ i h k. absurd (omega arith);
    stops = λ h. omega arith;
  }

  final_attempt :
      (n left : ℕ) (r : SubscribeRequest) (result : Result ZakuraGrpcClientError S)
      → result ≡ connect n r
      → (Retryable result → ⊥)
      → IsOutcome n (suc left) n r result
  final_attempt n left r result e final = record {
    started = omega arith;
    bounded = omega arith;
    result_of_last = e;
    earlier = λ i h k. absurd (omega arith);
    stops = λ h. absurd (final h);
  }

  next_attempt :
      (n left last : ℕ) (r : SubscribeRequest) (result : Result ZakuraGrpcClientError S)
      → Retryable (connect n r)
      → IsOutcome (suc n) (suc left) last r result
      → IsOutcome n (suc (suc left)) last r result
  next_attempt n left last r result first o = record {
    started = omega (arith, o.started);
    bounded = omega (arith, o.bounded);
    result_of_last = o.result_of_last;
    earlier = λ i h k. by_order i h k (Bool-cases (eqb n i));
    stops = λ h. omega (arith, o.stops h);
  }
    where
      by_order :
          (i : ℕ)
          → n ≤ i
          → i < last
          → (eqb n i ≡ true) ⊎ (eqb n i ≡ false)
          → Retryable (connect i r)
      by_order i h k (inl e) = subst (λ j. Retryable (connect j r)) ((eqb_iff n i).0 e) first
      by_order i h k (inr e) = o.earlier i (ground arith) k

  not_again :
      (x : ZakuraGrpcClientError) → is_recoverable_client_error x ≡ false → Retryable (err x) → ⊥
  not_again x f h = let same : x ≡ h.0 = cc in cc (ap is_recoverable_client_error same, h.2)

  attempts_lem :
      (left n : ℕ) (r : SubscribeRequest)
      → (last : ℕ) × IsOutcome n (suc left) last r (attempts connect left n r).0
        × ((attempts connect left n r).1 ≡ suc last)
  unfolding attempts
  attempts_lem zero n r = (n, one_attempt n r, refl)
  attempts_lem (suc left) n r = elim (Result-cases (connect n r)) [
    | inl (s, e) ↦ rw (e, attempts) (n, final_attempt n (suc left) r _ (sym e) (λ h. cc), refl)
    | inr (x, e) ↦ elim (Bool-cases (is_recoverable_client_error x)) [
      | inl again ↦
          let rest = attempts_lem left (suc n) r in
          rw (e, again, attempts)
            (rest.0, next_attempt n left rest.0 r _ (x, e, again) rest.1, rest.2)
      | inr no' ↦
          rw (e, no', attempts)
            (n, final_attempt n (suc left) r _ (sym e) (λ h. not_again x no' h), refl)
    ]
  ]

  -- `connect_with_backoff` makes between one and `max_retries + 1` attempts, numbered from `n` on;
  -- its result is that of the last one, all earlier ones failed with an error that allows a retry,
  -- and it gives up on such an error only after the last retry.
  pub connect_with_backoff_lem :
      (b : Backoff) (n : ℕ) (r : SubscribeRequest)
      → (last : ℕ) × IsOutcome n (suc b.max_retries) last r (connect_with_backoff connect b n r).0
        × ((connect_with_backoff connect b n r).1 ≡ suc last)
  connect_with_backoff_lem b n r = attempts_lem b.max_retries n r

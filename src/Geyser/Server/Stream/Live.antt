-- ===== src/Geyser/Server/Stream/Live.antt =====
-- The live updates of `run_subscription` of server.rs, after the replay.
use zakura_grpc.Common.{
  ℕ, ◌≡◌, ◌<◌, refl, ap, ◌∙◌, true, false, Option, none, some, List, [], ◌∷◌, ◌++◌, ok, all, Bool,
  leb, arith, Bool-cases, Option-cases, inl, inr, if◌then◌else◌,
}
use zakura_grpc.Proto.{SubscribeUpdate}
use zakura_grpc.Chain.{Chain}
use zakura_grpc.Geyser.Config.{FilterLimits}
use zakura_grpc.Geyser.Server.Projection.{PublishedUpdate}
use zakura_grpc.Geyser.Server.Stream.{
  Channel, SubscribeResult, Subscription, filtered, send_filtered, send_all, is_in_snapshot,
  on_live,
}

-- A queue that accepts.
abbrev pub accepting : Channel
accepting = record { is_open = true; is_full = false }

-- Sequences that rise strictly from above `w`.
abbrev pub Rising : ℕ → List PublishedUpdate → Type 0
Rising w [] = Unit
Rising w (u ∷ us) = (w < u.message.sequence) × Rising u.message.sequence us

-- A snapshot of the mempool, if one was sent, tells of an update whose revision, if it has one, is
-- at most its own.
already_told : Option ℕ → Option ℕ → Bool
already_told none revision = false
already_told (some w) none = false
already_told (some w) (some r) = leb r w

already_told_lem : (w r : Option ℕ) → already_told w r ≡ is_in_snapshot w r
unfolding already_told
already_told_lem none r = refl
already_told_lem (some w) none = refl
already_told_lem (some w) (some r) = refl

-- The updates that the snapshot of the mempool does not tell of.
pub unseen : Option ℕ → List PublishedUpdate → List PublishedUpdate
unseen w [] = []
unseen w (u ∷ us) =
    let rest = unseen w us in if already_told w u.message.mempool_revision then rest else u ∷ rest

module _ (chain : Chain) (encoded_len : SubscribeUpdate → ℕ) (limits : FilterLimits) where
  -- A run of the loop in which only the broadcast ring has something.
  pub run_live : List PublishedUpdate → Subscription → List SubscribeResult
  run_live [] s = []
  run_live (u ∷ us) s =
      let k = on_live chain encoded_len limits accepting u s in
      let rest = run_live us k.stream in k.sent ++ rest

  on_live-old :
      (u : PublishedUpdate) (s : Subscription)
      → leb u.message.sequence s.replay_watermark ≡ true
      → on_live chain encoded_len limits accepting u s
        ≡ record { stream = s; sent = []; disconnect = none }
  unfolding on_live
  on_live-old u s h = rw (h, on_live) refl

  on_live-new :
      (u : PublishedUpdate) (s : Subscription)
      → leb u.message.sequence s.replay_watermark ≡ false
      → on_live chain encoded_len limits accepting u s ≡ record {
        stream = record s { replay_watermark = u.message.sequence };
        sent =
            if is_in_snapshot s.mempool_watermark u.message.mempool_revision
            then []
            else elim (filtered encoded_len s.filter u) [ none ↦ [] | some m ↦ ok m ∷ [] ];
        disconnect = none;
      }
  unfolding on_live
  on_live-new u s h =
      elim (Bool-cases (is_in_snapshot s.mempool_watermark u.message.mempool_revision)) [
        | inl e ↦ rw (h, e, on_live) refl
        | inr e ↦ elim (Option-cases (filtered encoded_len s.filter u)) [
          | inl n ↦ rw (h, e, n, on_live) refl
          | inr (m, n) ↦ rw (h, e, n, on_live) refl
        ]
      ]

  run_live-raced :
      (raced us : List PublishedUpdate) (s : Subscription)
      → all (λ u. leb u.message.sequence s.replay_watermark) raced ≡ true
      → run_live (raced ++ us) s ≡ run_live us s
  unfolding run_live all
  run_live-raced [] us s h = refl
  run_live-raced (u ∷ raced) us s h =
      rw (on_live-old u s (ground arith)) (run_live-raced raced us s (ground arith))

  unseen-cons :
      (f : Option ℕ) (u : PublishedUpdate) (us : List PublishedUpdate)
      → unseen f (u ∷ us)
        ≡ (if is_in_snapshot f u.message.mempool_revision then unseen f us else u ∷ unseen f us)
  unfolding unseen
  unseen-cons f u us = rw (already_told_lem f u.message.mempool_revision, unseen) refl

  run_live-fresh :
      (us : List PublishedUpdate) (s : Subscription)
      → Rising s.replay_watermark us
      → run_live us s ≡ send_all encoded_len s.filter (unseen s.mempool_watermark us)
  unfolding run_live send_all unseen
  run_live-fresh [] s r = refl
  run_live-fresh (u ∷ us) s r =
      let t = record s { replay_watermark = u.message.sequence } in
      let ih = run_live-fresh us t (r.1) in
      let new = on_live-new u s (ground arith) in
      let kept = unseen-cons s.mempool_watermark u us in
      elim (Bool-cases (is_in_snapshot s.mempool_watermark u.message.mempool_revision)) [
        | inl e ↦ rw (new, kept, e) ih
        | inr e ↦ rw (new, kept, e) (ap (λ xs. send_filtered encoded_len s.filter u ++ xs) ih)
      ]

  -- The overlap of a replay with the live ring is removed and nothing is lost: of the updates that
  -- raced with the snapshot, at or below its watermark, none is sent; of the later ones, whose
  -- sequences rise, every one that the mempool snapshot does not tell of goes through the filter,
  -- in order.
  pub live_after_replay :
      (raced us : List PublishedUpdate) (s : Subscription)
      → all (λ u. leb u.message.sequence s.replay_watermark) raced ≡ true
      → Rising s.replay_watermark us
      → run_live (raced ++ us) s ≡ send_all encoded_len s.filter (unseen s.mempool_watermark us)
  live_after_replay raced us s h r = run_live-raced raced us s h ∙ run_live-fresh us s r

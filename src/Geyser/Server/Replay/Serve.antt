-- ===== src/Geyser/Server/Replay/Serve.antt =====
-- What `snapshot`, `replay_info` and `verify_checkpoint` of server.rs answer.
use zakura_grpc.Common.{
  ℕ, ◌≡◌, refl, sym, ap, ◌∙◌, ◌++◌, if◌then◌else◌, get_last?, flat_map, filter, Bool, true, false,
  Option, none, some, List, [], ◌∷◌, ltb, leb, nat_eq, arith, Option-cases, Bool-cases, inl, inr,
  any, is_some_and, Result, ok, err, ◌>>◌,
}
use zakura_grpc.Status.{Status, Code}
use zakura_grpc.Geyser.Server.Projection.{PublishedUpdate}
use zakura_grpc.Geyser.Server.Replay.{
  ReplayBucket, ReplayBuffer, ReplaySnapshot, evict, minimum, first_available_height, updates_from,
  watermark_of, check_requested, snapshot, replay_info,
}
use zakura_grpc.Geyser.Server.Replay.Counts.{bucket_heights}
use zakura_grpc.Geyser.Server.Replay.Within.{IsValid, longest_within}
use zakura_grpc.Geyser.Server.Replay.Window.{evict-Evicted}
use zakura_grpc.Geyser.Server.Replay.Extremes.{first_available_lem}

-- A height at or below the requested one is retained.
unfoldable pub reaches : ℕ → List ReplayBucket → Bool
unfolding any
reaches requested bs = any (λ b. leb b.height requested) bs

any-minimum :
    (q : ℕ) (bs : List ReplayBucket)
    → reaches q bs ≡ is_some_and (minimum (bucket_heights bs)) (λ m. leb m q)
unfolding reaches any minimum
any-minimum q [] = refl
any-minimum q (b ∷ bs) = elim (Option-cases (minimum (bucket_heights bs))) [
  | inl n ↦ ground (arith, any-minimum q bs)
  | inr (y, p) ↦ ground (arith, any-minimum q bs)
]

-- The updates of the buckets from a height on, in the order of publication.
pub from_on : ℕ → List ReplayBucket → List PublishedUpdate
from_on q [] = []
from_on q (b ∷ bs) = if ltb b.height q then from_on q bs else b.updates ++ from_on q bs

-- The sequence of the last update of the last bucket, or zero.
pub final_sequence : List PublishedUpdate → ℕ
final_sequence [] = 0
final_sequence (u ∷ []) = u.message.sequence
final_sequence (u ∷ v ∷ us) = final_sequence (v ∷ us)

pub newest_sequence : List ReplayBucket → ℕ
newest_sequence [] = 0
newest_sequence (b ∷ []) = final_sequence b.updates
newest_sequence (b ∷ c ∷ bs) = newest_sequence (c ∷ bs)

updates_from_lem : (q : ℕ) (bs : List ReplayBucket) → updates_from q bs ≡ from_on q bs
unfolding updates_from from_on flat_map filter
updates_from_lem q [] = refl
updates_from_lem q (b ∷ bs) = elim (Bool-cases (ltb b.height q)) [
  | inl low ↦
      let skipped : leb q b.height ≡ false = ground arith in
      rw (low, skipped) (updates_from_lem q bs)
  | inr high ↦
      let kept : leb q b.height ≡ true = ground arith in
      rw (high, kept) (ap (λ us. b.updates ++ us) (updates_from_lem q bs))
]

final_sequence_lem :
    (us : List PublishedUpdate)
    → (elim (get_last? us) [ none ↦ 0 | some u ↦ u.message.sequence ]) ≡ final_sequence us
unfolding final_sequence
final_sequence_lem [] = refl
final_sequence_lem (u ∷ []) = refl
final_sequence_lem (u ∷ v ∷ us) = final_sequence_lem (v ∷ us)

watermark_of_lem : (bs : List ReplayBucket) → watermark_of bs ≡ newest_sequence bs
unfolding newest_sequence final_sequence
watermark_of_lem [] = refl
watermark_of_lem (b ∷ []) = final_sequence_lem b.updates
watermark_of_lem (b ∷ c ∷ bs) = watermark_of_lem (c ∷ bs)

-- The answer to a request from a height, given the buckets that are retained.
pub record Serves (q : ℕ) (bs : List ReplayBucket) (answer : Result Status ReplaySnapshot)
    : Type 0 where
  pub reached :
      reaches q bs ≡ true
      → answer ≡ ok (record { updates = from_on q bs; watermark = newest_sequence bs })
  pub gap : reaches q bs ≡ false → (s : Status) × (answer ≡ err s) × (s.code ≡ Code.out_of_range)

check_requested-Serves :
    (q : ℕ) (bs : List ReplayBucket) (first : Option ℕ)
    → reaches q bs ≡ is_some_and first (λ m. leb m q)
    → Serves q bs (
        check_requested (some q) first
        >> ok (record { updates = updates_from q bs; watermark = watermark_of bs }))
unfolding check_requested
check_requested-Serves q bs none e = record { reached = λ h. cc; gap = λ h. (_, refl, refl) }
check_requested-Serves q bs (some m) e = elim (Bool-cases (ltb q m)) [
  | inl low ↦ rw low (record { reached = λ h. ground arith; gap = λ h. (_, refl, refl) })
  | inr high ↦
      rw (high, updates_from_lem q bs, watermark_of_lem bs)
        (record { reached = λ h. refl; gap = λ h. ground arith })
]

-- A request from a height is answered from the window that the limits leave: if a bucket at or
-- below the height is retained, with the updates of all buckets from the height on, in the order
-- of publication, and the sequence of the last update as watermark; otherwise with OUT_OF_RANGE.
pub snapshot-Serves :
    (q now : ℕ) (r : ReplayBuffer)
    → IsValid r
    → Serves q (longest_within r.limits now r.buckets) (snapshot (some q) now r).0
unfolding snapshot
snapshot-Serves q now r v =
    let k = evict-Evicted now r v in
    let kept = evict now r in
    let first : first_available_height kept ≡ minimum (bucket_heights kept.buckets) =
      first_available_lem kept k.valid.counts in
    rw (← k.window) (
      check_requested-Serves q kept.buckets _
        (any-minimum q kept.buckets ∙ ap (λ o. is_some_and o (λ m. leb m q)) (sym first)))

abbrev pub is_ok {ℓ κ} : {E : Type ℓ} {A : Type κ} → Result E A → Bool
is_ok (ok a) = true
is_ok (err e) = false

-- The first height that `SubscribeReplayInfo` reports is exactly the least one from which a
-- subscription at that moment is served, and where it reports none every request from a height
-- fails.
pub replay_info_first :
    (q now : ℕ) (r : ReplayBuffer)
    → is_ok (snapshot (some q) now r).0
      ≡ is_some_and ((replay_info now r).0.first_available_height) (λ first. leb first q)
unfolding snapshot replay_info check_requested
replay_info_first q now r = elim (Option-cases (first_available_height (evict now r))) [
  | inl e ↦ rw (e, snapshot, replay_info) refl
  | inr (h, e) ↦ rw (e, snapshot, replay_info) (ground arith)
]

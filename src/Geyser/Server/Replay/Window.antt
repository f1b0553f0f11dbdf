-- ===== src/Geyser/Server/Replay/Window.antt =====
-- `evict` of server.rs.
use zakura_grpc.Common.{
  ℕ, zero, suc, ◌-◌, ◌≤◌, ◌≡◌, refl, sym, ap, ◌∙◌, true, false, not, Option, none, some, List, [],
  ◌∷◌, ◌++◌, length, nat_eq, arith, Option-cases, inl, inr, is_some,
}
use zakura_grpc.Geyser.Server.Replay.{
  ReplayLimits, ReplayBucket, ReplayBuffer, EvictReason, count_down, evict_reason, evict_front,
  evict_loop, evict,
}
use zakura_grpc.Geyser.Server.Replay.Counts.{events_of, bytes_of, Counts, Counts-count_down}
use zakura_grpc.Geyser.Server.Replay.Within.{
  IsValid, is_within, longest_within, evict_reason_lem, is_within-nil, longest-yes, longest-no,
  is_within-longest, longest_suffix, longest_longest,
}

-- The result of `evict`: valid, with the longest end of the window that is within the limits.
pub record Evicted (now : ℕ) (bs : List ReplayBucket) (limits : ReplayLimits) (r : ReplayBuffer)
    : Type 0 where
  pub valid : IsValid r
  pub window : r.buckets ≡ longest_within limits now bs
  pub limits_kept : r.limits ≡ limits

evict_loop-zero : (now : ℕ) (r : ReplayBuffer) → evict_loop 0 now r ≡ r
unfolding evict_loop
evict_loop-zero now r = refl

evict_loop-none :
    (n now : ℕ) (r : ReplayBuffer) → evict_reason now r ≡ none → evict_loop n now r ≡ r
unfolding evict_loop
evict_loop-none zero now r e = refl
evict_loop-none (suc n) now r e = rw (e, evict_loop) refl

evict_loop-some :
    (n now : ℕ) (r : ReplayBuffer) (reason : EvictReason)
    → evict_reason now r ≡ some reason
    → evict_loop (suc n) now r ≡ evict_loop n now (evict_front r)
unfolding evict_loop
evict_loop-some n now r reason e = rw (e, evict_loop) refl

evict_loop_lem :
    (now : ℕ) (bs : List ReplayBucket) (limits : ReplayLimits) (counts : List (ℕ × ℕ)) (n m : ℕ)
    → Counts bs counts
    → n ≡ events_of bs
    → m ≡ bytes_of bs
    → Evicted now bs limits (
        evict_loop (length bs) now (record {
          limits = limits;
          buckets = bs;
          height_counts = counts;
          event_count = n;
          encoded_bytes = m;
        }))
unfolding evict_front events_of bytes_of
evict_loop_lem now [] limits counts n m c en em = rw (evict_loop-zero now _) (record {
  valid = record { counts = c; events = en; bytes = em };
  window = sym (longest-yes limits now [] (is_within-nil limits now));
  limits_kept = refl;
})
evict_loop_lem now (b ∷ bs) limits counts n m c en em =
    let r : ReplayBuffer = record {
      limits = limits;
      buckets = b ∷ bs;
      height_counts = counts;
      event_count = n;
      encoded_bytes = m;
    } in
    let v : IsValid r = record { counts = c; events = en; bytes = em } in
    let decided = evict_reason_lem now r v in
    elim (Option-cases (evict_reason now r)) [
      | inl e ↦ rw (evict_loop-none (suc (length bs)) now r e) (record {
        valid = v;
        window = sym (longest-yes limits now (b ∷ bs) (ground arith));
        limits_kept = refl;
      })
      | inr (reason, e) ↦
          let rest =
            evict_loop_lem now bs limits (count_down b.height counts) (n - length b.updates)
              (m - b.encoded_bytes) (Counts-count_down b bs counts c) (omega arith) (omega arith) in
          rw (evict_loop-some (length bs) now r reason e) (record {
            valid = rest.valid;
            window = rest.window ∙ sym (longest-no limits now b bs (ground arith));
            limits_kept = rest.limits_kept;
          })
    ]

pub evict-Evicted :
    (now : ℕ) (r : ReplayBuffer) → IsValid r → Evicted now r.buckets r.limits (evict now r)
unfolding evict
evict-Evicted now r v =
    evict_loop_lem now r.buckets r.limits r.height_counts r.event_count r.encoded_bytes v.counts
      v.events v.bytes

-- The loop of `evict` ends on every valid buffer, by one round for each bucket at most: after it
-- no limit asks for another eviction, although an empty buffer would make `evict_front` idle.
pub evict_ends : (now : ℕ) (r : ReplayBuffer) → IsValid r → evict_reason now (evict now r) ≡ none
evict_ends now r v =
    let k = evict-Evicted now r v in
    let within : is_within (evict now r).limits now (evict now r).buckets ≡ true =
      rw (k.limits_kept, k.window) (is_within-longest r.limits now r.buckets) in
    no_reason (evict_reason now (evict now r))
      (evict_reason_lem now (evict now r) k.valid ∙ ap not within)
  where
    no_reason : (o : Option EvictReason) → is_some o ≡ false → o ≡ none
    no_reason none h = refl
    no_reason (some x) h = cc

-- `evict` drops buckets from the front only, what is left is within every limit, and no longer
-- end of the queue is: nothing is evicted that the limits allow to keep.
pub evict_keeps_longest :
    (now : ℕ) (r : ReplayBuffer)
    → IsValid r
    → let kept = (evict now r).buckets in
      (is_within r.limits now kept ≡ true)
      × ((dropped : List ReplayBucket) × (r.buckets ≡ dropped ++ kept))
      × ((xs ys : List ReplayBucket)
          → r.buckets ≡ xs ++ ys
          → is_within r.limits now ys ≡ true
          → length ys ≤ length kept)
evict_keeps_longest now r v = rw ((evict-Evicted now r v).window) (
  is_within-longest r.limits now r.buckets,
  longest_suffix r.limits now r.buckets,
  λ xs ys e w. longest_longest r.limits now r.buckets xs ys e w,
)

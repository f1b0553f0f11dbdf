-- ===== src/Geyser/Server/Replay/Push.antt =====
-- `push_batch_at` of server.rs against a plain window of buckets.
use zakura_grpc.Common.{
  ℕ, ◌+◌, ◌≤◌, ◌<◌, ◌≡◌, refl, none, some, List, [], ◌∷◌, ◌++◌, length, nodup, eqb, nat_eq, map_get,
  u64_max, if◌then◌else◌, arith, Option-cases, Bool-cases, inl, inr, length-filter-le, filter,
  find_map,
}
use zakura_grpc.Geyser.Event.{block_height}
use zakura_grpc.Geyser.Server.Projection.{PublishedUpdate}
use zakura_grpc.Geyser.Server.Replay.{
  ReplayLimits, ReplayBucket, ReplayBuffer, encoded_sum, has_height, push_bucket, push_batch_at,
  empty_buffer,
}
use zakura_grpc.Geyser.Server.Replay.Counts.{
  buckets_at, events_of, bytes_of, Counts-count_up, events_of-append, bytes_of-append,
}
use zakura_grpc.Geyser.Server.Replay.Within.{IsValid, longest_within}
use zakura_grpc.Geyser.Server.Replay.Window.{evict-Evicted}

-- There is room to count the batch: no counter can overflow.
pub record HasRoom (updates : List PublishedUpdate) (r : ReplayBuffer) : Type 0 where
  pub few : length r.buckets < u64_max
  pub events : events_of r.buckets + length updates ≤ u64_max
  pub bytes : (h : ℕ) → bytes_of r.buckets + encoded_sum (filter (has_height h) updates) ≤ u64_max

push_bucket-IsValid :
    (now h : ℕ) (updates : List PublishedUpdate) (r : ReplayBuffer)
    → IsValid r
    → length r.buckets < u64_max
    → events_of r.buckets + length updates ≤ u64_max
    → bytes_of r.buckets + encoded_sum updates ≤ u64_max
    → IsValid (push_bucket now h updates r)
unfolding push_bucket
push_bucket-IsValid now h updates r v few events bytes =
    let b : ReplayBucket = record {
      height = h;
      inserted_at = now;
      updates = updates;
      encoded_bytes = encoded_sum updates;
    } in
    record {
      counts = Counts-count_up r.buckets r.height_counts b few v.counts;
      events = rw (events_of-append r.buckets b) (rw (v.events) (omega arith));
      bytes = rw (bytes_of-append r.buckets b) (rw (v.bytes) (omega arith));
    }

-- A batch as the window of buckets takes it: the updates of the first height that it has become
-- a bucket, and the longest end within the limits is kept.
pub window_push : ReplayLimits → ℕ → List PublishedUpdate → List ReplayBucket → List ReplayBucket
window_push limits now updates bs =
    if eqb limits.height_capacity 0
    then bs
    else elim (find_map (λ u. block_height u.message) updates) [
      | none ↦ longest_within limits now bs
      | some h ↦
          let of_height = filter (has_height h) updates in
          longest_within limits now (
            bs
            ++ record {
              height = h;
              inserted_at = now;
              updates = of_height;
              encoded_bytes = encoded_sum of_height;
            }
              ∷ [])
    ]

-- `push_batch_at` keeps the counters equal to what the buckets hold, and leaves the window that
-- the limits prescribe, when no counter can overflow.
pub push_refines_window :
    (now : ℕ) (updates : List PublishedUpdate) (r : ReplayBuffer)
    → IsValid r
    → HasRoom updates r
    → let pushed = push_batch_at updates now r in
      IsValid pushed
      × (pushed.buckets ≡ window_push r.limits now updates r.buckets)
      × (pushed.limits ≡ r.limits)
unfolding push_batch_at window_push push_bucket
push_refines_window now updates r v room = elim (Bool-cases (eqb r.limits.height_capacity 0)) [
  | inl off ↦ rw (off, push_batch_at, window_push) (v, refl, refl)
  | inr on ↦ elim (Option-cases (find_map (λ u. block_height u.message) updates)) [
    | inl e ↦
        let k = evict-Evicted now r v in
        rw (on, e, push_batch_at, window_push) (k.valid, k.window, k.limits_kept)
    | inr (h, e) ↦
        let of_height = filter (has_height h) updates in
        let k = evict-Evicted now (push_bucket now h of_height r) (
          push_bucket-IsValid now h of_height r v room.few
            (omega (arith, length-filter-le (has_height h) updates, room.events)) (room.bytes h)) in
        rw (on, e, push_batch_at, window_push) (k.valid, k.window, k.limits_kept)
  ]
]

pub IsValid-empty_buffer : (limits : ReplayLimits) → IsValid (empty_buffer limits)
unfolding empty_buffer events_of bytes_of buckets_at map_get nodup
IsValid-empty_buffer limits = record {
  counts = record { each = λ h. refl; distinct = refl };
  events = refl;
  bytes = refl;
}

pub encoded_sum-le : (us : List PublishedUpdate) → encoded_sum us ≤ u64_max
unfolding encoded_sum
encoded_sum-le [] = omega arith
encoded_sum-le (u ∷ us) = omega arith

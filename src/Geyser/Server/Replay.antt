-- ===== src/Geyser/Server/Replay.antt =====
-- `ReplayBuffer` of server.rs. An `Instant` and a `Duration` are numbers of one unit; the metrics
-- are left out.
pub mod Counts
pub mod Within
pub mod Window
pub mod Push
pub mod Extremes
pub mod Serve
use zakura_grpc.Common.{
  ℕ, zero, suc, ◌+◌, ◌-◌, ◌%◌, ◌^◌, Bool, true, false, not, ◌&&◌, ◌||◌, Option, none, some, String,
  List, [], ◌∷◌, ◌++◌, map, length, any, filter, filter_map, find_map, flat_map, is_empty, is_some,
  is_some_and, is_none, reverse, head?, get_last?, Result, ok, err, ◌>>=◌, ◌>>◌, reject_if, ltb,
  leb, eqb, nat_eq, string_eq, ◌==◌, keys, map_get, hash_put, map_remove, saturating_add, usize_max,
  u32_max, if◌then◌else◌, min, max,
}
use zakura_grpc.Proto.{
  SubscribeUpdate, Update, ResumeCheckpoint, SubscribeReplayInfoResponse, Bytes,
}
use zakura_grpc.Status.{Status, Message, out_of_range, failed_precondition}
use zakura_grpc.Geyser.Event.{block_height}
use zakura_grpc.Geyser.Server.Projection.{PublishedUpdate}

pub record ReplayLimits : Type 0 where
  pub height_capacity : ℕ
  pub event_capacity : ℕ
  pub byte_capacity : ℕ
  pub max_age : Option ℕ

pub record ReplayBucket : Type 0 where
  pub height : ℕ
  pub inserted_at : ℕ
  pub updates : List PublishedUpdate
  pub encoded_bytes : ℕ

pub record ReplayBuffer : Type 0 where
  pub limits : ReplayLimits
  pub buckets : List ReplayBucket
  pub height_counts : List (ℕ × ℕ)
  pub event_count : ℕ
  pub encoded_bytes : ℕ

pub record ReplaySnapshot : Type 0 where
  pub updates : List PublishedUpdate
  pub watermark : ℕ

-- `ReplayBuffer::new`
unfoldable pub empty_buffer : ReplayLimits → ReplayBuffer
empty_buffer limits = record {
  limits = limits;
  buckets = [];
  height_counts = [];
  event_count = 0;
  encoded_bytes = 0;
}

abbrev pub unwrap_or {ℓ} : {A : Type ℓ} → Option A → A → A
unwrap_or none d = d
unwrap_or (some a) d = a

-- `*self.height_counts.entry(height).or_default() += 1`
unfoldable pub count_up : ℕ → List (ℕ × ℕ) → List (ℕ × ℕ)
count_up h counts = hash_put h ((unwrap_or (map_get h counts) 0 + 1) % 2 ^ 64) counts

-- The `get_mut` of `evict_front`.
unfoldable pub count_down : ℕ → List (ℕ × ℕ) → List (ℕ × ℕ)
count_down h counts = elim (map_get h counts) [
  | none ↦ counts
  | some n ↦ if eqb (n - 1) 0 then map_remove h counts else hash_put h (n - 1) counts
]

-- Whether the bucket at the front is too old.
abbrev pub is_expired : ReplayLimits → ℕ → List ReplayBucket → Bool
is_expired limits now [] = false
is_expired limits now (b ∷ bs) = is_some_and limits.max_age (λ age. ltb age (now - b.inserted_at))

pub data EvictReason : Type 0 where
  age height events bytes : EvictReason

unfoldable pub evict_reason : ℕ → ReplayBuffer → Option EvictReason
evict_reason now r =
    if is_expired r.limits now r.buckets
    then some EvictReason.age
    else if ltb r.limits.height_capacity (length r.height_counts)
    then some EvictReason.height
    else if ltb r.limits.event_capacity r.event_count
    then some EvictReason.events
    else if ltb r.limits.byte_capacity r.encoded_bytes
    then some EvictReason.bytes
    else none

unfoldable pub evict_front : ReplayBuffer → ReplayBuffer
evict_front r = elim r.buckets [
  | [] ↦ r
  | bucket ∷ rest ↦ record r {
    buckets = rest;
    event_count = r.event_count - length bucket.updates;
    encoded_bytes = r.encoded_bytes - bucket.encoded_bytes;
    height_counts = count_down bucket.height r.height_counts;
  }
]

-- The loop of `evict`, on fuel.
unfoldable pub evict_loop : ℕ → ℕ → ReplayBuffer → ReplayBuffer
evict_loop zero now r = r
evict_loop (suc n) now r = elim (evict_reason now r) [
  | none ↦ r
  | some reason ↦ evict_loop n now (evict_front r)
]

unfoldable pub evict : ℕ → ReplayBuffer → ReplayBuffer
evict now r = evict_loop (length r.buckets) now r

-- `sum::<usize>()` of the encoded lengths
unfoldable pub encoded_sum : List PublishedUpdate → ℕ
encoded_sum [] = 0
encoded_sum (u ∷ us) = (u.encoded_len + encoded_sum us) % 2 ^ 64

abbrev pub has_height : ℕ → PublishedUpdate → Bool
has_height h u = is_some_and (block_height u.message) (eqb h)

unfoldable pub push_bucket : ℕ → ℕ → List PublishedUpdate → ReplayBuffer → ReplayBuffer
push_bucket now h updates r = record r {
  height_counts = count_up h r.height_counts;
  event_count = saturating_add r.event_count (length updates);
  encoded_bytes = saturating_add r.encoded_bytes (encoded_sum updates);
  buckets =
      r.buckets
      ++ record {
        height = h;
        inserted_at = now;
        updates = updates;
        encoded_bytes = encoded_sum updates;
      }
        ∷ [];
}

unfoldable pub push_batch_at : List PublishedUpdate → ℕ → ReplayBuffer → ReplayBuffer
push_batch_at updates now r =
    if eqb r.limits.height_capacity 0
    then r
    else elim (find_map (λ u. block_height u.message) updates) [
      | none ↦ evict now r
      | some h ↦ evict now (push_bucket now h (filter (has_height h) updates) r)
    ]

-- `keys().copied().min()` and `max()`
unfoldable pub minimum : List ℕ → Option ℕ
minimum [] = none
minimum (h ∷ hs) = elim (minimum hs) [ none ↦ some h | some m ↦ some (min h m) ]

unfoldable pub maximum : List ℕ → Option ℕ
maximum [] = none
maximum (h ∷ hs) = elim (maximum hs) [ none ↦ some h | some m ↦ some (max h m) ]

abbrev pub first_available_height : ReplayBuffer → Option ℕ
first_available_height r = minimum (keys r.height_counts)

abbrev pub latest_height : ReplayBuffer → Option ℕ
latest_height r = maximum (keys r.height_counts)

abbrev pub last_update : List ReplayBucket → Option PublishedUpdate
last_update bs = elim (get_last? bs) [ none ↦ none | some b ↦ get_last? b.updates ]

abbrev pub watermark_of : List ReplayBucket → ℕ
watermark_of bs = elim (last_update bs) [ none ↦ 0 | some u ↦ u.message.sequence ]

unfoldable pub updates_from : ℕ → List ReplayBucket → List PublishedUpdate
updates_from requested bs = flat_map (λ b. b.updates) (filter (λ b. leb requested b.height) bs)

-- The checks of `snapshot` against the first height that is available.
unfoldable pub check_requested : Option ℕ → Option ℕ → Result Status (Unit {0})
check_requested none first = ok tt
check_requested (some requested) none = err (out_of_range (Message.replay_window_empty requested))
check_requested (some requested) (some first) =
    reject_if (ltb requested first) (out_of_range (Message.height_evicted requested first))

-- `snapshot`, and the buffer that it leaves
unfoldable pub snapshot : Option ℕ → ℕ → ReplayBuffer → Result Status ReplaySnapshot × ReplayBuffer
snapshot from_height now r =
    let kept = evict now r in
    (
      check_requested from_height (first_available_height kept)
          >> ok (record {
            updates = elim from_height [
              | none ↦ []
              | some requested ↦ updates_from requested kept.buckets
            ];
            watermark = watermark_of kept.buckets;
          }),
      kept,
    )

abbrev pub is_finalized_block : String → PublishedUpdate → Bool
is_finalized_block hash u = elim u.message.update [
  | some (Update.block b) ↦ b.finalized && b.hash == hash
  | _ ↦ false
]

unfoldable pub verify_checkpoint : ResumeCheckpoint → ReplayBuffer → Result Status (Unit {0})
verify_checkpoint c r =
    if any
      (λ b.
        b.height == c.finalized_height && any (is_finalized_block c.finalized_block_hash) b.updates)
      r.buckets
    then ok tt
    else if any (λ b. b.height == c.finalized_height) r.buckets
    then err (failed_precondition (Message.checkpoint_hash_mismatch c.finalized_height))
    else err (out_of_range (Message.checkpoint_not_retained c.finalized_height))

abbrev pub update_block_hash : SubscribeUpdate → Option String
update_block_hash u = elim u.update [
  | some (Update.block b) ↦ some b.hash
  | some (Update.best_chain c) ↦ some c.hash
  | some (Update.transaction t) ↦ some t.block_hash
  | some (Update.utxo x) ↦ some x.block_hash
  | _ ↦ none
]

abbrev pub hash_of : PublishedUpdate → Option String
hash_of u = update_block_hash u.message

pub first_hash : ReplayBuffer → Option String
first_hash r = elim (first_available_height r) [
  | none ↦ none
  | some h ↦ find_map hash_of (flat_map (λ b. b.updates) (filter (λ b. b.height == h) r.buckets))
]

pub latest_hash : ReplayBuffer → Option String
latest_hash r = elim (latest_height r) [
  | none ↦ none
  | some h ↦
      find_map hash_of
        (flat_map (λ b. reverse b.updates) (filter (λ b. b.height == h) (reverse r.buckets)))
]

abbrev pub first_update : List ReplayBucket → Option PublishedUpdate
first_update bs = elim (head? bs) [ none ↦ none | some b ↦ head? b.updates ]

-- `SharedState::replay_info`, and the buffer that it leaves
unfoldable pub replay_info : ℕ → ReplayBuffer → SubscribeReplayInfoResponse × ReplayBuffer
replay_info now r =
    let kept = evict now r in
    let first = first_update kept.buckets in
    let last = last_update kept.buckets in
    (
      record {
        first_available_height = first_available_height kept;
        latest_height = latest_height kept;
        retained_block_capacity = min kept.limits.height_capacity u32_max;
        session_id = elim first [ none ↦ [] | some u ↦ u.message.session_id ];
        first_available_sequence = elim first [ none ↦ none | some u ↦ some u.message.sequence ];
        latest_sequence = elim last [ none ↦ none | some u ↦ some u.message.sequence ];
        first_available_hash = first_hash kept;
        latest_hash = latest_hash kept;
        replay_ready = is_some first;
      },
      kept,
    )

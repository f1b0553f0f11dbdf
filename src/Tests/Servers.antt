-- ===== src/Tests/Servers.antt =====
-- The theorems on the server at concrete inputs.
use zakura_grpc.Common.{
  ℕ, ◌≤◌, ◌≡◌, true, false, none, some, List, [], ◌∷◌, ◌++◌, length, map, is_some_and, filter,
  string_eq, nat_eq, leb, arith, suc, ◌<◌, ◌^◌, ◌⊎◌,
}
use zakura_grpc.Geyser.Server.Varint.{encoded_varint_len, encoded_varint_len_lem}
use zakura_grpc.Proto.{BlockPayload, TransactionPayload}
use zakura_grpc.Geyser.Server.Projection.{PublishedUpdate, publish, empty_cache}
use zakura_grpc.Geyser.Server.Cache.{answers, projected, answers_are_projections}
use zakura_grpc.Geyser.Server.Replay.{
  ReplayLimits, ReplayBucket, ReplayBuffer, empty_buffer, evict, evict_reason, push_batch_at,
  snapshot, replay_info, has_height,
}
use zakura_grpc.Geyser.Server.Replay.Counts.{events_of, bytes_of}
use zakura_grpc.Geyser.Server.Replay.Within.{IsValid, is_within, longest_within}
use zakura_grpc.Geyser.Server.Replay.Window.{evict_ends, evict_keeps_longest}
use zakura_grpc.Geyser.Server.Replay.Push.{
  HasRoom, window_push, push_refines_window, encoded_sum-le, IsValid-empty_buffer,
}
use zakura_grpc.Geyser.Server.Replay.Serve.{Serves, snapshot-Serves, is_ok, replay_info_first}
use zakura_grpc.Tests.Samples.{sample_len, block_at}

abbrev two_heights : ReplayLimits
two_heights = record {
  height_capacity = 2;
  event_capacity = 100;
  byte_capacity = 1_000;
  max_age = some 60;
}

abbrev published_at : ℕ → ℕ → PublishedUpdate
published_at height sequence = record {
  message = block_at height "aa" false sequence;
  encoded_len = 10;
  projections = empty_cache;
}

abbrev batch : List PublishedUpdate
batch = published_at 5 1 ∷ []

HasRoom-batch : HasRoom batch (empty_buffer two_heights)
unfolding empty_buffer events_of bytes_of
HasRoom-batch = record {
  few = omega arith;
  events = omega arith;
  bytes = λ h. omega (arith, encoded_sum-le (filter (has_height h) batch));
}

push_refines_window_example :
    let pushed = push_batch_at batch 7 (empty_buffer two_heights) in
    IsValid pushed
    × (pushed.buckets
        ≡ window_push
            ((empty_buffer two_heights).limits)
            7
            batch
            ((empty_buffer two_heights).buckets))
    × (pushed.limits ≡ (empty_buffer two_heights).limits)
push_refines_window_example =
    push_refines_window 7 batch (empty_buffer two_heights) (IsValid-empty_buffer two_heights)
      HasRoom-batch

-- A buffer that holds one bucket.
pushed_once : ReplayBuffer
pushed_once = push_batch_at batch 7 (empty_buffer two_heights)

IsValid-pushed_once : IsValid pushed_once
unfolding pushed_once
IsValid-pushed_once =
    (push_refines_window 7 batch (empty_buffer two_heights) (IsValid-empty_buffer two_heights)
      HasRoom-batch).0

snapshot-Serves_example :
    Serves 5
      (longest_within pushed_once.limits 9 pushed_once.buckets)
      (snapshot (some 5) 9 pushed_once).0
snapshot-Serves_example = snapshot-Serves 5 9 pushed_once IsValid-pushed_once

evict_ends_example : evict_reason 100 (evict 100 pushed_once) ≡ none
evict_ends_example = evict_ends 100 pushed_once IsValid-pushed_once

evict_keeps_longest_example :
    let kept = (evict 100 pushed_once).buckets in
    (is_within pushed_once.limits 100 kept ≡ true)
    × ((dropped : List ReplayBucket) × (pushed_once.buckets ≡ dropped ++ kept))
    × ((xs ys : List ReplayBucket)
        → pushed_once.buckets ≡ xs ++ ys
        → is_within pushed_once.limits 100 ys ≡ true
        → length ys ≤ length kept)
evict_keeps_longest_example = evict_keeps_longest 100 pushed_once IsValid-pushed_once

replay_info_first_example :
    is_ok (snapshot (some 4) 9 pushed_once).0
    ≡ is_some_and ((replay_info 9 pushed_once).0.first_available_height) (λ first. leb first 4)
replay_info_first_example = replay_info_first 4 9 pushed_once

abbrev modes : List (BlockPayload × TransactionPayload)
modes =
    (BlockPayload.meta_only, TransactionPayload.full)
    ∷ (BlockPayload.meta_only, TransactionPayload.raw_only)
    ∷ []

answers_are_projections_example :
    answers sample_len (publish sample_len (block_at 5 "aa" false 1)) modes
    ≡ map (λ r. projected sample_len (block_at 5 "aa" false 1) (r.0) (r.1)) modes
answers_are_projections_example = answers_are_projections sample_len (block_at 5 "aa" false 1) modes

encoded_varint_len_lem_example :
    (k : ℕ) × (encoded_varint_len 300 ≡ some (suc k))
    × (suc k ≤ 10)
    × (300 < 128 ^ suc k)
    × ((k ≡ 0) ⊎ (128 ^ k ≤ 300))
encoded_varint_len_lem_example = encoded_varint_len_lem 300 (omega arith)

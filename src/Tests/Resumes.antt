-- ===== src/Tests/Resumes.antt =====
-- The theorems on the checkpoint of a client at a concrete server.
use zakura_grpc.Common.{
  true, false, some, [], ◌∷◌, ◌≡◌, refl, reverse, values, string_eq, nat_eq, text_ord, arith,
  map_get, nodup, contains, set_insert,
}
use zakura_grpc.Proto.{default_request}
use zakura_grpc.Geyser.Server.Projection.{empty_cache}
use zakura_grpc.Geyser.Server.Mempool.{empty_mempool}
use zakura_grpc.Geyser.Server.Replay.{ReplayLimits}
use zakura_grpc.Geyser.Server.Replay.Counts.{events_of, bytes_of, buckets_at}
use zakura_grpc.Geyser.Server.Replay.Within.{IsValid, is_within, distinct_heights, longest_within}
use zakura_grpc.Geyser.Server.Subscribe.{SharedState, subscribe}
use zakura_grpc.Client.Resume.{ChainResumeState, checkpoint}
use zakura_grpc.Client.Resume.Partial.{IsChain}
use zakura_grpc.Client.Resume.Held.{holds, has_bucket, Refuses, refusal, is_final, tells_final}
use zakura_grpc.Client.Resume.Answer.{Resumed, checkpoint_resumes, checkpoint_refused}
use zakura_grpc.Tests.Samples.{sample_len, block_at}

abbrev one_minute : ReplayLimits
one_minute = record {
  height_capacity = 2;
  event_capacity = 100;
  byte_capacity = 1_000;
  max_age = some 60;
}

-- A buffer with the finalized block at height 5.
abbrev holding : SharedState
holding = record {
  replay = record {
    limits = one_minute;
    buckets =
        record {
          height = 5;
          inserted_at = 7;
          updates =
              record {
                message = block_at 5 "aa" true 1;
                encoded_len = 10;
                projections = empty_cache;
              }
              ∷ [];
          encoded_bytes = 10;
        }
        ∷ [];
    height_counts = (5, 1) ∷ [];
    event_count = 1;
    encoded_bytes = 10;
  };
  mempool = empty_mempool;
}

IsValid-holding : IsValid holding.replay
unfolding events_of bytes_of buckets_at map_get nodup contains
IsValid-holding = record {
  counts = record { each = λ h. ground arith; distinct = refl };
  events = refl;
  bytes = refl;
}

abbrev behind : ChainResumeState
behind = record {
  finalized = some (5, "aa");
  partial = ((6, "bb"), record { height = 6; hash = "bb"; previous_block_hash = "aa" }) ∷ [];
}

IsChain-behind : IsChain behind
IsChain-behind = record { ascending = (tt, tt); fits = ((refl, refl), tt) }

held : holds (5, "aa") (longest_within one_minute 9 holding.replay.buckets) ≡ true
unfolding holds longest_within is_within distinct_heights set_insert events_of bytes_of tells_final
    is_final contains
held = refl

checkpoint_resumes_example :
    Resumed sample_len
      (5, "aa")
      (reverse (values behind.partial))
      (longest_within holding.replay.limits 9 holding.replay.buckets)
      (subscribe sample_len
        (record default_request { resume = checkpoint behind; from_height = some 5 })
        9
        holding)
checkpoint_resumes_example =
    checkpoint_resumes sample_len behind (5, "aa") default_request 9 holding IsChain-behind refl
      refl IsValid-holding held

-- A client whose finalized block is not the one of the server.
abbrev elsewhere : ChainResumeState
elsewhere = record { finalized = some (5, "cc"); partial = [] }

not_held : holds (5, "cc") holding.replay.buckets ≡ false
unfolding holds tells_final is_final
not_held = refl

checkpoint_refused_example : Refuses (refusal (has_bucket 5 holding.replay.buckets)) (
    subscribe sample_len
      (record default_request { resume = checkpoint elsewhere; from_height = some 5 })
      9
      holding)
checkpoint_refused_example =
    checkpoint_refused sample_len elsewhere (5, "cc") default_request 9 holding
      (record { ascending = tt; fits = tt }) refl refl not_held

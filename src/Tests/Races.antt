-- ===== src/Tests/Races.antt =====
-- A subscription that joins while a batch is published, at concrete inputs.
use zakura_grpc.Common.{
  pos, some, ◌≡◌, refl, true, false, none, List, [], ◌∷◌, ◌++◌, all, any, find_map, filter,
  hash_put, map_get, leb, arith,
}
use zakura_grpc.Geyser.Event.{block_height}
use zakura_grpc.Geyser.Config.{default_config, default_limits}
use zakura_grpc.Geyser.Filter.Request.{EventFilter}
use zakura_grpc.Geyser.Server.Projection.{
  PublishedUpdate, publish, apply_payload_projection, project_block,
}
use zakura_grpc.Geyser.Server.Mempool.{publish_mempool, is_mempool_update}
use zakura_grpc.Geyser.Server.Replay.{
  ReplaySnapshot, snapshot, check_requested, evict, evict_loop, evict_reason, evict_front,
  push_batch_at, push_bucket, count_up, encoded_sum, empty_buffer,
}
use zakura_grpc.Geyser.Server.Subscribe.{new_state, publish_batch}
use zakura_grpc.Geyser.Server.Stream.Runs.{Rises, run_stream, run_stream-Rises}
use zakura_grpc.Tests.Streams.{to_all}
use zakura_grpc.Proto.{default_request}
use zakura_grpc.Geyser.Server.Stream.{Channel, Event, new_stream, send_all}
use zakura_grpc.Geyser.Server.Stream.Live.{accepting, Rising, unseen, run_live}
use zakura_grpc.Geyser.Server.Stream.Race.{Subscriber, Race, Step, Reaches, Races}
use zakura_grpc.Geyser.Server.Stream.Joins.{joins_without_gap}
use zakura_grpc.Tests.Samples.{sample_chain, sample_len, block_at}

abbrev everything : EventFilter
everything = record { default_all = true; legacy = none; named = []; needs_addresses = false }

-- The receiver is there before the first block is published.
abbrev with_receiver : Race
with_receiver = record {
  state = new_state 1 default_config;
  pending = [];
  last = 0;
  subscriber = Subscriber.listening [];
}

abbrev with_batch : Race
with_batch = record {
  state = (publish_batch sample_len (block_at 9 "aa" false 1 ∷ []) 7 (with_receiver.state)).1;
  pending = (publish_batch sample_len (block_at 9 "aa" false 1 ∷ []) 7 (with_receiver.state)).0;
  last = 1;
  subscriber = Subscriber.listening [];
}

abbrev replay : ReplaySnapshot
replay = record { updates = []; watermark = 1 }

-- The block is in the buffer, and not yet in the ring.
abbrev with_snapshot : Race
with_snapshot = record with_batch {
  state = record with_batch.state { replay = (snapshot none 8 (with_batch.state.replay)).1 };
  subscriber = Subscriber.joined replay [] [];
}

Races-with_receiver : Races with_receiver
unfolding new_state empty_buffer
Races-with_receiver = record {
  ordered = record { base = 0; bounded = omega arith; rising = tt; upto = tt };
  stored = tt;
}

pushes : Step sample_len with_receiver with_batch
unfolding publish_batch publish_mempool any is_mempool_update publish apply_payload_projection
pushes = Step.pushed with_receiver (block_at 9 "aa" false 1 ∷ []) 7 refl (omega arith, tt)

joining : Step sample_len with_batch with_snapshot
unfolding publish_batch publish_mempool any is_mempool_update publish apply_payload_projection
    snapshot check_requested evict evict_loop evict_reason evict_front push_batch_at push_bucket
    count_up encoded_sum new_state empty_buffer find_map filter block_height hash_put map_get
    project_block
joining = Step.replayed with_batch [] none 8 replay refl refl

joins_without_gap_example :
    (raced later : List PublishedUpdate) × ([] ++ with_snapshot.pending ≡ raced ++ (later ++ []))
    × (all (λ u. leb u.message.sequence (replay.watermark)) raced ≡ true)
    × Rising (replay.watermark) (later ++ [])
    × (run_live sample_chain sample_len default_limits
          ([] ++ with_snapshot.pending)
          (new_stream everything (replay.watermark, none))
        ≡ send_all sample_len everything (unseen none (later ++ [])))
joins_without_gap_example =
    joins_without_gap sample_len sample_chain default_limits with_receiver with_snapshot replay []
      [] everything none
      (Reaches.next _ _ _ (Reaches.next _ _ _ (Reaches.here with_receiver) pushes) joining)
      Races-with_receiver refl

-- Updates out of order and twice, with a tick of the timer and a ping of the client between them.
abbrev delivered : List (Channel × Event)
delivered =
    (accepting, Event.live (publish sample_len (block_at 9 "aa" false 6)))
    ∷ (accepting, Event.live (publish sample_len (block_at 9 "aa" false 5)))
    ∷ (accepting, Event.tick)
    ∷ (accepting, Event.request (record default_request { ping = some (record { id = pos 1 }) }))
    ∷ (accepting, Event.live (publish sample_len (block_at 9 "aa" false 6)))
    ∷ (accepting, Event.live (publish sample_len (block_at 9 "aa" false 8)))
    ∷ []

run_stream-Rises_example :
    Rises 4 (run_stream sample_chain sample_len default_limits delivered to_all).0
run_stream-Rises_example =
    run_stream-Rises sample_chain sample_len default_limits delivered to_all
      ((_, refl), ((_, refl), (tt, (tt, ((_, refl), ((_, refl), tt))))))

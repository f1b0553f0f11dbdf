-- ===== src/Tests/Clients.antt =====
-- The theorems on the client at concrete inputs.
use zakura_grpc.Common.{
  ℕ, suc, ◌≡◌, refl, true, false, none, some, List, [], ◌∷◌, negsuc, any, all, contains, nodup,
  Result, err, string_eq, nat_eq, arith,
}
use zakura_grpc.Status.{Message, out_of_range}
use zakura_grpc.Proto.{SubscribeRequest, SubscribeUpdate, default_request}
use zakura_grpc.Geyser.Server.Mempool.{empty_mempool}
use zakura_grpc.Geyser.Server.Subscribe.{SharedState}
use zakura_grpc.Client.Dedup.{
  EventKey, key_eq, observe as dedup_observe, update_height, with_height_retention,
}
use zakura_grpc.Client.Dedup.Observe.{
  IsValid, observe-IsValid, IsValid-with_height_retention, observe_refines_window, window_observe,
}
use zakura_grpc.Client.Dedup.Runs.{block_keys, Within}
use zakura_grpc.Client.Resume.{ChainResumeState, checkpoint, from_request, observe}
use zakura_grpc.Client.Resume.Partial.{IsChain, observe-IsChain}
use zakura_grpc.Client.Resume.Checkpoint.{checkpoint_round_trip}
use zakura_grpc.Client.Reconnect.{
  ReconnectConfig, ReconnectionPolicy, ReplayGapPolicy, Session, ZakuraGrpcClientError, new_session,
  reconnect_subscription, connect_with_backoff,
}
use zakura_grpc.Client.Reconnect.Attempts.{IsOutcome, connect_with_backoff_lem}
use zakura_grpc.Client.Reconnect.Recovery.{connect_to, skip_to_live_refused}
use zakura_grpc.Client.Reconnect.Handling.{handle_all}
use zakura_grpc.Client.Reconnect.Handling.Delivery.{
  outputs, Sends, session-Sends, session_exactly_once,
}
use zakura_grpc.Tests.Samples.{sample_len, block_at, ping_of}

-- A block, a ping of the server, and the block again.
abbrev replayed : List SubscribeUpdate
replayed = block_at 5 "aa" false 1 ∷ ping_of (negsuc 0) ∷ block_at 5 "aa" false 1 ∷ []

Within-replayed : Within (5 ∷ []) replayed
unfolding Within all update_height contains
Within-replayed = refl

observe-IsValid_example :
    IsValid (dedup_observe (with_height_retention 2) (block_at 5 "aa" false 1)).0
observe-IsValid_example =
    observe-IsValid (with_height_retention 2) (block_at 5 "aa" false 1)
      (IsValid-with_height_retention 2)

observe_refines_window_example :
    (
      (dedup_observe (with_height_retention 2) (block_at 5 "aa" false 1)).0.heights,
      (dedup_observe (with_height_retention 2) (block_at 5 "aa" false 1)).1,
    )
    ≡ window_observe
        (with_height_retention 2).height_retention
        (with_height_retention 2).heights
        (block_at 5 "aa" false 1)
observe_refines_window_example =
    observe_refines_window (with_height_retention 2) (block_at 5 "aa" false 1)
      (IsValid-with_height_retention 2)

abbrev recovering : ReconnectConfig
recovering = record {
  backoff = record { max_retries = 3 };
  policy = ReconnectionPolicy.recover_missed_data 2;
  checkpoint_height_buffer = 2;
  replay_gap_policy = ReplayGapPolicy.skip_to_live;
}

session_exactly_once_example :
    let got =
      block_keys
        (outputs (handle_all replayed (new_session default_request (some recovering))).1) in
    (nodup got ≡ true) × ((k : EventKey) → contains got k ≡ contains (block_keys replayed) k)
session_exactly_once_example =
    session_exactly_once default_request recovering 2 (5 ∷ []) replayed refl (omega arith)
      (omega arith) Within-replayed

session-Sends_example :
    Sends replayed
      (new_session default_request (some recovering))
      (handle_all replayed (new_session default_request (some recovering))).1
session-Sends_example = session-Sends replayed (new_session default_request (some recovering))

-- A client that has seen block 5 finalized and block 6 accepted.
abbrev resuming : ChainResumeState
resuming = record {
  finalized = some (5, "aa");
  partial = ((6, "bb"), record { height = 6; hash = "bb"; previous_block_hash = "aa" }) ∷ [];
}

IsChain-resuming : IsChain resuming
IsChain-resuming = record { ascending = (tt, tt); fits = ((refl, refl), tt) }

observe-IsChain_example : IsChain (observe (block_at 6 "bb" true 3) resuming)
observe-IsChain_example = observe-IsChain (block_at 6 "bb" true 3) resuming IsChain-resuming

checkpoint_round_trip_example :
    from_request (record default_request { resume = checkpoint resuming }) ≡ resuming
checkpoint_round_trip_example =
    checkpoint_round_trip resuming (5, "aa") default_request IsChain-resuming refl

-- A server that is never reached.
abbrev unreachable : ℕ → SubscribeRequest → Result ZakuraGrpcClientError (Unit {0})
unreachable n r = err (ZakuraGrpcClientError.transport "refused")

connect_with_backoff_lem_example :
    (last : ℕ) × IsOutcome unreachable 0 4 last default_request
      (connect_with_backoff unreachable (recovering.backoff) 0 default_request).0
    × ((connect_with_backoff unreachable (recovering.backoff) 0 default_request).1 ≡ suc last)
connect_with_backoff_lem_example =
    connect_with_backoff_lem unreachable (recovering.backoff) 0 default_request

abbrev resuming_session : Session
resuming_session = record {
  current_request = default_request;
  checkpoint = some 6;
  chain = resuming;
  dedup = some (with_height_retention 2);
  commands_open = true;
}

-- A server that has just started.
abbrev restarted : SharedState
restarted = record {
  replay = record {
    limits = record {
      height_capacity = 10;
      event_capacity = 10;
      byte_capacity = 10;
      max_age = none;
    };
    buckets = [];
    height_counts = [];
    event_count = 0;
    encoded_bytes = 0;
  };
  mempool = empty_mempool;
}

skip_to_live_refused_example :
    (reconnect_subscription (connect_to sample_len 7 restarted) recovering 0 resuming_session).0
    ≡ (err (ZakuraGrpcClientError.status (out_of_range (Message.checkpoint_not_retained 5))), 2)
unfolding any
skip_to_live_refused_example =
    skip_to_live_refused sample_len 7 restarted recovering resuming_session (5, "aa") 2 0 refl refl
      IsChain-resuming refl refl refl

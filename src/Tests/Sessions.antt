-- ===== src/Tests/Sessions.antt =====
-- The theorems on whole sessions of the client at concrete inputs.
use zakura_grpc.Common.{ℕ, ◌≡◌, refl, true, none, some, List, [], ◌∷◌, Result, ok, Option, All}
use zakura_grpc.Status.{Message, unavailable}
use zakura_grpc.Proto.{SubscribeRequest, default_request}
use zakura_grpc.Client.Resume.{from_request}
use zakura_grpc.Client.Resume.Partial.{IsChain, IsChain-empty_chain}
use zakura_grpc.Client.Reconnect.{
  ReconnectConfig, ReconnectionPolicy, ReplayGapPolicy, ZakuraGrpcClientError, new_session,
  reconnect_request, is_recoverable_status,
}
use zakura_grpc.Client.Reconnect.Loop.{Incoming, Event, run_from, run_subscription}
use zakura_grpc.Client.Reconnect.Loop.Live.{Succeeds, Harmless, is_recovered, session_goes_on}
use zakura_grpc.Client.Reconnect.Loop.Kept.{Hashed, KnownHash}
use zakura_grpc.Client.Reconnect.Loop.Resumed.{resumes_validly}
use zakura_grpc.Geyser.Server.Subscribe.{replay_height}
use zakura_grpc.Tests.Samples.{block_at}

abbrev recovering : ReconnectConfig
recovering = record {
  backoff = record { max_retries = 0 };
  policy = ReconnectionPolicy.recover_missed_data 100;
  checkpoint_height_buffer = 5;
  replay_gap_policy = ReplayGapPolicy.fail;
}

-- Every attempt to connect succeeds.
abbrev always : ℕ → SubscribeRequest → Result ZakuraGrpcClientError ℕ
always n r = ok n

abbrev event : Incoming → Event
event incoming = record { incoming = incoming; request_open = true; output_open = true }

-- A finalized block, a failure of the stream, the end of the stream, and a new filter.
abbrev eventful : List Event
eventful =
    event (Incoming.update (block_at 9 "aa" true 3))
    ∷ event (Incoming.failed (unavailable (Message.remote "reset")))
    ∷ event Incoming.ended
    ∷ event (Incoming.command default_request)
    ∷ []

always-Succeeds : (n : ℕ) (r : SubscribeRequest) → Succeeds always 0 n r
unfolding Succeeds
always-Succeeds n r = (n, refl)

eventful-Harmless : All (Harmless recovering) eventful
unfolding is_recovered is_recoverable_status
eventful-Harmless = ((refl, tt), ((refl, refl), ((refl, tt), ((refl, tt), tt))))

eventful-Hashed : All Hashed eventful
eventful-Hashed = (refl, (tt, (tt, (tt, tt))))

session_goes_on_example :
    ((run_from always
        (some recovering)
        eventful
        0
        (new_session default_request (some recovering))).running
      ≡ true)
    × ((run_from always
          (some recovering)
          eventful
          0
          (new_session default_request (some recovering))).reported
        ≡ none)
session_goes_on_example =
    session_goes_on always recovering always-Succeeds eventful 0
      (new_session default_request (some recovering)) eventful-Harmless

from_default-IsChain : IsChain (from_request default_request)
unfolding from_request
from_default-IsChain = IsChain-empty_chain

from_default-KnownHash : KnownHash (from_request default_request).finalized
unfolding from_request
from_default-KnownHash = tt

resumes_validly_example :
    (from_height : Option ℕ) × (replay_height (
        reconnect_request recovering
          (run_subscription always default_request (some recovering) eventful).session)
      ≡ ok from_height)
resumes_validly_example =
    resumes_validly always default_request recovering eventful from_default-IsChain
      from_default-KnownHash eventful-Hashed

-- ===== src/Tests/Services.antt =====
-- The theorems on the service at concrete inputs.
use zakura_grpc.Common.{refl, true, false, none, some, [], ◌∷◌, ok, arith, map_get, any}
use zakura_grpc.Proto.{default_request}
use zakura_grpc.Geyser.Config.{Config, default_config, default_limits}
use zakura_grpc.Geyser.Auth.{RequestMetadata, acquire_for, authorize, subscriber_id}
use zakura_grpc.Geyser.Auth.Guards.{IsSound-idle}
use zakura_grpc.Geyser.Filter.Request.{new_filter, compile_legacy, compile_all, sort_named}
use zakura_grpc.Geyser.Server.Mempool.Filed.{IsValid-empty_mempool}
use zakura_grpc.Geyser.Server.Subscribe.{
  InitialSubscription, new_state, subscribe, replay_height, verify_resume, state_after,
}
use zakura_grpc.Geyser.Server.Replay.{snapshot, check_requested, evict, evict_loop, empty_buffer}
use zakura_grpc.Geyser.Service.{
  SubscriptionContext, new_service, admit, open_stream, receive_initial_filter,
}
use zakura_grpc.Geyser.Service.Running.{Running, Step, Reaches, Served}
use zakura_grpc.Geyser.Service.Served.{reached-Served}
use zakura_grpc.Tests.Samples.{sample_chain, sample_len}

abbrev strict : Config
strict = record default_config { subscription_limit = 2; subscription_limit_enforce = true }

abbrev before_calls : Running
unfolding new_state
before_calls = record {
  service = new_service 1 (new_state 1 strict) strict;
  waiting = [];
  streams = [];
}

abbrev caller : RequestMetadata
caller = record { x_token = none; x_subscription_id = some "app"; remote_ip = none }

Served-before_calls : Served 2 before_calls
unfolding before_calls
Served-before_calls = record {
  guarded = record { enforced = refl; sound = IsSound-idle 2 };
  pool = IsValid-empty_mempool;
}

-- A call is admitted.
abbrev after_admission : Running
after_admission = record before_calls {
  service = (admit caller (before_calls.service)).1;
  waiting = "app" ∷ [];
}

admitted_app : Step sample_chain sample_len before_calls after_admission
unfolding before_calls admit authorize acquire_for subscriber_id map_get
admitted_app = Step.admitted before_calls caller "app" refl

abbrev started : InitialSubscription
started = record {
  replay = record { updates = []; watermark = 0 };
  mempool = none;
  reconnect = none;
}

abbrev context : SubscriptionContext
context = record {
  filter = record { default_all = true; legacy = none; named = []; needs_addresses = false };
  filter_limits = default_limits;
  ping_interval = some 15;
  guard = "app";
}

-- It has a subscription.
abbrev after_opening : Running
after_opening = record {
  service =
      (open_stream sample_chain sample_len "app" (ok (some default_request)) 5
        (after_admission.service)).1;
  waiting = [];
  streams = context ∷ [];
}

opened_app : Step sample_chain sample_len after_admission after_opening
unfolding before_calls open_stream receive_initial_filter new_filter subscribe state_after admit
    authorize acquire_for subscriber_id map_get compile_legacy compile_all replay_height
    verify_resume snapshot check_requested evict sort_named any evict_loop empty_buffer
opened_app =
    Step.opened after_admission [] [] "app" (ok (some default_request)) 5 started context refl refl

reached-Served_example : Served 2 after_opening
reached-Served_example =
    reached-Served sample_chain sample_len 2 (omega arith) (omega arith) before_calls after_opening
      (Reaches.next _ _ _ (Reaches.next _ _ _ (Reaches.here before_calls) admitted_app) opened_app)
      Served-before_calls

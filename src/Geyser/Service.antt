-- ===== src/Geyser/Service.antt =====
-- `GrpcService` of zakura-grpc-geyser/src/server.rs: the calls of the service. `subscribe` waits for
-- the first request of the stream, while other calls go on: `admit` is what it does before, and
-- `open_stream` what it does after. The size limits and the compression of `into_server` are
-- Tonic's.
pub mod Guarded
pub mod Running
pub mod Calls
pub mod Served
use zakura_grpc.Common.{ℕ, ◌*◌, Bool, true, false, Option, none, some, String, Result, ok, err}
use zakura_grpc.Status.{Status, Message, invalid_argument}
use zakura_grpc.Proto.{
  SubscribeUpdate, SubscribeRequest, SubscribeReplayInfoResponse, PingRequest, PongResponse,
  GetVersionResponse,
}
use zakura_grpc.Chain.{Chain}
use zakura_grpc.Geyser.Config.{Config, FilterLimits}
use zakura_grpc.Geyser.Auth.{
  RequestMetadata, TokenAuth, SubscriptionTracker, authorize, new_tracker, acquire, drop_guard,
}
use zakura_grpc.Geyser.Filter.Request.{EventFilter, new_filter}
use zakura_grpc.Geyser.Server.Replay.{replay_info}
use zakura_grpc.Geyser.Server.Subscribe.{SharedState, InitialSubscription, subscribe, state_after}

pub record GrpcService : Type 0 where
  pub state : SharedState
  pub auth : TokenAuth
  pub subscriptions : SubscriptionTracker
  pub filter_limits : FilterLimits
  pub subscription_ping_interval : Option ℕ

-- `GrpcService::new`; `unit` is the length of a second.
abbrev pub new_service : ℕ → SharedState → Config → GrpcService
new_service unit state c = record {
  state = state;
  auth = record { expected = c.x_token };
  subscriptions = new_tracker c.subscription_limit c.subscription_limit_enforce;
  filter_limits = c.filter_limits;
  subscription_ping_interval = elim c.subscription_ping_interval_seconds [
    | none ↦ none
    | some s ↦ some (s * unit)
  ];
}

-- The guard is the subscriber whose count its drop lowers.
pub record SubscriptionContext : Type 0 where
  pub filter : EventFilter
  pub filter_limits : FilterLimits
  pub ping_interval : Option ℕ
  pub guard : String

-- A guard that is dropped.
abbrev pub release : String → GrpcService → GrpcService
release guard s = record s { subscriptions = drop_guard guard s.subscriptions }

-- `subscribe` up to the first await: a guard, or a status.
unfoldable pub admit : RequestMetadata → GrpcService → Result Status String × GrpcService
admit request s = elim (authorize s.auth request) [
  | err e ↦ (err e, s)
  | ok _ ↦
      let acquired = acquire request s.subscriptions in
      (acquired.0, record s { subscriptions = acquired.1 })
]

module _ (chain : Chain) where
  -- The first message of the stream: a failure of the transport, the end, or a request.
  unfoldable pub receive_initial_filter :
      Result Status (Option SubscribeRequest)
      → FilterLimits
      → Result Status (EventFilter × SubscribeRequest)
  receive_initial_filter (err e) limits = err e
  receive_initial_filter (ok none) limits = err (invalid_argument Message.first_request_required)
  receive_initial_filter (ok (some request)) limits = elim (new_filter chain request limits) [
    | err e ↦ err e
    | ok filter ↦ ok (filter, request)
  ]

  module _ (encoded_len : SubscribeUpdate → ℕ) where
    -- `subscribe` from the first message on: what the spawned task starts with, or a status and
    -- the drop of the guard.
    unfoldable pub open_stream :
        String
        → Result Status (Option SubscribeRequest)
        → ℕ
        → GrpcService
        → Result Status (InitialSubscription × SubscriptionContext) × GrpcService
    open_stream guard inbound now s = elim (receive_initial_filter inbound s.filter_limits) [
      | err e ↦ (err e, release guard s)
      | ok (filter, request) ↦
          let after = record s { state = state_after request now s.state } in
          elim (subscribe encoded_len request now s.state) [
            | err e ↦ (err e, release guard after)
            | ok initial ↦ (
              ok (
                initial,
                record {
                  filter = filter;
                  filter_limits = s.filter_limits;
                  ping_interval = s.subscription_ping_interval;
                  guard = guard;
                },
              ),
              after,
            )
          ]
    ]

unfoldable pub subscribe_replay_info :
    RequestMetadata → ℕ → GrpcService → Result Status SubscribeReplayInfoResponse × GrpcService
subscribe_replay_info request now s = elim (authorize s.auth request) [
  | err e ↦ (err e, s)
  | ok _ ↦
      let info = replay_info now s.state.replay in
      (ok (info.0), record s { state = record s.state { replay = info.1 } })
]

unfoldable pub ping : RequestMetadata → PingRequest → GrpcService → Result Status PongResponse
ping request message s = elim (authorize s.auth request) [
  | err e ↦ err e
  | ok _ ↦ ok (record { count = message.count })
]

-- `versions` holds the version of the package and those of the plugin interface.
unfoldable pub get_version :
    GetVersionResponse → RequestMetadata → GrpcService → Result Status GetVersionResponse
get_version versions request s = elim (authorize s.auth request) [
  | err e ↦ err e
  | ok _ ↦ ok versions
]

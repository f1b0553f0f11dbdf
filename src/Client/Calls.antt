-- ===== src/Client/Calls.antt =====
-- zakura-grpc-client/src/lib.rs: the calls of the client and the requests of a subscription. What a
-- server answers is a parameter.
pub mod Answered
pub mod Selected
pub mod Configured
use zakura_grpc.Common.{ℕ, ℤ, Option, none, some, String, List, [], ◌∷◌, map, Result, ok, err}
use zakura_grpc.Status.{Status}
use zakura_grpc.Proto.{
  EventType, SubscribeRequest, SubscribeUpdate, SubscribeReplayInfoResponse, PingRequest,
  PongResponse, GetVersionResponse, default_request, event_type_into,
}
use zakura_grpc.Geyser.Auth.{RequestMetadata}
use zakura_grpc.Client.Reconnect.{ZakuraGrpcClientError, Session, new_session}
use zakura_grpc.Client.Builder.{ZakuraGrpcClient, call}

-- A request without headers of the client, as the peer at this address.
abbrev pub request_from : Option String → RequestMetadata
request_from address = record { x_token = none; x_subscription_id = none; remote_ip = address }

-- `?` on an answer
abbrev pub client_result {ℓ} : {A : Type ℓ} → Result Status A → Result ZakuraGrpcClientError A
client_result (ok answer) = ok answer
client_result (err status) = err (ZakuraGrpcClientError.status status)

-- A server answers to the metadata of a request.
unfoldable pub ping :
    (RequestMetadata → PingRequest → Result Status PongResponse)
    → Option String
    → ℤ
    → ZakuraGrpcClient
    → Result ZakuraGrpcClientError PongResponse
ping server address count c =
    client_result (server (call c.interceptor (request_from address)) (record { count = count }))

unfoldable pub get_version :
    (RequestMetadata → Result Status GetVersionResponse)
    → Option String
    → ZakuraGrpcClient
    → Result ZakuraGrpcClientError GetVersionResponse
get_version server address c = client_result (server (call c.interceptor (request_from address)))

unfoldable pub subscribe_replay_info :
    (RequestMetadata → Result Status SubscribeReplayInfoResponse)
    → Option String
    → ZakuraGrpcClient
    → Result ZakuraGrpcClientError SubscribeReplayInfoResponse
subscribe_replay_info server address c =
    client_result (server (call c.interceptor (request_from address)))

-- `subscribe_with_request`: the variables of the task that is spawned, where the server has a
-- stream for the request, which is the first message.
unfoldable pub subscribe_with_request :
    (RequestMetadata → SubscribeRequest → Result Status (Unit {0}))
    → Option String
    → SubscribeRequest
    → ZakuraGrpcClient
    → Result ZakuraGrpcClientError Session
subscribe_with_request server address initial c =
    elim (client_result (server (call c.interceptor (request_from address)) initial)) [
      | err e ↦ err e
      | ok _ ↦ ok (new_session initial c.reconnect)
    ]

-- The requests of `SubscriptionSink`.
unfoldable pub set_event_types : List EventType → SubscribeRequest
set_event_types event_types = record default_request {
  event_types = map event_type_into event_types;
}

unfoldable pub sink_ping : ℤ → SubscribeRequest
sink_ping id = record default_request { ping = some (record { id = id }) }

-- `message` of `SubscriptionStream`, of the next item
abbrev pub message : Option (Result Status SubscribeUpdate) → Result Status (Option SubscribeUpdate)
message none = ok none
message (some (ok update)) = ok (some update)
message (some (err status)) = err status

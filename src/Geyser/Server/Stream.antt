-- ===== src/Geyser/Server/Stream.antt =====
-- `send_filtered`, `send_initial_updates`, `apply_subscription_request`, `send_subscription_ping`
-- and `run_subscription` of server.rs. One event of the `select!` is one step; the two Booleans of
-- `Channel` say what the outbound queue does at that step.
pub mod Pings
pub mod Live
pub mod Sequenced
pub mod Race
pub mod Runs
pub mod Joins
use zakura_grpc.Common.{
  ℕ, ℤ, pos, negsuc, Bool, true, false, not, ◌&&◌, ◌||◌, Option, none, some, String, List, [], ◌∷◌,
  ◌++◌, Result, ok, err, is_some_and, leb, checked_pred, if◌then◌else◌,
}
use zakura_grpc.Status.{Status, Message, resource_exhausted}
use zakura_grpc.Proto.{
  EventType, SubscribeUpdate, Update, SubscribeRequest, MempoolSnapshotPhase, default_update,
  event_type_into,
}
use zakura_grpc.Chain.{Chain}
use zakura_grpc.Geyser.Config.{FilterLimits}
use zakura_grpc.Geyser.Filter.Request.{EventFilter, FilterMatch, new_filter, matched}
use zakura_grpc.Geyser.Server.Projection.{PublishedUpdate, payload}
use zakura_grpc.Geyser.Server.Replay.{ReplaySnapshot}
use zakura_grpc.Geyser.Server.Mempool.{MempoolSnapshot, mempool_snapshot_marker}

-- What goes into the outbound queue.
abbrev pub SubscribeResult : Type 0
SubscribeResult = Result Status SubscribeUpdate

pub record Channel : Type 0 where
  pub is_open : Bool
  pub is_full : Bool

unfoldable pub subscription_pong : ℤ → SubscribeUpdate
subscription_pong id = record default_update {
  event_type = event_type_into EventType.unspecified;
  update = some (Update.pong (record { id = id }));
}

unfoldable pub subscription_ping : ℤ → SubscribeUpdate
subscription_ping id = record default_update {
  event_type = event_type_into EventType.unspecified;
  update = some (Update.ping (record { id = id }));
}

module _ (encoded_len : SubscribeUpdate → ℕ) where
  -- `send_filtered` on an open queue: the message that is sent, if the filter takes the update.
  unfoldable pub filtered : EventFilter → PublishedUpdate → Option SubscribeUpdate
  filtered f u = elim (matched f u.message) [
    | none ↦ none
    | some m ↦
        some (record (payload encoded_len u m.block_payload m.transaction_payload).0.message {
          filters = m.names;
        })
  ]

  abbrev pub send_filtered : EventFilter → PublishedUpdate → List SubscribeResult
  send_filtered f u = elim (filtered f u) [ none ↦ [] | some m ↦ ok m ∷ [] ]

  unfoldable pub send_all : EventFilter → List PublishedUpdate → List SubscribeResult
  send_all f [] = []
  send_all f (u ∷ us) = send_filtered f u ++ send_all f us

  unfoldable pub send_mempool : EventFilter → Option MempoolSnapshot → List SubscribeResult
  send_mempool f none = []
  send_mempool f (some m) =
      ok (mempool_snapshot_marker m.revision m.transaction_count MempoolSnapshotPhase.begin)
        ∷ send_all f m.updates
      ++ ok (mempool_snapshot_marker m.revision m.transaction_count MempoolSnapshotPhase.end) ∷ []

  -- `send_initial_updates` on an open queue: what is sent, and the two watermarks.
  unfoldable pub send_initial_updates :
      EventFilter
      → ReplaySnapshot
      → Option MempoolSnapshot
      → Option SubscribeUpdate
      → List SubscribeResult × (ℕ × Option ℕ)
  send_initial_updates f replay mempool reconnect = (
    elim reconnect [ none ↦ [] | some u ↦ ok u ∷ [] ]
        ++ send_mempool f mempool
        ++ send_all f replay.updates,
    (replay.watermark, elim mempool [ none ↦ none | some m ↦ some m.revision ]),
  )

-- `apply_subscription_request`: the filter, and a response
module _ (chain : Chain) where
  unfoldable pub apply_subscription_request :
      EventFilter
      → SubscribeRequest
      → FilterLimits
      → Result Status (EventFilter × Option SubscribeUpdate)
  apply_subscription_request f r limits = elim r.ping [
    | some p ↦ ok (f, some (subscription_pong p.id))
    | none ↦ elim (new_filter chain r limits) [ ok g ↦ ok (g, none) | err e ↦ err e ]
  ]

pub data DisconnectReason : Type 0 where
  response_closed invalid_filter request_error broadcast_lag server_closed : DisconnectReason

pub data PingSend : Type 0 where
  sent : ℤ → PingSend
  skipped closed : PingSend

-- The number after `ping_id`.
unfoldable pub next_ping_id : ℤ → ℤ
next_ping_id id = elim (checked_pred id) [ none ↦ negsuc 0 | some next ↦ next ]

unfoldable pub send_subscription_ping : Channel → ℤ → PingSend
send_subscription_ping c id =
    if not c.is_open
    then PingSend.closed
    else if c.is_full
    then PingSend.skipped
    else PingSend.sent (next_ping_id id)

-- The variables of the loop of `run_subscription`.
pub record Subscription : Type 0 where
  pub filter : EventFilter
  pub replay_watermark : ℕ
  pub mempool_watermark : Option ℕ
  pub ping_id : ℤ
  pub inbound_open : Bool

-- The variables before the loop.
unfoldable pub new_stream : EventFilter → ℕ × Option ℕ → Subscription
new_stream f watermarks = record {
  filter = f;
  replay_watermark = watermarks.0;
  mempool_watermark = watermarks.1;
  ping_id = negsuc 0;
  inbound_open = true;
}

pub data Event : Type 0 where
  request : SubscribeRequest → Event
  request_closed request_failed : Event
  live : PublishedUpdate → Event
  lagged : ℕ → Event
  closed tick : Event

pub record Stepped : Type 0 where
  pub stream : Subscription
  pub sent : List SubscribeResult
  pub disconnect : Option DisconnectReason

-- The mempool snapshot already tells of the update.
abbrev pub is_in_snapshot : Option ℕ → Option ℕ → Bool
is_in_snapshot watermark revision = is_some_and watermark (λ w. is_some_and revision (λ r. leb r w))

module _ (chain : Chain) (encoded_len : SubscribeUpdate → ℕ) (limits : FilterLimits) where
  -- The arm of `live.recv()`.
  unfoldable pub on_live : Channel → PublishedUpdate → Subscription → Stepped
  on_live c u s =
      if leb u.message.sequence s.replay_watermark
      then record { stream = s; sent = []; disconnect = none }
      else (let t = record s { replay_watermark = u.message.sequence } in
          if is_in_snapshot s.mempool_watermark u.message.mempool_revision
          then record { stream = t; sent = []; disconnect = none }
          else elim (filtered encoded_len s.filter u) [
            | none ↦ record { stream = t; sent = []; disconnect = none }
            | some m ↦
                if c.is_open
                then record { stream = t; sent = ok m ∷ []; disconnect = none }
                else record {
                  stream = t;
                  sent = [];
                  disconnect = some DisconnectReason.response_closed;
                }
          ])

  -- The arm of `inbound.message()` with a request.
  unfoldable pub on_request : Channel → SubscribeRequest → Subscription → Stepped
  on_request c r s = elim (apply_subscription_request chain s.filter r limits) [
    | ok (f, none) ↦ record { stream = record s { filter = f }; sent = []; disconnect = none }
    | ok (f, some response) ↦
        if c.is_open
        then record { stream = record s { filter = f }; sent = ok response ∷ []; disconnect = none }
        else record {
          stream = record s { filter = f };
          sent = [];
          disconnect = some DisconnectReason.response_closed;
        }
    | err status ↦ record {
      stream = s;
      sent = if c.is_open then err status ∷ [] else [];
      disconnect = some DisconnectReason.invalid_filter;
    }
  ]

  -- The arm of the timer.
  unfoldable pub on_tick : Channel → Subscription → Stepped
  on_tick c s = elim (send_subscription_ping c s.ping_id) [
    | PingSend.sent next ↦ record {
      stream = record s { ping_id = next };
      sent = ok (subscription_ping s.ping_id) ∷ [];
      disconnect = none;
    }
    | PingSend.skipped ↦ record { stream = s; sent = []; disconnect = none }
    | PingSend.closed ↦ record {
      stream = s;
      sent = [];
      disconnect = some DisconnectReason.response_closed;
    }
  ]

  unfoldable pub step : Channel → Event → Subscription → Stepped
  step c (Event.request r) s = on_request c r s
  step c Event.request_closed s = record {
    stream = record s { inbound_open = false };
    sent = [];
    disconnect = none;
  }
  step c Event.request_failed s = record {
    stream = s;
    sent = [];
    disconnect = some DisconnectReason.request_error;
  }
  step c (Event.live u) s = on_live c u s
  step c (Event.lagged n) s = record {
    stream = s;
    sent =
        if c.is_open && not c.is_full
        then err (resource_exhausted (Message.subscriber_lagged n)) ∷ []
        else [];
    disconnect = some DisconnectReason.broadcast_lag;
  }
  step c Event.closed s = record {
    stream = s;
    sent = [];
    disconnect = some DisconnectReason.server_closed;
  }
  step c Event.tick s = on_tick c s

-- ===== src/Client/Reconnect/Loop.antt =====
-- `run_subscription` of zakura-grpc-client/src/reconnect.rs. One event of the `select!`, with the
-- recovery from a disconnect that it brings, is one turn of the loop.
pub mod Live
pub mod Kept
pub mod Resumed
use zakura_grpc.Common.{
  ℕ, Bool, true, false, not, Option, none, some, List, [], ◌∷◌, ◌++◌, Result, ok, err, is_none,
  if◌then◌else◌,
}
use zakura_grpc.Status.{Status, Message, unavailable}
use zakura_grpc.Proto.{SubscribeUpdate, SubscribeRequest}
use zakura_grpc.Client.Reconnect.{
  Session, ReconnectConfig, ReplayGapPolicy, ZakuraGrpcClientError, is_recoverable_status,
  is_out_of_range, forget_position, reconnect_subscription, new_session,
}
use zakura_grpc.Client.Reconnect.Handling.{Disconnect, Sent, Handled, handle_update}

-- What `select!` yields: a command of the application, the end of its commands, or what
-- `updates.message()` gives.
pub data Incoming : Type 0 where
  command : SubscribeRequest → Incoming
  commands_closed : Incoming
  update : SubscribeUpdate → Incoming
  ended : Incoming
  failed : Status → Incoming

-- An event, and whether the request and the output channels accept at that moment.
pub record Event : Type 0 where
  pub incoming : Incoming
  pub request_open : Bool
  pub output_open : Bool

-- What a new filter keeps of the session, and what it drops.
unfoldable pub without_replay : SubscribeRequest → SubscribeRequest → SubscribeRequest
without_replay current r = record r {
  from_height = none;
  resume = none;
  include_mempool_snapshot = current.include_mempool_snapshot;
}

abbrev pub send_request : Bool → SubscribeRequest → Session → Handled
send_request true r s = record { session = s; sent = Sent.request r ∷ []; outcome = ok none }
send_request false r s = record {
  session = s;
  sent = [];
  outcome = ok (some (Disconnect.status (unavailable Message.request_stream_closed)));
}

unfoldable pub on_command : Bool → SubscribeRequest → Session → Handled
on_command request_open r s = elim r.ping [
  | none ↦
      let kept = without_replay s.current_request r in
      send_request request_open kept (record s { current_request = kept })
  | some ping ↦ send_request request_open r s
]

-- The `select!`. The arm of commands is off once they are closed.
unfoldable pub receive : Event → Session → Handled
receive e s = elim e.incoming [
  | Incoming.command r ↦
      if s.commands_open
      then on_command e.request_open r s
      else record { session = s; sent = []; outcome = ok none }
  | Incoming.commands_closed ↦ record {
    session = record s { commands_open = false };
    sent = [];
    outcome = ok none;
  }
  | Incoming.update u ↦ handle_update e.request_open e.output_open u s
  | Incoming.ended ↦ record { session = s; sent = []; outcome = ok (some Disconnect.ended) }
  | Incoming.failed status ↦ record {
    session = s;
    sent = [];
    outcome = ok (some (Disconnect.status status));
  }
]

-- After a turn: the number of attempts to connect so far, what was sent, the status that the
-- application was sent at the end, and whether the loop goes on.
pub record Turn : Type 0 where
  pub session : Session
  pub attempted : ℕ
  pub sent : List Sent
  pub reported : Option Status
  pub running : Bool

abbrev pub stop_with : Option Status → ℕ → Session → Turn
stop_with reported n s = record {
  session = s;
  attempted = n;
  sent = [];
  reported = reported;
  running = false;
}

-- `let _ = output.send(Err(status)).await`
abbrev pub report : Bool → Status → Option Status
report true status = some status
report false status = none

abbrev pub status_of : ZakuraGrpcClientError → Status
status_of (ZakuraGrpcClientError.status status) = status
status_of (ZakuraGrpcClientError.transport e) = unavailable (Message.reconnect_failed e)

module _ {S : Type 0} (connect : ℕ → SubscribeRequest → Result ZakuraGrpcClientError S) where
  unfoldable pub reconnect : ReconnectConfig → Bool → ℕ → Session → Turn
  reconnect c output_open n s =
      let answer = reconnect_subscription connect c n s in
      elim answer.0.0 [
        | ok subscription ↦ record {
          session = answer.1;
          attempted = answer.0.1;
          sent = [];
          reported = none;
          running = true;
        }
        | err e ↦ stop_with (report output_open (status_of e)) answer.0.1 answer.1
      ]

  -- A disconnect with a configuration of reconnects.
  unfoldable pub recover : ReconnectConfig → Bool → ℕ → Session → Disconnect → Turn
  recover c output_open n s Disconnect.ended = reconnect c output_open n s
  recover c output_open n s (Disconnect.status status) =
      if not (is_recoverable_status status.code)
      then stop_with (report output_open status) n s
      else if is_out_of_range status.code
      then elim c.replay_gap_policy [
        | ReplayGapPolicy.fail ↦ stop_with (report output_open status) n s
        | ReplayGapPolicy.skip_to_live ↦ reconnect c output_open n (forget_position s)
      ]
      else reconnect c output_open n s

  -- A disconnect without one.
  unfoldable pub give_up : Bool → ℕ → Session → Disconnect → Turn
  give_up output_open n s Disconnect.ended = stop_with none n s
  give_up output_open n s (Disconnect.status status) = stop_with (report output_open status) n s

  unfoldable pub after : Option ReconnectConfig → Bool → ℕ → Handled → Turn
  after config output_open n h = elim h.outcome [
    | err gone ↦ stop_with none n h.session
    | ok none ↦ record {
      session = h.session;
      attempted = n;
      sent = [];
      reported = none;
      running = true;
    }
    | ok (some d) ↦ elim config [
      | none ↦ give_up output_open n h.session d
      | some c ↦ recover c output_open n h.session d
    ]
  ]

  -- One turn of the loop.
  unfoldable pub turn : Option ReconnectConfig → Event → ℕ → Session → Turn
  turn config e n s =
      let h = receive e s in
      let t = after config e.output_open n h in record t { sent = h.sent ++ t.sent }

  -- The loop, on the events that come.
  unfoldable pub run_from : Option ReconnectConfig → List Event → ℕ → Session → Turn
  run_from config [] n s = record {
    session = s;
    attempted = n;
    sent = [];
    reported = none;
    running = true;
  }
  run_from config (e ∷ es) n s =
      let t = turn config e n s in
      elim t.running [
        | false ↦ t
        | true ↦
            let rest = run_from config es t.attempted t.session in
            record rest { sent = t.sent ++ rest.sent }
      ]

  unfoldable pub run_subscription : SubscribeRequest → Option ReconnectConfig → List Event → Turn
  run_subscription initial config es = run_from config es 0 (new_session initial config)

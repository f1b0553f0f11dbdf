-- ===== src/Client/Reconnect/Handling.antt =====
-- `handle_update` of reconnect.rs, and a stream of updates through it.
pub mod Delivery
use zakura_grpc.Common.{
  ℕ, ℤ, Bool, true, false, not, ◌&&◌, ◌||◌, Option, none, some, String, List, [], ◌∷◌, ◌++◌, Result,
  ok, err, is_negative, if◌then◌else◌,
}
use zakura_grpc.Status.{Status, Message, unavailable}
use zakura_grpc.Proto.{SubscribeUpdate, Update, SubscribeRequest, default_request}
use zakura_grpc.Client.Dedup.{DedupState, update_height, observe as dedup_observe}
use zakura_grpc.Client.Resume.{observe}
use zakura_grpc.Client.Reconnect.{Session, or_else}

pub data Disconnect : Type 0 where
  ended : Disconnect
  status : Status → Disconnect

-- What is sent: a request to the server, or an update to the application.
pub data Sent : Type 0 where
  request : SubscribeRequest → Sent
  output : SubscribeUpdate → Sent

pub record Handled : Type 0 where
  pub session : Session
  pub sent : List Sent
  pub outcome : Result (Unit {0}) (Option Disconnect)

-- The two kinds of update that the session answers or swallows itself.
pub data Heartbeat : Type 0 where
  ping : ℤ → Heartbeat
  own_pong : Heartbeat

unfoldable pub heartbeat : Option Update → Option Heartbeat
heartbeat (some (Update.ping p)) = some (Heartbeat.ping p.id)
heartbeat (some (Update.pong p)) = if is_negative p.id then some Heartbeat.own_pong else none
heartbeat _ = none

abbrev pub ping_reply : ℤ → SubscribeRequest
ping_reply id = record default_request { ping = some (record { id = id }) }

-- Whether the deduplication lets the update pass, and its next state.
unfoldable pub pass : Option DedupState → SubscribeUpdate → Option DedupState × Bool
pass none u = (none, true)
pass (some d) u = (some (dedup_observe d u).0, (dedup_observe d u).1)

-- `chain.observe`, the checkpoint and the deduplication
unfoldable pub note : SubscribeUpdate → Session → Session
note u s = record s {
  chain = observe u s.chain;
  checkpoint = or_else (update_height u) s.checkpoint;
  dedup = (pass s.dedup u).0;
}

-- `request_open` and `output_open` tell whether the two channels still accept.
unfoldable pub handle_update : Bool → Bool → SubscribeUpdate → Session → Handled
handle_update request_open output_open u s = elim (heartbeat u.update) [
  | some (Heartbeat.ping id) ↦
      if request_open
      then record { session = s; sent = Sent.request (ping_reply id) ∷ []; outcome = ok none }
      else record {
        session = s;
        sent = [];
        outcome = ok (some (Disconnect.status (unavailable Message.ping_reply_failed)));
      }
  | some Heartbeat.own_pong ↦ record { session = s; sent = []; outcome = ok none }
  | none ↦
      if (pass s.dedup u).1
      then (if output_open
          then record { session = note u s; sent = Sent.output u ∷ []; outcome = ok none }
          else record { session = note u s; sent = []; outcome = err tt })
      else record { session = note u s; sent = []; outcome = ok none }
]

-- A stream of updates while both channels are open.
unfoldable pub handle_all : List SubscribeUpdate → Session → Session × List Sent
handle_all [] s = (s, [])
handle_all (u ∷ us) s =
    let h = handle_update true true u s in
    let rest = handle_all us h.session in (rest.0, h.sent ++ rest.1)

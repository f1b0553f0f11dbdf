-- ===== src/Geyser/Server/Stream/Pings.antt =====
-- The pings of `run_subscription` of server.rs, and their way through the client.
use zakura_grpc.Common.{
  ℕ, ℤ, pos, negsuc, ◌+◌, ◌^◌, ◌≡◌, refl, Bool, true, false, ◌&&◌, none, [], ◌∷◌, ok, is_negative,
  is_i32, ltb, Bool-cases, inl, inr,
}
use zakura_grpc.Proto.{SubscribeUpdate}
use zakura_grpc.Chain.{Chain}
use zakura_grpc.Geyser.Config.{FilterLimits}
use zakura_grpc.Geyser.Server.Stream.{
  Channel, Subscription, subscription_ping, subscription_pong, next_ping_id, send_subscription_ping,
  on_tick, on_request, apply_subscription_request,
}
use zakura_grpc.Client.Reconnect.{Session}
use zakura_grpc.Client.Reconnect.Handling.{Sent, handle_update, heartbeat, ping_reply}

-- A number that the server gives to its pings: a negative `i32`.
unfoldable pub is_ping_id : ℤ → Bool
is_ping_id id = is_negative id && is_i32 id

next_ping_id-IsPing : (id : ℤ) → is_ping_id id ≡ true → is_ping_id (next_ping_id id) ≡ true
unfolding is_ping_id next_ping_id
next_ping_id-IsPing (pos n) h = cc
next_ping_id-IsPing (negsuc n) h = elim (Bool-cases (ltb (n + 1) (2 ^ 31))) [
  | inl e ↦ rw (e, next_ping_id) e
  | inr e ↦ rw (e, next_ping_id) refl
]

module _ (chain : Chain) (encoded_len : SubscribeUpdate → ℕ) (limits : FilterLimits) where
  on_tick-sent :
      (c : Channel) (s : Subscription)
      → c.is_open ≡ true
      → c.is_full ≡ false
      → on_tick chain encoded_len limits c s ≡ record {
        stream = record s { ping_id = next_ping_id s.ping_id };
        sent = ok (subscription_ping s.ping_id) ∷ [];
        disconnect = none;
      }
  unfolding on_tick send_subscription_ping
  on_tick-sent c s o f = rw (o, f, on_tick, send_subscription_ping) refl

  on_request-ping :
      (c : Channel) (s : Subscription) (id : ℤ)
      → c.is_open ≡ true
      → on_request chain encoded_len limits c (ping_reply id) s
        ≡ record { stream = s; sent = ok (subscription_pong id) ∷ []; disconnect = none }
  unfolding on_request apply_subscription_request
  on_request-ping c s id o = rw (o, on_request) refl

  own_pong_lem :
      (id : ℤ) (client : Session)
      → is_ping_id id ≡ true
      → handle_update true true (subscription_pong id) client
        ≡ record { session = client; sent = []; outcome = ok none }
  unfolding handle_update heartbeat subscription_pong is_ping_id
  own_pong_lem (pos n) client h = cc
  own_pong_lem (negsuc n) client h = refl

  -- One round of the keep-alive with open queues: the timer sends a ping with a negative `i32`, the
  -- client answers with its number, the server answers that with a pong and keeps the filter, the
  -- client drops the pong without a trace, and the next ping will have a negative `i32` again.
  pub keep_alive :
      (c : Channel) (s : Subscription) (client : Session)
      → c.is_open ≡ true
      → c.is_full ≡ false
      → is_ping_id s.ping_id ≡ true
      → let ticked = on_tick chain encoded_len limits c s in
        let pinged = handle_update true true (subscription_ping s.ping_id) client in
        let answered = on_request chain encoded_len limits c (ping_reply s.ping_id) ticked.stream in
        let ponged = handle_update true true (subscription_pong s.ping_id) client in
        (ticked.sent ≡ ok (subscription_ping s.ping_id) ∷ [])
        × (pinged.sent ≡ Sent.request (ping_reply s.ping_id) ∷ [])
        × (answered.sent ≡ ok (subscription_pong s.ping_id) ∷ [])
        × (answered.stream.filter ≡ s.filter)
        × (is_ping_id answered.stream.ping_id ≡ true)
        × (ponged ≡ record { session = client; sent = []; outcome = ok none })
  unfolding handle_update heartbeat subscription_ping
  keep_alive c s client o f h =
      rw
        (
          on_tick-sent c s o f,
          on_request-ping c (record s { ping_id = next_ping_id s.ping_id }) s.ping_id o,
          own_pong_lem s.ping_id client h,
        )
        (refl, refl, refl, refl, next_ping_id-IsPing s.ping_id h, refl)

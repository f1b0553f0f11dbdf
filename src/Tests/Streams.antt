-- ===== src/Tests/Streams.antt =====
-- The theorems on the mempool and the subscriptions at concrete inputs.
use zakura_grpc.Common.{
  ℕ, ◌≡◌, refl, true, false, none, some, [], ◌∷◌, pos, negsuc, ok, string_eq, nat_eq, map_get,
  text_ord,
}
use zakura_grpc.Proto.{Update, default_request, default_update}
use zakura_grpc.Geyser.Config.{default_limits}
use zakura_grpc.Geyser.Server.Projection.{PublishedUpdate, empty_cache}
use zakura_grpc.Geyser.Server.Mempool.{MempoolState, apply, empty_mempool, snapshot}
use zakura_grpc.Geyser.Server.Mempool.Entries.{view_all, apply_refines_view}
use zakura_grpc.Geyser.Server.Mempool.Filed.{IsValid, apply-IsValid, IsValid-empty_mempool}
use zakura_grpc.Geyser.Server.Mempool.Snapshot.{remarked, snapshot_round_trip}
use zakura_grpc.Geyser.Server.Stream.{
  Subscription, subscription_ping, subscription_pong, on_tick, on_request,
}
use zakura_grpc.Geyser.Server.Stream.Live.{accepting}
use zakura_grpc.Geyser.Server.Stream.Pings.{is_ping_id, keep_alive}
use zakura_grpc.Client.Reconnect.{Session, new_session}
use zakura_grpc.Client.Reconnect.Handling.{Sent, handle_update, ping_reply}
use zakura_grpc.Tests.Samples.{sample_chain, sample_len, block_at}

-- Two transactions enter the mempool.
abbrev two_added : PublishedUpdate
two_added = record {
  message = record default_update {
    event_type = pos 4;
    update = some (Update.mempool (record { action = pos 1; transaction_ids = "bb" ∷ "aa" ∷ [] }));
  };
  encoded_len = 10;
  projections = empty_cache;
}

apply_refines_view_example :
    map_get "aa" (apply (two_added ∷ []) empty_mempool).entries
    ≡ view_all (two_added ∷ []) (λ id. map_get id (empty_mempool.entries)) "aa"
apply_refines_view_example = apply_refines_view (two_added ∷ []) empty_mempool "aa"

apply-IsValid_example : IsValid (apply (two_added ∷ []) empty_mempool)
apply-IsValid_example = apply-IsValid (two_added ∷ []) empty_mempool IsValid-empty_mempool

-- The mempool with two transactions.
two_known : MempoolState
two_known = apply (two_added ∷ []) empty_mempool

IsValid-two_known : IsValid two_known
unfolding two_known
IsValid-two_known = apply-IsValid (two_added ∷ []) empty_mempool IsValid-empty_mempool

snapshot_round_trip_example :
    map_get "aa" (apply (snapshot sample_len two_known).updates empty_mempool).entries
    ≡ remarked sample_len two_known.revision (map_get "aa" two_known.entries)
snapshot_round_trip_example = snapshot_round_trip sample_len two_known "aa" IsValid-two_known

-- A subscription to everything, after a replay up to sequence 4.
abbrev pub to_all : Subscription
to_all = record {
  filter = record { default_all = true; legacy = none; named = []; needs_addresses = false };
  replay_watermark = 4;
  mempool_watermark = none;
  ping_id = negsuc 0;
  inbound_open = true;
}

abbrev live_at : ℕ → PublishedUpdate
live_at sequence = record {
  message = block_at 9 "aa" false sequence;
  encoded_len = 10;
  projections = empty_cache;
}

abbrev fresh_client : Session
unfolding new_session
fresh_client = new_session default_request none

first_ping : is_ping_id (to_all.ping_id) ≡ true
unfolding is_ping_id
first_ping = refl

keep_alive_example :
    let ticked = on_tick sample_chain sample_len default_limits accepting to_all in
    let pinged = handle_update true true (subscription_ping (to_all.ping_id)) fresh_client in
    let answered =
      on_request sample_chain sample_len default_limits accepting
        (ping_reply (to_all.ping_id))
        ticked.stream in
    let ponged = handle_update true true (subscription_pong (to_all.ping_id)) fresh_client in
    (ticked.sent ≡ ok (subscription_ping (to_all.ping_id)) ∷ [])
    × (pinged.sent ≡ Sent.request (ping_reply (to_all.ping_id)) ∷ [])
    × (answered.sent ≡ ok (subscription_pong (to_all.ping_id)) ∷ [])
    × (answered.stream.filter ≡ to_all.filter)
    × (is_ping_id answered.stream.ping_id ≡ true)
    × (ponged ≡ record { session = fresh_client; sent = []; outcome = ok none })
keep_alive_example =
    keep_alive sample_chain sample_len default_limits accepting to_all fresh_client refl refl
      first_ping

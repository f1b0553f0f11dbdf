-- ===== src/Geyser/Auth.antt =====
-- zakura-grpc-geyser/src/auth.rs: the token of a request, and the live streams of each subscriber.
-- A request is what the source reads of it.
pub mod Guards
use zakura_grpc.Common.{
  ℕ, suc, ◌-◌, Bool, true, false, not, ◌&&◌, Option, none, some, String, List, [], ◌∷◌, Result, ok,
  err, reject_if, is_some_and, string_eq, ◌==◌, map_get, hash_put, map_remove, saturating_add, leb,
  eqb, if◌then◌else◌,
}
use zakura_grpc.Status.{Status, Message, unauthenticated, resource_exhausted}

-- The two headers, where they are present and visible ASCII, and the address of the peer.
pub record RequestMetadata : Type 0 where
  pub x_token : Option String
  pub x_subscription_id : Option String
  pub remote_ip : Option String

pub record TokenAuth : Type 0 where
  pub expected : Option String

unfoldable pub authorize : TokenAuth → RequestMetadata → Result Status (Unit {0})
authorize a request = elim a.expected [
  | none ↦ ok tt
  | some expected ↦
      if is_some_and request.x_token (λ actual. actual == expected)
      then ok tt
      else err (unauthenticated Message.invalid_token)
]

-- `counts` is the shared map, as it stands under its lock.
pub record SubscriptionTracker : Type 0 where
  pub counts : List (String × ℕ)
  pub limit : ℕ
  pub enforce : Bool

-- `SubscriptionTracker::new`
abbrev pub new_tracker : ℕ → Bool → SubscriptionTracker
new_tracker limit enforce = record { counts = []; limit = limit; enforce = enforce }

abbrev pub peer_id : RequestMetadata → String
peer_id r = elim r.remote_ip [ none ↦ "anonymous" | some ip ↦ ip ]

unfoldable pub subscriber_id : RequestMetadata → String
subscriber_id r = elim r.x_subscription_id [
  | none ↦ peer_id r
  | some id ↦ if id == "" then peer_id r else id
]

abbrev pub count_of : String → List (String × ℕ) → ℕ
count_of id counts = elim (map_get id counts) [ none ↦ 0 | some n ↦ n ]

-- `acquire` for a subscriber: whether it gets a guard, and the tracker. `or_default` leaves an entry
-- of zero where there was none.
unfoldable pub acquire_for :
    String → SubscriptionTracker → Result Status String × SubscriptionTracker
acquire_for id t =
    let n = count_of id t.counts in
    if leb t.limit n && t.enforce
    then (
      err (resource_exhausted (Message.subscription_limit id t.limit)),
      record t { counts = hash_put id n t.counts },
    )
    else (ok id, record t { counts = hash_put id (saturating_add n 1) t.counts })

abbrev pub acquire :
    RequestMetadata → SubscriptionTracker → Result Status String × SubscriptionTracker
acquire r t = acquire_for (subscriber_id r) t

-- `drop` of a guard
unfoldable pub drop_guard : String → SubscriptionTracker → SubscriptionTracker
drop_guard id t = elim (map_get id t.counts) [
  | none ↦ t
  | some n ↦
      if eqb (n - 1) 0
      then record t { counts = map_remove id t.counts }
      else record t { counts = hash_put id (n - 1) t.counts }
]

-- ===== src/Client/Dedup.antt =====
-- zakura-grpc-client/src/dedup.rs: which block-scoped updates the application has already had.
pub mod Buckets
pub mod Observe
pub mod Runs
use zakura_grpc.Common.{
  ℕ, ◌≡◌, ◌↔◌, Bool, true, false, ◌&&◌, Option, none, some, List, [], ◌∷◌, ◌++◌, length, Eq, ◌==◌,
  contains, set_insert, set_remove, if◌then◌else◌, eqb, eqb_iff, ltb, arith, list_eq, list_beq_iff,
  list_beq_iff, nat_eq,
}
use zakura_grpc.Proto.{SubscribeUpdate, Update, Bytes}

pub record EventKey : Type 0 where
  pub session_id : Bytes
  pub sequence : ℕ

pub key_beq : EventKey → EventKey → Bool
key_beq a b = a.session_id == b.session_id && a.sequence == b.sequence

pub key_beq_iff : (a b : EventKey) → (key_beq a b ≡ true) ↔ (a ≡ b)
unfolding key_beq
key_beq_iff a b = (
  λ h. ground (arith, list_beq_iff a.session_id b.session_id),
  λ h. ground (arith, list_beq_iff a.session_id b.session_id),
)

instance abbrev pub key_eq : Eq EventKey
unfolding key_beq
key_eq = record { beq = key_beq; beq_iff = key_beq_iff }

pub record HeightBucket : Type 0 where
  pub height : ℕ
  pub keys : List EventKey

pub record DedupState : Type 0 where
  pub seen : List EventKey
  pub heights : List HeightBucket
  pub height_retention : ℕ

pub with_height_retention : ℕ → DedupState
with_height_retention n = record { seen = []; heights = []; height_retention = n }

unfoldable pub update_height : SubscribeUpdate → Option ℕ
update_height u = elim u.update [
  | some (Update.block b) ↦ some b.height
  | some (Update.best_chain c) ↦ some c.height
  | some (Update.transaction t) ↦ some t.height
  | some (Update.utxo x) ↦ some x.height
  | _ ↦ none
]

-- The `find` of a bucket with the height and the `push`, or the `push_back` of a new bucket.
pub add_key : ℕ → EventKey → List HeightBucket → List HeightBucket
add_key h k [] = record { height = h; keys = k ∷ [] } ∷ []
add_key h k (b ∷ bs) =
    if b.height == h then record b { keys = b.keys ++ k ∷ [] } ∷ bs else b ∷ add_key h k bs

-- `for key in bucket.keys { self.seen.remove(&key); }`
pub forget : List EventKey → List EventKey → List EventKey
forget [] seen = seen
forget (k ∷ ks) seen = forget ks (set_remove k seen)

-- `while self.heights.len() > self.height_retention { … }`
pub trim : ℕ → List HeightBucket → List EventKey → List HeightBucket × List EventKey
trim n [] seen = ([], seen)
trim n (b ∷ bs) seen =
    let rest = trim n bs (forget b.keys seen) in
    if ltb n (length (b ∷ bs)) then rest else (b ∷ bs, seen)

abbrev pub key_of : SubscribeUpdate → EventKey
key_of u = record { session_id = u.session_id; sequence = u.sequence }

-- `observe` for an update of this height and key
pub observe_key : ℕ → EventKey → DedupState → DedupState × Bool
observe_key height key s =
    if contains s.seen key
    then (s, false)
    else let (heights, seen) =
        trim s.height_retention (add_key height key s.heights) (set_insert key s.seen) in
      (record s { seen = seen; heights = heights }, true)

pub observe : DedupState → SubscribeUpdate → DedupState × Bool
observe s u = elim (update_height u) [
  | none ↦ (s, true)
  | some height ↦ if s.height_retention == 0 then (s, true) else observe_key height (key_of u) s
]

-- ===== src/Client/Dedup/Observe.antt =====
-- `DedupState::observe` of dedup.rs against a plain window of buckets, and over whole runs.
use zakura_grpc.Common.{
  ℕ, ◌≤◌, ◌≡◌, refl, ◌∙◌, Bool, true, false, Option, none, some, List, [], ◌∷◌, ◌++◌, map, length,
  ◌==◌, contains, set_insert, contains-set_insert, nodup, Bool-cases, Option-cases, inl, inr,
  if◌then◌else◌, ltb, arith, nat_eq,
}
use zakura_grpc.Proto.{SubscribeUpdate, Update}
use zakura_grpc.Client.Dedup.{
  EventKey, HeightBucket, DedupState, key_eq, key_of, add_key, forget, trim, observe, observe_key,
  update_height, with_height_retention,
}
use zakura_grpc.Client.Dedup.Buckets.{
  retained, bucket_heights, Agrees, trim-Agrees, length-trim-le, retained-add_key, nodup-add_key,
  Disjoint-add_key,
}

pub record IsValid (s : DedupState) : Type 0 where
  pub agrees : Agrees s.heights s.seen
  pub bounded : length s.heights ≤ s.height_retention

pub Agrees-add_key :
    (h : ℕ) (k : EventKey) (bs : List HeightBucket) (seen : List EventKey)
    → Agrees bs seen
    → contains seen k ≡ false
    → Agrees (add_key h k bs) (set_insert k seen)
Agrees-add_key h k bs seen a fresh = record {
  same = λ j. ground (arith, contains-set_insert k j seen, retained-add_key h k j bs, a.same j);
  disjoint = Disjoint-add_key h k bs (ground (arith, a.same k)) a.disjoint;
  distinct = nodup-add_key h k bs a.distinct;
}

observe_key-IsValid :
    (h : ℕ) (k : EventKey) (s : DedupState) → IsValid s → IsValid (observe_key h k s).0
unfolding observe_key
observe_key-IsValid h k s v = elim (Bool-cases (contains s.seen k)) [
  | inl old ↦ rw old v
  | inr fresh ↦ rw fresh (record {
    agrees =
        trim-Agrees s.height_retention _ _ (Agrees-add_key h k s.heights s.seen v.agrees fresh);
    bounded = length-trim-le s.height_retention _ _;
  })
]

-- Whatever the update, `observe` keeps the hash set equal to the keys of the buckets, no key in
-- two buckets, no height in two buckets, and at most `height_retention` buckets.
pub observe-IsValid : (s : DedupState) (u : SubscribeUpdate) → IsValid s → IsValid (observe s u).0
unfolding observe
observe-IsValid s u v = elim (Option-cases (update_height u)) [
  | inl e ↦ rw (e, observe) v
  | inr (h, e) ↦ elim (Bool-cases (s.height_retention == 0)) [
    | inl off ↦ rw (e, observe, off) v
    | inr on ↦ rw (e, observe, on) (observe_key-IsValid h (key_of u) s v)
  ]
]

pub IsValid-with_height_retention : (n : ℕ) → IsValid (with_height_retention n)
unfolding with_height_retention contains retained nodup
IsValid-with_height_retention n = record {
  agrees = record { same = λ k. refl; disjoint = tt; distinct = refl };
  bounded = omega arith;
}

-- The height of a block-scoped update.
block_height : Option Update → Option ℕ
block_height (some (Update.block b)) = some b.height
block_height (some (Update.best_chain c)) = some c.height
block_height (some (Update.transaction t)) = some t.height
block_height (some (Update.utxo x)) = some x.height
block_height _ = none

height_by_kind :
    (x : Option Update) (u : SubscribeUpdate) → u.update ≡ x → block_height x ≡ update_height u
unfolding update_height block_height
height_by_kind (some (Update.block b)) u e = rw (e, update_height) refl
height_by_kind (some (Update.best_chain c)) u e = rw (e, update_height) refl
height_by_kind (some (Update.transaction t)) u e = rw (e, update_height) refl
height_by_kind (some (Update.utxo x)) u e = rw (e, update_height) refl
height_by_kind none u e = rw (e, update_height) refl
height_by_kind _ u e = rw (e, update_height) refl

block_height_lem : (u : SubscribeUpdate) → block_height u.update ≡ update_height u
block_height_lem u = height_by_kind u.update u refl

-- The window without its hash set: the key joins the bucket of its height, or a new bucket at the
-- end where there is none, and the oldest buckets are dropped until `n` are left.
abbrev join : ℕ → EventKey → HeightBucket → HeightBucket
join h k b = if b.height == h then record b { keys = b.keys ++ k ∷ [] } else b

with_key : ℕ → EventKey → List HeightBucket → List HeightBucket
with_key h k bs =
    if contains (bucket_heights bs) h
    then map (join h k) bs
    else bs ++ record { height = h; keys = k ∷ [] } ∷ []

join_none :
    (h : ℕ) (k : EventKey) (bs : List HeightBucket)
    → contains (bucket_heights bs) h ≡ false
    → map (join h k) bs ≡ bs
unfolding contains
join_none h k [] e = refl
join_none h k (b ∷ bs) e = ground (arith, join_none h k bs)

add_key-with_key :
    (h : ℕ) (k : EventKey) (bs : List HeightBucket)
    → nodup (bucket_heights bs) ≡ true
    → add_key h k bs ≡ with_key h k bs
unfolding add_key with_key nodup contains
add_key-with_key h k [] d = refl
add_key-with_key h k (b ∷ bs) d = ground (arith, add_key-with_key h k bs, join_none h k bs)

pub newest : ℕ → List HeightBucket → List HeightBucket
newest n [] = []
newest n (b ∷ bs) = let rest = newest n bs in if ltb n (length (b ∷ bs)) then rest else b ∷ bs

-- The window for an update of this session, number and height.
pub window_observe : ℕ → List HeightBucket → SubscribeUpdate → List HeightBucket × Bool
window_observe n bs u =
    let k : EventKey = record { session_id = u.session_id; sequence = u.sequence } in
    elim (block_height u.update) [
      | none ↦ (bs, true)
      | some h ↦
          if n == 0
          then (bs, true)
          else if retained bs k
          then (bs, false)
          else (newest n (with_key h k bs), true)
    ]

trim-newest :
    (n : ℕ) (bs : List HeightBucket) (seen : List EventKey) → (trim n bs seen).0 ≡ newest n bs
unfolding trim newest
trim-newest n [] seen = refl
trim-newest n (b ∷ bs) seen = ground (arith, trim-newest n bs (forget b.keys seen))

-- From a valid state `observe` does what the window of buckets alone prescribes: an update is
-- refused exactly if its height is known, retention is on and its key stands in a retained bucket;
-- otherwise its key joins the bucket of its height and the oldest buckets beyond the retention go.
pub observe_refines_window :
    (s : DedupState) (u : SubscribeUpdate)
    → IsValid s
    → ((observe s u).0.heights, (observe s u).1) ≡ window_observe s.height_retention s.heights u
unfolding observe observe_key window_observe
observe_refines_window s u v = elim (Option-cases (update_height u)) [
  | inl e ↦ rw (e, block_height_lem u ∙ e, observe, window_observe) refl
  | inr (h, e) ↦
      rw (e, block_height_lem u ∙ e, observe, window_observe)
        (ground (
          arith,
          add_key-with_key h (key_of u) s.heights v.agrees.distinct,
          v.agrees.same (key_of u),
          trim-newest s.height_retention (add_key h (key_of u) s.heights)
              (set_insert (key_of u) s.seen),
        ))
]

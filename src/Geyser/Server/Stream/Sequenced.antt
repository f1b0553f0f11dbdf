-- ===== src/Geyser/Server/Stream/Sequenced.antt =====
-- The sequences of the updates in the replay buffer of server.rs.
use zakura_grpc.Common.{
  ℕ, zero, suc, ◌≤◌, ◌≡◌, refl, sym, ap, true, Option, none, some, List, [], ◌∷◌, ◌++◌, all, All,
  All-append, All-map, All-filter, filter, find_map, get_last?, leb, eqb, arith, Bool-cases,
  Option-cases, inl, inr, ok, ok-injective, >>=-eq-ok,
}
use zakura_grpc.Geyser.Event.{block_height}
use zakura_grpc.Geyser.Server.Projection.{PublishedUpdate}
use zakura_grpc.Geyser.Server.Replay.{
  ReplayBucket, ReplayBuffer, ReplaySnapshot, evict_reason, evict_front, evict_loop, evict,
  has_height, push_bucket, push_batch_at, last_update, watermark_of, check_requested, snapshot,
}
use zakura_grpc.Geyser.Server.Stream.Live.{Rising}

abbrev pub Upto : ℕ → List PublishedUpdate → Type 0
Upto n us = All (λ u. u.message.sequence ≤ n) us

-- No update of the buffer has a sequence above the bound.
abbrev pub Stored : ℕ → List ReplayBucket → Type 0
Stored n bs = All (λ b. Upto n b.updates) bs

pub Upto-mono : (n m : ℕ) (us : List PublishedUpdate) → n ≤ m → Upto n us → Upto m us
Upto-mono n m us h = All-map _ _ (λ u (k : u.message.sequence ≤ n). omega arith) us

pub Stored-mono : (n m : ℕ) (bs : List ReplayBucket) → n ≤ m → Stored n bs → Stored m bs
Stored-mono n m bs h = All-map _ _ (λ b. Upto-mono n m b.updates h) bs

-- The sequence of the last update, after `n`.
abbrev pub last_of : ℕ → List PublishedUpdate → ℕ
last_of n [] = n
last_of n (u ∷ us) = last_of u.message.sequence us

pub last_of-Rising : (n : ℕ) (us : List PublishedUpdate) → Rising n us → n ≤ last_of n us
last_of-Rising n [] r = omega arith
last_of-Rising n (u ∷ us) (h, r) = let ih = last_of-Rising u.message.sequence us r in omega arith

pub Upto-Rising : (n : ℕ) (us : List PublishedUpdate) → Rising n us → Upto (last_of n us) us
Upto-Rising n [] r = tt
Upto-Rising n (u ∷ us) (h, r) =
    (last_of-Rising u.message.sequence us r, Upto-Rising u.message.sequence us r)

pub Rising-append :
    (w n : ℕ) (us vs : List PublishedUpdate)
    → w ≤ n
    → Rising w us
    → Upto n us
    → Rising n vs
    → Rising w (us ++ vs)
Rising-append w n [] [] h r k s = tt
Rising-append w n [] (v ∷ vs) h r k (a, s) = (omega arith, s)
Rising-append w n (u ∷ us) vs h (a, r) (b, k) s =
    (a, Rising-append u.message.sequence n us vs b r k s)

-- Rising updates are some up to a watermark, and then those above it.
pub split-Rising :
    (b w : ℕ) (us : List PublishedUpdate)
    → Rising b us
    → (raced later : List PublishedUpdate) × (us ≡ raced ++ later)
      × (all (λ u. leb u.message.sequence w) raced ≡ true)
      × Rising w later
unfolding all
split-Rising b w [] r = ([], [], refl, refl, tt)
split-Rising b w (u ∷ us) (h, r) = elim (Bool-cases (leb u.message.sequence w)) [
  | inl e ↦
      let (raced, later, same, low, high) = split-Rising u.message.sequence w us r in
      (u ∷ raced, later, rw same refl, rw e low, high)
  | inr e ↦ ([], u ∷ us, refl, refl, (ground arith, r))
]

buckets_front-Stored :
    (n : ℕ) (bs : List ReplayBucket) (r : ReplayBuffer)
    → r.buckets ≡ bs
    → Stored n bs
    → Stored n (evict_front r).buckets
unfolding evict_front
buckets_front-Stored n [] r e h = rw (e, evict_front, e) tt
buckets_front-Stored n (b ∷ bs) r e h = rw (e, evict_front) (h.1)

evict_loop-Stored :
    (k n now : ℕ) (r : ReplayBuffer) → Stored n r.buckets → Stored n (evict_loop k now r).buckets
unfolding evict_loop
evict_loop-Stored zero n now r h = h
evict_loop-Stored (suc k) n now r h = elim (Option-cases (evict_reason now r)) [
  | inl e ↦ rw (e, evict_loop) h
  | inr (reason, e) ↦
      rw (e, evict_loop)
        (evict_loop-Stored k n now (evict_front r) (buckets_front-Stored n r.buckets r refl h))
]

pub evict-Stored :
    (n now : ℕ) (r : ReplayBuffer) → Stored n r.buckets → Stored n (evict now r).buckets
unfolding evict
evict-Stored n now r h = evict_loop-Stored _ n now r h

pub push-Stored :
    (n now : ℕ) (us : List PublishedUpdate) (r : ReplayBuffer)
    → Stored n r.buckets
    → Upto n us
    → Stored n (push_batch_at us now r).buckets
unfolding push_batch_at push_bucket
push-Stored n now us r h k = elim (Bool-cases (eqb r.limits.height_capacity 0)) [
  | inl off ↦ rw (off, push_batch_at) h
  | inr on ↦ elim (Option-cases (find_map (λ u. block_height u.message) us)) [
    | inl e ↦ rw (on, e, push_batch_at) (evict-Stored n now r h)
    | inr (height, e) ↦
        rw (on, e, push_batch_at)
          (evict-Stored n now (push_bucket now height (filter (has_height height) us) r) (
            All-append (λ b. Upto n b.updates) r.buckets _ h
              (All-filter _ (has_height height) us k, tt)))
  ]
]

-- What holds of each element holds of the last.
abbrev Holds {ℓ} : {A : Type ℓ} → (A → Type 0) → Option A → Type 0
Holds P none = Unit
Holds P (some a) = P a

get_last-Holds {ℓ} : {A : Type ℓ} (P : A → Type 0) (xs : List A) → All P xs → Holds P (get_last? xs)
get_last-Holds P [] h = tt
get_last-Holds P (x ∷ []) h = h.0
get_last-Holds P (x ∷ y ∷ ys) h = get_last-Holds P (y ∷ ys) (h.1)

bucket-Holds :
    (n : ℕ) (o : Option ReplayBucket)
    → Holds (λ b. Upto n b.updates) o
    → Holds (λ u. u.message.sequence ≤ n) (elim o [ none ↦ none | some b ↦ get_last? b.updates ])
bucket-Holds n none h = tt
bucket-Holds n (some b) h = get_last-Holds (λ u. u.message.sequence ≤ n) b.updates h

sequence-le :
    (n : ℕ) (o : Option PublishedUpdate)
    → Holds (λ u. u.message.sequence ≤ n) o
    → (elim o [ none ↦ 0 | some u ↦ u.message.sequence ]) ≤ n
sequence-le n none h = omega arith
sequence-le n (some u) h = h

pub watermark-le : (n : ℕ) (bs : List ReplayBucket) → Stored n bs → watermark_of bs ≤ n
watermark-le n bs h =
    sequence-le n (last_update bs)
      (bucket-Holds n (get_last? bs) (get_last-Holds (λ b. Upto n b.updates) bs h))

-- A snapshot leaves what `evict` leaves, and has the watermark of that.
pub snapshot-watermark :
    (from_height : Option ℕ) (now : ℕ) (r : ReplayBuffer) (replay : ReplaySnapshot)
    → (snapshot from_height now r).0 ≡ ok replay
    → replay.watermark ≡ watermark_of (evict now r).buckets
unfolding snapshot
snapshot-watermark from_height now r replay h =
    let (u, passed, e) = >>=-eq-ok (check_requested from_height _) _ h in
    ap (λ s. s.watermark) (sym (ok-injective e))

pub snapshot-kept :
    (from_height : Option ℕ) (now : ℕ) (r : ReplayBuffer)
    → (snapshot from_height now r).1 ≡ evict now r
unfolding snapshot
snapshot-kept from_height now r = refl

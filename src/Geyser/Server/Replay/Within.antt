-- ===== src/Geyser/Server/Replay/Within.antt =====
-- The limits of `ReplayBuffer`, read from its counters and read from its buckets.
use zakura_grpc.Common.{
  ℕ, ◌≤◌, ◌≡◌, refl, sym, ap, ◌∙◌, Bool, true, false, not, ◌&&◌, List, [], ◌∷◌, ◌++◌, length,
  contains, nodup, eqb, leb, nat_eq, keys, map_get, if◌then◌else◌, arith, Bool-cases, inl, inr, all,
  length-le_of_nodup, length-map, length-append, set_insert, contains-set_insert, is_some,
}
use zakura_grpc.Geyser.Server.Replay.{
  ReplayLimits, ReplayBucket, ReplayBuffer, is_expired, evict_reason,
}
use zakura_grpc.Geyser.Server.Replay.Counts.{buckets_at, events_of, bytes_of, Counts}

-- The counters are those of the buckets.
pub record IsValid (r : ReplayBuffer) : Type 0 where
  pub counts : Counts r.buckets r.height_counts
  pub events : r.event_count ≡ events_of r.buckets
  pub bytes : r.encoded_bytes ≡ bytes_of r.buckets

-- The distinct heights of the buckets.
unfoldable pub distinct_heights : List ReplayBucket → List ℕ
unfolding set_insert
distinct_heights [] = []
distinct_heights (b ∷ bs) = set_insert b.height (distinct_heights bs)

-- The limits, as they bear on the buckets alone.
unfoldable pub is_within : ReplayLimits → ℕ → List ReplayBucket → Bool
is_within limits now bs =
    not (is_expired limits now bs)
    && (leb (length (distinct_heights bs)) limits.height_capacity
        && (leb (events_of bs) limits.event_capacity && leb (bytes_of bs) limits.byte_capacity))

-- The longest end of the window that is within the limits.
unfoldable pub longest_within : ReplayLimits → ℕ → List ReplayBucket → List ReplayBucket
longest_within limits now [] = []
longest_within limits now (b ∷ bs) =
    let rest = longest_within limits now bs in
    if is_within limits now (b ∷ bs) then b ∷ bs else rest

pub contains-distinct_heights :
    (h : ℕ) (bs : List ReplayBucket)
    → contains (distinct_heights bs) h ≡ not (eqb (buckets_at h bs) 0)
unfolding distinct_heights buckets_at contains
contains-distinct_heights h [] = refl
contains-distinct_heights h (b ∷ bs) =
    ground
      (arith, contains-set_insert b.height h (distinct_heights bs), contains-distinct_heights h bs)

nodup-distinct_heights : (bs : List ReplayBucket) → nodup (distinct_heights bs) ≡ true
unfolding distinct_heights nodup set_insert
nodup-distinct_heights [] = refl
nodup-distinct_heights (b ∷ bs) = ground (arith, nodup-distinct_heights bs)

pub contains-keys : (h : ℕ) (m : List (ℕ × ℕ)) → contains (keys m) h ≡ is_some (map_get h m)
unfolding contains map_get
contains-keys h [] = refl
contains-keys h ((j, w) ∷ m) = ground (arith, contains-keys h m)

-- Two lists without repetition that have the same members are equally long.
all_contained :
    (xs ys : List ℕ)
    → ((h : ℕ) → contains xs h ≡ true → contains ys h ≡ true)
    → all (contains ys) xs ≡ true
unfolding all contains
all_contained [] ys h = refl
all_contained (x ∷ xs) ys h = ground (arith, h x, all_contained xs ys λ q e. h q (ground arith))

length-distinct_heights :
    (bs : List ReplayBucket) (counts : List (ℕ × ℕ))
    → Counts bs counts
    → length counts ≡ length (distinct_heights bs)
length-distinct_heights bs counts c =
    let same : (h : ℕ) → contains (keys counts) h ≡ contains (distinct_heights bs) h =
      λ h. ground (arith, contains-keys h counts, c.each h, contains-distinct_heights h bs) in
    omega (
      arith,
      length-map (λ (e : ℕ × ℕ). e.0) counts,
      length-le_of_nodup (keys counts) (distinct_heights bs) c.distinct
          (all_contained _ _ λ h e. sym (same h) ∙ e),
      length-le_of_nodup (distinct_heights bs) (keys counts) (nodup-distinct_heights bs)
          (all_contained _ _ λ h e. same h ∙ e),
    )

-- The counters decide what the buckets alone would.
pub evict_reason_lem :
    (now : ℕ) (r : ReplayBuffer)
    → IsValid r
    → is_some (evict_reason now r) ≡ not (is_within r.limits now r.buckets)
unfolding evict_reason is_within
evict_reason_lem now r v =
    rw (length-distinct_heights r.buckets r.height_counts v.counts, v.events, v.bytes)
      (ground arith)

pub is_within-nil : (limits : ReplayLimits) (now : ℕ) → is_within limits now [] ≡ true
unfolding is_within distinct_heights events_of bytes_of
is_within-nil limits now = ground arith

pub longest-yes :
    (limits : ReplayLimits) (now : ℕ) (bs : List ReplayBucket)
    → is_within limits now bs ≡ true
    → longest_within limits now bs ≡ bs
unfolding longest_within
longest-yes limits now [] h = refl
longest-yes limits now (b ∷ bs) h = rw h refl

pub longest-no :
    (limits : ReplayLimits) (now : ℕ) (b : ReplayBucket) (bs : List ReplayBucket)
    → is_within limits now (b ∷ bs) ≡ false
    → longest_within limits now (b ∷ bs) ≡ longest_within limits now bs
unfolding longest_within
longest-no limits now b bs h = rw h refl

pub is_within-longest :
    (limits : ReplayLimits) (now : ℕ) (bs : List ReplayBucket)
    → is_within limits now (longest_within limits now bs) ≡ true
unfolding longest_within
is_within-longest limits now [] = is_within-nil limits now
is_within-longest limits now (b ∷ bs) = elim (Bool-cases (is_within limits now (b ∷ bs))) [
  | inl e ↦ rw e e
  | inr e ↦ rw e (is_within-longest limits now bs)
]

pub longest_suffix :
    (limits : ReplayLimits) (now : ℕ) (bs : List ReplayBucket)
    → (xs : List ReplayBucket) × (bs ≡ xs ++ longest_within limits now bs)
unfolding longest_within
longest_suffix limits now [] = ([], refl)
longest_suffix limits now (b ∷ bs) = elim (Bool-cases (is_within limits now (b ∷ bs))) [
  | inl e ↦ rw e ([], refl)
  | inr e ↦ let s = longest_suffix limits now bs in rw e (b ∷ s.0, ap (λ zs. b ∷ zs) s.1)
]

pub longest_longest :
    (limits : ReplayLimits) (now : ℕ) (bs xs ys : List ReplayBucket)
    → bs ≡ xs ++ ys
    → is_within limits now ys ≡ true
    → length ys ≤ length (longest_within limits now bs)
longest_longest limits now bs [] ys e w =
    rw (longest-yes limits now bs (rw e w)) (rw e (omega arith))
longest_longest limits now [] (x ∷ xs) ys e w = cc
longest_longest limits now (b ∷ bs) (x ∷ xs) ys e w =
    let t : bs ≡ xs ++ ys = cc in
    elim (Bool-cases (is_within limits now (b ∷ bs))) [
      | inl y ↦
          rw (longest-yes limits now (b ∷ bs) y) (omega (arith, ap length t, length-append xs ys))
      | inr n ↦ rw (longest-no limits now b bs n) (longest_longest limits now bs xs ys t w)
    ]

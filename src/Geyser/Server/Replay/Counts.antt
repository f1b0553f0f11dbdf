-- ===== src/Geyser/Server/Replay/Counts.antt =====
-- The counters of `ReplayBuffer` against its buckets.
use zakura_grpc.Common.{
  ℕ, zero, suc, ◌+◌, ◌%◌, ◌^◌, ◌≤◌, ◌<◌, ◌≡◌, refl, true, false, ◌||◌, Option, none, some, List, [],
  ◌∷◌, ◌++◌, map, length, contains, nodup, eqb, nat_eq, ◌==◌, keys, map_get, hash_put, map_remove,
  get-hash_put, get-map_remove, u64_max, if◌then◌else◌, arith, Bool-cases, inl, inr,
}
use zakura_grpc.Geyser.Server.Replay.{ReplayBucket, count_up, count_down, unwrap_or}

abbrev pub bucket_heights : List ReplayBucket → List ℕ
bucket_heights = map λ b. b.height

-- How many buckets have the height.
unfoldable pub buckets_at : ℕ → List ReplayBucket → ℕ
buckets_at h [] = 0
buckets_at h (b ∷ bs) = if b.height == h then suc (buckets_at h bs) else buckets_at h bs

unfoldable pub events_of : List ReplayBucket → ℕ
events_of [] = 0
events_of (b ∷ bs) = length b.updates + events_of bs

unfoldable pub bytes_of : List ReplayBucket → ℕ
bytes_of [] = 0
bytes_of (b ∷ bs) = b.encoded_bytes + bytes_of bs

-- The count of a height, as the hash map keeps it.
abbrev pub counted : ℕ → Option ℕ
counted n = if n == 0 then none else some n

pub record Counts (bs : List ReplayBucket) (counts : List (ℕ × ℕ)) : Type 0 where
  pub each : (h : ℕ) → map_get h counts ≡ counted (buckets_at h bs)
  pub distinct : nodup (keys counts) ≡ true

pub buckets_at-le : (h : ℕ) (bs : List ReplayBucket) → buckets_at h bs ≤ length bs
unfolding buckets_at
buckets_at-le h [] = omega arith
buckets_at-le h (b ∷ bs) = ground (arith, buckets_at-le h bs)

pub buckets_at-append :
    (h : ℕ) (bs : List ReplayBucket) (b : ReplayBucket)
    → buckets_at h (bs ++ b ∷ []) ≡ buckets_at h bs + (if b.height == h then 1 else 0)
unfolding buckets_at
buckets_at-append h [] b = ground arith
buckets_at-append h (c ∷ bs) b = ground (arith, buckets_at-append h bs b)

pub events_of-append :
    (bs : List ReplayBucket) (b : ReplayBucket)
    → events_of (bs ++ b ∷ []) ≡ events_of bs + length b.updates
unfolding events_of
events_of-append [] b = omega arith
events_of-append (c ∷ bs) b = omega (arith, events_of-append bs b)

pub bytes_of-append :
    (bs : List ReplayBucket) (b : ReplayBucket)
    → bytes_of (bs ++ b ∷ []) ≡ bytes_of bs + b.encoded_bytes
unfolding bytes_of
bytes_of-append [] b = omega arith
bytes_of-append (c ∷ bs) b = omega (arith, bytes_of-append bs b)

contains-keys-hash_put :
    (k q : ℕ) (v : ℕ) (m : List (ℕ × ℕ))
    → contains (keys (hash_put k v m)) q ≡ (q == k || contains (keys m) q)
unfolding contains hash_put
contains-keys-hash_put k q v [] = ground arith
contains-keys-hash_put k q v ((j, w) ∷ m) = ground (arith, contains-keys-hash_put k q v m)

nodup-keys-hash_put :
    (k v : ℕ) (m : List (ℕ × ℕ)) → nodup (keys m) ≡ true → nodup (keys (hash_put k v m)) ≡ true
unfolding nodup hash_put contains
nodup-keys-hash_put k v [] d = refl
nodup-keys-hash_put k v ((j, w) ∷ m) d =
    ground (arith, nodup-keys-hash_put k v m, contains-keys-hash_put k j v m)

contains-keys-map_remove :
    (k q : ℕ) (m : List (ℕ × ℕ))
    → contains (keys (map_remove k m)) q ≡ (if q == k then false else contains (keys m) q)
unfolding contains map_remove
contains-keys-map_remove k q [] = ground arith
contains-keys-map_remove k q ((j, w) ∷ m) = ground (arith, contains-keys-map_remove k q m)

nodup-keys-map_remove :
    (k : ℕ) (m : List (ℕ × ℕ)) → nodup (keys m) ≡ true → nodup (keys (map_remove k m)) ≡ true
unfolding nodup map_remove contains
nodup-keys-map_remove k [] d = refl
nodup-keys-map_remove k ((j, w) ∷ m) d =
    ground (arith, nodup-keys-map_remove k m, contains-keys-map_remove k j m)

next_count :
    (n : ℕ) (o : Option ℕ) → n < u64_max → o ≡ counted n → (unwrap_or o 0 + 1) % 2 ^ 64 ≡ n + 1
next_count zero o small h = rw h refl
next_count (suc n) o small h = rw h (grind arith)

pub Counts-count_up :
    (bs : List ReplayBucket) (counts : List (ℕ × ℕ)) (b : ReplayBucket)
    → length bs < u64_max
    → Counts bs counts
    → Counts (bs ++ b ∷ []) (count_up b.height counts)
unfolding count_up
Counts-count_up bs counts b small c =
    let n = buckets_at b.height bs in
    let e : (unwrap_or (map_get b.height counts) 0 + 1) % 2 ^ 64 ≡ n + 1 =
      next_count n _ (omega (arith, buckets_at-le b.height bs)) (c.each b.height) in
    record {
      each = λ h.
          rw (get-hash_put b.height h _ counts, e, buckets_at-append h bs b)
            (ground (arith, c.each h));
      distinct = nodup-keys-hash_put _ _ counts c.distinct;
    }

count_down_lem :
    (b : ReplayBucket) (bs : List ReplayBucket) (counts : List (ℕ × ℕ))
    → map_get b.height counts ≡ counted (buckets_at b.height (b ∷ bs))
    → count_down b.height counts ≡ (
        if eqb (buckets_at b.height bs) 0
        then map_remove b.height counts
        else hash_put b.height (buckets_at b.height bs) counts)
unfolding count_down buckets_at
count_down_lem b bs counts h = ground arith

pub Counts-count_down :
    (b : ReplayBucket) (bs : List ReplayBucket) (counts : List (ℕ × ℕ))
    → Counts (b ∷ bs) counts
    → Counts bs (count_down b.height counts)
unfolding buckets_at
Counts-count_down b bs counts c =
    let e = count_down_lem b bs counts (c.each b.height) in
    elim (Bool-cases (eqb (buckets_at b.height bs) 0)) [
      | inl z ↦
          rw (e, z)
            (record {
              each = λ h. ground (arith, c.each h, get-map_remove b.height h counts);
              distinct = nodup-keys-map_remove b.height counts c.distinct;
            })
      | inr z ↦
          rw (e, z)
            (record {
              each = λ h.
                  ground (arith, c.each h, get-hash_put b.height h (buckets_at b.height bs) counts);
              distinct = nodup-keys-hash_put b.height _ counts c.distinct;
            })
    ]

-- ===== src/Client/Dedup/Buckets.antt =====
-- The buckets of dedup.rs: what a new key, a forgotten bucket and the trimming loop do to the set
-- of keys that the buckets hold.
use zakura_grpc.Common.{
  ℕ, ◌≤◌, ◌≡◌, refl, Bool, true, false, ◌||◌, List, [], ◌∷◌, map, length, ◌==◌, contains,
  contains-append, contains-set_remove, set_remove, nodup, Bool-cases, inl, inr, if◌then◌else◌, ltb,
  arith, nat_eq,
}
use zakura_grpc.Client.Dedup.{EventKey, HeightBucket, key_eq, add_key, forget, trim}

-- The key stands in some bucket.
unfoldable pub retained : List HeightBucket → EventKey → Bool
retained [] k = false
retained (b ∷ bs) k = contains b.keys k || retained bs k

abbrev pub bucket_heights : List HeightBucket → List ℕ
bucket_heights = map λ b. b.height

-- No key stands in two buckets.
abbrev pub Disjoint : List HeightBucket → Type 0
Disjoint [] = Unit
Disjoint (b ∷ bs) =
    ((k : EventKey) → contains b.keys k ≡ true → retained bs k ≡ false) × Disjoint bs

pub retained-add_key :
    (h : ℕ) (k j : EventKey) (bs : List HeightBucket)
    → retained (add_key h k bs) j ≡ (j == k || retained bs j)
unfolding add_key retained contains
retained-add_key h k j [] = ground arith
retained-add_key h k j (b ∷ bs) =
    ground (arith, retained-add_key h k j bs, contains-append b.keys (k ∷ []) j)

pub contains-bucket_heights-add_key :
    (h x : ℕ) (k : EventKey) (bs : List HeightBucket)
    → contains (bucket_heights (add_key h k bs)) x ≡ (x == h || contains (bucket_heights bs) x)
unfolding add_key contains
contains-bucket_heights-add_key h x k [] = ground arith
contains-bucket_heights-add_key h x k (b ∷ bs) =
    ground (arith, contains-bucket_heights-add_key h x k bs)

pub nodup-add_key :
    (h : ℕ) (k : EventKey) (bs : List HeightBucket)
    → nodup (bucket_heights bs) ≡ true
    → nodup (bucket_heights (add_key h k bs)) ≡ true
unfolding add_key nodup contains
nodup-add_key h k [] d = refl
nodup-add_key h k (b ∷ bs) d =
    ground (arith, nodup-add_key h k bs, contains-bucket_heights-add_key h b.height k bs)

pub Disjoint-add_key :
    (h : ℕ) (k : EventKey) (bs : List HeightBucket)
    → retained bs k ≡ false
    → Disjoint bs
    → Disjoint (add_key h k bs)
unfolding add_key retained contains
Disjoint-add_key h k [] fresh d = (λ j _. refl, tt)
Disjoint-add_key h k (b ∷ bs) fresh d = elim (Bool-cases (b.height == h)) [
  | inl e ↦
      rw e
        (λ j m. ground (arith, contains-append b.keys (k ∷ []) j, d.0 j, key_eq.beq_iff j k), d.1)
  | inr e ↦ rw e (
    λ j m. ground (arith, retained-add_key h k j bs, d.0 j, key_eq.beq_iff j k),
    Disjoint-add_key h k bs (ground arith) d.1,
  )
]

pub contains-forget :
    (ks seen : List EventKey) (k : EventKey)
    → contains (forget ks seen) k ≡ (if contains ks k then false else contains seen k)
unfolding forget contains
contains-forget [] seen k = refl
contains-forget (j ∷ ks) seen k =
    ground (arith, contains-forget ks (set_remove j seen) k, contains-set_remove j k seen)

-- `seen` is the set of the keys of the buckets.
pub record Agrees (heights : List HeightBucket) (seen : List EventKey) : Type 0 where
  pub same : (k : EventKey) → contains seen k ≡ retained heights k
  pub disjoint : Disjoint heights
  pub distinct : nodup (bucket_heights heights) ≡ true

Agrees-forget :
    (b : HeightBucket) (bs : List HeightBucket) (seen : List EventKey)
    → Agrees (b ∷ bs) seen
    → Agrees bs (forget b.keys seen)
unfolding retained nodup
Agrees-forget b bs seen a = record {
  same = λ k. ground (arith, contains-forget b.keys seen k, a.same k, a.disjoint.0 k);
  disjoint = a.disjoint.1;
  distinct = ground (arith, a.distinct);
}

pub trim-Agrees :
    (n : ℕ) (bs : List HeightBucket) (seen : List EventKey)
    → Agrees bs seen
    → Agrees (trim n bs seen).0 (trim n bs seen).1
unfolding trim
trim-Agrees n [] seen a = a
trim-Agrees n (b ∷ bs) seen a = elim (Bool-cases (ltb n (length (b ∷ bs)))) [
  | inl e ↦ rw e (trim-Agrees n bs (forget b.keys seen) (Agrees-forget b bs seen a))
  | inr e ↦ rw e a
]

pub length-trim-le :
    (n : ℕ) (bs : List HeightBucket) (seen : List EventKey) → length (trim n bs seen).0 ≤ n
unfolding trim
length-trim-le n [] seen = omega arith
length-trim-le n (b ∷ bs) seen = ground (arith, length-trim-le n bs (forget b.keys seen))

pub trim_short :
    (n : ℕ) (bs : List HeightBucket) (seen : List EventKey)
    → length bs ≤ n
    → trim n bs seen ≡ (bs, seen)
unfolding trim
trim_short n [] seen h = refl
trim_short n (b ∷ bs) seen h = ground arith

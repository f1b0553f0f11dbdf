-- ===== src/Geyser/Server/Replay/Extremes.antt =====
-- `first_available_height` and `latest_height` of server.rs: the least and the greatest height.
use zakura_grpc.Common.{
  ℕ, ◌≤◌, ◌≡◌, refl, sym, ◌∙◌, true, false, not, none, some, List, [], ◌∷◌, contains, eqb, nat_eq,
  keys, arith, Option-cases, inl, inr,
}
use zakura_grpc.Geyser.Server.Replay.{
  ReplayBucket, ReplayBuffer, minimum, maximum, first_available_height, latest_height,
}
use zakura_grpc.Geyser.Server.Replay.Counts.{bucket_heights, buckets_at, Counts}
use zakura_grpc.Geyser.Server.Replay.Within.{contains-keys}

minimum-none : (hs : List ℕ) (h : ℕ) → minimum hs ≡ none → contains hs h ≡ false
unfolding minimum contains
minimum-none [] h e = refl
minimum-none (x ∷ xs) h e = ground (arith, Option-cases (minimum xs))

pub minimum-member : (hs : List ℕ) (m : ℕ) → minimum hs ≡ some m → contains hs m ≡ true
unfolding minimum contains
minimum-member [] m e = cc
minimum-member (x ∷ xs) m e = elim (Option-cases (minimum xs)) [
  | inl n ↦ ground arith
  | inr (y, p) ↦ ground (arith, minimum-member xs y p)
]

pub minimum-le : (hs : List ℕ) (m h : ℕ) → minimum hs ≡ some m → contains hs h ≡ true → m ≤ h
unfolding minimum contains
minimum-le [] m h e c = cc
minimum-le (x ∷ xs) m h e c = elim (Option-cases (minimum xs)) [
  | inl n ↦ ground (arith, minimum-none xs h n)
  | inr (y, p) ↦ ground (arith, minimum-le xs y h p)
]

maximum-none : (hs : List ℕ) (h : ℕ) → maximum hs ≡ none → contains hs h ≡ false
unfolding maximum contains
maximum-none [] h e = refl
maximum-none (x ∷ xs) h e = ground (arith, Option-cases (maximum xs))

pub maximum-member : (hs : List ℕ) (m : ℕ) → maximum hs ≡ some m → contains hs m ≡ true
unfolding maximum contains
maximum-member [] m e = cc
maximum-member (x ∷ xs) m e = elim (Option-cases (maximum xs)) [
  | inl n ↦ ground arith
  | inr (y, p) ↦ ground (arith, maximum-member xs y p)
]

pub maximum-le : (hs : List ℕ) (m h : ℕ) → maximum hs ≡ some m → contains hs h ≡ true → h ≤ m
unfolding maximum contains
maximum-le [] m h e c = cc
maximum-le (x ∷ xs) m h e c = elim (Option-cases (maximum xs)) [
  | inl n ↦ ground (arith, maximum-none xs h n)
  | inr (y, p) ↦ ground (arith, maximum-le xs y h p)
]

-- The least member depends on the members alone.
pub minimum_same :
    (xs ys : List ℕ) → ((h : ℕ) → contains xs h ≡ contains ys h) → minimum xs ≡ minimum ys
minimum_same xs ys same = elim (Option-cases (minimum xs)) [
  | inl n ↦ elim (Option-cases (minimum ys)) [
    | inl m ↦ n ∙ sym m
    | inr (y, q) ↦ absurd (ground (arith, minimum-none xs y n, minimum-member ys y q, same y))
  ]
  | inr (x, p) ↦ elim (Option-cases (minimum ys)) [
    | inl m ↦ absurd (ground (arith, minimum-none ys x m, minimum-member xs x p, same x))
    | inr (y, q) ↦ ground (
      arith,
      minimum-le xs x y p,
      minimum-le ys y x q,
      minimum-member xs x p,
      minimum-member ys y q,
      same x,
      same y,
    )
  ]
]

pub maximum_same :
    (xs ys : List ℕ) → ((h : ℕ) → contains xs h ≡ contains ys h) → maximum xs ≡ maximum ys
maximum_same xs ys same = elim (Option-cases (maximum xs)) [
  | inl n ↦ elim (Option-cases (maximum ys)) [
    | inl m ↦ n ∙ sym m
    | inr (y, q) ↦ absurd (ground (arith, maximum-none xs y n, maximum-member ys y q, same y))
  ]
  | inr (x, p) ↦ elim (Option-cases (maximum ys)) [
    | inl m ↦ absurd (ground (arith, maximum-none ys x m, maximum-member xs x p, same x))
    | inr (y, q) ↦ ground (
      arith,
      maximum-le xs x y p,
      maximum-le ys y x q,
      maximum-member xs x p,
      maximum-member ys y q,
      same x,
      same y,
    )
  ]
]

contains-bucket_heights :
    (h : ℕ) (bs : List ReplayBucket)
    → contains (bucket_heights bs) h ≡ not (eqb (buckets_at h bs) 0)
unfolding contains buckets_at
contains-bucket_heights h [] = refl
contains-bucket_heights h (b ∷ bs) = ground (arith, contains-bucket_heights h bs)

pub same_heights :
    (bs : List ReplayBucket) (counts : List (ℕ × ℕ))
    → Counts bs counts
    → (h : ℕ) → contains (keys counts) h ≡ contains (bucket_heights bs) h
same_heights bs counts c h =
    ground (arith, contains-keys h counts, c.each h, contains-bucket_heights h bs)

pub first_available_lem :
    (r : ReplayBuffer)
    → Counts r.buckets r.height_counts
    → first_available_height r ≡ minimum (bucket_heights r.buckets)
first_available_lem r c = minimum_same _ _ (same_heights r.buckets r.height_counts c)

pub latest_lem :
    (r : ReplayBuffer)
    → Counts r.buckets r.height_counts
    → latest_height r ≡ maximum (bucket_heights r.buckets)
latest_lem r c = maximum_same _ _ (same_heights r.buckets r.height_counts c)

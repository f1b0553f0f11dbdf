-- ===== src/Common/Maps.antt =====
-- `HashMap` as an association list and `BTreeMap` as one in key order, with the laws of both.
use mathlib.Core.Path.{◌≡◌, refl}
use mathlib.Core.Logic.{inl, inr}
use mathlib.Core.Bool.{Bool, true, false}
use mathlib.Core.List.{List, [], ◌∷◌, map}
use mathlib.Core.Option.{Option, none, some}
use native.Mathlib.Omega.{arith}
use zakura_grpc.Common.Tests.{if◌then◌else◌, Bool-cases}
use zakura_grpc.Common.Lists.{All, All-map, filter, All-filter}
use zakura_grpc.Common.Keyed.{Eq, ◌==◌}
use zakura_grpc.Common.Ordered.{Ord}

module _ {ℓ κ} {K : Type ℓ} {V : Type κ} where
  abbrev pub keys : List (K × V) → List K
  keys = map λ e. e.0

  abbrev pub values : List (K × V) → List V
  values = map λ e. e.1

module _ {ℓ κ} {K : Type ℓ} {V : Type κ} ⦃e : Eq K⦄ where
  unfoldable pub map_get : K → List (K × V) → Option V
  map_get k [] = none
  map_get k ((j, v) ∷ m) = if j == k then some v else map_get k m

  -- `HashMap::insert`, or a write through `entry`
  unfoldable pub hash_put : K → V → List (K × V) → List (K × V)
  hash_put k v [] = (k, v) ∷ []
  hash_put k v ((j, w) ∷ m) = if j == k then (j, v) ∷ m else (j, w) ∷ hash_put k v m

  -- `remove` of either map
  unfoldable pub map_remove : K → List (K × V) → List (K × V)
  map_remove k [] = []
  map_remove k ((j, v) ∷ m) = let rest = map_remove k m in if j == k then rest else (j, v) ∷ rest

  pub get-hash_put :
      (k q : K) (v : V) (m : List (K × V))
      → map_get q (hash_put k v m) ≡ (if k == q then some v else map_get q m)
  unfolding map_get hash_put
  get-hash_put k q v [] = refl
  get-hash_put k q v ((j, w) ∷ m) =
      ground (arith, get-hash_put k q v m, e.beq_iff j k, e.beq_iff j q, e.beq_iff k q)

  pub get-map_remove :
      (k q : K) (m : List (K × V))
      → map_get q (map_remove k m) ≡ (if k == q then none else map_get q m)
  unfolding map_get map_remove
  get-map_remove k q [] = ground arith
  get-map_remove k q ((j, w) ∷ m) =
      ground (arith, get-map_remove k q m, e.beq_iff j k, e.beq_iff j q, e.beq_iff k q)

  pub All-map_remove {μ} :
      (P : K × V → Type μ) (k : K) (m : List (K × V)) → All P m → All P (map_remove k m)
  unfolding map_remove
  All-map_remove P k [] a = tt
  All-map_remove P k ((j, w) ∷ m) a = elim (Bool-cases (j == k)) [
    | inl h ↦ rw h (All-map_remove P k m a.1)
    | inr h ↦ rw h (a.0, All-map_remove P k m a.1)
  ]

module _ {ℓ κ} {K : Type ℓ} {V : Type κ} ⦃e : Eq K⦄ ⦃o : Ord K⦄ where
  -- `BTreeMap::insert`
  unfoldable pub tree_insert : K → V → List (K × V) → List (K × V)
  tree_insert k v [] = (k, v) ∷ []
  tree_insert k v ((j, w) ∷ m) =
      if j == k
      then (k, v) ∷ m
      else if o.lt k j
      then (k, v) ∷ (j, w) ∷ m
      else (j, w) ∷ tree_insert k v m

  pub get-tree_insert :
      (k q : K) (v : V) (m : List (K × V))
      → map_get q (tree_insert k v m) ≡ (if k == q then some v else map_get q m)
  unfolding map_get tree_insert
  get-tree_insert k q v [] = refl
  get-tree_insert k q v ((j, w) ∷ m) =
      ground (arith, get-tree_insert k q v m, e.beq_iff j k, e.beq_iff j q, e.beq_iff k q)

  -- The keys rise strictly.
  abbrev pub Above : K → K × V → Type 0
  Above k entry = o.lt k entry.0 ≡ true

  abbrev pub Ascending : List (K × V) → Type 0
  Ascending [] = Unit
  Ascending (entry ∷ m) = All (Above entry.0) m × Ascending m

  pub All-tree_insert {μ} :
      (P : K × V → Type μ) (k : K) (v : V) (m : List (K × V))
      → P (k, v)
      → All P m
      → All P (tree_insert k v m)
  unfolding tree_insert
  All-tree_insert P k v [] p a = (p, tt)
  All-tree_insert P k v ((j, w) ∷ m) p a = elim (Bool-cases (j == k)) [
    | inl h ↦ rw h (p, a.1)
    | inr h ↦ elim (Bool-cases (o.lt k j)) [
      | inl l ↦ rw (h, l) (p, a)
      | inr l ↦ rw (h, l) (a.0, All-tree_insert P k v m p a.1)
    ]
  ]

  -- A key below all others comes first.
  pub tree_insert-below :
      (k : K) (v : V) (m : List (K × V)) → All (Above k) m → tree_insert k v m ≡ (k, v) ∷ m
  unfolding tree_insert
  tree_insert-below k v [] a = refl
  tree_insert-below k v ((j, w) ∷ m) a = ground (arith, e.beq_iff j k, o.lt_irrefl k, a.0)

  Above-trans : (k j : K) (m : List (K × V)) → o.lt k j ≡ true → All (Above j) m → All (Above k) m
  Above-trans k j m h a = All-map (Above j) (Above k) (λ x l. o.lt_trans k j x.0 h l) m a

  pub tree_insert-Ascending :
      (k : K) (v : V) (m : List (K × V)) → Ascending m → Ascending (tree_insert k v m)
  unfolding tree_insert
  tree_insert-Ascending k v [] a = (tt, tt)
  tree_insert-Ascending k v ((j, w) ∷ m) a = elim (Bool-cases (j == k)) [
    | inl h ↦ rw (h, ← (e.beq_iff j k).0 h) a
    | inr h ↦ elim (Bool-cases (o.lt k j)) [
      | inl l ↦ rw (h, l) ((l, Above-trans k j m l a.0), a)
      | inr l ↦
          rw (h, l)
            (
              All-tree_insert (Above j) k v m (above_of_not k j h l) a.0,
              tree_insert-Ascending k v m a.1,
            )
    ]
  ]
    where
      above_of_not : (k j : K) → (j == k) ≡ false → o.lt k j ≡ false → o.lt j k ≡ true
      above_of_not k j h l = elim (Bool-cases (o.lt j k)) [
        | inl yes' ↦ yes'
        | inr no' ↦ ground (arith, e.beq_iff j k, o.lt_total j k no' l)
      ]

  pub map_remove-Ascending : (k : K) (m : List (K × V)) → Ascending m → Ascending (map_remove k m)
  unfolding map_remove
  map_remove-Ascending k [] a = tt
  map_remove-Ascending k ((j, w) ∷ m) a = elim (Bool-cases (j == k)) [
    | inl h ↦ rw h (map_remove-Ascending k m a.1)
    | inr h ↦ rw h (All-map_remove (Above j) k m a.0, map_remove-Ascending k m a.1)
  ]

  pub filter-Ascending :
      (p : K × V → Bool) (m : List (K × V)) → Ascending m → Ascending (filter p m)
  unfolding filter
  filter-Ascending p [] a = tt
  filter-Ascending p (x ∷ m) a = elim (Bool-cases (p x)) [
    | inl h ↦ rw h (All-filter (Above x.0) p m a.0, filter-Ascending p m a.1)
    | inr h ↦ rw h (filter-Ascending p m a.1)
  ]

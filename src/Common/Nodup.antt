-- ===== src/Common/Nodup.antt =====
-- Lists without repetition, by a Boolean test, and the pigeonhole principle for them.
use Prim.Native.Nat.{◌≤◌, ◌<◌}
use mathlib.Core.Path.{◌≡◌, refl}
use mathlib.Core.Bool.{Bool, true, false, not, ◌&&◌}
use mathlib.Core.List.{List, [], ◌∷◌, ◌++◌}
use native.Mathlib.Omega.{arith}
use zakura_grpc.Common.Lists.{length, all}
use zakura_grpc.Common.Keyed.{Eq, contains, set_remove, contains-set_remove, contains-append}

module _ {ℓ} {A : Type ℓ} ⦃e : Eq A⦄ where
  unfoldable pub nodup : List A → Bool
  nodup [] = true
  nodup (x ∷ xs) = not (contains xs x) && nodup xs

  pub length-set_remove :
      (a : A) (xs : List A) → contains xs a ≡ true → length (set_remove a xs) < length xs
  unfolding contains set_remove
  length-set_remove a [] h = cc
  length-set_remove a (x ∷ xs) h = ground (arith, length-set_remove a xs, length-set_remove-le xs)
    where
      length-set_remove-le : (ys : List A) → length (set_remove a ys) ≤ length ys
      length-set_remove-le [] = omega arith
      length-set_remove-le (y ∷ ys) = ground (arith, length-set_remove-le ys)

  all-contains-set_remove :
      (x : A) (xs hs : List A)
      → contains xs x ≡ false
      → all (contains hs) xs ≡ true
      → all (contains (set_remove x hs)) xs ≡ true
  unfolding all contains
  all-contains-set_remove x [] hs fresh h = refl
  all-contains-set_remove x (y ∷ xs) hs fresh h = ground (
    arith,
    all-contains-set_remove x xs hs,
    contains-set_remove x y hs,
    e.beq_iff y x,
    e.beq_iff x y,
  )

  -- The pigeonhole principle.
  pub length-le_of_nodup :
      (xs hs : List A) → nodup xs ≡ true → all (contains hs) xs ≡ true → length xs ≤ length hs
  unfolding nodup all
  length-le_of_nodup [] hs d h = omega arith
  length-le_of_nodup (x ∷ xs) hs d h = ground (
    arith,
    length-set_remove x hs,
    all-contains-set_remove x xs hs,
    length-le_of_nodup xs (set_remove x hs),
  )

  pub nodup-append_one :
      (xs : List A) (a : A) → nodup xs ≡ true → contains xs a ≡ false → nodup (xs ++ a ∷ []) ≡ true
  unfolding nodup contains
  nodup-append_one [] a d h = refl
  nodup-append_one (x ∷ xs) a d h =
      ground
        (arith, nodup-append_one xs a, contains-append xs (a ∷ []) x, e.beq_iff x a, e.beq_iff a x)

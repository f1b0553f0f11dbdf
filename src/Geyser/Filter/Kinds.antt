-- ===== src/Geyser/Filter/Kinds.antt =====
-- The `u64` bit mask of event types of filter.rs stands for the list that it was compiled from.
use Prim.Native.Nat.{bit_and, bit_or, bit_and-bitwise}
use zakura_grpc.Common.{
  ℕ, ℤ, zero, suc, pos, negsuc, ◌^◌, ◌≤◌, ◌<◌, ◌≡◌, ◌≢◌, refl, ap, Bool, true, false, not, ◌&&◌,
  ◌||◌, List, [], ◌∷◌, is_empty, is_some_and, ok, err, >>=-eq-ok, contains, int_eq, nat_eq, ◌==◌,
  eqb, ltb, arith, Bool-cases, inl, inr,
}
use zakura_grpc.Proto.{event_type_try_from}
use zakura_grpc.Status.{Message, internal}
use zakura_grpc.Geyser.Filter.Compile.{event_type_bit, kind_bit, compile_kinds}
use zakura_grpc.Geyser.Filter.Matches.{kind_matches}

all_below : ℕ → (ℕ → Bool) → Bool
all_below zero p = true
all_below (suc n) p = p n && all_below n p

all_below_lem : (n : ℕ) (p : ℕ → Bool) (x : ℕ) → all_below n p ≡ true → x < n → p x ≡ true
unfolding all_below
all_below_lem zero p x h l = absurd (omega arith)
all_below_lem (suc n) p x h l = ground (arith, all_below_lem n p x)

same : Bool → Bool → Bool
same true b = b
same false b = not b

same_lem : (a b : Bool) → same a b ≡ true → a ≡ b
unfolding same
same_lem true true h = refl
same_lem true false h = cc
same_lem false true h = cc
same_lem false false h = refl

abbrev bit_is_set : ℕ → ℕ → Bool
bit_is_set mask m = not (eqb (bit_and mask (2 ^ m)) 0)

-- The known event types, 0 to 7, by evaluation of every case.
or_entry : ℕ → ℕ → ℕ → Bool
unfolding same
or_entry mask n m = same (bit_is_set (bit_or mask (2 ^ n)) m) (eqb m n || bit_is_set mask m)

or_table : all_below 256 (λ mask. all_below 8 (λ n. all_below 8 (or_entry mask n))) ≡ true
unfolding all_below or_entry
or_table = refl

range_entry : ℕ → ℕ → Bool
range_entry mask n = ltb (bit_or mask (2 ^ n)) 256 && ltb 0 (bit_or mask (2 ^ n))

range_table : all_below 256 (λ mask. all_below 8 (range_entry mask)) ≡ true
unfolding all_below range_entry
range_table = refl

-- Above them a mask of known event types has no bit.
high_entry : ℕ → ℕ → Bool
high_entry mask m = ltb m 8 || not (bit_is_set mask m)

high_table : all_below 256 (λ mask. all_below 64 (high_entry mask)) ≡ true
unfolding all_below high_entry
high_table = refl

or_bit :
    (mask n m : ℕ)
    → mask < 256
    → n < 8
    → m < 8
    → bit_is_set (bit_or mask (2 ^ n)) m ≡ (eqb m n || bit_is_set mask m)
unfolding or_entry
or_bit mask n m h k l = same_lem _ _ (
    all_below_lem 8 (or_entry mask n) m
      (all_below_lem 8 (λ n. all_below 8 (or_entry mask n)) n
        (all_below_lem 256 (λ mask. all_below 8 (λ n. all_below 8 (or_entry mask n))) mask or_table
          h)
        k)
      l)

or_range :
    (mask n : ℕ) → mask < 256 → n < 8 → (bit_or mask (2 ^ n) < 256) × (0 < bit_or mask (2 ^ n))
unfolding range_entry
or_range mask n h k =
    let e : range_entry mask n ≡ true =
      all_below_lem 8 (range_entry mask) n
        (all_below_lem 256 (λ mask. all_below 8 (range_entry mask)) mask range_table h) k in
    ground (arith, e)

high_bit : (mask m : ℕ) → mask < 256 → 8 ≤ m → m < 64 → bit_is_set mask m ≡ false
unfolding high_entry
high_bit mask m h k l =
    let e : high_entry mask m ≡ true =
      all_below_lem 64 (high_entry mask) m
        (all_below_lem 256 (λ mask. all_below 64 (high_entry mask)) mask high_table h) l in
    ground (arith, e)

-- The test that `matches` makes of the mask.
mask_has : ℕ → ℤ → Bool
mask_has mask t = is_some_and (event_type_bit t) (λ bit. not (eqb (bit_and mask bit) 0))

mask_has-or :
    (mask n : ℕ) (t : ℤ)
    → mask < 256
    → n < 8
    → mask_has (bit_or mask (2 ^ n)) t ≡ (t == pos n || mask_has mask t)
unfolding mask_has event_type_bit
mask_has-or mask n (negsuc m) h k = refl
mask_has-or mask n (pos m) h k = elim (Bool-cases (ltb m 8)) [
  | inl low ↦ elim (Bool-cases (ltb m 64)) [
    | inl fits ↦ rw fits (or_bit mask n m h k (ground arith))
    | inr big ↦ absurd (ground arith)
  ]
  | inr high ↦ elim (Bool-cases (ltb m 64)) [
    | inl fits ↦
        rw
          (
            fits,
            high_bit mask m h (ground arith) (ground arith),
            high_bit (bit_or mask (2 ^ n)) m (or_range mask n h k).0 (ground arith) (ground arith),
          )
          (ground arith)
    | inr big ↦ rw big (ground arith)
  ]
]

-- A kind that is accepted is one of the numbers 1 to 7, and its bit is that of the number.
kind_bit_lem :
    (kind : ℤ) (bit : ℕ)
    → kind_bit kind ≡ ok bit
    → (n : ℕ) × (kind ≡ pos n) × (n < 8) × (0 < n) × (bit ≡ 2 ^ n)
unfolding kind_bit event_type_try_from event_type_bit
kind_bit_lem (negsuc m) bit h = cc
kind_bit_lem (pos n) bit h = (n, refl, ground arith, ground arith, ground arith)

compile_kinds_lem :
    (kinds : List ℤ) (mask result : ℕ)
    → mask < 256
    → compile_kinds mask kinds ≡ ok result
    → (result < 256)
      × (eqb result 0 ≡ (eqb mask 0 && is_empty kinds))
      × ((t : ℤ) → mask_has result t ≡ (mask_has mask t || contains kinds t))
unfolding compile_kinds contains
compile_kinds_lem [] mask result h e = (ground arith, ground arith, λ t. ground arith)
compile_kinds_lem (kind ∷ rest) mask result h e =
    let (bit, accepted, e') = >>=-eq-ok (kind_bit kind) _ e in
    let (n, known, small, positive, value) = kind_bit_lem kind bit accepted in
    let range = or_range mask n h small in
    let (r, z, all) = compile_kinds_lem rest (bit_or mask bit) result (rw value range.0) e' in
    (
      r,
      rw z (ground (arith, ap (bit_or mask) value)),
      λ t. rw (all t, value, mask_has-or mask n t h small, known) (ground arith),
    )

mask_has-zero : (t : ℤ) → mask_has 0 t ≡ false
unfolding mask_has event_type_bit
mask_has-zero (negsuc m) = refl
mask_has-zero (pos m) = ground (arith, bit_and-bitwise 0 (2 ^ m))

-- The mask compiled from a list of event types matches an update exactly if the list is empty or
-- holds the event type of the update, whatever `i32` that is.
pub kind_matches_iff_listed :
    (kinds : List ℤ) (mask : ℕ) (event_type : ℤ)
    → compile_kinds 0 kinds ≡ ok mask
    → kind_matches mask event_type ≡ (is_empty kinds || contains kinds event_type)
unfolding kind_matches mask_has
kind_matches_iff_listed kinds mask event_type e =
    let l = compile_kinds_lem kinds 0 mask (omega arith) e in
    ground (arith, l.1, l.2 event_type, mask_has-zero event_type)

-- The `expect` on a known event type never panics.
pub kind_bit-ne-panic : (kind : ℤ) → kind_bit kind ≢ err (internal Message.expectation_failed)
unfolding kind_bit event_type_try_from event_type_bit
kind_bit-ne-panic (negsuc m) = λ h. cc
kind_bit-ne-panic (pos n) = λ h. ground arith

-- ===== src/Geyser/Server/Varint.antt =====
-- `encoded_varint_len` of server.rs.
use zakura_grpc.Common.{
  ℕ, zero, suc, ◌+◌, ◌*◌, ◌/◌, ◌^◌, ◌≤◌, ◌<◌, ◌≡◌, ◌⊎◌, refl, sym, ap, subst, ◌∙◌, true, false,
  Option, none, some, leb, arith, Bool-cases, inl, inr, u64_max, if◌then◌else◌,
}

-- The loop, on fuel: `value >>= 7` divides by 128.
unfoldable pub varint_loop : ℕ → ℕ → ℕ → Option ℕ
varint_loop zero value len = none
varint_loop (suc fuel) value len =
    let rest = varint_loop fuel (value / 128) (len + 1) in if leb 128 value then rest else some len

-- A `usize` is below 128 to the power of 10.
unfoldable pub encoded_varint_len : ℕ → Option ℕ
encoded_varint_len value = varint_loop 10 value 1

-- The number of groups of seven bits, after the first, that the value needs.
record IsExtra (fuel value k : ℕ) : Type 0 where
  bound : k < fuel
  fits : value < 128 ^ suc k
  least : (k ≡ 0) ⊎ (128 ^ k ≤ value)

pow-suc : (n : ℕ) → 128 ^ suc n ≡ 128 * 128 ^ n
pow-suc n = omega arith

div_below : (v m : ℕ) → v < 128 * m → v / 128 < m
div_below v m h = omega arith

below_div : (v m : ℕ) → v / 128 < m → v < 128 * m
below_div v m h = omega arith

at_least_div : (v m : ℕ) → m ≤ v / 128 → 128 * m ≤ v
at_least_div v m h = omega arith

-- One more round of the loop.
IsExtra-suc :
    (fuel value k : ℕ)
    → leb 128 value ≡ true
    → IsExtra fuel (value / 128) k
    → IsExtra (suc fuel) value (suc k)
IsExtra-suc fuel value k e x = record {
  bound = let b = x.bound in omega arith;
  fits = subst (λ m. value < m) (sym (pow-suc (suc k))) (below_div value _ x.fits);
  least = inr (
      subst (λ m. m ≤ value) (sym (pow-suc k))
        (elim x.least [
          | inl z ↦ subst (λ m. 128 * 128 ^ m ≤ value) (sym z) (ground arith)
          | inr l ↦ at_least_div value _ l
        ]));
}

one_group :
    (fuel value len : ℕ)
    → leb 128 value ≡ false
    → (k : ℕ) × (varint_loop (suc fuel) value len ≡ some (len + k)) × IsExtra (suc fuel) value k
unfolding varint_loop
one_group fuel value len e = (
  zero,
  rw (e, varint_loop) (ap some (omega arith)),
  record { bound = omega arith; fits = ground arith; least = inl refl },
)

varint_loop_lem :
    (fuel value len : ℕ)
    → value < 128 ^ suc fuel
    → (k : ℕ) × (varint_loop (suc fuel) value len ≡ some (len + k)) × IsExtra (suc fuel) value k
unfolding varint_loop
varint_loop_lem zero value len h = one_group zero value len (ground arith)
varint_loop_lem (suc fuel) value len h = elim (Bool-cases (leb 128 value)) [
  | inr e ↦ one_group (suc fuel) value len e
  | inl e ↦
      let below = div_below value _ (subst (λ m. value < m) (pow-suc (suc fuel)) h) in
      let (k, run, x) = varint_loop_lem fuel (value / 128) (len + 1) below in
      (suc k, rw (e, varint_loop) (run ∙ ap some (omega arith)), IsExtra-suc (suc fuel) value k e x)
]

-- The length of any `u64` comes out within the fuel: it is the least number of groups of seven bits
-- that hold the value, with at least one and at most ten.
pub encoded_varint_len_lem :
    (value : ℕ)
    → value ≤ u64_max
    → (k : ℕ) × (encoded_varint_len value ≡ some (suc k))
      × (suc k ≤ 10)
      × (value < 128 ^ suc k)
      × ((k ≡ 0) ⊎ (128 ^ k ≤ value))
unfolding encoded_varint_len
encoded_varint_len_lem value h =
    let (k, run, x) = varint_loop_lem 9 value 1 (omega arith) in
    (k, run ∙ ap some (omega arith), x.bound, x.fits, x.least)

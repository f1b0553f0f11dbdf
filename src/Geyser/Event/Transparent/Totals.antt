-- ===== src/Geyser/Event/Transparent/Totals.antt =====
-- The sum of the input values in `encode_transparent_updates` of event.rs.
use zakura_grpc.Common.{
  ℕ, ◌+◌, ◌≤◌, ◌≡◌, refl, ap, Option, none, some, List, [], ◌∷◌, all, is_some, checked_add, u64_max,
  ok, if◌then◌else◌, arith, Bool-cases, inl, inr,
}
use zakura_grpc.Geyser.Event.Transparent.{add_input_value}

-- The sum of the values that are known.
abbrev pub known_sum : List (Option ℕ) → ℕ
known_sum [] = 0
known_sum (none ∷ vs) = known_sum vs
known_sum (some v ∷ vs) = v + known_sum vs

-- The sum of the values, if each is known.
unfoldable pub total_of : Option ℕ → List (Option ℕ) → Option ℕ
total_of none vs = none
total_of (some start) vs = if all is_some vs then some (start + known_sum vs) else none

abbrev pub Fits : Option ℕ → List (Option ℕ) → Type 0
Fits none vs = Unit
Fits (some start) vs = start + known_sum vs ≤ u64_max

pub checked_add-fits : (a b : ℕ) → a + b ≤ u64_max → checked_add a b ≡ some (a + b)
checked_add-fits a b h = ground arith

-- One value more.
pub add_input_value-total_of :
    (start v : Option ℕ) (vs : List (Option ℕ))
    → Fits start (v ∷ vs)
    → (sum : Option ℕ) × (add_input_value start v ≡ ok sum)
      × (total_of sum vs ≡ total_of start (v ∷ vs))
      × Fits sum vs
unfolding add_input_value total_of all
add_input_value-total_of none v vs h = (none, refl, refl, tt)
add_input_value-total_of (some start) none vs h = (none, refl, refl, tt)
add_input_value-total_of (some start) (some v) vs h = (
  some (start + v),
  rw (checked_add-fits start v (omega arith), add_input_value) refl,
  elim (Bool-cases (all is_some vs)) [ inl e ↦ rw e (ap some (omega arith)) | inr e ↦ rw e refl ],
  omega arith,
)

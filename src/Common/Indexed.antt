-- ===== src/Common/Indexed.antt =====
-- `iter().enumerate()`
use Prim.Native.Nat.{ℕ, suc}
use mathlib.Core.List.{List, [], ◌∷◌}

module _ {ℓ} {A : Type ℓ} where
  unfoldable pub enumerate_from : ℕ → List A → List (ℕ × A)
  enumerate_from i [] = []
  enumerate_from i (x ∷ xs) = (i, x) ∷ enumerate_from (suc i) xs

module _ {ℓ κ} {A : Type ℓ} {B : Type κ} where
  -- A map that knows the positions.
  unfoldable pub map_indexed : (ℕ → A → B) → ℕ → List A → List B
  map_indexed f i [] = []
  map_indexed f i (x ∷ xs) = f i x ∷ map_indexed f (suc i) xs

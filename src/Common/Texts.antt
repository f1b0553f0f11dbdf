-- ===== src/Common/Texts.antt =====
-- `format!("{a}{b}")`
use Prim.Native.String.{String, ◌++◌}
use Prim.Native.String.append
use mathlib.Core.Path.{◌≡◌, refl, sym, ◌∙◌}

unfoldable pub concat : String → String → String
concat a b = a ++ b

-- A concatenation is empty only if its parts are.
pub concat-eq-nil : (a b : String) → concat a b ≡ String.[] → a ≡ String.[]
unfolding concat
concat-eq-nil String.[] b h = refl
concat-eq-nil (String.◌∷◌ c a) b h =
    let first : (String.◌∷◌ c (a ++ b)) ≡ String.[] = sym (λ i. append.cons c a b i) ∙ h in
    absurd (cc)

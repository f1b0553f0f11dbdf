-- ===== src/Common/Ordered.antt =====
-- Types with a strict total order: numbers, texts (Rust's `str` compares bytes, which orders valid
-- UTF-8 as its code points) and pairs.
use Prim.Native.Nat.{ℕ, Ordering, compare as compare_ℕ}
use Prim.Native.Char.{Char, code}
use Prim.Native.String.{String, compare, then}
use Prim.Native.String.compare as clauses
use mathlib.Core.Path.{◌≡◌, refl}
use mathlib.Core.Bool.{Bool, true, false, ◌&&◌, ◌||◌}
use native.Mathlib.Omega.{arith}
use text.Mathlib.TextEquality.{Char-path}
use text.Mathlib.TextPositions.{compare_refl}
use zakura_grpc.Common.Tests.{ltb, eqb}
use zakura_grpc.Common.Keyed.{Eq, ◌==◌}

pub record Ord {ℓ} (A : Type ℓ) : Type ℓ where
  pub lt : A → A → Bool
  pub lt_irrefl : (a : A) → lt a a ≡ false
  pub lt_trans : (a b c : A) → lt a b ≡ true → lt b c ≡ true → lt a c ≡ true
  pub lt_total : (a b : A) → lt a b ≡ false → lt b a ≡ false → a ≡ b

pub nat_lt_irrefl : (a : ℕ) → ltb a a ≡ false
nat_lt_irrefl a = ground arith

pub nat_lt_trans : (a b c : ℕ) → ltb a b ≡ true → ltb b c ≡ true → ltb a c ≡ true
nat_lt_trans a b c h k = ground arith

pub nat_lt_total : (a b : ℕ) → ltb a b ≡ false → ltb b a ≡ false → a ≡ b
nat_lt_total a b h k = ground arith

instance abbrev pub nat_ord : Ord ℕ
nat_ord = record {
  lt = ltb;
  lt_irrefl = nat_lt_irrefl;
  lt_trans = nat_lt_trans;
  lt_total = nat_lt_total;
}

pub text_lt : String → String → Bool
text_lt s t = elim (compare s t) [ Ordering.lt ↦ true | _ ↦ false ]

pub text_lt_irrefl : (s : String) → text_lt s s ≡ false
unfolding text_lt
text_lt_irrefl s = rw (compare_refl s, text_lt) refl

-- The clauses of `compare`, as `text_lt` sees them.
text_lt-nil : (s : String) → text_lt s String.[] ≡ false
unfolding text_lt
text_lt-nil String.[] = refl
text_lt-nil (String.◌∷◌ c s) = rw (clauses.cons-nil c s, text_lt) refl

text_lt-nil-cons : (d : Char) (t : String) → text_lt String.[] (String.◌∷◌ d t) ≡ true
unfolding text_lt
text_lt-nil-cons d t = rw (clauses.nil-cons d t, text_lt) refl

text_lt-cons-cons :
    (c d : Char) (s t : String)
    → text_lt (String.◌∷◌ c s) (String.◌∷◌ d t)
      ≡ (ltb (code c) (code d) || eqb (code c) (code d) && text_lt s t)
unfolding text_lt
text_lt-cons-cons c d s t =
    rw (clauses.cons-cons c d s t, text_lt) (by_order (compare_ℕ (code c) (code d)))
  where
    by_order :
        (o : Ordering)
        → elim (then o (compare s t)) as (λ x. Bool) [
          | Ordering.lt ↦ true
          | Ordering.eq ↦ false
          | Ordering.gt ↦ false
        ]
          ≡ (elim o as (λ x. Bool) [
            | Ordering.lt ↦ true
            | Ordering.eq ↦ false
            | Ordering.gt ↦ false
          ]
              || elim o as (λ x. Bool) [
                | Ordering.lt ↦ false
                | Ordering.eq ↦ true
                | Ordering.gt ↦ false
              ]
                && elim (compare s t) as (λ x. Bool) [
                  | Ordering.lt ↦ true
                  | Ordering.eq ↦ false
                  | Ordering.gt ↦ false
                ])
    by_order Ordering.lt = refl
    by_order Ordering.eq = refl
    by_order Ordering.gt = refl

pub text_lt_trans : (a b c : String) → text_lt a b ≡ true → text_lt b c ≡ true → text_lt a c ≡ true
text_lt_trans a b String.[] h k = cc (text_lt-nil b)
text_lt_trans String.[] b (String.◌∷◌ z c) h k = text_lt-nil-cons z c
text_lt_trans (String.◌∷◌ x a) String.[] c h k = cc (text_lt-nil (String.◌∷◌ x a))
text_lt_trans (String.◌∷◌ x a) (String.◌∷◌ y b) (String.◌∷◌ z c) h k = ground (
  arith,
  text_lt_trans a b c,
  text_lt-cons-cons x y a b,
  text_lt-cons-cons y z b c,
  text_lt-cons-cons x z a c,
)

cons_eq :
    (x y : Char) (a b : String)
    → code x ≡ code y
    → a ≡ b
    → Path String (String.◌∷◌ x a) (String.◌∷◌ y b)
cons_eq x y a b h k = λ i. String.◌∷◌ (Char-path x y h i) (k i)

pub text_lt_total : (a b : String) → text_lt a b ≡ false → text_lt b a ≡ false → a ≡ b
text_lt_total String.[] String.[] h k = refl
text_lt_total String.[] (String.◌∷◌ y b) h k = cc (text_lt-nil-cons y b)
text_lt_total (String.◌∷◌ x a) String.[] h k = cc (text_lt-nil-cons x a)
text_lt_total (String.◌∷◌ x a) (String.◌∷◌ y b) h k =
    cons_eq x y a b (ground (arith, text_lt-cons-cons x y a b, text_lt-cons-cons y x b a)) (
      text_lt_total a b (ground (arith, text_lt-cons-cons x y a b, text_lt-cons-cons y x b a))
        (ground (arith, text_lt-cons-cons x y a b, text_lt-cons-cons y x b a)))

instance abbrev pub text_ord : Ord String
text_ord = record {
  lt = text_lt;
  lt_irrefl = text_lt_irrefl;
  lt_trans = text_lt_trans;
  lt_total = text_lt_total;
}

-- Tuples compare by their first components, then by their second.
module _ {ℓ κ} {A : Type ℓ} {B : Type κ} ⦃e : Eq A⦄ ⦃o : Ord A⦄ ⦃q : Ord B⦄ where
  abbrev pub pair_lt : A × B → A × B → Bool
  pair_lt x y = o.lt x.0 y.0 || x.0 == y.0 && q.lt x.1 y.1

  pub pair_lt_irrefl : (x : A × B) → pair_lt x x ≡ false
  pair_lt_irrefl x = ground (arith, o.lt_irrefl x.0, q.lt_irrefl x.1)

  pub pair_lt_trans : (x y z : A × B) → pair_lt x y ≡ true → pair_lt y z ≡ true → pair_lt x z ≡ true
  pair_lt_trans x y z h k = ground (
    arith,
    o.lt_trans x.0 y.0 z.0,
    q.lt_trans x.1 y.1 z.1,
    e.beq_iff x.0 y.0,
    e.beq_iff y.0 z.0,
    e.beq_iff x.0 z.0,
  )

  pub pair_lt_total : (x y : A × B) → pair_lt x y ≡ false → pair_lt y x ≡ false → x ≡ y
  pair_lt_total x y h k =
      let p : x.0 ≡ y.0 = o.lt_total x.0 y.0 (ground arith) (ground arith) in
      let r : x.1 ≡ y.1 =
        q.lt_total x.1 y.1 (ground (arith, e.beq_iff x.0 y.0, e.beq_iff y.0 x.0))
          (ground (arith, e.beq_iff x.0 y.0, e.beq_iff y.0 x.0)) in
      λ i. (p i, r i)

  instance abbrev pub pair_ord : Ord (A × B)
  pair_ord = record {
    lt = pair_lt;
    lt_irrefl = pair_lt_irrefl;
    lt_trans = pair_lt_trans;
    lt_total = pair_lt_total;
  }

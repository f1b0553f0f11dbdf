-- ===== src/Geyser/Filter/Values.antt =====
-- The sets of transaction IDs and addresses that filter.rs compiles from the lists of a request.
use zakura_grpc.Common.{
  ℕ, ◌≤◌, ◌≡◌, refl, ◌∙◌, Bool, true, false, ◌&&◌, ◌||◌, Option, some, String, List, [], ◌∷◌,
  length, is_empty, is_some_and, any, all, contains, set_insert, contains-set_insert, ok, >>=-eq-ok,
  bind_cases, ok-injective, reject_if, ok_or, traverse, ◌==◌, string_eq, ltb, arith, Bool-cases,
  inl, inr,
}
use zakura_grpc.Status.{Message, internal}
use zakura_grpc.Geyser.Filter.Compile.{
  extend_set, to_set, accept_value, compile_values, validate_list_size,
}

all-contained :
    (p : String → Bool) (xs : List String) (x : String)
    → contains xs x ≡ true
    → all p xs ≡ true
    → p x ≡ true
unfolding contains all
all-contained p [] x c a = cc
all-contained p (y ∷ xs) x c a = ground (arith, all-contained p xs x, string_eq.beq_iff x y)

all-set_insert :
    (p : String → Bool) (x : String) (xs : List String)
    → all p (set_insert x xs) ≡ (p x && all p xs)
unfolding set_insert all
all-set_insert p x xs = elim (Bool-cases (contains xs x)) [
  | inl e ↦ elim (Bool-cases (all p xs)) [
    | inl a ↦ rw (e, a, all-contained p xs x e a) refl
    | inr a ↦ rw (e, a) (ground arith)
  ]
  | inr e ↦ rw e refl
]

is_empty-set_insert : (x : String) (xs : List String) → is_empty (set_insert x xs) ≡ false
unfolding set_insert contains
is_empty-set_insert x [] = refl
is_empty-set_insert x (y ∷ xs) = ground arith

pub contains-extend_set :
    (set xs : List String) (x : String)
    → contains (extend_set set xs) x ≡ (contains set x || contains xs x)
unfolding extend_set contains
contains-extend_set set [] x = ground arith
contains-extend_set set (y ∷ xs) x =
    ground (arith, contains-extend_set (set_insert y set) xs x, contains-set_insert y x set)

pub all-extend_set :
    (p : String → Bool) (set xs : List String) → all p (extend_set set xs) ≡ (all p set && all p xs)
unfolding extend_set all
all-extend_set p set [] = ground arith
all-extend_set p set (y ∷ xs) =
    ground (arith, all-extend_set p (set_insert y set) xs, all-set_insert p y set)

pub is_empty-extend_set :
    (set xs : List String) → is_empty (extend_set set xs) ≡ (is_empty set && is_empty xs)
unfolding extend_set
is_empty-extend_set set [] = ground arith
is_empty-extend_set set (y ∷ xs) =
    ground (arith, is_empty-extend_set (set_insert y set) xs, is_empty-set_insert y set)

contains-to_set : (xs : List String) (x : String) → contains (to_set xs) x ≡ contains xs x
unfolding contains
contains-to_set xs x = contains-extend_set [] xs x

module _ (canonical : String → Option String) where
  -- The canonical form of some value of the list is `x`.
  pub listed : List String → String → Bool
  unfolding any
  listed values x = any (λ v. is_some_and (canonical v) (λ y. x == y)) values

  -- Every value of the list has a canonical form with the property.
  pub every : (String → Bool) → List String → Bool
  unfolding all
  every p values = all (λ v. is_some_and (canonical v) p) values

  -- The set holds the canonical forms of the values.
  pub record Represents (values set : List String) : Type 0 where
    pub empty : is_empty set ≡ is_empty values
    pub members : (x : String) → contains set x ≡ listed values x
    pub each : (p : String → Bool) → all p set ≡ every p values

  Represents-nil : Represents [] []
  unfolding listed every contains any all
  Represents-nil = record { empty = refl; members = λ x. refl; each = λ p. refl }

  Represents-cons :
      (v y : String) (values out : List String)
      → canonical v ≡ some y
      → Represents values out
      → Represents (v ∷ values) (y ∷ out)
  unfolding listed every contains any all
  Represents-cons v y values out e r = record {
    empty = refl;
    members = λ x. ground (arith, r.members x);
    each = λ p. ground (arith, r.each p);
  }

  -- The set has all the values that the list of their canonical forms has.
  Represents-to_set :
      (values out : List String) → Represents values out → Represents values (to_set out)
  unfolding contains all
  Represents-to_set values out r = record {
    empty = ground (arith, is_empty-extend_set [] out, r.empty);
    members = λ x. ground (arith, contains-extend_set [] out x, r.members x);
    each = λ p. ground (arith, all-extend_set p [] out, r.each p);
  }

  -- A value that is accepted has a canonical form, and no reject list has it.
  accept_value_lem :
      (invalid rejected_by : String → Message) (rejected : List String) (v y : String)
      → accept_value canonical invalid rejected_by rejected v ≡ ok y
      → (canonical v ≡ some y) × (contains rejected y ≡ false)
  unfolding accept_value
  accept_value_lem invalid rejected_by rejected v y h = (ground arith, ground arith)

  accepted_lem :
      (invalid rejected_by : String → Message) (rejected values out : List String)
      → traverse (accept_value canonical invalid rejected_by rejected) values ≡ ok out
      → Represents values out × ((x : String) → contains rejected x ≡ true → contains out x ≡ false)
  unfolding traverse contains
  accepted_lem invalid rejected_by rejected [] out h =
      rw (← ok-injective h) (Represents-nil, λ x c. refl)
  accepted_lem invalid rejected_by rejected (v ∷ values) out h =
      let (y, e, h1) = >>=-eq-ok (accept_value canonical invalid rejected_by rejected v) _ h in
      let (ys, e', h2) =
        >>=-eq-ok (traverse (accept_value canonical invalid rejected_by rejected) values) _ h1 in
      let (r, n) = accepted_lem invalid rejected_by rejected values ys e' in
      let a = accept_value_lem invalid rejected_by rejected v y e in
      rw (← ok-injective h2) (
        Represents-cons v y values ys a.0 r,
        λ x c. ground (arith, n x c, string_eq.beq_iff x y, a),
      )

  rejected_lem :
      (bad : Message) (rs out : List String)
      → traverse (λ r. ok_or (canonical r) (internal bad)) rs ≡ ok out
      → Represents rs out
  unfolding traverse
  rejected_lem bad [] out h = rw (← ok-injective h) Represents-nil
  rejected_lem bad (r ∷ rs) out h =
      let (y, e, h1) = >>=-eq-ok (ok_or (canonical r) (internal bad)) _ h in
      let (ys, e', h2) = >>=-eq-ok (traverse (λ r. ok_or (canonical r) (internal bad)) rs) _ h1 in
      rw (← ok-injective h2) (Represents-cons r y rs ys (ground arith) (rejected_lem bad rs ys e'))

  -- A list that compiles is within its limit, the set holds the canonical forms of its values and no
  -- canonical form of the reject list.
  pub compile_values_lem :
      (bad : Message) (invalid rejected_by : String → Message) (field : String)
      (values : List String) (maximum : ℕ) (rejected out : List String)
      → compile_values canonical bad invalid rejected_by field values maximum rejected ≡ ok out
      → (length values ≤ maximum)
        × Represents values out
        × ((x : String) → listed rejected x ≡ true → contains out x ≡ false)
  unfolding compile_values validate_list_size
  compile_values_lem bad invalid rejected_by field values maximum rejected out h =
      bind_cases (reject_if (ltb maximum (length values)) _) _ h λ _ e0 h0.
        bind_cases (traverse (λ r. ok_or (canonical r) (internal bad)) rejected) _ h0 λ rs e1 h1.
          bind_cases (traverse (accept_value canonical invalid rejected_by (to_set rs)) values) _ h1
            λ ys e2 h2.
              let a = accepted_lem invalid rejected_by (to_set rs) values ys e2 in
              let q = Represents-to_set rejected rs (rejected_lem bad rejected rs e1) in
              rw (← ok-injective h2) (
                ground arith,
                Represents-to_set values ys a.0,
                λ x l. contains-to_set ys x ∙ a.1 x (q.members x ∙ l),
              )

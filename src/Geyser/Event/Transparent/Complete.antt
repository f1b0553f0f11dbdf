-- ===== src/Geyser/Event/Transparent/Complete.antt =====
-- What `encode_transparent_updates` of event.rs gives for a transaction whose inputs and outputs
-- are within the ranges of the protocol.
use mathlib.Core.List.{append_assoc, append-nil}
use zakura_grpc.Common.{
  ℕ, suc, ◌+◌, ◌≤◌, ◌≡◌, refl, sym, ap, true, false, Bool, ◌||◌, Option, none, some, String, List,
  [], ◌∷◌, ◌++◌, length, u32_max, u64_max, ok, if◌then◌else◌, arith, all, map_indexed,
  enumerate_from, flat_map,
}
use zakura_grpc.Proto.{TransparentInput, TransparentOutput, UtxoChange}
use zakura_grpc.Geyser.Event.Source.{ChainInput, Output, Transaction, Network, Formats, PluginError}
use zakura_grpc.Geyser.Event.Previous.{
  PreviousOutputs, TransparentEncodingContext, encode_previous_output,
}
use zakura_grpc.Geyser.Event.Transparent.{
  push_if, u32_or, input_row, spent_row, output_row, created_row, encode_transparent_input,
  encode_transparent_output, encode_inputs, encode_outputs, encode_transparent_updates,
}
use zakura_grpc.Geyser.Event.Transparent.Totals.{
  known_sum, total_of, Fits, checked_add-fits, add_input_value-total_of,
}

abbrev pub when {ℓ} : {A : Type ℓ} → Bool → List A → List A
when true xs = xs
when false xs = []

abbrev pub sum_values : List Output → ℕ
sum_values [] = 0
sum_values (o ∷ os) = o.value + sum_values os

u32_or-fits : (i : ℕ) (e : PluginError) → suc i ≤ suc u32_max → u32_or i e ≡ ok i
u32_or-fits i e h = ground arith

push-when {ℓ} :
    {A : Type ℓ} (b : Bool) (row : A) (rows rest : List A)
    → push_if b row rows ++ when b rest ≡ rows ++ when b (row ∷ rest)
push-when true row rows rest = append_assoc rows (row ∷ []) rest
push-when false row rows rest = refl

append-when {ℓ} :
    {A : Type ℓ} (b : Bool) (xs ys : List A) → when b (xs ++ ys) ≡ when b xs ++ when b ys
append-when true xs ys = refl
append-when false xs ys = refl

push_one {ℓ} :
    {A : Type ℓ} (b : Bool) (row : A) (rows : List A)
    → push_if b row rows ≡ rows ++ when b (row ∷ [])
push_one true row rows = refl
push_one false row rows = sym (append-nil rows)

append-when_nil {ℓ} : {A : Type ℓ} (b : Bool) (rows : List A) → rows ++ when b [] ≡ rows
append-when_nil true rows = append-nil rows
append-when_nil false rows = append-nil rows

-- A row pushed first, and the others later.
append-append-when {ℓ} :
    {A : Type ℓ} (b : Bool) (rows xs ys : List A)
    → (rows ++ when b xs) ++ when b ys ≡ rows ++ when b (xs ++ ys)
append-append-when b rows xs ys =
    rw (append-when b xs ys) (append_assoc rows (when b xs) (when b ys))

triple {ℓ κ μ} :
    {A : Type ℓ} {B : Type κ} {C : Type μ} {a a' : A} {b b' : B} {c c' : C}
    → a ≡ a'
    → b ≡ b'
    → c ≡ c'
    → Path (A × B × C) (a, b, c) (a', b', c')
triple p q r = cc

start-Fits :
    (b : Bool) (vs : List (Option ℕ))
    → known_sum vs ≤ u64_max
    → Fits (if b then some 0 else none) vs
start-Fits true vs h = omega arith
start-Fits false vs h = tt

total_of-nil : (total : Option ℕ) → total_of total [] ≡ total
unfolding total_of all
total_of-nil none = refl
total_of-nil (some t) = ap some (omega arith)

module _ (formats : Formats) (context : TransparentEncodingContext) where
  -- The value of an input and the change that it makes.
  unfoldable pub value_of : ChainInput → ℕ → Option ℕ
  value_of (ChainInput.prev_out outpoint script sequence) i =
      (encode_previous_output formats context outpoint i).value_zat
  value_of (ChainInput.coinbase height bytes sequence) i = some 0

  unfoldable pub spent_of : ℕ × ChainInput → List UtxoChange
  spent_of (i, ChainInput.prev_out outpoint script sequence) =
      spent_row formats context outpoint script sequence i i ∷ []
  spent_of (i, ChainInput.coinbase height bytes sequence) = []

  abbrev pub values_from : ℕ → List ChainInput → List (Option ℕ)
  values_from i inputs = map_indexed (λ j x. value_of x j) i inputs

  abbrev pub inputs_from : ℕ → List ChainInput → List TransparentInput
  inputs_from i inputs = map_indexed (λ j x. input_row formats context x j j) i inputs

  abbrev pub spent_from : ℕ → List ChainInput → List UtxoChange
  spent_from i inputs = flat_map spent_of (enumerate_from i inputs)

  abbrev pub outputs_from : ℕ → List Output → List TransparentOutput
  outputs_from i outputs = map_indexed (λ j x. output_row formats context x j) i outputs

  abbrev pub created_from : String → ℕ → List Output → List UtxoChange
  created_from id i outputs = map_indexed (λ j x. created_row formats context x j id) i outputs

  encode_transparent_input_lem :
      (x : ChainInput) (i : ℕ) (rows : List TransparentInput) (changes : List UtxoChange)
      → encode_transparent_input formats context x i i rows changes ≡ (
        push_if context.transaction_updates (input_row formats context x i i) rows,
        changes ++ when context.utxo_updates (spent_of (i, x)),
        value_of x i,
      )
  unfolding encode_transparent_input spent_of value_of
  encode_transparent_input_lem (ChainInput.prev_out outpoint script sequence) i rows changes =
      triple refl (push_one context.utxo_updates _ changes) refl
  encode_transparent_input_lem (ChainInput.coinbase height bytes sequence) i rows changes =
      triple refl (sym (append-when_nil context.utxo_updates changes)) refl

  encode_inputs_lem :
      (i : ℕ) (inputs : List ChainInput) (rows : List TransparentInput) (changes : List UtxoChange)
      (total : Option ℕ)
      → i + length inputs ≤ suc u32_max
      → Fits total (values_from i inputs)
      → encode_inputs formats context i inputs (rows, changes, total)
        ≡ ok (
          rows ++ when context.transaction_updates (inputs_from i inputs),
          changes ++ when context.utxo_updates (spent_from i inputs),
          total_of total (values_from i inputs),
        )
  unfolding encode_inputs map_indexed enumerate_from flat_map
  encode_inputs_lem i [] rows changes total h f = ap ok (
      triple (sym (append-when_nil context.transaction_updates rows))
        (sym (append-when_nil context.utxo_updates changes)) (sym (total_of-nil total)))
  encode_inputs_lem i (x ∷ inputs) rows changes total h f =
      let (sum, added, same, fits) =
        add_input_value-total_of total (value_of x i) (values_from (suc i) inputs) f in
      let row = input_row formats context x i i in
      let ih =
        encode_inputs_lem (suc i) inputs (push_if context.transaction_updates row rows)
          (changes ++ when context.utxo_updates (spent_of (i, x))) sum (omega arith) fits in
      rw
        (
          u32_or-fits i PluginError.input_index_out_of_range (omega arith),
          encode_transparent_input_lem x i rows changes,
          added,
          ih,
        )
        (ap ok (
          triple (push-when context.transaction_updates row rows (inputs_from (suc i) inputs))
            (append-append-when context.utxo_updates changes (spent_of (i, x))
              (spent_from (suc i) inputs))
            same))

  encode_outputs_lem :
      (id : String) (i : ℕ) (outputs : List Output) (rows : List TransparentOutput)
      (changes : List UtxoChange) (total : ℕ)
      → i + length outputs ≤ suc u32_max
      → total + sum_values outputs ≤ u64_max
      → encode_outputs formats context id i outputs (rows, changes, total)
        ≡ ok (
          rows ++ when context.transaction_updates (outputs_from i outputs),
          changes ++ when context.utxo_updates (created_from id i outputs),
          total + sum_values outputs,
        )
  unfolding encode_outputs map_indexed encode_transparent_output
  encode_outputs_lem id i [] rows changes total h f = ap ok (
      triple (sym (append-when_nil context.transaction_updates rows))
        (sym (append-when_nil context.utxo_updates changes)) (omega arith))
  encode_outputs_lem id i (x ∷ outputs) rows changes total h f =
      let row = output_row formats context x i in
      let change = created_row formats context x i id in
      let ih =
        encode_outputs_lem id (suc i) outputs (push_if context.transaction_updates row rows)
          (push_if context.utxo_updates change changes) (total + x.value) (omega arith)
          (omega arith) in
      rw
        (
          u32_or-fits i PluginError.output_index_out_of_range (omega arith),
          checked_add-fits total x.value (omega arith),
          ih,
        )
        (ap ok (
          triple (push-when context.transaction_updates row rows (outputs_from (suc i) outputs))
            (push-when context.utxo_updates change changes (created_from id (suc i) outputs))
            (omega arith)))

abbrev pub context_of : Network → PreviousOutputs → Bool → Bool → TransparentEncodingContext
context_of network previous transaction_updates utxo_updates = record {
  network = network;
  previous_outputs = previous;
  transaction_updates = transaction_updates;
  utxo_updates = utxo_updates;
}

module _ (formats : Formats) where
  -- A transaction of at most 2^32 inputs and outputs, whose known input values and whose output
  -- values sum to a `u64` each, is encoded: a row for each input and output in order if rows are
  -- wanted, the spends in order and then the creations if changes are wanted, the sum of the output
  -- values, and the sum of the input values if anything is wanted and each of them is known.
  pub encode_transparent_updates_lem :
      (t : Transaction) (id : String) (network : Network) (previous : PreviousOutputs)
      (tu uu : Bool)
      → length t.inputs ≤ suc u32_max
      → length t.outputs ≤ suc u32_max
      → known_sum (values_from formats (context_of network previous tu uu) 0 t.inputs) ≤ u64_max
      → sum_values t.outputs ≤ u64_max
      → let context = context_of network previous tu uu in
        encode_transparent_updates formats t id network previous tu uu
        ≡ ok (record {
          transaction_inputs = when tu (inputs_from formats context 0 t.inputs);
          transaction_outputs = when tu (outputs_from formats context 0 t.outputs);
          utxo_changes =
              when uu (spent_from formats context 0 t.inputs)
              ++ when uu (created_from formats context id 0 t.outputs);
          transparent_input_value_zat =
              total_of (if tu || uu then some 0 else none) (values_from formats context 0 t.inputs);
          transparent_output_value_zat = sum_values t.outputs;
        })
  unfolding encode_transparent_updates
  encode_transparent_updates_lem t id network previous tu uu h k f g =
      let c = context_of network previous tu uu in
      let start : Option ℕ = if tu || uu then some 0 else none in
      let spent = when uu (spent_from formats c 0 t.inputs) in
      let inputs =
        encode_inputs_lem formats c 0 t.inputs [] [] start (omega arith)
          (start-Fits (tu || uu) (values_from formats c 0 t.inputs) f) in
      let outputs =
        encode_outputs_lem formats c id 0 t.outputs [] spent 0 (omega arith) (omega arith) in
      rw (inputs, outputs)
        (ap
          (λ total. ok (record {
            transaction_inputs = when tu (inputs_from formats c 0 t.inputs);
            transaction_outputs = when tu (outputs_from formats c 0 t.outputs);
            utxo_changes = spent ++ when uu (created_from formats c id 0 t.outputs);
            transparent_input_value_zat = total_of start (values_from formats c 0 t.inputs);
            transparent_output_value_zat = total;
          }))
          (omega arith))

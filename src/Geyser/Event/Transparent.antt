-- ===== src/Geyser/Event/Transparent.antt =====
-- `encode_transparent_input`, `encode_transparent_output` and `encode_transparent_updates` of
-- event.rs.
pub mod Totals
pub mod Complete
use zakura_grpc.Common.{
  ℕ, suc, Bool, ◌||◌, Option, none, some, String, List, [], ◌∷◌, ◌++◌, leb, u32_max, checked_add,
  Result, ok, err, ok_or, ◌>>=◌, if◌then◌else◌,
}
use zakura_grpc.Proto.{TransparentInput, TransparentOutput, Input, UtxoChange, UtxoChangeKind}
use zakura_grpc.Geyser.Event.Source.{
  ChainInput, OutPoint, Output, Transaction, Network, Formats, PluginError,
}
use zakura_grpc.Geyser.Event.Previous.{
  PreviousOutputs, TransparentEncodingContext, encode_previous_output, address_of,
}

pub record EncodedTransparentUpdates : Type 0 where
  pub transaction_inputs : List TransparentInput
  pub transaction_outputs : List TransparentOutput
  pub utxo_changes : List UtxoChange
  pub transparent_input_value_zat : Option ℕ
  pub transparent_output_value_zat : ℕ

-- `if enabled { rows.push(row) }`
abbrev pub push_if {ℓ} : {A : Type ℓ} → Bool → A → List A → List A
push_if enabled row rows = if enabled then rows ++ row ∷ [] else rows

-- `u32::try_from(index).map_err(..)?`
abbrev pub u32_or : ℕ → PluginError → Result PluginError ℕ
u32_or index e = if leb index u32_max then ok index else err e

module _ (formats : Formats) where
  unfoldable pub input_row : TransparentEncodingContext → ChainInput → ℕ → ℕ → TransparentInput
  input_row context (ChainInput.prev_out outpoint unlock_script sequence) input_index index =
      let previous = encode_previous_output formats context outpoint input_index in
      record {
        input_index = index;
        sequence = sequence;
        input = some (
            Input.prevout (record {
              previous_output = some (record {
                transaction_id = formats.show_hash outpoint.hash;
                output_index = outpoint.index;
              });
              unlock_script = unlock_script;
              previous_value_zat = previous.value_zat;
              previous_lock_script = previous.lock_script;
              previous_address = previous.address;
              previous_height = previous.height;
              previous_from_coinbase = previous.from_coinbase;
            }));
      }
  input_row context (ChainInput.coinbase height coinbase_data sequence) input_index index = record {
    input_index = index;
    sequence = sequence;
    input = some (Input.coinbase (record { height = height; coinbase_data = coinbase_data }));
  }

  unfoldable pub spent_row : TransparentEncodingContext → OutPoint → List ℕ → ℕ → ℕ → ℕ → UtxoChange
  spent_row context outpoint unlock_script sequence input_index index =
      let previous = encode_previous_output formats context outpoint input_index in
      record {
        change = some (
            UtxoChangeKind.spent (record {
              outpoint = some (record {
                transaction_id = formats.show_hash outpoint.hash;
                output_index = outpoint.index;
              });
              input_index = index;
              unlock_script = unlock_script;
              sequence = sequence;
              previous_value_zat = previous.value_zat;
              previous_lock_script = previous.lock_script;
              previous_address = previous.address;
              previous_height = previous.height;
              previous_from_coinbase = previous.from_coinbase;
            }));
      }

  -- The rows of the transaction, the changes, and the value of the input.
  unfoldable pub encode_transparent_input :
      TransparentEncodingContext
      → ChainInput
      → ℕ
      → ℕ
      → List TransparentInput
      → List UtxoChange
      → List TransparentInput × List UtxoChange × Option ℕ
  encode_transparent_input context (ChainInput.prev_out outpoint script sequence) i index rows
        changes =
      (
        push_if context.transaction_updates
            (input_row context (ChainInput.prev_out outpoint script sequence) i index) rows,
        push_if context.utxo_updates (spent_row context outpoint script sequence i index) changes,
        (encode_previous_output formats context outpoint i).value_zat,
      )
  encode_transparent_input context (ChainInput.coinbase height bytes sequence) i index rows
        changes =
      (
        push_if context.transaction_updates
            (input_row context (ChainInput.coinbase height bytes sequence) i index) rows,
        changes,
        some 0,
      )

  unfoldable pub output_row : TransparentEncodingContext → Output → ℕ → TransparentOutput
  output_row context output output_index = record {
    output_index = output_index;
    value_zat = output.value;
    lock_script = output.lock_script;
    address = address_of formats context.network output;
  }

  unfoldable pub created_row : TransparentEncodingContext → Output → ℕ → String → UtxoChange
  created_row context output output_index transaction_id = record {
    change = some (
        UtxoChangeKind.created (record {
          outpoint = some (record { transaction_id = transaction_id; output_index = output_index });
          value_zat = output.value;
          lock_script = output.lock_script;
          address = address_of formats context.network output;
        }));
  }

  unfoldable pub encode_transparent_output :
      TransparentEncodingContext
      → Output
      → ℕ
      → String
      → List TransparentOutput
      → List UtxoChange
      → List TransparentOutput × List UtxoChange × ℕ
  encode_transparent_output context output index transaction_id rows changes = (
    push_if context.transaction_updates (output_row context output index) rows,
    push_if context.utxo_updates (created_row context output index transaction_id) changes,
    output.value,
  )

-- The sum of the input values, which is lost at the first value that is not known.
unfoldable pub add_input_value : Option ℕ → Option ℕ → Result PluginError (Option ℕ)
add_input_value (some total) (some value) = elim (checked_add total value) [
  | none ↦ err PluginError.input_value_out_of_range
  | some sum ↦ ok (some sum)
]
add_input_value _ _ = ok none

module _ (formats : Formats) where
  -- The two loops, from an index on
  unfoldable pub encode_inputs :
      TransparentEncodingContext
      → ℕ
      → List ChainInput
      → List TransparentInput × List UtxoChange × Option ℕ
      → Result PluginError (List TransparentInput × List UtxoChange × Option ℕ)
  encode_inputs context i [] s = ok s
  encode_inputs context i (input ∷ inputs) (rows, changes, total) = do
    index ← u32_or i PluginError.input_index_out_of_range
    let encoded = encode_transparent_input formats context input i index rows changes
    sum ← add_input_value total encoded.2
    encode_inputs context (suc i) inputs (encoded.0, encoded.1, sum)

  unfoldable pub encode_outputs :
      TransparentEncodingContext
      → String
      → ℕ
      → List Output
      → List TransparentOutput × List UtxoChange × ℕ
      → Result PluginError (List TransparentOutput × List UtxoChange × ℕ)
  encode_outputs context id i [] s = ok s
  encode_outputs context id i (output ∷ outputs) (rows, changes, total) = do
    index ← u32_or i PluginError.output_index_out_of_range
    let encoded = encode_transparent_output formats context output index id rows changes
    sum ← ok_or (checked_add total encoded.2) PluginError.output_value_out_of_range
    encode_outputs context id (suc i) outputs (encoded.0, encoded.1, sum)

  unfoldable pub encode_transparent_updates :
      Transaction
      → String
      → Network
      → PreviousOutputs
      → Bool
      → Bool
      → Result PluginError EncodedTransparentUpdates
  encode_transparent_updates transaction id network previous transaction_updates utxo_updates = do
    let context : TransparentEncodingContext = record {
      network = network;
      previous_outputs = previous;
      transaction_updates = transaction_updates;
      utxo_updates = utxo_updates;
    }
    let start = if transaction_updates || utxo_updates then some 0 else none
    spent ← encode_inputs context 0 transaction.inputs ([], [], start)
    created ← encode_outputs context id 0 transaction.outputs ([], spent.1, 0)
    ok (record {
      transaction_inputs = spent.0;
      transaction_outputs = created.0;
      utxo_changes = created.1;
      transparent_input_value_zat = spent.2;
      transparent_output_value_zat = created.2;
    })

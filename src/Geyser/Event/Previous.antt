-- ===== src/Geyser/Event/Previous.antt =====
-- `encode_previous_output` of event.rs, and the context in which a transaction is encoded.
use zakura_grpc.Common.{
  ℕ, Bool, Option, none, some, String, List, get_elem?, map_get, nat_eq, list_eq, pair_eq,
}
use zakura_grpc.Proto.{Bytes}
use zakura_grpc.Geyser.Event.Source.{Network, OutPoint, Output, OrderedUtxo, Formats}

-- The outputs that a transaction spends: by outpoint in a block, by position in the mempool.
pub data PreviousOutputs : Type 0 where
  block : List ((Bytes × ℕ) × OrderedUtxo) → PreviousOutputs
  mempool : List Output → PreviousOutputs

pub record TransparentEncodingContext : Type 0 where
  pub network : Network
  pub previous_outputs : PreviousOutputs
  pub transaction_updates : Bool
  pub utxo_updates : Bool

pub record EncodedPreviousOutput : Type 0 where
  pub value_zat : Option ℕ
  pub lock_script : Option Bytes
  pub address : Option String
  pub height : Option ℕ
  pub from_coinbase : Option Bool

-- `EncodedPreviousOutput::default()`
abbrev pub unknown_output : EncodedPreviousOutput
unknown_output = record {
  value_zat = none;
  lock_script = none;
  address = none;
  height = none;
  from_coinbase = none;
}

module _ (formats : Formats) where
  -- `output.address(network).map(|address| address.to_string())`
  unfoldable pub address_of : Network → Output → Option String
  address_of network output = elim (formats.output_address network output) [
    | none ↦ none
    | some a ↦ some (formats.show_address a)
  ]

  unfoldable pub known_output : Network → Output → Option ℕ → Option Bool → EncodedPreviousOutput
  known_output network output height from_coinbase = record {
    value_zat = some output.value;
    lock_script = some output.lock_script;
    address = address_of network output;
    height = height;
    from_coinbase = from_coinbase;
  }

  -- The two lookups, by the kind of the previous outputs
  unfoldable pub find_previous : Network → PreviousOutputs → OutPoint → ℕ → EncodedPreviousOutput
  find_previous network (PreviousOutputs.block outputs) outpoint input_index =
      elim (map_get (outpoint.hash, outpoint.index) outputs) [
        | none ↦ unknown_output
        | some previous ↦
            known_output network previous.output (some previous.height)
              (some previous.from_coinbase)
      ]
  find_previous network (PreviousOutputs.mempool outputs) outpoint input_index =
      elim (get_elem? outputs input_index) [
        | none ↦ unknown_output
        | some previous ↦ known_output network previous none none
      ]

  abbrev pub encode_previous_output :
      TransparentEncodingContext → OutPoint → ℕ → EncodedPreviousOutput
  encode_previous_output context outpoint input_index =
      find_previous context.network context.previous_outputs outpoint input_index

-- ===== src/Geyser/Filter/Context.antt =====
-- `UpdateContext` of filter.rs: what the filters read of an update.
use Prim.Native.Nat.{bit_and, bit_or}
use zakura_grpc.Common.{
  ℕ, ◌*◌, Bool, true, false, not, Option, none, some, String, List, ◌++◌, any, filter_map, contains,
  string_eq, eqb, if◌then◌else◌,
}
use zakura_grpc.Proto.{
  SubscribeUpdate, Update, TransparentInput, TransparentOutput, Input, UtxoChange, UtxoChangeKind,
  Change,
}

pub record TransactionFacts : Type 0 where
  pub coinbase : Bool
  pub version : ℕ
  pub features : ℕ
  pub transparent_input_value_zat : Option ℕ
  pub transparent_output_value_zat : ℕ

abbrev pub has_transparent_bit : ℕ
has_transparent_bit = 1

abbrev pub has_sapling_bit : ℕ
has_sapling_bit = 2

abbrev pub has_orchard_bit : ℕ
has_orchard_bit = 4

unfoldable pub has_feature : TransactionFacts → ℕ → Bool
has_feature facts feature = not (eqb (bit_and facts.features feature) 0)

-- `u8::from`
abbrev pub from_bool : Bool → ℕ
from_bool true = 1
from_bool false = 0

unfoldable pub transaction_feature_bits : Bool → Bool → Bool → ℕ
transaction_feature_bits transparent sapling orchard =
    bit_or
      (bit_or (from_bool transparent * has_transparent_bit) (from_bool sapling * has_sapling_bit))
      (from_bool orchard * has_orchard_bit)

unfoldable pub update_transaction_facts : SubscribeUpdate → Option TransactionFacts
update_transaction_facts u = elim u.update [
  | some (Update.transaction t) ↦ some (record {
    coinbase = t.coinbase;
    version = t.version;
    features = transaction_feature_bits t.has_transparent t.has_sapling t.has_orchard;
    transparent_input_value_zat = t.transparent_input_value_zat;
    transparent_output_value_zat = t.transparent_output_value_zat;
  })
  | some (Update.mempool_transaction t) ↦ some (record {
    coinbase = t.coinbase;
    version = t.version;
    features = transaction_feature_bits t.has_transparent t.has_sapling t.has_orchard;
    transparent_input_value_zat = t.transparent_input_value_zat;
    transparent_output_value_zat = t.transparent_output_value_zat;
  })
  | some (Update.utxo t) ↦ some (record {
    coinbase = t.coinbase;
    version = t.version;
    features = transaction_feature_bits t.has_transparent t.has_sapling t.has_orchard;
    transparent_input_value_zat = t.transparent_input_value_zat;
    transparent_output_value_zat = t.transparent_output_value_zat;
  })
  | _ ↦ none
]

unfoldable pub input_address : TransparentInput → Option String
input_address i = elim i.input [ some (Input.prevout p) ↦ p.previous_address | _ ↦ none ]

unfoldable pub change_address : UtxoChange → Option String
change_address c = elim c.change [
  | some (UtxoChangeKind.created x) ↦ x.address
  | some (UtxoChangeKind.spent x) ↦ x.previous_address
  | none ↦ none
]

unfoldable pub output_address : TransparentOutput → Option String
output_address o = o.address

unfoldable pub update_transparent_addresses : SubscribeUpdate → Option (List String)
update_transparent_addresses u = elim u.update [
  | some (Update.transaction t) ↦ some (
      filter_map input_address t.transparent_inputs
      ++ filter_map output_address t.transparent_outputs)
  | some (Update.mempool_transaction t) ↦ some (
      filter_map input_address t.transparent_inputs
      ++ filter_map output_address t.transparent_outputs)
  | some (Update.utxo x) ↦ some (filter_map change_address x.changes)
  | _ ↦ none
]

unfoldable pub update_matches_transaction_id : SubscribeUpdate → List String → Bool
update_matches_transaction_id u ids = elim u.update [
  | some (Update.transaction t) ↦ contains ids t.transaction_id
  | some (Update.mempool_transaction t) ↦ contains ids t.transaction_id
  | some (Update.utxo x) ↦ contains ids x.transaction_id
  | some (Update.mempool m) ↦ any (contains ids) m.transaction_ids
  | some (Update.best_chain c) ↦ elim c.change [
    | some (Change.grow g) ↦ any (contains ids) g.transaction_ids
    | _ ↦ false
  ]
  | _ ↦ false
]

pub record UpdateContext : Type 0 where
  pub update : SubscribeUpdate
  pub addresses : Option (List String)
  pub transaction : Option TransactionFacts

-- `UpdateContext::new`
unfoldable pub context : SubscribeUpdate → Bool → UpdateContext
context update needs_addresses = record {
  update = update;
  addresses = if needs_addresses then update_transparent_addresses update else none;
  transaction = update_transaction_facts update;
}

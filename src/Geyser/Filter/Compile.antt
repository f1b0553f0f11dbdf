-- ===== src/Geyser/Filter/Compile.antt =====
-- `CompiledFilter::from_proto` of filter.rs and what it calls.
use Prim.Native.Nat.{bit_or}
use zakura_grpc.Common.{
  ℕ, ℤ, ◌^◌, Bool, true, false, not, ◌&&◌, ◌||◌, Option, none, some, String, List, [], ◌∷◌, length,
  is_empty, is_none, to_u32, Result, ok, ◌>>=◌, ◌>>◌, reject_if, ok_or, traverse, contains,
  set_insert, string_eq, ltb, if◌then◌else◌,
}
use zakura_grpc.Proto.{
  EventType, BlockPayload, TransactionPayload, SubscribeRequestFilter, event_type_try_from,
  block_payload_try_from, transaction_payload_try_from,
}
use zakura_grpc.Status.{Status, Message, invalid_argument, internal}
use zakura_grpc.Chain.{Chain, Address}
use zakura_grpc.Geyser.Config.{FilterLimits}

pub record CompiledFilter : Type 0 where
  pub kinds : ℕ
  pub min_height : Option ℕ
  pub transaction_ids : List String
  pub address_include : List String
  pub address_exclude : List String
  pub address_required : List String
  pub coinbase : Option Bool
  pub transaction_version : Option ℕ
  pub has_transparent : Option Bool
  pub has_sapling : Option Bool
  pub has_orchard : Option Bool
  pub min_value_zat : Option ℕ
  pub block_payload : BlockPayload
  pub transaction_payload : TransactionPayload

-- `u32::try_from(event_type).ok()`, then `1u64.checked_shl`
unfoldable pub event_type_bit : ℤ → Option ℕ
event_type_bit t = elim (to_u32 t) [
  | none ↦ none
  | some n ↦ if ltb n 64 then some (2 ^ n) else none
]

is_unspecified : EventType → Bool
is_unspecified EventType.unspecified = true
is_unspecified _ = false

-- The body of the loop over `event_types`: the bit of one of them, or its error.
unfoldable pub kind_bit : ℤ → Result Status ℕ
unfolding is_unspecified
kind_bit kind = do
  parsed ← ok_or (event_type_try_from kind) (invalid_argument (Message.unknown_event_type kind))
  reject_if (is_unspecified parsed) (invalid_argument Message.unspecified_event_type)
  ok_or (event_type_bit kind) (internal Message.expectation_failed)

unfoldable pub compile_kinds : ℕ → List ℤ → Result Status ℕ
compile_kinds kinds [] = ok kinds
compile_kinds kinds (kind ∷ rest) = kind_bit kind >>= λ bit. compile_kinds (bit_or kinds bit) rest

-- `collect` into a `HashSet`, and `extend`
unfoldable pub extend_set : List String → List String → List String
extend_set set [] = set
extend_set set (x ∷ xs) = extend_set (set_insert x set) xs

abbrev pub to_set : List String → List String
to_set = extend_set []

unfoldable pub validate_list_size : String → ℕ → ℕ → Result Status (Unit {0})
validate_list_size field actual maximum =
    reject_if (ltb maximum actual) (invalid_argument (Message.too_many_values maximum field))

unfoldable pub canonical_transparent_address : Address → Address
canonical_transparent_address (Address.tex network hash) =
    Address.pay_to_public_key_hash network hash
canonical_transparent_address a = a

module _ (chain : Chain) where
  unfoldable pub canonical_transparent_address_string : String → Option String
  canonical_transparent_address_string value = elim (chain.parse_address value) [
    | none ↦ none
    | some a ↦ some (chain.show_address (canonical_transparent_address a))
  ]

  -- `value.parse::<transaction::Hash>().map(|value| value.to_string())`
  unfoldable pub canonical_transaction_id : String → Option String
  canonical_transaction_id value = elim (chain.parse_hash value) [
    | none ↦ none
    | some h ↦ some (chain.show_hash h)
  ]

-- One value of a list: its canonical form, unless it does not parse or is rejected.
unfoldable pub accept_value :
    (String → Option String)
    → (String → Message)
    → (String → Message)
    → List String
    → String
    → Result Status String
accept_value canonical invalid rejected_by rejected value = do
  c ← ok_or (canonical value) (invalid_argument (invalid value))
  reject_if (contains rejected c) (invalid_argument (rejected_by value))
  ok c

-- The common body of `compile_transaction_ids` and `compile_addresses`.
unfoldable pub compile_values :
    (String → Option String)
    → Message
    → (String → Message)
    → (String → Message)
    → String
    → List String
    → ℕ
    → List String
    → Result Status (List String)
compile_values canonical bad_config invalid rejected_by field values maximum rejected = do
  validate_list_size field (length values) maximum
  reject ← traverse (λ r. ok_or (canonical r) (internal bad_config)) rejected
  accepted ← traverse (accept_value canonical invalid rejected_by (to_set reject)) values
  ok (to_set accepted)

module _ (chain : Chain) where
  unfoldable pub compile_transaction_ids :
      List String → ℕ → List String → Result Status (List String)
  compile_transaction_ids values maximum rejected =
      compile_values (canonical_transaction_id chain) Message.invalid_configured_transaction_id
        Message.invalid_transaction_id Message.rejected_transaction_id "transaction_ids" values
        maximum rejected

  unfoldable pub compile_addresses :
      String → List String → ℕ → List String → Result Status (List String)
  compile_addresses field values maximum rejected =
      compile_values (canonical_transparent_address_string chain) Message.invalid_configured_address
        Message.invalid_address (Message.rejected_address field) field values maximum rejected

unfoldable pub normal_block_payload : BlockPayload → BlockPayload
normal_block_payload BlockPayload.meta_only = BlockPayload.meta_only
normal_block_payload _ = BlockPayload.full

unfoldable pub normal_transaction_payload : TransactionPayload → TransactionPayload
normal_transaction_payload TransactionPayload.unspecified = TransactionPayload.full
normal_transaction_payload p = p

module _ (chain : Chain) where
  unfoldable pub from_proto : SubscribeRequestFilter → FilterLimits → Result Status CompiledFilter
  from_proto f l = do
    reject_if (ltb l.max_event_types (length f.event_types))
        (invalid_argument (Message.too_many_event_types l.max_event_types))
    kinds ← compile_kinds 0 f.event_types
    ids ←
        compile_transaction_ids chain f.transaction_ids l.max_transaction_ids
          l.transaction_id_reject
    legacy ←
        compile_addresses chain "transparent_addresses" f.transparent_addresses
          l.max_transparent_addresses l.transparent_address_reject
    include ←
        compile_addresses chain "address_include" f.address_include l.max_address_include
          l.address_include_reject
    exclude ←
        compile_addresses chain "address_exclude" f.address_exclude l.max_address_exclude
          l.address_exclude_reject
    required ←
        compile_addresses chain "address_required" f.address_required l.max_address_required
          l.address_required_reject
    block ←
        ok_or (block_payload_try_from f.block_payload)
          (invalid_argument (Message.unknown_block_payload f.block_payload))
    transaction ←
        ok_or (transaction_payload_try_from f.transaction_payload)
          (invalid_argument (Message.unknown_transaction_payload f.transaction_payload))
    ok (record {
      kinds = kinds;
      min_height = f.min_height;
      transaction_ids = ids;
      address_include = extend_set include legacy;
      address_exclude = exclude;
      address_required = required;
      coinbase = f.coinbase;
      transaction_version = f.transaction_version;
      has_transparent = f.has_transparent;
      has_sapling = f.has_sapling;
      has_orchard = f.has_orchard;
      min_value_zat = f.min_value_zat;
      block_payload = normal_block_payload block;
      transaction_payload = normal_transaction_payload transaction;
    })

unfoldable pub uses_addresses : CompiledFilter → Bool
uses_addresses f =
    not (is_empty f.address_include)
    || (not (is_empty f.address_exclude) || not (is_empty f.address_required))

unfoldable pub filter_is_empty : SubscribeRequestFilter → Bool
filter_is_empty f =
    is_empty f.event_types
    && (is_none f.min_height
        && (is_empty f.transaction_ids
            && (is_empty f.transparent_addresses
                && (is_empty f.address_include
                    && (is_empty f.address_exclude
                        && (is_empty f.address_required
                            && (is_none f.coinbase
                                && (is_none f.transaction_version
                                    && (is_none f.has_transparent
                                        && (is_none f.has_sapling
                                            && (is_none f.has_orchard
                                                && is_none f.min_value_zat)))))))))))

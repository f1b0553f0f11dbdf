-- ===== src/Geyser/Filter/Matches.antt =====
-- `CompiledFilter::matches` of filter.rs.
use Prim.Native.Nat.{bit_and}
use zakura_grpc.Common.{
  ℕ, ℤ, Bool, true, false, not, ◌&&◌, ◌||◌, Option, none, some, String, List, any, all, contains,
  is_empty, is_some, is_none_or, is_some_and, string_eq, eqb, leb, if◌then◌else◌,
}
use zakura_grpc.Geyser.Event.{block_height}
use zakura_grpc.Geyser.Filter.Compile.{CompiledFilter, event_type_bit, uses_addresses}
use zakura_grpc.Geyser.Filter.Context.{
  TransactionFacts, UpdateContext, has_feature, has_transparent_bit, has_sapling_bit,
  has_orchard_bit, update_matches_transaction_id,
}

-- `bool == bool`
abbrev pub same_bool : Bool → Bool → Bool
same_bool true b = b
same_bool false b = not b

unfoldable pub kind_matches : ℕ → ℤ → Bool
kind_matches kinds event_type =
    eqb kinds 0 || is_some_and (event_type_bit event_type) (λ bit. not (eqb (bit_and kinds bit) 0))

unfoldable pub addresses_match : CompiledFilter → Option (List String) → Bool
addresses_match f addresses = if not (uses_addresses f) then true else elim addresses [
  | none ↦ false
  | some found ↦
      (is_empty f.address_include || any (contains f.address_include) found)
      && (all (λ a. not (contains f.address_exclude a)) found
          && all (contains found) f.address_required)
]

abbrev pub uses_metadata : CompiledFilter → Bool
uses_metadata f =
    is_some f.coinbase
    || (is_some f.transaction_version
        || (is_some f.has_transparent
            || (is_some f.has_sapling || (is_some f.has_orchard || is_some f.min_value_zat))))

unfoldable pub facts_match : CompiledFilter → TransactionFacts → Bool
facts_match f facts =
    is_none_or f.coinbase (same_bool facts.coinbase)
    && (is_none_or f.transaction_version (eqb facts.version)
        && (is_none_or f.has_transparent (same_bool (has_feature facts has_transparent_bit))
            && (is_none_or f.has_sapling (same_bool (has_feature facts has_sapling_bit))
                && (is_none_or f.has_orchard (same_bool (has_feature facts has_orchard_bit))
                    && is_none_or f.min_value_zat (λ minimum.
                      is_some_and facts.transparent_input_value_zat (leb minimum)
                      || leb minimum facts.transparent_output_value_zat)))))

unfoldable pub transaction_metadata_matches : CompiledFilter → Option TransactionFacts → Bool
transaction_metadata_matches f facts =
    if not (uses_metadata f) then true else is_some_and facts (facts_match f)

unfoldable pub matches : CompiledFilter → UpdateContext → Bool
matches f c =
    kind_matches f.kinds c.update.event_type
    && (is_none_or f.min_height (λ minimum. is_some_and (block_height c.update) (leb minimum))
        && ((is_empty f.transaction_ids || update_matches_transaction_id c.update f.transaction_ids)
            && (addresses_match f c.addresses && transaction_metadata_matches f c.transaction)))

-- ===== src/Tests/Filters.antt =====
-- The theorems on filters and on the configuration at concrete inputs.
use zakura_grpc.Common.{
  filter, ◌≤◌, ◌≡◌, ◌↔◌, refl, true, false, ◌&&◌, ◌||◌, none, some, String, [], ◌∷◌, pos, length,
  is_empty, is_some, any, contains, ok, string_eq, int_eq, ◌==◌, traverse, set_insert,
}
use zakura_grpc.Proto.{
  BlockPayload, TransactionPayload, SubscribeRequest, SubscribeRequestFilter, default_filter,
  default_request, event_type_try_from, block_payload_try_from, transaction_payload_try_from,
}
use zakura_grpc.Status.{Message}
use zakura_grpc.Geyser.Config.{default_limits, default_config}
use zakura_grpc.Geyser.Config.Validate.{validate}
use zakura_grpc.Geyser.Config.Usable.{IsUsable, validate_iff_IsUsable}
use zakura_grpc.Geyser.Filter.Compile.{
  CompiledFilter, event_type_bit, kind_bit, compile_kinds, compile_values, accept_value,
  validate_list_size, extend_set, from_proto, compile_transaction_ids, compile_addresses,
  canonical_transaction_id, normal_block_payload, normal_transaction_payload, uses_addresses,
  filter_is_empty,
}
use zakura_grpc.Geyser.Filter.Context.{context}
use zakura_grpc.Geyser.Event.{block_height}
use zakura_grpc.Geyser.Filter.Matches.{
  matches, kind_matches, addresses_match, transaction_metadata_matches,
}
use zakura_grpc.Geyser.Filter.Request.{
  EventFilter, FilterMatch, new_filter, matched, validate_name, insert_named, sort_named,
  compile_named, compile_all, compile_legacy, attribution, richest, payload_of, wants_raw,
  wants_transparent, is_full,
}
use zakura_grpc.Geyser.Filter.Kinds.{kind_matches_iff_listed}
use zakura_grpc.Geyser.Filter.Values.{Represents, listed, compile_values_lem}
use zakura_grpc.Geyser.Filter.Decides.{meets, from_proto_decides}
use zakura_grpc.Geyser.Filter.Attribution.{attribution_payloads}
use zakura_grpc.Geyser.Filter.Selection.{selects, matched_iff_selects, matched_names}
use zakura_grpc.Tests.Samples.{sample_chain, block_at}

-- Accepted blocks from height 5 on.
abbrev high_blocks : SubscribeRequestFilter
high_blocks = record default_filter {
  event_types = pos 1 ∷ [];
  min_height = some 5;
  block_payload = pos 1;
}

abbrev compiled_high_blocks : CompiledFilter
compiled_high_blocks = record {
  kinds = 2;
  min_height = some 5;
  transaction_ids = [];
  address_include = [];
  address_exclude = [];
  address_required = [];
  coinbase = none;
  transaction_version = none;
  has_transparent = none;
  has_sapling = none;
  has_orchard = none;
  min_value_zat = none;
  block_payload = BlockPayload.meta_only;
  transaction_payload = TransactionPayload.full;
}

abbrev high_request : SubscribeRequest
high_request = record default_request { filters = ("high", high_blocks) ∷ [] }

abbrev high_filter : EventFilter
high_filter = record {
  default_all = false;
  legacy = none;
  named = ("high", compiled_high_blocks) ∷ [];
  needs_addresses = false;
}

compiles : from_proto sample_chain high_blocks default_limits ≡ ok compiled_high_blocks
unfolding from_proto compile_kinds kind_bit event_type_try_from event_type_bit
    compile_transaction_ids compile_addresses compile_values validate_list_size traverse extend_set
    block_payload_try_from transaction_payload_try_from normal_block_payload
    normal_transaction_payload
compiles = refl

builds : new_filter sample_chain high_request default_limits ≡ ok high_filter
unfolding new_filter compile_legacy compile_all compile_named validate_name filter_is_empty
    sort_named insert_named from_proto compile_kinds kind_bit event_type_try_from event_type_bit
    compile_transaction_ids compile_addresses compile_values validate_list_size traverse extend_set
    block_payload_try_from transaction_payload_try_from normal_block_payload
    normal_transaction_payload uses_addresses any
builds = refl

from_proto_decides_example :
    matches compiled_high_blocks (context (block_at 7 "aa" false 3) true)
    ≡ meets sample_chain high_blocks (block_at 7 "aa" false 3)
from_proto_decides_example =
    from_proto_decides sample_chain high_blocks default_limits compiled_high_blocks
      (block_at 7 "aa" false 3) compiles

matched_iff_selects_example :
    is_some (matched high_filter (block_at 7 "aa" false 3))
    ≡ selects sample_chain high_request (block_at 7 "aa" false 3)
matched_iff_selects_example =
    matched_iff_selects sample_chain high_request default_limits high_filter
      (block_at 7 "aa" false 3) builds

abbrev high_match : FilterMatch
high_match = record {
  names = "high" ∷ [];
  block_payload = BlockPayload.meta_only;
  transaction_payload = TransactionPayload.full;
}

matches_high : matched high_filter (block_at 7 "aa" false 3) ≡ some high_match
unfolding matched attribution context matches kind_matches event_type_bit filter block_height any
    addresses_match transaction_metadata_matches uses_addresses richest wants_raw wants_transparent
    payload_of
matches_high = refl

matched_names_example :
    contains (high_match.names) "high"
    ≡ any
        (λ e. "high" == e.0 && meets sample_chain (e.1) (block_at 7 "aa" false 3))
        (high_request.filters)
matched_names_example =
    matched_names sample_chain high_request default_limits high_filter (block_at 7 "aa" false 3)
      high_match "high" builds matches_high

attributed : attribution false false (high_filter.named) ≡ some high_match
unfolding attribution any richest wants_raw wants_transparent payload_of
attributed = refl

attribution_payloads_example :
    (is_full (high_match.block_payload)
      ≡ (false || (false || any (λ e. is_full e.1.block_payload) (high_filter.named))))
    × (wants_raw (high_match.transaction_payload)
        ≡ (false || (false || any (λ e. wants_raw e.1.transaction_payload) (high_filter.named))))
    × (wants_transparent (high_match.transaction_payload) ≡ (
        false
        || (false || any (λ e. wants_transparent e.1.transaction_payload) (high_filter.named))))
attribution_payloads_example =
    attribution_payloads false false (high_filter.named) high_match attributed

accepted :
    compile_values
      (canonical_transaction_id sample_chain)
      Message.invalid_configured_transaction_id
      Message.invalid_transaction_id
      Message.rejected_transaction_id
      "transaction_ids"
      ("aa" ∷ [])
      4
      ("bb" ∷ [])
    ≡ ok ("aa" ∷ [])
unfolding compile_values validate_list_size traverse accept_value canonical_transaction_id
    extend_set set_insert contains
accepted = refl

compile_values_lem_example :
    (length {A = String} ("aa" ∷ []) ≤ 4)
    × Represents (canonical_transaction_id sample_chain) ("aa" ∷ []) ("aa" ∷ [])
    × ((x : String)
        → listed (canonical_transaction_id sample_chain) ("bb" ∷ []) x ≡ true
        → contains ("aa" ∷ []) x ≡ false)
compile_values_lem_example =
    compile_values_lem (canonical_transaction_id sample_chain)
      Message.invalid_configured_transaction_id Message.invalid_transaction_id
      Message.rejected_transaction_id "transaction_ids" ("aa" ∷ []) 4 ("bb" ∷ []) ("aa" ∷ [])
      accepted

one : compile_kinds 0 (pos 1 ∷ []) ≡ ok 2
unfolding compile_kinds kind_bit event_type_try_from event_type_bit
one = refl

kind_matches_iff_listed_example :
    kind_matches 2 (pos 1) ≡ (is_empty (pos 1 ∷ []) || contains (pos 1 ∷ []) (pos 1))
kind_matches_iff_listed_example = kind_matches_iff_listed (pos 1 ∷ []) 2 (pos 1) one

validate_iff_IsUsable_example :
    (validate sample_chain (λ t. true) default_config ≡ ok tt)
    ↔ IsUsable sample_chain (λ t. true) default_config
validate_iff_IsUsable_example = validate_iff_IsUsable sample_chain (λ t. true) default_config

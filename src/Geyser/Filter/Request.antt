-- ===== src/Geyser/Filter/Request.antt =====
-- `EventFilter` of filter.rs: the filter of a subscription.
use Prim.Native.String.{len}
use zakura_grpc.Common.{
  Bool, true, false, not, ◌&&◌, ◌||◌, Option, none, some, String, List, [], ◌∷◌, length, any,
  filter, map, is_empty, is_some_and, Result, ok, ◌>>=◌, ◌>>◌, reject_if, text_ord, string_eq, ◌==◌,
  ltb, if◌then◌else◌,
}
use zakura_grpc.Proto.{
  BlockPayload, TransactionPayload, SubscribeRequest, SubscribeRequestFilter, SubscribeUpdate,
  default_filter,
}
use zakura_grpc.Status.{Status, Message, invalid_argument}
use zakura_grpc.Chain.{Chain}
use zakura_grpc.Geyser.Config.{FilterLimits}
use zakura_grpc.Geyser.Filter.Compile.{CompiledFilter, from_proto, uses_addresses, filter_is_empty}
use zakura_grpc.Geyser.Filter.Context.{context}
use zakura_grpc.Geyser.Filter.Matches.{matches}

pub record EventFilter : Type 0 where
  pub default_all : Bool
  pub legacy : Option CompiledFilter
  pub named : List (String × CompiledFilter)
  pub needs_addresses : Bool

pub record FilterMatch : Type 0 where
  pub names : List String
  pub block_payload : BlockPayload
  pub transaction_payload : TransactionPayload

unfoldable pub validate_name : String → FilterLimits → Result Status (Unit {0})
validate_name name l = do
  reject_if (name == "") (invalid_argument Message.empty_filter_name)
  reject_if (ltb l.max_name_bytes (len name))
      (invalid_argument (Message.long_filter_name l.max_name_bytes))

-- `named.sort_unstable_by(|left, right| left.0.cmp(&right.0))`, as an insertion sort
unfoldable pub insert_named :
    String × CompiledFilter → List (String × CompiledFilter) → List (String × CompiledFilter)
insert_named x [] = x ∷ []
insert_named x (y ∷ ys) = if text_ord.lt y.0 x.0 then y ∷ insert_named x ys else x ∷ y ∷ ys

unfoldable pub sort_named : List (String × CompiledFilter) → List (String × CompiledFilter)
sort_named [] = []
sort_named (x ∷ xs) = insert_named x (sort_named xs)

-- `default_all` of `EventFilter::new`
abbrev pub selects_all : SubscribeRequest → Bool
selects_all r = is_empty r.event_types && is_empty r.filters

module _ (chain : Chain) where
  -- The body of the loop over `request.filters`.
  unfoldable pub compile_named :
      FilterLimits → String × SubscribeRequestFilter → Result Status (String × CompiledFilter)
  compile_named l (name, f) = do
    validate_name name l
    reject_if (filter_is_empty f && not l.allow_all)
        (invalid_argument (Message.named_filter_empty name))
    compiled ← from_proto chain f l
    ok (name, compiled)

  unfoldable pub compile_all :
      FilterLimits
      → List (String × SubscribeRequestFilter)
      → Result Status (List (String × CompiledFilter))
  compile_all l [] = ok []
  compile_all l (x ∷ xs) = compile_named l x >>= λ y. compile_all l xs >>= λ ys. ok (y ∷ ys)

  unfoldable pub compile_legacy :
      SubscribeRequest → FilterLimits → Result Status (Option CompiledFilter)
  compile_legacy r l = if is_empty r.event_types then ok none else do
    compiled ← from_proto chain (record default_filter { event_types = r.event_types }) l
    ok (some compiled)

  -- `EventFilter::new`
  unfoldable pub new_filter : SubscribeRequest → FilterLimits → Result Status EventFilter
  new_filter r l = do
    reject_if (ltb l.max_named_filters (length r.filters))
        (invalid_argument (Message.too_many_named_filters l.max_named_filters))
    reject_if (selects_all r && not l.allow_all) (invalid_argument Message.empty_filter_disabled)
    legacy ← compile_legacy r l
    compiled ← compile_all l r.filters
    let named = sort_named compiled
    ok (record {
      default_all = selects_all r;
      legacy = legacy;
      named = named;
      needs_addresses = is_some_and legacy uses_addresses || any (λ e. uses_addresses e.1) named;
    })

-- `richest_transaction_payload`: which parts any of the filters wants
unfoldable pub wants_raw : TransactionPayload → Bool
wants_raw TransactionPayload.unspecified = true
wants_raw TransactionPayload.full = true
wants_raw TransactionPayload.meta_only = false
wants_raw TransactionPayload.raw_only = true
wants_raw TransactionPayload.transparent_only = false

unfoldable pub wants_transparent : TransactionPayload → Bool
wants_transparent TransactionPayload.unspecified = true
wants_transparent TransactionPayload.full = true
wants_transparent TransactionPayload.meta_only = false
wants_transparent TransactionPayload.raw_only = false
wants_transparent TransactionPayload.transparent_only = true

unfoldable pub payload_of : Bool → Bool → TransactionPayload
payload_of true true = TransactionPayload.full
payload_of true false = TransactionPayload.raw_only
payload_of false true = TransactionPayload.transparent_only
payload_of false false = TransactionPayload.meta_only

-- The loop, with its two flags.
unfoldable pub richest : Bool → Bool → List (String × CompiledFilter) → TransactionPayload
richest raw transparent [] = payload_of raw transparent
richest raw transparent (e ∷ es) =
    richest (raw || wants_raw e.1.transaction_payload)
      (transparent || wants_transparent e.1.transaction_payload) es

abbrev pub is_full : BlockPayload → Bool
is_full BlockPayload.full = true
is_full _ = false

-- `EventFilter::matched` once it is known which filters match
unfoldable pub attribution : Bool → Bool → List (String × CompiledFilter) → Option FilterMatch
attribution default_all legacy_matches found =
    if not default_all && (not legacy_matches && is_empty found)
    then none
    else some (record {
      names = map (λ e. e.0) found;
      block_payload =
          if default_all || (legacy_matches || any (λ e. is_full e.1.block_payload) found)
          then BlockPayload.full
          else BlockPayload.meta_only;
      transaction_payload =
          if default_all || legacy_matches
          then TransactionPayload.full
          else richest false false found;
    })

-- `EventFilter::matched`
unfoldable pub matched : EventFilter → SubscribeUpdate → Option FilterMatch
matched f update =
    let c = context update f.needs_addresses in
    attribution f.default_all (is_some_and f.legacy (λ l. matches l c))
      (filter (λ e. matches e.1 c) f.named)

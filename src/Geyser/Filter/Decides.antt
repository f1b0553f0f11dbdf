-- ===== src/Geyser/Filter/Decides.antt =====
-- The compiled filter of filter.rs decides the meaning of the filter of a request.
use mathlib.Core.Path.{fun_ext}
use zakura_grpc.Common.{
  ℕ, ◌≡◌, refl, ap, Bool, true, false, not, ◌&&◌, ◌||◌, Option, none, some, String, List, length,
  is_empty, is_some_and, is_none_or, any, all, contains, ok, bind_cases, ok-injective, reject_if,
  ok_or, string_eq, int_eq, leb, ltb, arith, if◌then◌else◌,
}
use zakura_grpc.Proto.{
  SubscribeUpdate, SubscribeRequestFilter, block_payload_try_from, transaction_payload_try_from,
}
use zakura_grpc.Chain.{Chain}
use zakura_grpc.Geyser.Config.{FilterLimits}
use zakura_grpc.Geyser.Event.{block_height}
use zakura_grpc.Geyser.Filter.Compile.{
  CompiledFilter, from_proto, compile_kinds, compile_transaction_ids, compile_addresses,
  canonical_transaction_id, canonical_transparent_address_string, extend_set, uses_addresses,
}
use zakura_grpc.Geyser.Filter.Context.{
  context, update_transparent_addresses, update_matches_transaction_id,
}
use zakura_grpc.Geyser.Filter.Matches.{matches, addresses_match}
use zakura_grpc.Geyser.Filter.Kinds.{kind_matches_iff_listed}
use zakura_grpc.Geyser.Filter.Values.{
  listed, every, Represents, compile_values_lem, contains-extend_set, is_empty-extend_set,
}
use zakura_grpc.Geyser.Filter.Meaning.{
  update_ids, update_facts, metadata_meets, KeepsTests, metadata_lem, ids_lem,
}

all_five :
    {a b c d e a' b' c' d' e' : Bool}
    → a ≡ a'
    → b ≡ b'
    → c ≡ c'
    → d ≡ d'
    → e ≡ e'
    → (a && (b && (c && (d && e)))) ≡ (a' && (b' && (c' && (d' && e'))))
all_five p q r s t = cc

if_not_lem : (b x : Bool) → (if not b then true else x) ≡ (not b || x)
if_not_lem true x = refl
if_not_lem false x = refl

module _ (chain : Chain) where
  -- A value is one of the addresses of the request, in canonical form.
  pub names_address : List String → String → Bool
  names_address = listed (canonical_transparent_address_string chain)

  pub names_id : List String → String → Bool
  names_id = listed (canonical_transaction_id chain)

  unfoldable pub asks_addresses : SubscribeRequestFilter → Bool
  asks_addresses f =
      not (is_empty f.address_include && is_empty f.transparent_addresses)
      || (not (is_empty f.address_exclude) || not (is_empty f.address_required))

  -- The addresses of an update meet the filter: some address is included, if addresses are to be
  -- included; none is excluded; every required one is there.
  pub addresses_meet : SubscribeRequestFilter → List String → Bool
  addresses_meet f found =
      (is_empty f.address_include && is_empty f.transparent_addresses
        || any (λ a. names_address f.address_include a || names_address f.transparent_addresses a)
            found)
      && (all (λ a. not (names_address f.address_exclude a)) found
          && every (canonical_transparent_address_string chain) (contains found) f.address_required)

  -- What the filter of a request means for an update.
  unfoldable pub meets : SubscribeRequestFilter → SubscribeUpdate → Bool
  meets f u =
      (is_empty f.event_types || contains f.event_types u.event_type)
      && (is_none_or f.min_height (λ minimum. is_some_and (block_height u) (leb minimum))
          && ((is_empty f.transaction_ids || any (names_id f.transaction_ids) (update_ids u))
              && ((not (asks_addresses f)
                    || is_some_and (update_transparent_addresses u) (addresses_meet f))
                  && metadata_meets f (update_facts u))))

  -- What compiling gives, field by field.
  pub record Compiled (f : SubscribeRequestFilter) (c : CompiledFilter) : Type 0 where
    pub kinds : compile_kinds 0 f.event_types ≡ ok c.kinds
    pub tests : KeepsTests f c
    pub ids : Represents (canonical_transaction_id chain) f.transaction_ids c.transaction_ids
    pub include : List String
    pub legacy : List String
    pub included : Represents (canonical_transparent_address_string chain) f.address_include include
    pub legacies :
        Represents (canonical_transparent_address_string chain) f.transparent_addresses legacy
    pub merged : c.address_include ≡ extend_set include legacy
    pub excluded :
        Represents (canonical_transparent_address_string chain) f.address_exclude c.address_exclude
    pub required :
        Represents
          (canonical_transparent_address_string chain)
          f.address_required
          c.address_required

  from_proto_lem :
      (f : SubscribeRequestFilter) (l : FilterLimits) (c : CompiledFilter)
      → from_proto chain f l ≡ ok c
      → Compiled f c
  unfolding from_proto compile_transaction_ids compile_addresses
  from_proto_lem f l c h =
      bind_cases (reject_if (ltb l.max_event_types (length f.event_types)) _) _ h λ _ _ h0.
        bind_cases (compile_kinds 0 f.event_types) _ h0 λ kinds e1 h1.
          bind_cases
            (compile_transaction_ids chain f.transaction_ids l.max_transaction_ids
              l.transaction_id_reject)
            _ h1
            λ ids e2 h2.
              bind_cases
                (compile_addresses chain "transparent_addresses" f.transparent_addresses
                  l.max_transparent_addresses l.transparent_address_reject)
                _ h2
                λ legacy e3 h3.
                  bind_cases
                    (compile_addresses chain "address_include" f.address_include
                      l.max_address_include l.address_include_reject)
                    _ h3
                    λ include e4 h4.
                      bind_cases
                        (compile_addresses chain "address_exclude" f.address_exclude
                          l.max_address_exclude l.address_exclude_reject)
                        _ h4
                        λ exclude e5 h5.
                          bind_cases
                            (compile_addresses chain "address_required" f.address_required
                              l.max_address_required l.address_required_reject)
                            _ h5
                            λ required e6 h6.
                              bind_cases (ok_or (block_payload_try_from f.block_payload) _) _ h6
                                λ block e7 h7.
                                  bind_cases
                                    (ok_or (transaction_payload_try_from f.transaction_payload) _) _
                                    h7
                                    λ transaction e8 h8. rw (← ok-injective h8) (record {
                                      kinds = e1;
                                      tests = record {
                                        min_height = refl;
                                        coinbase = refl;
                                        transaction_version = refl;
                                        has_transparent = refl;
                                        has_sapling = refl;
                                        has_orchard = refl;
                                        min_value_zat = refl;
                                      };
                                      ids = (compile_values_lem _ _ _ _ _ _ _ _ _ e2).1;
                                      include = include;
                                      legacy = legacy;
                                      included = (compile_values_lem _ _ _ _ _ _ _ _ _ e4).1;
                                      legacies = (compile_values_lem _ _ _ _ _ _ _ _ _ e3).1;
                                      merged = refl;
                                      excluded = (compile_values_lem _ _ _ _ _ _ _ _ _ e5).1;
                                      required = (compile_values_lem _ _ _ _ _ _ _ _ _ e6).1;
                                    })

  uses_addresses_lem :
      (f : SubscribeRequestFilter) (c : CompiledFilter)
      → Compiled f c
      → uses_addresses c ≡ asks_addresses f
  unfolding uses_addresses asks_addresses
  uses_addresses_lem f c k = ground (
    arith,
    ap is_empty k.merged,
    is_empty-extend_set k.include k.legacy,
    k.included.empty,
    k.legacies.empty,
    k.excluded.empty,
    k.required.empty,
  )

  included_lem :
      (f : SubscribeRequestFilter) (c : CompiledFilter)
      → Compiled f c
      → contains c.address_include
        ≡ (λ a. names_address f.address_include a || names_address f.transparent_addresses a)
  unfolding names_address
  included_lem f c k = fun_ext λ a. ground (
    arith,
    ap (λ (s : List String). contains s a) k.merged,
    contains-extend_set k.include k.legacy a,
    k.included.members a,
    k.legacies.members a,
  )

  merged_empty :
      (f : SubscribeRequestFilter) (c : CompiledFilter)
      → Compiled f c
      → is_empty c.address_include
        ≡ (is_empty f.address_include && is_empty f.transparent_addresses)
  merged_empty f c k = ground (
    arith,
    ap is_empty k.merged,
    is_empty-extend_set k.include k.legacy,
    k.included.empty,
    k.legacies.empty,
  )

  addresses_lem :
      (f : SubscribeRequestFilter) (c : CompiledFilter) (found : Option (List String))
      → Compiled f c
      → addresses_match c found ≡ (not (asks_addresses f) || is_some_and found (addresses_meet f))
  unfolding addresses_match addresses_meet names_address
  addresses_lem f c none k = ground (arith, uses_addresses_lem f c k)
  addresses_lem f c (some found) k =
      rw
        (
          uses_addresses_lem f c k,
          merged_empty f c k,
          ap (λ (p : String → Bool). any p found) (included_lem f c k),
          ap (λ (p : String → Bool). all (λ a. not (p a)) found) (fun_ext k.excluded.members),
          k.required.each (contains found),
        )
        (if_not_lem (asks_addresses f) _)

  ids_meet :
      (f : SubscribeRequestFilter) (c : CompiledFilter) (u : SubscribeUpdate)
      → Compiled f c
      → (is_empty c.transaction_ids || update_matches_transaction_id u c.transaction_ids)
        ≡ (is_empty f.transaction_ids || any (names_id f.transaction_ids) (update_ids u))
  unfolding names_id
  ids_meet f c u k =
      rw
        (
          k.ids.empty,
          ids_lem u c.transaction_ids,
          ap (λ (p : String → Bool). any p (update_ids u)) (fun_ext k.ids.members),
        )
        refl

  -- The compiled filter matches an update exactly if the update meets the filter of the request:
  -- its event type is listed or none is, its height is known and high enough if a least height is
  -- set, one of its transaction IDs is listed or none is, its addresses meet the address lists in
  -- canonical form, and its transaction meets the tests on metadata.
  pub from_proto_decides :
      (f : SubscribeRequestFilter) (l : FilterLimits) (c : CompiledFilter) (u : SubscribeUpdate)
      → from_proto chain f l ≡ ok c
      → matches c (context u true) ≡ meets f u
  unfolding matches meets context names_id
  from_proto_decides f l c u h =
      let k = from_proto_lem f l c h in
      all_five (kind_matches_iff_listed f.event_types c.kinds u.event_type k.kinds)
        (ap (λ (o : Option ℕ). is_none_or o (λ minimum. is_some_and (block_height u) (leb minimum)))
          k.tests.min_height)
        (ids_meet f c u k) (addresses_lem f c (update_transparent_addresses u) k)
        (metadata_lem f c u k.tests)

-- Reading the addresses of an update only if the filter uses them changes no decision.
pub matches-context :
    (c : CompiledFilter) (u : SubscribeUpdate) (needs : Bool)
    → (uses_addresses c ≡ true → needs ≡ true)
    → matches c (context u needs) ≡ matches c (context u true)
unfolding matches context addresses_match
matches-context c u needs h = ground arith

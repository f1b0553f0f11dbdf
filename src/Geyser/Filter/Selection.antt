-- ===== src/Geyser/Filter/Selection.antt =====
-- `EventFilter::new` and `EventFilter::matched` of filter.rs: which updates a request selects, and to
-- which named filters a match is attributed.
use zakura_grpc.Common.{
  ◌≡◌, ◌⊎◌, refl, sym, ap, ◌∙◌, Bool, true, false, not, ◌&&◌, ◌||◌, Option, none, some, String,
  List, [], ◌∷◌, map, is_empty, is_some, is_some_and, any, filter, contains, Result, ok, err, ◌>>=◌,
  bind_cases, ok-injective, reject_if, string_eq, ◌==◌, ltb, arith, if◌then◌else◌, inl, inr,
  text_ord, length,
}
use zakura_grpc.Proto.{SubscribeUpdate, SubscribeRequest, SubscribeRequestFilter, default_filter}
use zakura_grpc.Status.{Status}
use zakura_grpc.Chain.{Chain}
use zakura_grpc.Geyser.Config.{FilterLimits}
use zakura_grpc.Geyser.Filter.Compile.{CompiledFilter, from_proto, uses_addresses, filter_is_empty}
use zakura_grpc.Geyser.Filter.Context.{context}
use zakura_grpc.Geyser.Filter.Matches.{matches}
use zakura_grpc.Geyser.Filter.Request.{
  EventFilter, FilterMatch, validate_name, insert_named, sort_named, compile_named, compile_all,
  compile_legacy, selects_all, new_filter, attribution, matched,
}
use zakura_grpc.Geyser.Filter.Decides.{meets, from_proto_decides, matches-context}

-- A property of a named filter of the request holds of some filter exactly if it does after sorting.
any-insert_named :
    (p : String × CompiledFilter → Bool) (x : String × CompiledFilter)
    (ys : List (String × CompiledFilter))
    → any p (insert_named x ys) ≡ (p x || any p ys)
unfolding any insert_named
any-insert_named p x [] = refl
any-insert_named p x (y ∷ ys) = ground (arith, any-insert_named p x ys)

any-sort_named :
    (p : String × CompiledFilter → Bool) (ys : List (String × CompiledFilter))
    → any p (sort_named ys) ≡ any p ys
unfolding any sort_named
any-sort_named p [] = refl
any-sort_named p (y ∷ ys) =
    ground (arith, any-insert_named p y (sort_named ys), any-sort_named p ys)

contains-map-filter :
    (n : String) (p : CompiledFilter → Bool) (ys : List (String × CompiledFilter))
    → contains (map (λ e. e.0) (filter (λ e. p e.1) ys)) n ≡ any (λ e. n == e.0 && p e.1) ys
unfolding contains filter any
contains-map-filter n p [] = refl
contains-map-filter n p (y ∷ ys) = ground (arith, contains-map-filter n p ys)

is_empty-filter :
    (p : CompiledFilter → Bool) (ys : List (String × CompiledFilter))
    → is_empty (filter (λ e. p e.1) ys) ≡ not (any (λ e. p e.1) ys)
unfolding filter any
is_empty-filter p [] = refl
is_empty-filter p (y ∷ ys) = ground (arith, is_empty-filter p ys)

-- With the addresses read whenever some filter uses them, each filter decides as with them.
any-context :
    (q : String → Bool) (u : SubscribeUpdate) (needs : Bool) (ys : List (String × CompiledFilter))
    → (any (λ e. uses_addresses e.1) ys ≡ true → needs ≡ true)
    → any (λ e. q e.0 && matches e.1 (context u needs)) ys
      ≡ any (λ e. q e.0 && matches e.1 (context u true)) ys
unfolding any
any-context q u needs [] h = refl
any-context q u needs (y ∷ ys) h =
    ground (arith, any-context q u needs ys, matches-context y.1 u needs)

legacy_cases :
    (b : Bool) (m : Result Status CompiledFilter) (o : Option CompiledFilter)
    → (if b then ok none else (m >>= λ c. ok (some c))) ≡ ok o
    → ((b ≡ true) × (o ≡ none)) ⊎ ((c : CompiledFilter) × (b ≡ false) × (m ≡ ok c) × (o ≡ some c))
legacy_cases true m o h = inl (refl, sym (ok-injective h))
legacy_cases false (ok c) o h = inr (c, refl, refl, sym (ok-injective h))
legacy_cases false (err e) o h = absurd (cc)

module _ (chain : Chain) where
  compile_named_lem :
      (l : FilterLimits) (x : String × SubscribeRequestFilter) (y : String × CompiledFilter)
      → compile_named chain l x ≡ ok y
      → (y.0 ≡ x.0) × (from_proto chain x.1 l ≡ ok y.1)
  unfolding compile_named
  compile_named_lem l (name, f) y h = bind_cases (validate_name name l) _ h λ _ _ h0.
      bind_cases (reject_if (filter_is_empty f && not l.allow_all) _) _ h0
        λ _ _ h1. bind_cases (from_proto chain f l) _ h1 λ c e h2. rw (← ok-injective h2) (refl, e)

  -- The compiled filters decide as the filters of the request mean.
  any-compile_all :
      (q : String → Bool) (u : SubscribeUpdate) (l : FilterLimits)
      (xs : List (String × SubscribeRequestFilter)) (ys : List (String × CompiledFilter))
      → compile_all chain l xs ≡ ok ys
      → any (λ e. q e.0 && matches e.1 (context u true)) ys
        ≡ any (λ e. q e.0 && meets chain e.1 u) xs
  unfolding compile_all any
  any-compile_all q u l [] ys h = rw (← ok-injective h) refl
  any-compile_all q u l (x ∷ xs) ys h = bind_cases (compile_named chain l x) _ h λ y e h0.
      bind_cases (compile_all chain l xs) _ h0 λ rest e' h1.
        let n = compile_named_lem l x y e in
        rw
          (
            ← ok-injective h1,
            n.0,
            from_proto_decides chain x.1 l y.1 u n.1,
            any-compile_all q u l xs rest e',
          )
          refl

  -- What a request selects: every update if it has no filter, and else what its event types or
  -- one of its named filters select.
  unfoldable pub legacy_meets : SubscribeRequest → SubscribeUpdate → Bool
  legacy_meets r u =
      not (is_empty r.event_types)
      && meets chain (record default_filter { event_types = r.event_types }) u

  unfoldable pub selects : SubscribeRequest → SubscribeUpdate → Bool
  unfolding any
  selects r u = selects_all r || (legacy_meets r u || any (λ e. meets chain e.1 u) r.filters)

  compile_legacy_lem :
      (r : SubscribeRequest) (l : FilterLimits) (o : Option CompiledFilter) (u : SubscribeUpdate)
      → compile_legacy chain r l ≡ ok o
      → is_some_and o (λ c. matches c (context u true)) ≡ legacy_meets r u
  unfolding compile_legacy legacy_meets
  compile_legacy_lem r l o u h =
      elim (legacy_cases (is_empty r.event_types)
        (from_proto chain (record default_filter { event_types = r.event_types }) l) o h) [
          | inl (e, n) ↦ rw (n, e) refl
          | inr (c, e, m, n) ↦ rw (n, e) (from_proto_decides chain _ l c u m)
        ]

  -- `EventFilter::new`, taken apart.
  record Built (r : SubscribeRequest) (l : FilterLimits) (f : EventFilter) : Type 0 where
    compiled : List (String × CompiledFilter)
    default_all : f.default_all ≡ selects_all r
    legacy : compile_legacy chain r l ≡ ok f.legacy
    all : compile_all chain l r.filters ≡ ok compiled
    named : f.named ≡ sort_named compiled
    needs :
        f.needs_addresses
        ≡ (is_some_and f.legacy uses_addresses || any (λ e. uses_addresses e.1) f.named)

  new_filter_lem :
      (r : SubscribeRequest) (l : FilterLimits) (f : EventFilter)
      → new_filter chain r l ≡ ok f
      → Built r l f
  unfolding new_filter
  new_filter_lem r l f h =
      bind_cases (reject_if (ltb l.max_named_filters (length r.filters)) _) _ h λ _ _ h0.
        bind_cases (reject_if (selects_all r && not l.allow_all) _) _ h0 λ _ _ h1.
          bind_cases (compile_legacy chain r l) _ h1 λ legacy e2 h2.
            bind_cases (compile_all chain l r.filters) _ h2 λ compiled e3 h3.
              rw (← ok-injective h3) (record {
                compiled = compiled;
                default_all = refl;
                legacy = e2;
                all = e3;
                named = refl;
                needs = refl;
              })

  needs-named :
      (r : SubscribeRequest) (l : FilterLimits) (f : EventFilter)
      → Built r l f
      → any (λ e. uses_addresses e.1) f.named ≡ true
      → f.needs_addresses ≡ true
  needs-named r l f b h = ground (arith, b.needs, h)

  -- Some named filter with a property of its name matches.
  any-named :
      (q : String → Bool) (r : SubscribeRequest) (l : FilterLimits) (f : EventFilter)
      (u : SubscribeUpdate)
      → Built r l f
      → any (λ e. q e.0 && matches e.1 (context u f.needs_addresses)) f.named
        ≡ any (λ e. q e.0 && meets chain e.1 u) r.filters
  any-named q r l f u b =
      any-context q u f.needs_addresses f.named (needs-named r l f b)
      ∙ ap (any (λ e. q e.0 && matches e.1 (context u true))) b.named
      ∙ any-sort_named _ b.compiled
      ∙ any-compile_all q u l r.filters b.compiled b.all

  legacy-matches :
      (r : SubscribeRequest) (l : FilterLimits) (f : EventFilter) (u : SubscribeUpdate)
      → Built r l f
      → is_some_and f.legacy (λ c. matches c (context u f.needs_addresses)) ≡ legacy_meets r u
  legacy-matches r l f u b =
      legacy_context f.legacy f.needs_addresses u (λ h. ground (arith, b.needs, h))
      ∙ compile_legacy_lem r l f.legacy u b.legacy
    where
      legacy_context :
          (o : Option CompiledFilter) (needs : Bool) (u : SubscribeUpdate)
          → (is_some_and o uses_addresses ≡ true → needs ≡ true)
          → is_some_and o (λ c. matches c (context u needs))
            ≡ is_some_and o (λ c. matches c (context u true))
      legacy_context none needs u h = refl
      legacy_context (some c) needs u h = matches-context c u needs h

  -- A subscription skips an update exactly if its request selects it neither by its event types nor
  -- by a named filter, and is not empty.
  pub matched_iff_selects :
      (r : SubscribeRequest) (l : FilterLimits) (f : EventFilter) (u : SubscribeUpdate)
      → new_filter chain r l ≡ ok f
      → is_some (matched f u) ≡ selects r u
  unfolding matched attribution selects
  matched_iff_selects r l f u h =
      let b = new_filter_lem r l f h in
      ground (
        arith,
        b.default_all,
        legacy-matches r l f u b,
        is_empty-filter (λ c. matches c (context u f.needs_addresses)) f.named,
        any-named (λ _. true) r l f u b,
      )

  -- An update that is sent names exactly the filters of the request that it meets.
  pub matched_names :
      (r : SubscribeRequest) (l : FilterLimits) (f : EventFilter) (u : SubscribeUpdate)
      (m : FilterMatch) (name : String)
      → new_filter chain r l ≡ ok f
      → matched f u ≡ some m
      → contains m.names name ≡ any (λ e. name == e.0 && meets chain e.1 u) r.filters
  unfolding matched attribution
  matched_names r l f u m name h e =
      let b = new_filter_lem r l f h in
      ap (λ (ns : List String). contains ns name) (ground (arith, e))
      ∙ contains-map-filter name (λ c. matches c (context u f.needs_addresses)) f.named
      ∙ any-named (λ n. name == n) r l f u b

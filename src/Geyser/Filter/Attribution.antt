-- ===== src/Geyser/Filter/Attribution.antt =====
-- `EventFilter::matched` of filter.rs: which filters a match is attributed to, and what it sends.
use zakura_grpc.Common.{
  ◌≡◌, refl, Bool, true, false, ◌||◌, some, String, List, [], ◌∷◌, any, string_eq, arith, text_ord,
}
use zakura_grpc.Geyser.Filter.Compile.{CompiledFilter}
use zakura_grpc.Geyser.Filter.Request.{
  FilterMatch, wants_raw, wants_transparent, payload_of, richest, is_full, attribution,
}

-- `richest` wants each part that some filter wants.
richest_lem :
    (raw transparent : Bool) (es : List (String × CompiledFilter))
    → (wants_raw (richest raw transparent es)
        ≡ (raw || any (λ e. wants_raw e.1.transaction_payload) es))
      × (wants_transparent (richest raw transparent es)
          ≡ (transparent || any (λ e. wants_transparent e.1.transaction_payload) es))
unfolding richest any payload_of wants_raw wants_transparent
richest_lem true true [] = (refl, refl)
richest_lem true false [] = (refl, refl)
richest_lem false true [] = (refl, refl)
richest_lem false false [] = (refl, refl)
richest_lem raw transparent (e ∷ es) = ground (
  arith,
  richest_lem (raw || wants_raw e.1.transaction_payload)
      (transparent || wants_transparent e.1.transaction_payload) es,
)

-- A match sends the block bytes, the raw transaction and the transparent details exactly if the
-- request has no filter, the legacy filter matches, or some named filter that matches wants them.
pub attribution_payloads :
    (default_all legacy : Bool) (found : List (String × CompiledFilter)) (m : FilterMatch)
    → attribution default_all legacy found ≡ some m
    → (is_full m.block_payload
        ≡ (default_all || (legacy || any (λ e. is_full e.1.block_payload) found)))
      × (wants_raw m.transaction_payload
          ≡ (default_all || (legacy || any (λ e. wants_raw e.1.transaction_payload) found)))
      × (wants_transparent m.transaction_payload
          ≡ (default_all || (legacy || any (λ e. wants_transparent e.1.transaction_payload) found)))
unfolding attribution wants_raw wants_transparent
attribution_payloads default_all legacy found m h = (
  ground arith,
  ground (arith, richest_lem false false found),
  ground (arith, richest_lem false false found),
)

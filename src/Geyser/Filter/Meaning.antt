-- ===== src/Geyser/Filter/Meaning.antt =====
-- What a filter of a request means, read off the request and the update alone, and that the
-- compiled filter of filter.rs decides just that.
use zakura_grpc.Common.{
  ℕ, ◌≡◌, refl, Bool, true, false, not, ◌&&◌, ◌||◌, Option, none, some, String, List, [], ◌∷◌,
  is_some, is_some_and, is_none_or, any, contains, string_eq, int_eq, eqb, leb, arith, Option-cases,
  inl, inr,
}
use zakura_grpc.Proto.{SubscribeUpdate, Update, SubscribeRequestFilter, Change}
use zakura_grpc.Geyser.Filter.Compile.{CompiledFilter}
use zakura_grpc.Geyser.Filter.Context.{
  TransactionFacts, has_feature, has_transparent_bit, has_sapling_bit, has_orchard_bit,
  transaction_feature_bits, update_matches_transaction_id, update_transaction_facts,
}
use zakura_grpc.Geyser.Filter.Matches.{transaction_metadata_matches, facts_match, same_bool}

-- The transaction IDs that an update is about.
pub update_ids : SubscribeUpdate → List String
update_ids u = elim u.update [
  | some (Update.transaction t) ↦ t.transaction_id ∷ []
  | some (Update.mempool_transaction t) ↦ t.transaction_id ∷ []
  | some (Update.utxo x) ↦ x.transaction_id ∷ []
  | some (Update.mempool m) ↦ m.transaction_ids
  | some (Update.best_chain c) ↦ elim c.change [ some (Change.grow g) ↦ g.transaction_ids | _ ↦ [] ]
  | _ ↦ []
]

-- What the metadata of an update that is about one transaction says of it.
pub record Facts : Type 0 where
  pub coinbase : Bool
  pub version : ℕ
  pub transparent : Bool
  pub sapling : Bool
  pub orchard : Bool
  pub input_value : Option ℕ
  pub output_value : ℕ

pub update_facts : SubscribeUpdate → Option Facts
update_facts u = elim u.update [
  | some (Update.transaction t) ↦ some (record {
    coinbase = t.coinbase;
    version = t.version;
    transparent = t.has_transparent;
    sapling = t.has_sapling;
    orchard = t.has_orchard;
    input_value = t.transparent_input_value_zat;
    output_value = t.transparent_output_value_zat;
  })
  | some (Update.mempool_transaction t) ↦ some (record {
    coinbase = t.coinbase;
    version = t.version;
    transparent = t.has_transparent;
    sapling = t.has_sapling;
    orchard = t.has_orchard;
    input_value = t.transparent_input_value_zat;
    output_value = t.transparent_output_value_zat;
  })
  | some (Update.utxo t) ↦ some (record {
    coinbase = t.coinbase;
    version = t.version;
    transparent = t.has_transparent;
    sapling = t.has_sapling;
    orchard = t.has_orchard;
    input_value = t.transparent_input_value_zat;
    output_value = t.transparent_output_value_zat;
  })
  | _ ↦ none
]

pub facts_meet : SubscribeRequestFilter → Facts → Bool
facts_meet f t =
    is_none_or f.coinbase (same_bool t.coinbase)
    && (is_none_or f.transaction_version (eqb t.version)
        && (is_none_or f.has_transparent (same_bool t.transparent)
            && (is_none_or f.has_sapling (same_bool t.sapling)
                && (is_none_or f.has_orchard (same_bool t.orchard)
                    && is_none_or f.min_value_zat (λ minimum.
                      is_some_and t.input_value (leb minimum) || leb minimum t.output_value)))))

-- A filter that asks nothing of the transaction is met by every update.
unfoldable pub metadata_meets : SubscribeRequestFilter → Option Facts → Bool
metadata_meets f facts =
    not (
      is_some f.coinbase
      || (is_some f.transaction_version
          || (is_some f.has_transparent
              || (is_some f.has_sapling || (is_some f.has_orchard || is_some f.min_value_zat)))))
    || is_some_and facts (facts_meet f)

feature_bits_lem :
    (t s o : Bool) (facts : TransactionFacts)
    → facts.features ≡ transaction_feature_bits t s o
    → (has_feature facts has_transparent_bit ≡ t)
      × (has_feature facts has_sapling_bit ≡ s)
      × (has_feature facts has_orchard_bit ≡ o)
unfolding has_feature transaction_feature_bits
feature_bits_lem true true true facts e = rw e (refl, refl, refl)
feature_bits_lem true true false facts e = rw e (refl, refl, refl)
feature_bits_lem true false true facts e = rw e (refl, refl, refl)
feature_bits_lem true false false facts e = rw e (refl, refl, refl)
feature_bits_lem false true true facts e = rw e (refl, refl, refl)
feature_bits_lem false true false facts e = rw e (refl, refl, refl)
feature_bits_lem false false true facts e = rw e (refl, refl, refl)
feature_bits_lem false false false facts e = rw e (refl, refl, refl)

pub ids_lem :
    (u : SubscribeUpdate) (ids : List String)
    → update_matches_transaction_id u ids ≡ any (contains ids) (update_ids u)
unfolding update_matches_transaction_id update_ids any
ids_lem u ids = ground arith

-- The compiled filter keeps the tests of the request on the height and the transaction.
pub record KeepsTests (f : SubscribeRequestFilter) (c : CompiledFilter) : Type 0 where
  pub min_height : c.min_height ≡ f.min_height
  pub coinbase : c.coinbase ≡ f.coinbase
  pub transaction_version : c.transaction_version ≡ f.transaction_version
  pub has_transparent : c.has_transparent ≡ f.has_transparent
  pub has_sapling : c.has_sapling ≡ f.has_sapling
  pub has_orchard : c.has_orchard ≡ f.has_orchard
  pub min_value_zat : c.min_value_zat ≡ f.min_value_zat

packed : Facts → TransactionFacts
packed t = record {
  coinbase = t.coinbase;
  version = t.version;
  features = transaction_feature_bits t.transparent t.sapling t.orchard;
  transparent_input_value_zat = t.input_value;
  transparent_output_value_zat = t.output_value;
}

packed_lem :
    (u : SubscribeUpdate)
    → update_transaction_facts u
      ≡ (elim (update_facts u) [ none ↦ none | some t ↦ some (packed t) ])
unfolding update_transaction_facts update_facts packed
packed_lem u = ground arith

facts_match_lem :
    (f : SubscribeRequestFilter) (c : CompiledFilter) (t : Facts)
    → KeepsTests f c
    → facts_match c (packed t) ≡ facts_meet f t
unfolding facts_match facts_meet packed
facts_match_lem f c t k =
    let (a, b, d) = feature_bits_lem t.transparent t.sapling t.orchard (packed t) refl in
    rw
      (
        k.coinbase, k.transaction_version, k.has_transparent, k.has_sapling, k.has_orchard,
        k.min_value_zat, a, b, d,
      )
      refl

pub metadata_lem :
    (f : SubscribeRequestFilter) (c : CompiledFilter) (u : SubscribeUpdate)
    → KeepsTests f c
    → transaction_metadata_matches c (update_transaction_facts u)
      ≡ metadata_meets f (update_facts u)
unfolding transaction_metadata_matches metadata_meets
metadata_lem f c u k = elim (Option-cases (update_facts u)) [
  | inl e ↦ rw (packed_lem u, e) (ground (arith, k))
  | inr (t, e) ↦ rw (packed_lem u, e) (ground (arith, k, facts_match_lem f c t k))
]

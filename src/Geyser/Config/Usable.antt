-- ===== src/Geyser/Config/Usable.antt =====
-- What `Config::validate` of config.rs guarantees, and that it refuses nothing else.
use zakura_grpc.Common.{
  ℕ, ◌<◌, ◌≡◌, ◌≢◌, ◌↔◌, refl, Bool, true, false, not, Option, none, some, String, List, [], ◌∷◌,
  Result, ok, err, ◌>>◌, reject_if, is_some, is_some_and, ◌==◌, string_eq, nat_eq, All, Bool-cases,
  inl, inr, ap, arith,
}
use zakura_grpc.Chain.{Chain}
use zakura_grpc.Geyser.Config.{Config, FilterLimits}
use zakura_grpc.Geyser.Config.Validate.{check_ids, check_addresses, validate_limits, validate}

module _ (chain : Chain) where
  abbrev pub Parses : List String → Type 0
  Parses = All λ a. is_some (chain.parse_address a) ≡ true

  pub record AreUsable (l : FilterLimits) : Type 0 where
    pub named : 0 < l.max_named_filters
    pub types : 0 < l.max_event_types
    pub names : 0 < l.max_name_bytes
    pub ids : All (λ i. is_some (chain.parse_hash i) ≡ true) l.transaction_id_reject
    pub transparent : Parses l.transparent_address_reject
    pub include : Parses l.address_include_reject
    pub exclude : Parses l.address_exclude_reject
    pub required : Parses l.address_required_reject

module _ (chain : Chain) (valid_metadata : String → Bool) where
  pub record IsUsable (c : Config) : Type 0 where
    pub broadcast : 0 < c.broadcast_capacity
    pub events : 0 < c.replay_max_events
    pub bytes : 0 < c.replay_max_bytes
    pub age : c.replay_max_age_seconds ≢ some 0
    pub channel : 0 < c.client_channel_capacity
    pub ping : c.subscription_ping_interval_seconds ≢ some 0
    pub decoding : 0 < c.max_decoding_message_size
    pub encoding : 0 < c.max_encoding_message_size
    pub threads : 0 < c.event_encoding_threads
    pub parallel : 0 < c.parallel_encoding_min_transactions
    pub token : c.x_token ≢ some ""
    pub metadata : (t : String) → c.x_token ≡ some t → valid_metadata t ≡ true
    pub limits : AreUsable chain c.filter_limits

passes {ℓ} :
    {E : Type ℓ} (b : Bool) (e : E) (k : Result E (Unit {0}))
    → (reject_if b e >> k) ≡ ok tt
    → (b ≡ false) × (k ≡ ok tt)
passes true e k h = cc
passes false e k h = (refl, h)

then_passes {ℓ} :
    {E : Type ℓ} (m k : Result E (Unit {0})) → (m >> k) ≡ ok tt → (m ≡ ok tt) × (k ≡ ok tt)
then_passes (ok tt) k h = (refl, h)
then_passes (err e) k h = cc

keeps {ℓ} :
    {E : Type ℓ} {b : Bool} (e : E) {k : Result E (Unit {0})}
    → b ≡ false
    → k ≡ ok tt
    → (reject_if b e >> k) ≡ ok tt
keeps e h p = rw h p

then_keeps {ℓ} : {E : Type ℓ} {m k : Result E (Unit {0})} → m ≡ ok tt → k ≡ ok tt → (m >> k) ≡ ok tt
then_keeps h p = rw h p

nonzero : (n : ℕ) → 0 < n → (n == 0) ≡ false
nonzero n h = ground arith

not_some_zero : (o : Option ℕ) → o ≢ some 0 → is_some_and o (λ n. n == 0) ≡ false
not_some_zero none h = refl
not_some_zero (some n) h = elim (Bool-cases (n == 0)) [
  | inl e ↦ absurd (h (ground arith))
  | inr e ↦ e
]

not_empty : (o : Option String) → o ≢ some "" → is_some_and o (λ t. t == "") ≡ false
not_empty none h = refl
not_empty (some t) h = elim (Bool-cases (t == "")) [
  | inl e ↦ absurd (h (ap some ((string_eq.beq_iff t "").0 e)))
  | inr e ↦ e
]

ne_some_empty : (o : Option String) → is_some_and o (λ t. t == "") ≡ false → o ≢ some ""
ne_some_empty none h = λ p. cc
ne_some_empty (some t) h = λ p. ground (arith, string_eq.beq_iff t "")

positive : (n : ℕ) → (n == 0) ≡ false → 0 < n
positive n h = ground arith

ne_some_zero : (o : Option ℕ) → is_some_and o (λ n. n == 0) ≡ false → o ≢ some 0
ne_some_zero none h = λ p. cc
ne_some_zero (some n) h = λ p. ground arith

module _ (chain : Chain) where
  check_ids_lem :
      (ids : List String)
      → check_ids chain ids ≡ ok tt
      → All (λ i. is_some (chain.parse_hash i) ≡ true) ids
  unfolding check_ids
  check_ids_lem [] h = tt
  check_ids_lem (i ∷ ids) h =
      let p = passes (not (is_some (chain.parse_hash i))) _ (check_ids chain ids) h in
      (ground (arith, p), check_ids_lem ids p.1)

  check_addresses_lem :
      (f : String) (xs : List String) → check_addresses chain f xs ≡ ok tt → Parses chain xs
  unfolding check_addresses
  check_addresses_lem f [] h = tt
  check_addresses_lem f (a ∷ xs) h =
      let p = passes (not (is_some (chain.parse_address a))) _ (check_addresses chain f xs) h in
      (ground (arith, p), check_addresses_lem f xs p.1)

  check_ids_passes :
      (ids : List String)
      → All (λ i. is_some (chain.parse_hash i) ≡ true) ids
      → check_ids chain ids ≡ ok tt
  unfolding check_ids
  check_ids_passes [] h = refl
  check_ids_passes (i ∷ ids) h = rw (h.0) (check_ids_passes ids h.1)

  check_addresses_passes :
      (f : String) (xs : List String) → Parses chain xs → check_addresses chain f xs ≡ ok tt
  unfolding check_addresses
  check_addresses_passes f [] h = refl
  check_addresses_passes f (a ∷ xs) h = rw (h.0) (check_addresses_passes f xs h.1)

  limits_usable : (l : FilterLimits) → validate_limits chain l ≡ ok tt → AreUsable chain l
  unfolding validate_limits
  limits_usable l h =
      let a = passes (l.max_named_filters == 0) _ _ h in
      let b = passes (l.max_event_types == 0) _ _ a.1 in
      let c = passes (l.max_name_bytes == 0) _ _ b.1 in
      let d = then_passes (check_ids chain l.transaction_id_reject) _ c.1 in
      let e = then_passes (check_addresses chain _ l.transparent_address_reject) _ d.1 in
      let f = then_passes (check_addresses chain _ l.address_include_reject) _ e.1 in
      let g = then_passes (check_addresses chain _ l.address_exclude_reject) _ f.1 in
      record {
        named = positive _ a.0;
        types = positive _ b.0;
        names = positive _ c.0;
        ids = check_ids_lem _ d.0;
        transparent = check_addresses_lem _ _ e.0;
        include = check_addresses_lem _ _ f.0;
        exclude = check_addresses_lem _ _ g.0;
        required = check_addresses_lem _ _ g.1;
      }

  limits_pass : (l : FilterLimits) → AreUsable chain l → validate_limits chain l ≡ ok tt
  unfolding validate_limits
  limits_pass l u = keeps _ (nonzero l.max_named_filters u.named) (
      keeps _ (nonzero l.max_event_types u.types) (
        keeps _ (nonzero l.max_name_bytes u.names) (
          then_keeps (check_ids_passes l.transaction_id_reject u.ids) (
            then_keeps (check_addresses_passes _ l.transparent_address_reject u.transparent) (
              then_keeps (check_addresses_passes _ l.address_include_reject u.include) (
                then_keeps (check_addresses_passes _ l.address_exclude_reject u.exclude)
                  (check_addresses_passes _ l.address_required_reject u.required)))))))

module _ (chain : Chain) (valid_metadata : String → Bool) where
  metadata_valid :
      (o : Option String)
      → is_some_and o (λ t. not (valid_metadata t)) ≡ false
      → (t : String) → o ≡ some t
      → valid_metadata t ≡ true
  metadata_valid none h t p = cc
  metadata_valid (some u) h t p = ground arith

  metadata_passes :
      (o : Option String)
      → ((t : String) → o ≡ some t → valid_metadata t ≡ true)
      → is_some_and o (λ t. not (valid_metadata t)) ≡ false
  metadata_passes none h = refl
  metadata_passes (some t) h = rw (h t refl)

  usable : (c : Config) → validate chain valid_metadata c ≡ ok tt → IsUsable chain valid_metadata c
  unfolding validate
  usable c h =
      let p1 = passes (c.broadcast_capacity == 0) _ _ h in
      let p2 = passes (c.replay_max_events == 0) _ _ p1.1 in
      let p3 = passes (c.replay_max_bytes == 0) _ _ p2.1 in
      let p4 = passes (is_some_and c.replay_max_age_seconds (λ n. n == 0)) _ _ p3.1 in
      let p5 = passes (c.client_channel_capacity == 0) _ _ p4.1 in
      let p6 = passes (is_some_and c.subscription_ping_interval_seconds (λ n. n == 0)) _ _ p5.1 in
      let p7 = passes (c.max_decoding_message_size == 0) _ _ p6.1 in
      let p8 = passes (c.max_encoding_message_size == 0) _ _ p7.1 in
      let p9 = passes (c.event_encoding_threads == 0) _ _ p8.1 in
      let p10 = passes (c.parallel_encoding_min_transactions == 0) _ _ p9.1 in
      let p11 = passes (is_some_and c.x_token (λ t. t == "")) _ _ p10.1 in
      let p12 = passes (is_some_and c.x_token (λ t. not (valid_metadata t))) _ _ p11.1 in
      record {
        broadcast = positive _ p1.0;
        events = positive _ p2.0;
        bytes = positive _ p3.0;
        age = ne_some_zero _ p4.0;
        channel = positive _ p5.0;
        ping = ne_some_zero _ p6.0;
        decoding = positive _ p7.0;
        encoding = positive _ p8.0;
        threads = positive _ p9.0;
        parallel = positive _ p10.0;
        token = ne_some_empty _ p11.0;
        metadata = metadata_valid _ p12.0;
        limits = limits_usable chain c.filter_limits p12.1;
      }

  valid : (c : Config) → IsUsable chain valid_metadata c → validate chain valid_metadata c ≡ ok tt
  unfolding validate
  valid c u = keeps _ (nonzero c.broadcast_capacity u.broadcast) (
      keeps _ (nonzero c.replay_max_events u.events) (
        keeps _ (nonzero c.replay_max_bytes u.bytes) (
          keeps _ (not_some_zero c.replay_max_age_seconds u.age) (
            keeps _ (nonzero c.client_channel_capacity u.channel) (
              keeps _ (not_some_zero c.subscription_ping_interval_seconds u.ping) (
                keeps _ (nonzero c.max_decoding_message_size u.decoding) (
                  keeps _ (nonzero c.max_encoding_message_size u.encoding) (
                    keeps _ (nonzero c.event_encoding_threads u.threads) (
                      keeps _ (nonzero c.parallel_encoding_min_transactions u.parallel) (
                        keeps _ (not_empty c.x_token u.token) (
                          keeps _ (metadata_passes c.x_token u.metadata)
                            (limits_pass chain c.filter_limits u.limits))))))))))))

  -- `Config::validate` accepts a configuration exactly if `broadcast_capacity`,
  -- `replay_max_events`, `replay_max_bytes`, `client_channel_capacity`, both message sizes,
  -- `event_encoding_threads`, `parallel_encoding_min_transactions`, `max_named_filters`,
  -- `max_event_types` and `max_name_bytes` are positive, an age limit or a ping interval that is
  -- set is not zero, a token that is set is not empty and is valid metadata, and every entry of the
  -- reject lists parses.
  pub validate_iff_IsUsable :
      (c : Config) → (validate chain valid_metadata c ≡ ok tt) ↔ IsUsable chain valid_metadata c
  validate_iff_IsUsable c = (usable c, valid c)

-- ===== src/Client/Dedup/Runs.antt =====
-- Streams through `DedupState::observe` of dedup.rs.
use zakura_grpc.Common.{
  ℕ, ◌≤◌, ◌<◌, ◌≡◌, refl, true, false, not, ◌&&◌, Option, none, some, List, [], ◌∷◌, length,
  length-map, all, beq_refl, filter_map, ◌==◌, contains, set_insert, contains-set_insert, nodup,
  length-le_of_nodup, Bool-cases, Option-cases, inl, inr, if◌then◌else◌, arith, nat_eq, is_none_or,
}
use zakura_grpc.Proto.{SubscribeUpdate}
use zakura_grpc.Client.Dedup.{
  EventKey, HeightBucket, DedupState, key_eq, key_of, add_key, observe, observe_key, update_height,
  with_height_retention,
}
use zakura_grpc.Client.Dedup.Buckets.{bucket_heights, trim_short, nodup-add_key}
use zakura_grpc.Client.Dedup.Observe.{IsValid, Agrees-add_key, IsValid-with_height_retention}

-- The updates of a stream that the application gets.
unfoldable pub deliver : DedupState → List SubscribeUpdate → List SubscribeUpdate
deliver s [] = []
deliver s (u ∷ us) =
    let rest = deliver (observe s u).0 us in if (observe s u).1 then u ∷ rest else rest

abbrev block_key : SubscribeUpdate → Option EventKey
block_key u = elim (update_height u) [ none ↦ none | some h ↦ some (key_of u) ]

-- The keys of the block-scoped updates of a stream.
unfoldable pub block_keys : List SubscribeUpdate → List EventKey
unfolding filter_map
block_keys us = filter_map block_key us

-- Every block-scoped update of the stream has one of these heights.
unfoldable pub Within : List ℕ → List SubscribeUpdate → Type 0
Within hs us = all (λ u. is_none_or (update_height u) (contains hs)) us ≡ true

-- Of the keys `ks` of a stream, `got` are those that reach the application: each once, and all that
-- were not seen before.
pub record Once (seen ks got : List EventKey) : Type 0 where
  pub no_duplicate : nodup got ≡ true
  pub complete : (k : EventKey) → contains got k ≡ (contains ks k && not (contains seen k))

Once-nil : (seen : List EventKey) → Once seen [] []
unfolding nodup contains
Once-nil seen = record { no_duplicate = refl; complete = λ k. refl }

Once-old :
    (seen ks got : List EventKey) (j : EventKey)
    → contains seen j ≡ true
    → Once seen ks got
    → Once seen (j ∷ ks) got
unfolding contains
Once-old seen ks got j old o = record {
  no_duplicate = o.no_duplicate;
  complete = λ k. ground (arith, o.complete k, key_eq.beq_iff k j);
}

Once-fresh :
    (seen ks got : List EventKey) (j : EventKey)
    → contains seen j ≡ false
    → Once (set_insert j seen) ks got
    → Once seen (j ∷ ks) (j ∷ got)
unfolding contains nodup
Once-fresh seen ks got j fresh o = record {
  no_duplicate =
      ground (arith, o.no_duplicate, o.complete j, contains-set_insert j j seen, beq_refl j);
  complete = λ k. ground (arith, o.complete k, contains-set_insert j k seen, key_eq.beq_iff k j);
}

block_keys-nil : block_keys [] ≡ []
unfolding block_keys filter_map
block_keys-nil = refl

block_keys-none :
    (u : SubscribeUpdate) (us : List SubscribeUpdate)
    → update_height u ≡ none
    → block_keys (u ∷ us) ≡ block_keys us
unfolding block_keys filter_map
block_keys-none u us e = ground arith

block_keys-some :
    (u : SubscribeUpdate) (us : List SubscribeUpdate) (h : ℕ)
    → update_height u ≡ some h
    → block_keys (u ∷ us) ≡ key_of u ∷ block_keys us
unfolding block_keys filter_map
block_keys-some u us h e = ground arith

observe-none :
    (s : DedupState) (u : SubscribeUpdate) → update_height u ≡ none → observe s u ≡ (s, true)
unfolding observe
observe-none s u e = rw (e, observe) refl

observe-some :
    (s : DedupState) (u : SubscribeUpdate) (h : ℕ)
    → update_height u ≡ some h
    → (s.height_retention == 0) ≡ false
    → observe s u ≡ observe_key h (key_of u) s
unfolding observe
observe-some s u h e on = rw (e, observe, on) refl

module _ (hs : List ℕ) where
  -- There is room for every height, and no other height is kept.
  record HasRoom (s : DedupState) : Type 0 where
    valid : IsValid s
    room : length hs ≤ s.height_retention
    on : (s.height_retention == 0) ≡ false
    known : all (contains hs) (bucket_heights s.heights) ≡ true

  all-add_key :
      (h : ℕ) (k : EventKey) (bs : List HeightBucket)
      → contains hs h ≡ true
      → all (contains hs) (bucket_heights bs) ≡ true
      → all (contains hs) (bucket_heights (add_key h k bs)) ≡ true
  unfolding add_key all
  all-add_key h k [] c a = ground arith
  all-add_key h k (b ∷ bs) c a = ground (arith, all-add_key h k bs)

  length-add_key-le :
      (h : ℕ) (k : EventKey) (s : DedupState)
      → HasRoom s
      → contains hs h ≡ true
      → length (add_key h k s.heights) ≤ s.height_retention
  length-add_key-le h k s r c = omega (
    arith,
    length-map (λ (b : HeightBucket). b.height) (add_key h k s.heights),
    length-le_of_nodup (bucket_heights (add_key h k s.heights)) hs
        (nodup-add_key h k s.heights r.valid.agrees.distinct) (all-add_key h k s.heights c r.known),
    r.room,
  )

  -- With room for every height nothing is trimmed.
  observe_old :
      (u : SubscribeUpdate) (h : ℕ) (s : DedupState)
      → HasRoom s
      → update_height u ≡ some h
      → contains s.seen (key_of u) ≡ true
      → observe s u ≡ (s, false)
  unfolding observe_key
  observe_old u h s r e old = rw (observe-some s u h e r.on, old) refl

  observe_fresh :
      (u : SubscribeUpdate) (h : ℕ) (s : DedupState)
      → HasRoom s
      → update_height u ≡ some h
      → contains hs h ≡ true
      → contains s.seen (key_of u) ≡ false
      → observe s u ≡ (
        record s { seen = set_insert (key_of u) s.seen; heights = add_key h (key_of u) s.heights },
        true,
      )
  unfolding observe_key
  observe_fresh u h s r e c fresh =
      rw
        (
          observe-some s u h e r.on,
          fresh,
          trim_short s.height_retention (add_key h (key_of u) s.heights)
              (set_insert (key_of u) s.seen) (length-add_key-le h (key_of u) s r c),
        )
        refl

  HasRoom-add_key :
      (h : ℕ) (k : EventKey) (s : DedupState)
      → HasRoom s
      → contains hs h ≡ true
      → contains s.seen k ≡ false
      → HasRoom (record s { seen = set_insert k s.seen; heights = add_key h k s.heights })
  HasRoom-add_key h k s r c fresh = record {
    valid = record {
      agrees = Agrees-add_key h k s.heights s.seen r.valid.agrees fresh;
      bounded = length-add_key-le h k s r c;
    };
    room = r.room;
    on = r.on;
    known = all-add_key h k s.heights c r.known;
  }

  Within-head :
      (u : SubscribeUpdate) (us : List SubscribeUpdate) (h : ℕ)
      → update_height u ≡ some h
      → Within hs (u ∷ us)
      → contains hs h ≡ true
  unfolding Within all
  Within-head u us h e w = ground arith

  Within-tail :
      (u : SubscribeUpdate) (us : List SubscribeUpdate) → Within hs (u ∷ us) → Within hs us
  unfolding Within all
  Within-tail u us w = ground arith

  deliver-Once :
      (us : List SubscribeUpdate) (s : DedupState)
      → HasRoom s
      → Within hs us
      → Once s.seen (block_keys us) (block_keys (deliver s us))
  unfolding deliver
  deliver-Once [] s r w = rw block_keys-nil (Once-nil s.seen)
  deliver-Once (u ∷ us) s r w = elim (Option-cases (update_height u)) [
    | inl e ↦
        rw (observe-none s u e, block_keys-none u us e, block_keys-none u (deliver s us) e)
          (deliver-Once us s r (Within-tail u us w))
    | inr (h, e) ↦ elim (Bool-cases (contains s.seen (key_of u))) [
      | inl old ↦
          rw (observe_old u h s r e old, block_keys-some u us h e)
            (Once-old _ _ _ _ old (deliver-Once us s r (Within-tail u us w)))
      | inr fresh ↦
          let c = Within-head u us h e w in
          rw (observe_fresh u h s r e c fresh, block_keys-some u us h e, block_keys-some u _ h e)
            (Once-fresh _ _ _ _ fresh
              (deliver-Once us _ (HasRoom-add_key h (key_of u) s r c fresh) (Within-tail u us w)))
    ]
  ]

-- A stream whose block-scoped updates have heights among at most `height_retention` ones, such as a
-- live stream and the replays after reconnects: from the fresh state the application gets the key
-- of every block-scoped update, and no key twice.
pub delivers_exactly_once :
    (retention : ℕ) (hs : List ℕ) (us : List SubscribeUpdate)
    → 0 < retention
    → length hs ≤ retention
    → Within hs us
    → let got = block_keys (deliver (with_height_retention retention) us) in
      (nodup got ≡ true) × ((k : EventKey) → contains got k ≡ contains (block_keys us) k)
unfolding with_height_retention contains all
delivers_exactly_once retention hs us positive fits w =
    let o : Once [] (block_keys us) (block_keys (deliver (with_height_retention retention) us)) =
      deliver-Once hs us (with_height_retention retention)
        (record {
          valid = IsValid-with_height_retention retention;
          room = fits;
          on = ground arith;
          known = refl;
        })
        w in
    (o.no_duplicate, λ k. ground (arith, o.complete k))

-- ===== src/Geyser/Service/Guarded.antt =====
-- What `acquire` and `drop` of auth.rs, and the calls of `GrpcService` of server.rs, do to the
-- tracker of the service.
use zakura_grpc.Common.{
  ℕ, ◌-◌, ◌≤◌, ◌<◌, ◌≡◌, refl, sym, ap, subst, ◌∙◌, ◌&&◌, String, List, ◌∷◌, ◌++◌, ok, err, u64_max,
  leb, eqb, map_get, string_eq, append_assoc, arith, Bool-cases, Option-cases, string_eq, inl, inr,
}
use zakura_grpc.Status.{Status}
use zakura_grpc.Geyser.Auth.{
  RequestMetadata, SubscriptionTracker, acquire, acquire_for, subscriber_id, count_of, drop_guard,
}
use zakura_grpc.Geyser.Auth.Guards.{
  occurrences, occurrences-append, tracker_of, IsSound, started-IsSound, refused-IsSound,
  ended-IsSound,
}

-- The tracker enforces the limit, and counts the guards.
pub record Guarded (limit : ℕ) (t : SubscriptionTracker) (guards : List String) : Type 0 where
  pub enforced : t ≡ tracker_of limit t.counts
  pub sound : IsSound limit (record { counts = t.counts; guards = guards })

-- Only the counts change.
acquire_for-settings :
    (id : String) (t : SubscriptionTracker)
    → (acquire_for id t).1 ≡ record t { counts = (acquire_for id t).1.counts }
unfolding acquire_for
acquire_for-settings id t = elim (Bool-cases (leb t.limit (count_of id t.counts) && t.enforce)) [
  | inl e ↦ rw (e, acquire_for) refl
  | inr e ↦ rw (e, acquire_for) refl
]

drop_guard-settings :
    (id : String) (t : SubscriptionTracker)
    → drop_guard id t ≡ record t { counts = (drop_guard id t).counts }
unfolding drop_guard
drop_guard-settings id t = elim (Option-cases (map_get id t.counts)) [
  | inl e ↦ rw (e, drop_guard) refl
  | inr (n, e) ↦ elim (Bool-cases (eqb (n - 1) 0)) [
    | inl z ↦ rw (e, z, drop_guard) refl
    | inr z ↦ rw (e, z, drop_guard) refl
  ]
]

module _ (limit : ℕ) (positive : 0 < limit) (word : limit ≤ u64_max) where
  pub acquired-Guarded :
      (r : RequestMetadata) (guard : String) (t : SubscriptionTracker) (gs : List String)
      → Guarded limit t gs
      → (acquire r t).0 ≡ ok guard
      → Guarded limit (acquire r t).1 (guard ∷ gs)
  acquired-Guarded r guard t gs v =
      subst (λ t. (acquire r t).0 ≡ ok guard → Guarded limit (acquire r t).1 (guard ∷ gs))
        (sym v.enforced)
        (λ e. record {
          enforced = acquire_for-settings (subscriber_id r) (tracker_of limit t.counts);
          sound = started-IsSound limit positive word (subscriber_id r) guard _ v.sound e;
        })

  pub denied-Guarded :
      (r : RequestMetadata) (x : Status) (t : SubscriptionTracker) (gs : List String)
      → Guarded limit t gs
      → (acquire r t).0 ≡ err x
      → Guarded limit (acquire r t).1 gs
  denied-Guarded r x t gs v =
      subst (λ t. (acquire r t).0 ≡ err x → Guarded limit (acquire r t).1 gs) (sym v.enforced)
        (λ e. record {
          enforced = acquire_for-settings (subscriber_id r) (tracker_of limit t.counts);
          sound = refused-IsSound limit positive word (subscriber_id r) x _ v.sound e;
        })

  pub dropped-Guarded :
      (guard : String) (t : SubscriptionTracker) (front back : List String)
      → Guarded limit t (front ++ guard ∷ back)
      → Guarded limit (drop_guard guard t) (front ++ back)
  dropped-Guarded guard t front back v =
      subst (λ t. Guarded limit (drop_guard guard t) (front ++ back)) (sym v.enforced)
        (record {
          enforced = drop_guard-settings guard (tracker_of limit t.counts);
          sound = ended-IsSound limit positive word _ front back guard v.sound refl;
        })

  -- The counts do not depend on the order of the guards.
  pub reordered-Guarded :
      (t : SubscriptionTracker) (gs hs : List String)
      → ((id : String) → occurrences id hs ≡ occurrences id gs)
      → Guarded limit t gs
      → Guarded limit t hs
  reordered-Guarded t gs hs same v = record {
    enforced = v.enforced;
    sound = record {
      exact = λ id. rw (same id) (v.sound.exact id);
      limited = λ id. rw (same id) (v.sound.limited id);
    };
  }

  -- A guard of the first list is dropped, then one of the second.
  pub front_dropped-Guarded :
      (guard : String) (t : SubscriptionTracker) (ws front back gs : List String)
      → ws ≡ front ++ guard ∷ back
      → Guarded limit t (ws ++ gs)
      → Guarded limit (drop_guard guard t) ((front ++ back) ++ gs)
  front_dropped-Guarded guard t ws front back gs h v =
      subst (Guarded limit (drop_guard guard t)) (sym (append_assoc front back gs)) (
        dropped-Guarded guard t front (back ++ gs) (
          subst (Guarded limit t) (ap (λ ws. ws ++ gs) h ∙ append_assoc front (guard ∷ back) gs) v))

  pub back_dropped-Guarded :
      (guard : String) (t : SubscriptionTracker) (ws gs front back : List String)
      → gs ≡ front ++ guard ∷ back
      → Guarded limit t (ws ++ gs)
      → Guarded limit (drop_guard guard t) (ws ++ (front ++ back))
  back_dropped-Guarded guard t ws gs front back h v =
      subst (Guarded limit (drop_guard guard t)) (append_assoc ws front back) (
        dropped-Guarded guard t (ws ++ front) back (
          subst (Guarded limit t)
            (ap (λ gs. ws ++ gs) h ∙ sym (append_assoc ws front (guard ∷ back))) v))

  -- A guard moves from the first list to the front of the second.
  pub moved-Guarded :
      (guard : String) (t : SubscriptionTracker) (ws front back gs : List String)
      → ws ≡ front ++ guard ∷ back
      → Guarded limit t (ws ++ gs)
      → Guarded limit t ((front ++ back) ++ guard ∷ gs)
  unfolding occurrences
  moved-Guarded guard t ws front back gs h v =
      reordered-Guarded t (ws ++ gs) ((front ++ back) ++ guard ∷ gs)
        (λ id. rw h (
          ground (
            arith,
            occurrences-append id (front ++ back) (guard ∷ gs),
            occurrences-append id front back,
            occurrences-append id (front ++ guard ∷ back) gs,
            occurrences-append id front (guard ∷ back),
          )))
        v

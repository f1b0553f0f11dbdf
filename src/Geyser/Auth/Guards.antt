-- ===== src/Geyser/Auth/Guards.antt =====
-- The guards that live, and the counts of `SubscriptionTracker`.
use zakura_grpc.Common.{
  ℕ, suc, ◌+◌, ◌≤◌, ◌<◌, ◌≡◌, refl, sym, ap, ◌∙◌, true, false, Option, none, some, String, List, [],
  ◌∷◌, ◌++◌, ok-injective, Result, ok, err, string_eq, ◌==◌, map_get, hash_put, map_remove,
  get-hash_put, get-map_remove, saturating_add, leb, eqb, if◌then◌else◌, arith, Bool-cases, u64_max,
  inl, inr, beq_refl,
}
use zakura_grpc.Status.{Status, Message, resource_exhausted}
use zakura_grpc.Geyser.Auth.{SubscriptionTracker, count_of, acquire_for, drop_guard, new_tracker}

-- How many of the guards belong to the subscriber.
unfoldable pub occurrences : String → List String → ℕ
occurrences id [] = 0
occurrences id (g ∷ gs) = if g == id then suc (occurrences id gs) else occurrences id gs

abbrev pub counted : ℕ → Option ℕ
counted n = if eqb n 0 then none else some n

-- The shared map and the guards that live.
pub record Service : Type 0 where
  pub counts : List (String × ℕ)
  pub guards : List String

-- The service before its first subscription.
abbrev pub idle : Service
idle = record { counts = []; guards = [] }

module _ (limit : ℕ) where
  -- The tracker of a service that enforces the limit.
  abbrev pub tracker_of : List (String × ℕ) → SubscriptionTracker
  tracker_of counts = record (new_tracker limit true) { counts = counts }

  -- The counts are those of the guards, and none is over the limit.
  pub record IsSound (s : Service) : Type 0 where
    pub exact : (id : String) → map_get id s.counts ≡ counted (occurrences id s.guards)
    pub limited : (id : String) → occurrences id s.guards ≤ limit

pub occurrences-append :
    (id : String) (xs ys : List String)
    → occurrences id (xs ++ ys) ≡ occurrences id xs + occurrences id ys
unfolding occurrences
occurrences-append id [] ys = omega arith
occurrences-append id (x ∷ xs) ys = ground (arith, occurrences-append id xs ys)

count_of-counted :
    (id : String) (counts : List (String × ℕ)) (n : ℕ)
    → map_get id counts ≡ counted n
    → count_of id counts ≡ n
count_of-counted id counts n h = ground arith

acquire-full :
    (limit n : ℕ) (id : String) (counts : List (String × ℕ))
    → count_of id counts ≡ n
    → leb limit n ≡ true
    → ((acquire_for id (tracker_of limit counts)).0
        ≡ err (resource_exhausted (Message.subscription_limit id limit)))
      × ((acquire_for id (tracker_of limit counts)).1.counts ≡ hash_put id n counts)
unfolding acquire_for
acquire-full limit n id counts e full = rw (e, full, acquire_for) (refl, refl)

acquire-free :
    (limit n : ℕ) (id : String) (counts : List (String × ℕ))
    → count_of id counts ≡ n
    → leb limit n ≡ false
    → ((acquire_for id (tracker_of limit counts)).0 ≡ ok id)
      × ((acquire_for id (tracker_of limit counts)).1.counts
          ≡ hash_put id (saturating_add n 1) counts)
unfolding acquire_for
acquire-free limit n id counts e free = rw (e, free, acquire_for) (refl, refl)

drop_lem :
    (limit k : ℕ) (id : String) (counts : List (String × ℕ))
    → map_get id counts ≡ counted (suc k)
    → (drop_guard id (tracker_of limit counts)).counts
      ≡ (if eqb k 0 then map_remove id counts else hash_put id k counts)
unfolding drop_guard
drop_lem limit k id counts h = ground arith

get-dropped :
    (k : ℕ) (id q : String) (counts : List (String × ℕ))
    → map_get q (if eqb k 0 then map_remove id counts else hash_put id k counts)
      ≡ (if id == q then counted k else map_get q counts)
get-dropped k id q counts = ground (arith, get-map_remove id q counts, get-hash_put id q k counts)

module _ (limit : ℕ) (positive : 0 < limit) (word : limit ≤ u64_max) where
  pub started-IsSound :
      (id g : String) (s : Service)
      → IsSound limit s
      → (acquire_for id (tracker_of limit s.counts)).0 ≡ ok g
      → IsSound limit (record {
        counts = (acquire_for id (tracker_of limit s.counts)).1.counts;
        guards = g ∷ s.guards;
      })
  unfolding occurrences
  started-IsSound id g s v h =
      let n = occurrences id s.guards in
      let e = count_of-counted id s.counts n (v.exact id) in
      elim (Bool-cases (leb limit n)) [
        | inl full ↦
            let k = acquire-full limit n id s.counts e full in
            absurd (err_ne_ok _ g (sym (k.0) ∙ h))
        | inr free ↦
            let k = acquire-free limit n id s.counts e free in
            let same : id ≡ g = ok-injective (sym (k.0) ∙ h) in
            rw (← same) (record {
              exact = λ q.
                  ap (map_get q) (k.1)
                  ∙ get-hash_put id q (saturating_add n 1) s.counts
                  ∙ ground (arith, v.exact q, string_eq.beq_iff id q);
              limited = λ q. ground (arith, v.limited q, string_eq.beq_iff id q);
            })
      ]
    where
      err_ne_ok : (e : Status) (g : String) → Path (Result Status String) (err e) (ok g) → ⊥
      err_ne_ok e g p = cc p

  pub refused-IsSound :
      (id : String) (e : Status) (s : Service)
      → IsSound limit s
      → (acquire_for id (tracker_of limit s.counts)).0 ≡ err e
      → IsSound limit (record s { counts = (acquire_for id (tracker_of limit s.counts)).1.counts })
  refused-IsSound id x s v h =
      let n = occurrences id s.guards in
      let e = count_of-counted id s.counts n (v.exact id) in
      elim (Bool-cases (leb limit n)) [
        | inl full ↦
            let k = acquire-full limit n id s.counts e full in
            record {
              exact = λ q.
                  ap (map_get q) (k.1)
                  ∙ get-hash_put id q n s.counts
                  ∙ ground (arith, v.exact q, string_eq.beq_iff id q);
              limited = v.limited;
            }
        | inr free ↦
            let k = acquire-free limit n id s.counts e free in
            absurd (ok_ne_err id x (sym (k.0) ∙ h))
      ]
    where
      ok_ne_err : (g : String) (e : Status) → Path (Result Status String) (ok g) (err e) → ⊥
      ok_ne_err g e p = cc p

  pub ended-IsSound :
      (s : Service) (before after : List String) (id : String)
      → IsSound limit s
      → s.guards ≡ before ++ id ∷ after
      → IsSound limit (record {
        counts = (drop_guard id (tracker_of limit s.counts)).counts;
        guards = before ++ after;
      })
  unfolding occurrences
  ended-IsSound s before after id v h =
      let k = occurrences id (before ++ after) in
      let split : (q : String)
          → occurrences q s.guards ≡ occurrences q (before ++ after) + (if id == q then 1 else 0) =
        λ q.
          ap (occurrences q) h
          ∙ ground (
            arith,
            occurrences-append q before (id ∷ after),
            occurrences-append q before after,
          ) in
      let e : map_get id s.counts ≡ counted (suc k) =
        v.exact id ∙ ground (arith, split id, beq_refl id) in
      record {
        exact = λ q.
            ap (map_get q) (drop_lem limit k id s.counts e)
            ∙ get-dropped k id q s.counts
            ∙ ground (arith, v.exact q, split q, string_eq.beq_iff id q);
        limited = λ q. ground (arith, v.limited q, split q);
      }

pub IsSound-idle : (limit : ℕ) → IsSound limit idle
unfolding occurrences map_get
IsSound-idle limit = record { exact = λ id. refl; limited = λ id. omega arith }

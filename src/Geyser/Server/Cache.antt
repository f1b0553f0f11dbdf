-- ===== src/Geyser/Server/Cache.antt =====
-- The projections that `PublishedUpdate::payload` of server.rs caches.
use zakura_grpc.Common.{
  ℕ, ◌≡◌, refl, sym, ap, ◌∙◌, Option, none, some, List, [], ◌∷◌, map, Option-cases, inl, inr,
}
use zakura_grpc.Proto.{BlockPayload, TransactionPayload, SubscribeUpdate, Update}
use zakura_grpc.Geyser.Filter.Compile.{normal_block_payload, normal_transaction_payload}
use zakura_grpc.Geyser.Server.Projection.{
  project_update, apply_payload_projection, PreparedPayload, PayloadProjectionCache,
  PublishedUpdate, Slot, slot_of, get_slot, set_slot, prepare, publish, get_or_init, payload,
}
use zakura_grpc.Geyser.Server.Slots.{
  same_slot, normal_modes, project_full, no_slot, get-set_slot, get-empty_cache,
}

module _ (encoded_len : SubscribeUpdate → ℕ) where
  -- What a client gets of an update under a pair of payload modes.
  unfoldable pub projected : SubscribeUpdate → BlockPayload → TransactionPayload → PreparedPayload
  unfolding prepare normal_block_payload normal_transaction_payload
  projected m bp tp =
      prepare encoded_len m (normal_block_payload bp) (normal_transaction_payload tp)

module _ (encoded_len : SubscribeUpdate → ℕ) where
  -- Every field that is filled holds the projection that it stands for.
  abbrev AreProjections : SubscribeUpdate → PayloadProjectionCache → Type 0
  AreProjections m c =
      (s : Slot) (found : PreparedPayload) (bp : BlockPayload) (tp : TransactionPayload)
      → get_slot s c ≡ some found
      → slot_of m.update bp tp ≡ some s
      → found ≡ prepare encoded_len m bp tp

  -- The update was published from the message `m`.
  record Publishes (m : SubscribeUpdate) (p : PublishedUpdate) : Type 0 where
    same : p.message ≡ apply_payload_projection m BlockPayload.full TransactionPayload.full
    length : p.encoded_len ≡ encoded_len p.message
    filled : AreProjections p.message p.projections

  Publishes-publish : (m : SubscribeUpdate) → Publishes m (publish encoded_len m)
  unfolding publish
  Publishes-publish m = record {
    same = refl;
    length = refl;
    filled = λ s found bp tp h k. absurd (get-empty_cache s found h);
  }

  prepared : SubscribeUpdate → PreparedPayload
  prepared message = record { message = message; encoded_len = encoded_len message }

  prepare_lem :
      (m : SubscribeUpdate) (bp : BlockPayload) (tp : TransactionPayload)
      → prepare encoded_len m bp tp ≡ prepared (record m { update = project_update bp tp m.update })
  unfolding prepare prepared apply_payload_projection
  prepare_lem m bp tp = refl

  prepare_same :
      (m : SubscribeUpdate) (bp bp' : BlockPayload) (tp tp' : TransactionPayload)
      → project_update bp tp m.update ≡ project_update bp' tp' m.update
      → prepare encoded_len m bp tp ≡ prepare encoded_len m bp' tp'
  prepare_same m bp bp' tp tp' h =
      prepare_lem m bp tp
      ∙ ap (λ u. prepared (record m { update = u })) h
      ∙ sym (prepare_lem m bp' tp')

  -- A projection of the published message is the projection of the original.
  prepare_full :
      (m : SubscribeUpdate) (bp : BlockPayload) (tp : TransactionPayload)
      → prepare encoded_len
          (apply_payload_projection m BlockPayload.full TransactionPayload.full)
          bp
          tp
        ≡ prepare encoded_len m bp tp
  unfolding apply_payload_projection
  prepare_full m bp tp =
      prepare_lem _ bp tp
      ∙ ap (λ u. prepared (record m { update = u })) (project_full m.update bp tp)
      ∙ sym (prepare_lem m bp tp)

  slot-full :
      (u : Option Update) (bp : BlockPayload) (tp : TransactionPayload)
      → slot_of (project_update BlockPayload.full TransactionPayload.full u) bp tp ≡ slot_of u bp tp
  unfolding slot_of project_update
  slot-full (some (Update.block b)) bp tp = refl
  slot-full _ bp tp = refl

  record Answer (m : SubscribeUpdate) (bp : BlockPayload) (tp : TransactionPayload)
      (r : PreparedPayload × PublishedUpdate) : Type 0 where
    payload_is : r.0 ≡ projected encoded_len m bp tp
    still : Publishes m r.1

  slot_published :
      (m : SubscribeUpdate) (p : PublishedUpdate) (bp : BlockPayload) (tp : TransactionPayload)
      → Publishes m p
      → slot_of p.message.update bp tp ≡ slot_of m.update bp tp
  unfolding apply_payload_projection
  slot_published m p bp tp v =
      ap (λ (x : SubscribeUpdate). slot_of x.update bp tp) v.same ∙ slot-full m.update bp tp

  prepare_published :
      (m : SubscribeUpdate) (p : PublishedUpdate) (bp : BlockPayload) (tp : TransactionPayload)
      → Publishes m p
      → prepare encoded_len p.message bp tp ≡ prepare encoded_len m bp tp
  prepare_published m p bp tp v =
      ap (λ x. prepare encoded_len x bp tp) v.same ∙ prepare_full m bp tp

  projected_slot :
      (m : SubscribeUpdate) (bp : BlockPayload) (tp : TransactionPayload) (s : Slot)
      → slot_of m.update bp tp ≡ some s
      → projected encoded_len m bp tp ≡ prepare encoded_len m bp tp
  unfolding projected normal_block_payload normal_transaction_payload
  projected_slot m bp tp s h = prepare_same m _ bp _ tp (normal_modes m.update bp tp s h)

  projected_no_slot :
      (m : SubscribeUpdate) (bp : BlockPayload) (tp : TransactionPayload)
      → slot_of m.update bp tp ≡ none
      → projected encoded_len m bp tp
        ≡ prepare encoded_len m BlockPayload.full TransactionPayload.full
  unfolding projected normal_block_payload normal_transaction_payload
  projected_no_slot m bp tp h = prepare_same m _ _ _ _ (no_slot m.update bp tp h)

  whole_message :
      (m : SubscribeUpdate) (p : PublishedUpdate)
      → Publishes m p
      → Path PreparedPayload
          (record { message = p.message; encoded_len = p.encoded_len })
          (prepare encoded_len m BlockPayload.full TransactionPayload.full)
  unfolding prepare prepared
  whole_message m p v =
      ap (λ n. record { message = p.message; encoded_len = n }) v.length ∙ ap prepared v.same

  filled-set_slot :
      (message : SubscribeUpdate) (c : PayloadProjectionCache) (s : Slot) (bp : BlockPayload)
      (tp : TransactionPayload)
      → slot_of message.update bp tp ≡ some s
      → AreProjections message c
      → AreProjections message (set_slot s (prepare encoded_len message bp tp) c)
  filled-set_slot message c s bp tp h a q found bp' tp' g k =
      elim (get-set_slot s q (prepare encoded_len message bp tp) found c g) [
        | inl (same, made) ↦
            sym made
            ∙ prepare_same message bp bp' tp tp'
                (same_slot message.update bp bp' tp tp' s h (k ∙ ap some same))
        | inr old ↦ a q found bp' tp' old k
      ]

  -- `get_or_init` answers with the projection, and the cache stays right.
  get_or_init-Answer :
      (m : SubscribeUpdate) (p : PublishedUpdate) (bp : BlockPayload) (tp : TransactionPayload)
      (s : Slot)
      → Publishes m p
      → slot_of p.message.update bp tp ≡ some s
      → Answer m bp tp (get_or_init encoded_len s bp tp p)
  unfolding get_or_init
  get_or_init-Answer m p bp tp s v h =
      let is_projected : prepare encoded_len p.message bp tp ≡ projected encoded_len m bp tp =
        prepare_published m p bp tp v
        ∙ sym (projected_slot m bp tp s (sym (slot_published m p bp tp v) ∙ h)) in
      elim (Option-cases (get_slot s p.projections)) [
        | inl e ↦
            rw (e, get_or_init)
              (record {
                payload_is = is_projected;
                still = record {
                  same = v.same;
                  length = v.length;
                  filled = filled-set_slot p.message p.projections s bp tp h v.filled;
                };
              })
        | inr (found, e) ↦
            rw (e, get_or_init)
              (record { payload_is = v.filled s found bp tp e h ∙ is_projected; still = v })
      ]

  payload-Answer :
      (m : SubscribeUpdate) (p : PublishedUpdate) (bp : BlockPayload) (tp : TransactionPayload)
      → Publishes m p
      → Answer m bp tp (payload encoded_len p bp tp)
  unfolding payload
  payload-Answer m p bp tp v = elim (Option-cases (slot_of p.message.update bp tp)) [
    | inl e ↦
        rw (e, payload)
          (record {
            payload_is =
                whole_message m p v
                ∙ sym (projected_no_slot m bp tp (sym (slot_published m p bp tp v) ∙ e));
            still = v;
          })
    | inr (s, e) ↦ rw (e, payload) (get_or_init-Answer m p bp tp s v e)
  ]

  -- The payloads that a sequence of clients gets, each with its pair of modes.
  unfoldable pub answers :
      PublishedUpdate → List (BlockPayload × TransactionPayload) → List PreparedPayload
  answers p [] = []
  answers p (r ∷ rs) = let (found, next) = payload encoded_len p r.0 r.1 in found ∷ answers next rs

  answers_of :
      (m : SubscribeUpdate) (p : PublishedUpdate) (rs : List (BlockPayload × TransactionPayload))
      → Publishes m p
      → answers p rs ≡ map (λ r. projected encoded_len m r.0 r.1) rs
  unfolding answers
  answers_of m p [] v = refl
  answers_of m p (r ∷ rs) v =
      let a = payload-Answer m p r.0 r.1 v in
      λ i. a.payload_is i ∷ answers_of m (payload encoded_len p r.0 r.1).1 rs a.still i

  -- The cache of projections is invisible: whatever modes earlier clients asked for, each client
  -- gets the projection of the original update under its own modes, an unspecified mode being
  -- full, with its encoded length.
  pub answers_are_projections :
      (m : SubscribeUpdate) (rs : List (BlockPayload × TransactionPayload))
      → answers (publish encoded_len m) rs ≡ map (λ r. projected encoded_len m r.0 r.1) rs
  answers_are_projections m rs = answers_of m (publish encoded_len m) rs (Publishes-publish m)

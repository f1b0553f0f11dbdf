-- ===== src/Client/Calls/Selected.antt =====
-- What `set_event_types` of zakura-grpc-client/src/lib.rs does to the stream of the server.
use zakura_grpc.Common.{
  ℕ, ◌≡◌, refl, sym, ◌∙◌, false, Option, none, some, List, [], ◌∷◌, map, any, is_empty, is_some,
  contains, int_eq, string_eq, err, arith, Result-cases, inl, inr,
}
use zakura_grpc.Proto.{EventType, SubscribeUpdate, event_type_into}
use zakura_grpc.Status.{Status}
use zakura_grpc.Chain.{Chain}
use zakura_grpc.Geyser.Config.{FilterLimits}
use zakura_grpc.Geyser.Filter.Decides.{meets, asks_addresses}
use zakura_grpc.Geyser.Filter.Meaning.{metadata_meets}
use zakura_grpc.Geyser.Filter.Request.{new_filter, matched}
use zakura_grpc.Geyser.Filter.Selection.{selects, legacy_meets, matched_iff_selects}
use zakura_grpc.Geyser.Server.Stream.{
  DisconnectReason, Channel, Subscription, apply_subscription_request, on_request,
}
use zakura_grpc.Client.Calls.{set_event_types}

module _ (chain : Chain) where
  selects-set_event_types :
      (types : List EventType) (u : SubscribeUpdate)
      → is_empty types ≡ false
      → selects chain (set_event_types types) u ≡ contains (map event_type_into types) u.event_type
  unfolding set_event_types selects legacy_meets meets metadata_meets asks_addresses any
  selects-set_event_types [] u h = absurd cc
  selects-set_event_types (t ∷ ts) u h = ground arith

  module _ (encoded_len : SubscribeUpdate → ℕ) (limits : FilterLimits) where
    refused :
        (types : List EventType) (channel : Channel) (s : Subscription) (x : Status)
        → new_filter chain (set_event_types types) limits ≡ err x
        → (on_request chain encoded_len limits channel (set_event_types types) s).disconnect
          ≡ some DisconnectReason.invalid_filter
    unfolding on_request apply_subscription_request set_event_types
    refused types channel s x e = rw (e, on_request, apply_subscription_request) refl

    some_ne_none : Path (Option DisconnectReason) (some DisconnectReason.invalid_filter) none → ⊥
    some_ne_none p = cc p

    -- A list of event types that is not empty, sent on an open subscription, answers nothing and
    -- changes the filter of the stream only, if the server does not end the stream for it; then
    -- the stream sends an update exactly if its event type is in the list.
    pub set_event_types_selects :
        (types : List EventType) (channel : Channel) (s : Subscription) (u : SubscribeUpdate)
        → is_empty types ≡ false
        → (on_request chain encoded_len limits channel (set_event_types types) s).disconnect ≡ none
        → let answered = on_request chain encoded_len limits channel (set_event_types types) s in
          (answered.sent ≡ [])
          × (answered.stream ≡ record s { filter = answered.stream.filter })
          × (is_some (matched answered.stream.filter u)
              ≡ contains (map event_type_into types) u.event_type)
    unfolding on_request apply_subscription_request set_event_types
    set_event_types_selects types channel s u h accepted =
        elim (Result-cases (new_filter chain (set_event_types types) limits)) [
          | inl (f, e) ↦
              rw (e, on_request, apply_subscription_request)
                (
                  refl,
                  refl,
                  matched_iff_selects chain (set_event_types types) limits f u e
                      ∙ selects-set_event_types types u h,
                )
          | inr (x, e) ↦ absurd (some_ne_none (sym (refused types channel s x e) ∙ accepted))
        ]

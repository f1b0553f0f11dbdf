-- ===== src/Geyser/Plugin.antt =====
-- `GrpcPlugin::on_event` of zakura-grpc-geyser/src/lib.rs: the encoding of an event, the numbering
-- of its updates and their publication.
pub mod Sequences
pub mod Events
pub mod Lifecycle
use zakura_grpc.Common.{ℕ, Option, none, some, List, [], ◌∷◌, Result, ok, err, checked_add}
use zakura_grpc.Geyser.Event.Source.{EventEnvelope, Formats, PluginError}
use zakura_grpc.Geyser.Event.Pool.{Options}
use zakura_grpc.Geyser.Event.Whole.{encode_event}
use zakura_grpc.Proto.{SubscribeUpdate}
use zakura_grpc.Geyser.Server.Projection.{PublishedUpdate}
use zakura_grpc.Geyser.Server.Subscribe.{SharedState, publish_batch}

-- Of the configuration, what the encoding reads.
pub record GrpcPlugin : Type 1 where
  pub options : Options
  pub state : SharedState
  pub next_sequence : ℕ

-- The loop over the updates: the numbered updates, unless the numbers run out, and the last number.
unfoldable pub number : ℕ → List SubscribeUpdate → Option (List SubscribeUpdate) × ℕ
number n [] = (some [], n)
number n (u ∷ us) = elim (checked_add n 1) [
  | none ↦ (none, n)
  | some m ↦
      let rest = number m us in
      (
        elim rest.0 [ none ↦ none | some numbered ↦ some (record u { sequence = m } ∷ numbered) ],
        rest.1,
      )
]

module _ (encoded_len : SubscribeUpdate → ℕ) where
  -- `on_event` from the encoded updates on: what goes to the broadcast ring, and the plugin.
  unfoldable pub publish_encoded :
      Result PluginError (List SubscribeUpdate)
      → ℕ
      → GrpcPlugin
      → Result PluginError (List PublishedUpdate) × GrpcPlugin
  publish_encoded (err e) now p = (err e, p)
  publish_encoded (ok updates) now p =
      let numbered = number p.next_sequence updates in
      elim numbered.0 [
        | none ↦ (err PluginError.sequence_exhausted, record p { next_sequence = numbered.1 })
        | some batch ↦
            let published = publish_batch encoded_len batch now p.state in
            (ok published.0, record p { state = published.1; next_sequence = numbered.1 })
      ]

  unfoldable pub on_event :
      Formats
      → EventEnvelope
      → ℕ
      → GrpcPlugin
      → Result PluginError (List PublishedUpdate) × GrpcPlugin
  on_event formats event now p = publish_encoded (encode_event formats event p.options) now p

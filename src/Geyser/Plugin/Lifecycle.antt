-- ===== src/Geyser/Plugin/Lifecycle.antt =====
-- The life of a `GrpcPlugin` of zakura-grpc-geyser/src/lib.rs: it is created, loaded and unloaded.
-- A server that is spawned has a number, which its handle and its cancellation token share.
pub mod Servers
pub mod Numbers
use zakura_grpc.Common.{
  ℕ, Bool, true, false, ◌&&◌, Option, none, some, String, List, [], ◌∷◌, ◌++◌, is_some, is_none,
  ltb, Result, ok, err, ◌>>◌, suc, if◌then◌else◌,
}
use zakura_grpc.Proto.{SubscribeUpdate}
use zakura_grpc.Chain.{Chain}
use zakura_grpc.Geyser.Config.{Config}
use zakura_grpc.Geyser.Config.Validate.{validate}
use zakura_grpc.Geyser.Event.Source.{EventEnvelope, Formats, PluginError}
use zakura_grpc.Geyser.Event.Pool.{ThreadPool, Options}
use zakura_grpc.Geyser.Server.Projection.{PublishedUpdate}
use zakura_grpc.Geyser.Server.Subscribe.{new_state}
use zakura_grpc.Geyser.Service.{GrpcService, new_service}
use zakura_grpc.Geyser.Plugin.{GrpcPlugin, on_event}
use zakura_grpc.Geyser.Plugin.Events.{sent}

-- The plugin, with the configuration, the token and the handle of its server.
pub record Managed : Type 1 where
  pub plugin : GrpcPlugin
  pub config : Config
  pub shutdown : Option ℕ
  pub server : Option ℕ

-- `GrpcPlugin::new`; `unit` is the length of a second.
unfoldable pub new_plugin : ℕ → Config → Managed
new_plugin unit c = record {
  plugin = record {
    options = record {
      transaction_updates = c.transaction_updates;
      utxo_updates = c.utxo_updates;
      mempool_transaction_updates = c.mempool_transaction_updates;
      encoding_pool = none;
      parallel_encoding_min_transactions = c.parallel_encoding_min_transactions;
    };
    state = new_state unit c;
    next_sequence = 0;
  };
  config = c;
  shutdown = none;
  server = none;
}

-- `from_plugin_config`, once the configuration is read or is not.
unfoldable pub from_plugin_config :
    Chain → (String → Bool) → ℕ → Result String Config → Result PluginError Managed
from_plugin_config chain valid_metadata unit (err e) = err PluginError.invalid_configuration
from_plugin_config chain valid_metadata unit (ok c) = elim (validate chain valid_metadata c) [
  | err e ↦ err PluginError.invalid_configuration
  | ok _ ↦ ok (new_plugin unit c)
]

-- What Rayon, Tokio, the system and Tonic answer at a load.
pub record LoadAnswers : Type 1 where
  pub pool : Result String ThreadPool
  pub runtime : Result String (Unit {0})
  pub bound : Result String (Unit {0})
  pub nonblocking : Result String (Unit {0})
  pub listener : Result String (Unit {0})
  pub reflection : Result String (Unit {0})

abbrev pub map_error :
    (String → PluginError) → Result String (Unit {0}) → Result PluginError (Unit {0})
map_error f (ok u) = ok u
map_error f (err e) = err (f e)

abbrev pub keep_pool : ThreadPool → Managed → Managed
keep_pool pool m = record m {
  plugin = record m.plugin { options = record m.plugin.options { encoding_pool = some pool } };
}

-- The thread pool, where the configuration wants one and there is none yet.
unfoldable pub create_pool : LoadAnswers → Managed → Result PluginError (Unit {0}) × Managed
create_pool a m =
    if ltb 1 m.config.event_encoding_threads && is_none m.plugin.options.encoding_pool
    then elim a.pool [
      | err e ↦ (err (PluginError.pool_not_created e), m)
      | ok pool ↦ (ok tt, keep_pool pool m)
    ]
    else (ok tt, m)

unfoldable pub listen : LoadAnswers → Result PluginError (Unit {0})
listen a =
    map_error PluginError.runtime_unavailable a.runtime
    >> map_error PluginError.listener_not_bound a.bound
    >> map_error PluginError.listener_not_configured a.nonblocking
    >> map_error PluginError.listener_not_created a.listener
    >> map_error PluginError.reflection_not_built a.reflection

-- `on_load`: the service that the server with this number runs.
unfoldable pub on_load : ℕ → LoadAnswers → ℕ → Managed → Result PluginError GrpcService × Managed
on_load unit a number m =
    if is_some m.server
    then (err PluginError.already_running, m)
    else (let pooled = create_pool a m in
        elim pooled.0 [
          | err e ↦ (err e, pooled.1)
          | ok _ ↦ elim (listen a) [
            | err e ↦ (err e, pooled.1)
            | ok _ ↦ (
              ok (new_service unit m.plugin.state m.config),
              record pooled.1 { shutdown = some number; server = some number },
            )
          ]
        ])

-- `on_unload`: the token that is cancelled.
unfoldable pub on_unload : Managed → Option ℕ × Managed
on_unload m = (m.shutdown, record m { shutdown = none; server = none })

-- A call of the plugin.
pub data Call : Type 1 where
  load : LoadAnswers → Call
  event : EventEnvelope → ℕ → Call
  unload : Call

-- The plugin, how many servers were spawned, and the tokens that were cancelled.
pub record Node : Type 1 where
  pub managed : Managed
  pub spawned : ℕ
  pub cancelled : List ℕ

-- A load spawns a server where it succeeds; an unload cancels the token that it takes.
abbrev pub spawned_by : Result PluginError GrpcService → ℕ → ℕ
spawned_by (err e) n = n
spawned_by (ok service) n = suc n

abbrev pub cancelled_by : Option ℕ → List ℕ → List ℕ
cancelled_by none tokens = tokens
cancelled_by (some token) tokens = token ∷ tokens

module _ (unit : ℕ) (encoded_len : SubscribeUpdate → ℕ) (formats : Formats) where
  -- A call: what is published, and the node.
  unfoldable pub perform : Call → Node → List PublishedUpdate × Node
  perform (Call.load a) n =
      let loaded = on_load unit a n.spawned n.managed in
      ([], record n { managed = loaded.1; spawned = spawned_by loaded.0 n.spawned })
  perform (Call.event e now) n =
      let answer = on_event encoded_len formats e now n.managed.plugin in
      (sent answer.0, record n { managed = record n.managed { plugin = answer.1 } })
  perform Call.unload n =
      let unloaded = on_unload n.managed in
      ([], record n { managed = unloaded.1; cancelled = cancelled_by unloaded.0 n.cancelled })

  unfoldable pub perform_all : List Call → Node → List PublishedUpdate × Node
  perform_all [] n = ([], n)
  perform_all (c ∷ cs) n =
      let first = perform c n in let rest = perform_all cs first.1 in (first.0 ++ rest.0, rest.1)

-- A node with a plugin that was never loaded.
abbrev pub new_node : Managed → Node
new_node m = record { managed = m; spawned = 0; cancelled = [] }

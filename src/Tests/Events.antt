-- ===== src/Tests/Events.antt =====
-- The theorems on the encoding, the numbering and the publication of events at concrete inputs.
use zakura_grpc.Common.{
  ℕ, ◌≤◌, ◌≡◌, refl, true, false, ◌||◌, none, some, List, [], ◌∷◌, ◌++◌, ok, err, All, u64_max,
  arith, traverse, enumerate_from, map_indexed, map_get, flat_map, ap, subst, if◌then◌else◌,
}
use zakura_grpc.Proto.{SubscribeUpdate, default_update}
use zakura_grpc.Geyser.Event.Source.{
  Transaction, Output, ChainInput, EventEnvelope, PluginEvent, Formats, SystemTime, OrderedUtxo,
}
use zakura_grpc.Geyser.Event.Previous.{PreviousOutputs, find_previous, known_output}
use zakura_grpc.Geyser.Event.Transparent.{
  encode_transparent_updates, encode_inputs, encode_outputs, encode_transparent_input,
  encode_transparent_output, add_input_value,
}
use zakura_grpc.Geyser.Event.Transparent.Totals.{known_sum, total_of}
use zakura_grpc.Geyser.Event.Transparent.Complete.{
  when, sum_values, value_of, values_from, inputs_from, spent_from, outputs_from, created_from,
  context_of, encode_transparent_updates_lem,
}
use zakura_grpc.Geyser.Event.Encode.{encode_block}
use zakura_grpc.Geyser.Event.Pool.{ThreadPool, Options, collect_with}
use zakura_grpc.Geyser.Event.Whole.{encode_event, encode_head, append_updates}
use zakura_grpc.Geyser.Event.Transactions.{
  append_block_updates, encode_transaction_updates, push_transaction, push_utxo,
}
use zakura_grpc.Geyser.Event.Pooled.{IsOrdered, PoolOf}
use zakura_grpc.Geyser.Event.Heights.{TellsOf, encode_event-TellsOf}
use zakura_grpc.Geyser.Server.Mempool.{empty_mempool}
use zakura_grpc.Geyser.Server.Replay.{empty_buffer}
use zakura_grpc.Geyser.Server.Stream.Live.{Rising}
use zakura_grpc.Geyser.Plugin.{GrpcPlugin}
use zakura_grpc.Geyser.Plugin.Sequences.{Consecutive}
use zakura_grpc.Geyser.Config.{default_config}
use zakura_grpc.Geyser.Plugin.Lifecycle.{LoadAnswers, Call, Node, new_plugin, new_node, perform_all}
use zakura_grpc.Geyser.Plugin.Lifecycle.Servers.{Manages, Manages-new, life-Manages}
use zakura_grpc.Geyser.Plugin.Lifecycle.Numbers.{life-Consecutive}
use zakura_grpc.Tests.Samples.{sample_len}

abbrev sample_formats : Formats
sample_formats = record {
  show_hash = λ bytes. elim bytes [ [] ↦ "none" | b ∷ bs ↦ "hash" ];
  show_block_hash = λ bytes. "block";
  show_digest = λ bytes. "digest";
  show_network = λ network. "Mainnet";
  output_address = λ network output. none;
  show_address = λ address. "address";
}

abbrev pays : ℕ → Output
pays value = record { value = value; lock_script = 1 ∷ [] }

-- It spends output 0 of transaction 7 and the coinbase value.
abbrev spending : Transaction
spending = record {
  txid = 9 ∷ [];
  auth_digest = none;
  serialized = ok (1 ∷ 2 ∷ []);
  inputs =
      ChainInput.prev_out (record { hash = 7 ∷ []; index = 0 }) (5 ∷ []) 1
      ∷ ChainInput.coinbase 3 (6 ∷ []) 2
      ∷ [];
  outputs = pays 30 ∷ pays 12 ∷ [];
  version = 5;
  raw_lock_time = 0;
  lock_time_is_time = false;
  expiry_height = none;
  is_coinbase = false;
  has_transparent_inputs_or_outputs = true;
  has_sapling_shielded_data = false;
  has_orchard_shielded_data = false;
}

abbrev spent : List ((List ℕ × ℕ) × OrderedUtxo)
spent = ((7 ∷ [], 0), record { output = pays 50; height = 2; from_coinbase = true }) ∷ []

spending_fits :
    known_sum (
      values_from sample_formats
        (context_of 0 (PreviousOutputs.block spent) true true)
        0
        spending.inputs)
    ≤ u64_max
unfolding map_indexed value_of find_previous known_output map_get
spending_fits = omega arith

encode_transparent_updates_lem_example :
    let context = context_of 0 (PreviousOutputs.block spent) true true in
    encode_transparent_updates sample_formats spending "id" 0
      (PreviousOutputs.block spent)
      true
      true
    ≡ ok (record {
      transaction_inputs = when true (inputs_from sample_formats context 0 (spending.inputs));
      transaction_outputs = when true (outputs_from sample_formats context 0 (spending.outputs));
      utxo_changes =
          when true (spent_from sample_formats context 0 (spending.inputs))
          ++ when true (created_from sample_formats context "id" 0 (spending.outputs));
      transparent_input_value_zat =
          total_of
            (if true || true then some 0 else none)
            (values_from sample_formats context 0 (spending.inputs));
      transparent_output_value_zat = sum_values (spending.outputs);
    })
encode_transparent_updates_lem_example =
    encode_transparent_updates_lem sample_formats spending "id" 0 (PreviousOutputs.block spent) true
      true (omega arith) (omega arith) spending_fits (omega arith)

-- A pool that takes the items one after the other.
abbrev one_by_one : ThreadPool
one_by_one = record { collect = λ f xs. traverse f xs }

one_by_one-IsOrdered : IsOrdered one_by_one
one_by_one-IsOrdered = record { ordered = λ f xs ys. (λ h. h, λ h. h) }

abbrev all_options : Options
all_options = record {
  transaction_updates = true;
  utxo_updates = true;
  mempool_transaction_updates = true;
  encoding_pool = some one_by_one;
  parallel_encoding_min_transactions = 1;
}

all_options-PoolOf : PoolOf all_options
all_options-PoolOf pool e =
    let same = ap (λ o. elim o [ none ↦ one_by_one | some q ↦ q ]) e in
    subst IsOrdered same one_by_one-IsOrdered

abbrev mined_at : ℕ → EventEnvelope
mined_at height = record {
  schema_version = 3;
  session_id = 0 ∷ 7 ∷ [];
  sequence = 11;
  observed_at = SystemTime.since_epoch 100 5;
  payload = PluginEvent.block_finalized (record {
    height = height;
    hash = 8 ∷ [];
    network = 0;
    receipt_order = none;
    serialized = ok (4 ∷ []);
    transactions = spending ∷ [];
    spent_outputs = spent;
  });
}

abbrev not_encoded : EventEnvelope
not_encoded = record (mined_at 6) {
  payload = PluginEvent.block_accepted (record {
    height = 6;
    hash = 8 ∷ [];
    network = 0;
    receipt_order = some 1;
    serialized = err "block";
    transactions = [];
    spent_outputs = [];
  });
}

-- A plugin that has numbered up to `n`.
abbrev numbered_to : ℕ → GrpcPlugin
numbered_to n = record {
  options = all_options;
  state = record {
    replay =
        empty_buffer (record {
          height_capacity = 10;
          event_capacity = 10;
          byte_capacity = 100;
          max_age = none;
        });
    mempool = empty_mempool;
  };
  next_sequence = n;
}

abbrev two_updates : List SubscribeUpdate
two_updates = default_update ∷ default_update ∷ []

-- Everything that a load asks for is granted.
abbrev pub granted : LoadAnswers
granted = record {
  pool = err "no pool is asked for";
  runtime = ok tt;
  bound = ok tt;
  nonblocking = ok tt;
  listener = ok tt;
  reflection = ok tt;
}

-- The plugin is loaded, twice at once, has three events, of which one fails, and is loaded again.
abbrev life : List Call
life =
    Call.load granted
    ∷ Call.load granted
    ∷ Call.event (mined_at 5) 5
    ∷ Call.event not_encoded 6
    ∷ Call.unload
    ∷ Call.event (mined_at 7) 7
    ∷ Call.load granted
    ∷ []

abbrev numbered_node : Node
numbered_node =
    new_node
      (record { plugin = numbered_to 7; config = default_config; shutdown = none; server = none })

life-Consecutive_example :
    ((last : ℕ) × Consecutive 7 (perform_all 1 sample_len sample_formats life numbered_node).0 last)
    × Rising 7 (perform_all 1 sample_len sample_formats life numbered_node).0
life-Consecutive_example =
    life-Consecutive 1 sample_len sample_formats life numbered_node (omega arith)

life-Manages_example :
    Manages
      ((perform_all 1 sample_len sample_formats life (new_node (new_plugin 1 default_config))).1)
life-Manages_example =
    life-Manages 1 sample_len sample_formats life (new_node (new_plugin 1 default_config))
      (Manages-new 1 default_config)

-- The updates of the sample event.
abbrev mined_updates : List SubscribeUpdate
mined_updates = elim (encode_event sample_formats (mined_at 5) all_options) [
  | ok us ↦ us
  | err e ↦ []
]

mined_runs : encode_event sample_formats (mined_at 5) all_options ≡ ok mined_updates
unfolding encode_event encode_head encode_block append_updates append_block_updates collect_with
    traverse enumerate_from encode_transaction_updates encode_transparent_updates encode_inputs
    encode_outputs encode_transparent_input encode_transparent_output add_input_value find_previous
    known_output map_get push_transaction push_utxo flat_map
mined_runs = refl

encode_event-TellsOf_example : All (TellsOf (mined_at 5)) mined_updates
encode_event-TellsOf_example =
    encode_event-TellsOf sample_formats (mined_at 5) all_options mined_updates all_options-PoolOf
      mined_runs

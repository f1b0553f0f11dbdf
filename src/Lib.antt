-- ===== src/Lib.antt =====
-- zakura-grpc: the gRPC plugin of the Zakura node and its Rust client.
--
-- The plugin turns events of the node into updates and publishes them. A client subscribes with a
-- request that carries filters and, if it wants missed blocks, a height or a checkpoint of
-- finalized and partial blocks. The server answers with a replay of retained blocks, a snapshot
-- of the mempool if it is asked for, and then the live updates, each cut down to the payload that
-- the matching filters want. The client suppresses what it has already had, follows the chain so
-- that it can resume, answers pings, and reconnects.
--
-- The files:
--
-- Common and its children: tests on native numbers, lists, keyed sets and maps (`HashSet` and
-- `HashMap` as lists in an order of insertion, `BTreeMap` as a list in key order), `Result` with
-- `?`, signed 32-bit numbers, ordered types, pigeonhole.
-- Proto: the messages of zakura-grpc-proto/proto/zakura/geyser/v1/geyser.proto as records, its
-- `oneof`s as data types, its enumerations with `try_from` on an `i32`.
-- Status: `tonic::Status`, where a message is a constructor with the values that the source
-- formats. Chain: parsing and printing of hashes and transparent addresses, which the source
-- takes from zakura_chain, as a parameter.
-- Geyser.Config: zakura-grpc-geyser/src/config.rs, `Config` and `FilterLimits` with their
-- defaults and validation.
-- Geyser.Event: zakura-grpc-geyser/src/event.rs. Source has the values and functions that it
-- takes from other crates, as parameters, Previous the outputs that a transaction spends,
-- Transparent the encoding of inputs and outputs, Encode blocks and the best chain, Pool the
-- choice of a thread pool, Transactions and Mempool the updates of transactions, Whole
-- `encode_event`. Pooled, Updates and Heights are about the updates that come out.
-- Geyser.Filter: zakura-grpc-geyser/src/filter.rs. Compile has `CompiledFilter::from_proto`,
-- Context `UpdateContext`, Matches `CompiledFilter::matches`, Request `EventFilter::new` and
-- `matched`; Meaning and Decides say what a filter of a request means without reference to the
-- compiled one.
-- Geyser.Auth: zakura-grpc-geyser/src/auth.rs; Guards has what the counts say of the guards that
-- live.
-- Geyser.Server: zakura-grpc-geyser/src/server.rs. Projection and Cache have `PublishedUpdate`,
-- Replay `ReplayBuffer`, Mempool `MempoolState`, Subscribe `SharedState`, Stream the loop of
-- `run_subscription`, one function for each arm of its `select!`, with the race of a new
-- subscription and a batch that is published in Race and the whole loop in Runs, and Varint
-- `encoded_varint_len`.
-- Geyser.Service: `GrpcService` of zakura-grpc-geyser/src/server.rs, where `subscribe` is `admit`
-- before it waits for the first request and `open_stream` after; Running has the interleavings of
-- its calls as a step relation.
-- Geyser.Plugin: `GrpcPlugin` of zakura-grpc-geyser/src/lib.rs, in Lifecycle with its loads and
-- unloads.
-- Client.Dedup: zakura-grpc-client/src/dedup.rs. Client.Resume: `ChainResumeState` of
-- zakura-grpc-client/src/reconnect.rs, with Held and Answer on what the server says to its
-- checkpoint. Client.Reconnect: the reconnection and `handle_update` of the same file, and in
-- Loop its `run_subscription`, one turn for each event of the `select!` with the recovery that it
-- brings; Live and Kept follow whole runs.
-- Client.Builder: zakura-grpc-client/src/builder.rs and the interceptor of lib.rs. Client.Calls:
-- the calls and the subscription requests of zakura-grpc-client/src/lib.rs; Answered, Configured
-- and Selected follow them into the service.
-- Tests: the theorems at concrete inputs.
--
-- State is passed explicitly: a method that takes `&mut self` returns the new state. Clocks,
-- `Message::encoded_len` of Prost, the thread pool of the encoder, the validity of a metadata
-- value, the outcome of a connection, what the system and the libraries answer when the plugin is
-- loaded and, for the calls of the client, the server are parameters; `Instant` and `Duration`
-- are numbers of one unit. A `usize` has 64 bits: sums wrap, `saturating_add` and
-- `saturating_sub` are written out. Bytes are lists of numbers, and a float that the source only
-- copies is its bit pattern.
--
-- Fuel: `evict` runs its loop on one unit for each bucket, which is enough since a valid buffer
-- without buckets has counters of zero. The loop of `encoded_varint_len` runs on ten units, since
-- a `usize` has at most ten groups of seven bits. Every other loop is a recursion on a list, or
-- on the number of retries.
--
-- Not modelled: metrics and logging, the transport (Tonic, Tokio's channels and timers, TLS,
-- compression, HTTP/2), the serving of connections, the transport settings of the builder, the
-- health service, the command-line programs and the examples. What the queues do is an argument
-- of the steps that use them.
pub mod Common
pub mod Proto
pub mod Status
pub mod Chain
pub mod Geyser
pub mod Client
pub mod Tests

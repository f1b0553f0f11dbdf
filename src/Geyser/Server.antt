-- ===== src/Geyser/Server.antt =====
-- zakura-grpc-geyser/src/server.rs: what the service publishes, retains and sends.
pub mod Projection
pub mod Slots
pub mod Cache
pub mod Replay
pub mod Mempool
pub mod Subscribe
pub mod Stream
pub mod Varint

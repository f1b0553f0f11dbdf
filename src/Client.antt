-- ===== src/Client.antt =====
-- The client crate, zakura-grpc-client.
pub mod Dedup
pub mod Resume
pub mod Reconnect
pub mod Builder
pub mod Calls

-- ===== src/Geyser.antt =====
-- The server crate, zakura-grpc-geyser.
pub mod Config
pub mod Event
pub mod Filter
pub mod Auth
pub mod Server
pub mod Plugin
pub mod Service

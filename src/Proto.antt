-- ===== src/Proto.antt =====
-- The messages of zakura-grpc-proto (proto/zakura/geyser/v1/geyser.proto) as Rust sees them.
-- An enumeration field is the `i32` that Prost keeps; a `oneof` is an `Option` of a data type.
mod Enums
mod Updates
mod Requests
unfoldable pub use Enums.*
pub use Updates.*
pub use Requests.*

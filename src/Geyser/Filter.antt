-- ===== src/Geyser/Filter.antt =====
-- zakura-grpc-geyser/src/filter.rs: subscription filters. `Compile` turns the filter of a request
-- into its validated form, `Context` reads an update once for all filters, `Matches` decides one
-- filter, `Request` is the filter of a whole subscription. The other modules prove.
pub mod Compile
pub mod Context
pub mod Matches
pub mod Request
pub mod Kinds
pub mod Values
pub mod Meaning
pub mod Decides
pub mod Attribution
pub mod Selection

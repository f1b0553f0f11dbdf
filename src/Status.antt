-- ===== src/Status.antt =====
-- `tonic::Status` and its constructors.
mod Codes
pub use Codes.{Code, Message, Status}

abbrev pub invalid_argument : Message → Status
invalid_argument m = record { code = Code.invalid_argument; message = m }

abbrev pub internal : Message → Status
internal m = record { code = Code.internal; message = m }

abbrev pub out_of_range : Message → Status
out_of_range m = record { code = Code.out_of_range; message = m }

abbrev pub failed_precondition : Message → Status
failed_precondition m = record { code = Code.failed_precondition; message = m }

abbrev pub resource_exhausted : Message → Status
resource_exhausted m = record { code = Code.resource_exhausted; message = m }

abbrev pub unauthenticated : Message → Status
unauthenticated m = record { code = Code.unauthenticated; message = m }

abbrev pub unavailable : Message → Status
unavailable m = record { code = Code.unavailable; message = m }

-- ===== src/Chain.antt =====
-- What the source takes from the crate zakura_chain, as a parameter: parsing and printing of
-- transaction hashes and transparent addresses.
use zakura_grpc.Common.{ℕ, Option, String, List}

-- `transparent::Address`: the two variants that the source names, and all others.
pub data Address : Type 0 where
  tex : ℕ → List ℕ → Address
  pay_to_public_key_hash : ℕ → List ℕ → Address
  other_address : ℕ → List ℕ → Address

pub record Chain : Type 0 where
  -- `value.parse::<transaction::Hash>()`, then `to_string`
  pub parse_hash : String → Option (List ℕ)
  pub show_hash : List ℕ → String
  -- `value.parse::<Address>()` and `to_string`
  pub parse_address : String → Option Address
  pub show_address : Address → String

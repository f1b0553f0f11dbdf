-- ===== src/Tests/Samples.antt =====
-- Inputs for the tests.
use zakura_grpc.Common.{
  ℕ, ◌+◌, ℤ, pos, Bool, none, some, String, [], ◌∷◌, length, string_eq, ◌==◌, if◌then◌else◌, nat_eq,
}
use zakura_grpc.Chain.{Chain, Address}
use zakura_grpc.Proto.{EventType, SubscribeUpdate, Update, default_update, event_type_into}

-- A chain with two hashes, a plain address and a TEX address of the same key.
abbrev pub sample_chain : Chain
sample_chain = record {
  parse_hash = λ s. if s == "aa" then some (1 ∷ []) else if s == "bb" then some (2 ∷ []) else none;
  show_hash = λ h. elim h [ [] ↦ "" | x ∷ xs ↦ if x == 1 then "aa" else "bb" ];
  parse_address = λ s.
      if s == "t1"
      then some (Address.pay_to_public_key_hash 0 (1 ∷ []))
      else if s == "tex1"
      then some (Address.tex 0 (1 ∷ []))
      else none;
  show_address = λ a. elim a [
    | Address.pay_to_public_key_hash network hash ↦ "t1"
    | Address.tex network hash ↦ "tex1"
    | Address.other_address network hash ↦ "other"
  ];
}

abbrev pub sample_len : SubscribeUpdate → ℕ
sample_len u = 10 + length u.session_id

-- A block that is accepted, or finalized.
abbrev pub block_at : ℕ → String → Bool → ℕ → SubscribeUpdate
block_at height hash finalized sequence = record default_update {
  sequence = sequence;
  event_type = event_type_into EventType.block_accepted;
  update = some (
      Update.block (record {
        height = height;
        hash = hash;
        block = 7 ∷ 8 ∷ [];
        receipt_order = none;
        finalized = finalized;
        payload = pos 2;
      }));
}

abbrev pub ping_of : ℤ → SubscribeUpdate
ping_of id = record default_update { update = some (Update.ping (record { id = id })) }

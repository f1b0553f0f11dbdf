-- ===== src/Geyser/Event/Pool.antt =====
-- Encoding on a thread pool or without one, in event.rs.
use zakura_grpc.Common.{
  ℕ, Bool, Option, none, some, String, List, length, leb, traverse, Result, if◌then◌else◌,
}
use zakura_grpc.Geyser.Event.Source.{PluginError}

-- Rayon's `install` with `par_iter().map(f).collect()`.
pub record ThreadPool : Type 1 where
  pub collect :
      {A : Type 0} {B : Type 0} → (A → Result PluginError B) → List A → Result PluginError (List B)

pub record Options : Type 1 where
  pub transaction_updates : Bool
  pub utxo_updates : Bool
  pub mempool_transaction_updates : Bool
  pub encoding_pool : Option ThreadPool
  pub parallel_encoding_min_transactions : ℕ

-- The pool is used from the configured number of transactions on.
unfoldable pub collect_with :
    {A : Type 0} {B : Type 0}
    → Options
    → (A → Result PluginError B)
    → List A
    → Result PluginError (List B)
collect_with o f xs = elim o.encoding_pool [
  | none ↦ traverse f xs
  | some pool ↦
      if leb o.parallel_encoding_min_transactions (length xs)
      then pool.collect f xs
      else traverse f xs
]

abbrev pub show_option : (List ℕ → String) → Option (List ℕ) → Option String
show_option f none = none
show_option f (some x) = some (f x)

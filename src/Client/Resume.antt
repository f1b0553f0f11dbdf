-- ===== src/Client/Resume.antt =====
-- `ChainResumeState` of zakura-grpc-client/src/reconnect.rs. The map of partial blocks is a list in
-- the order of its keys, a height and a hash.
pub mod Partial
pub mod Checkpoint
pub mod Held
pub mod Answer
use zakura_grpc.Common.{
  reverse, ℕ, ℤ, Bool, true, false, not, ◌&&◌, ◌||◌, Option, none, some, String, List, [], ◌∷◌,
  ◌++◌, map, filter, values, map_remove, tree_insert, string_eq, nat_eq, int_eq, pair_eq, nat_ord,
  text_ord, pair_ord, ◌==◌, if◌then◌else◌, ltb, is_none_or,
}
use zakura_grpc.Proto.{
  CanonicalBlock, BlockUpdate, BestChainUpdate, Change, Update, SubscribeUpdate, SubscribeRequest,
  ResumeCheckpoint, BlockCommitment, commitment_into,
}

abbrev pub Key : Type 0
Key = ℕ × String

abbrev pub Partial : Type 0
Partial = List (Key × CanonicalBlock)

pub record ChainResumeState : Type 0 where
  pub finalized : Option Key
  pub partial : Partial

-- `ChainResumeState::default()`
abbrev pub empty_chain : ChainResumeState
empty_chain = record { finalized = none; partial = [] }

abbrev pub block_key : CanonicalBlock → Key
block_key b = (b.height, b.hash)

unfoldable pub put_block : CanonicalBlock → Partial → Partial
put_block b m = tree_insert (block_key b) b m

-- The loops over blocks that `insert` or `remove`.
unfoldable pub put_blocks : List CanonicalBlock → Partial → Partial
put_blocks [] m = m
put_blocks (b ∷ bs) m = put_blocks bs (put_block b m)

unfoldable pub remove_blocks : List CanonicalBlock → Partial → Partial
remove_blocks [] m = m
remove_blocks (b ∷ bs) m = remove_blocks bs (map_remove (block_key b) m)

unfoldable pub from_request : SubscribeRequest → ChainResumeState
from_request r = elim r.resume [
  | none ↦ empty_chain
  | some c ↦ record {
    finalized = some (c.finalized_height, c.finalized_block_hash);
    partial = put_blocks c.partial_blocks [];
  }
]

unfoldable pub insert_partial : CanonicalBlock → ChainResumeState → ChainResumeState
insert_partial b s =
    if is_none_or s.finalized (λ f. ltb f.0 b.height)
    then record s { partial = put_block b s.partial }
    else s

unfoldable pub insert_partials : List CanonicalBlock → ChainResumeState → ChainResumeState
insert_partials [] s = s
insert_partials (b ∷ bs) s = insert_partials bs (insert_partial b s)

unfoldable pub observe_block : ℕ → String → Bool → ChainResumeState → ChainResumeState
observe_block height hash finalized s =
    if finalized
    then record s {
      finalized = some (height, hash);
      partial = filter (λ e. ltb height e.0.0) s.partial;
    }
    else insert_partial (record { height = height; hash = hash; previous_block_hash = "" }) s

abbrev pub is_finalized : ℤ → Bool
is_finalized commitment = commitment == commitment_into BlockCommitment.finalized

unfoldable pub observe_change : BestChainUpdate → ChainResumeState → ChainResumeState
observe_change c s = elim c.change [
  | some (Change.grow g) ↦
      insert_partial
        (record { height = c.height; hash = c.hash; previous_block_hash = g.previous_block_hash }) s
  | some (Change.reset r) ↦
      insert_partials r.connected_blocks
        (record s { partial = remove_blocks r.disconnected_blocks s.partial })
  | none ↦ s
]

-- `ChainResumeState::observe`
unfoldable pub observe_update : Option Update → ChainResumeState → ChainResumeState
observe_update (some (Update.block b)) s = observe_block b.height b.hash b.finalized s
observe_update (some (Update.best_chain c)) s = observe_change c s
observe_update (some (Update.transaction t)) s =
    observe_block t.height t.block_hash (is_finalized t.commitment) s
observe_update (some (Update.utxo x)) s =
    observe_block x.height x.block_hash (is_finalized x.commitment) s
observe_update (some (Update.reconnect r)) s = record s {
  partial = remove_blocks r.discarded_blocks s.partial;
}
observe_update _ s = s

abbrev pub observe : SubscribeUpdate → ChainResumeState → ChainResumeState
observe u s = observe_update u.update s

unfoldable pub checkpoint : ChainResumeState → Option ResumeCheckpoint
checkpoint s = elim s.finalized [
  | none ↦ none
  | some f ↦ some (record {
    finalized_height = f.0;
    finalized_block_hash = f.1;
    partial_blocks = reverse (values s.partial);
  })
]

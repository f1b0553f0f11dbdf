-- ===== src/Geyser/Server/Mempool.antt =====
-- `MempoolState` of server.rs and the mempool part of `SharedState::publish_batch`. The map of
-- entries is a list in key order.
pub mod Entries
pub mod Filed
pub mod Snapshot
use zakura_grpc.Common.{
  ℕ, zero, suc, ◌+◌, Bool, true, false, not, ◌&&◌, ◌||◌, Option, none, some, String, List, [], ◌∷◌,
  ◌++◌, map, length, any, filter_map, is_empty, min, u64_max, saturating_add, keys, values, map_get,
  map_remove, tree_insert, string_eq, text_ord, ◌==◌, if◌then◌else◌, ltb, eqb,
}
use zakura_grpc.Proto.{
  EventType, BlockPayload, TransactionPayload, MempoolAction, MempoolSnapshotPhase, SubscribeUpdate,
  Update, MempoolUpdate, MempoolTransactionUpdate, default_update, event_type_into,
  mempool_action_into, mempool_action_try_from, phase_into,
}
use zakura_grpc.Geyser.Server.Projection.{PublishedUpdate, publish}

-- A transaction is known by its name alone, or with its details.
abbrev pub Entries : Type 0
Entries = List (String × Option PublishedUpdate)

pub record MempoolState : Type 0 where
  pub revision : ℕ
  pub entries : Entries
  pub summary_template : Option SubscribeUpdate

-- `MempoolState::default()`
abbrev pub empty_mempool : MempoolState
empty_mempool = record { revision = 0; entries = []; summary_template = none }

unfoldable pub is_mempool_update : SubscribeUpdate → Bool
is_mempool_update u = elim u.update [
  | some (Update.mempool m) ↦ true
  | some (Update.mempool_transaction t) ↦ true
  | _ ↦ false
]

-- `self.entries.entry(transaction_id.clone()).or_default()`
unfoldable pub or_default : String → Entries → Entries
or_default id entries = elim (map_get id entries) [
  | none ↦ tree_insert id none entries
  | some found ↦ entries
]

unfoldable pub add_all : List String → Entries → Entries
add_all [] entries = entries
add_all (id ∷ ids) entries = add_all ids (or_default id entries)

unfoldable pub remove_all : List String → Entries → Entries
remove_all [] entries = entries
remove_all (id ∷ ids) entries = remove_all ids (map_remove id entries)

-- The action of a change, where an unknown number is unspecified.
unfoldable pub action_of : MempoolUpdate → MempoolAction
action_of m = elim (mempool_action_try_from m.action) [
  | none ↦ MempoolAction.unspecified
  | some a ↦ a
]

unfoldable pub apply_action : MempoolAction → List String → Entries → Entries
apply_action MempoolAction.added ids entries = add_all ids entries
apply_action MempoolAction.invalidated ids entries = remove_all ids entries
apply_action MempoolAction.mined ids entries = remove_all ids entries
apply_action MempoolAction.unspecified ids entries = entries

-- The name under which the details of a transaction are kept.
unfoldable pub entry_id : MempoolTransactionUpdate → String
entry_id t = if t.unmined_transaction_id == "" then t.transaction_id else t.unmined_transaction_id

-- One round of the loop of `apply`, by the update's kind
unfoldable pub apply_by : Option Update → PublishedUpdate → MempoolState → MempoolState
apply_by (some (Update.mempool change)) u s = record s {
  summary_template = some u.message;
  entries = apply_action (action_of change) change.transaction_ids s.entries;
}
apply_by (some (Update.mempool_transaction t)) u s = record s {
  entries = tree_insert (entry_id t) (some u) s.entries;
}
apply_by _ u s = s

abbrev pub apply_one : PublishedUpdate → MempoolState → MempoolState
apply_one u = apply_by u.message.update u

unfoldable pub apply : List PublishedUpdate → MempoolState → MempoolState
apply [] s = s
apply (u ∷ us) s = apply us (apply_one u s)

-- `publish_batch` up to the replay buffer: the revision, its mark on the updates of the mempool,
-- and the updates as they are published.
unfoldable pub mark : ℕ → SubscribeUpdate → SubscribeUpdate
mark revision u = if is_mempool_update u then record u { mempool_revision = some revision } else u

module _ (encoded_len : SubscribeUpdate → ℕ) where
  unfoldable pub publish_mempool :
      List SubscribeUpdate → MempoolState → List PublishedUpdate × MempoolState
  publish_mempool updates s =
      let revision = saturating_add s.revision 1 in
      let published = map (λ u. publish encoded_len (mark revision u)) updates in
      if any is_mempool_update updates
      then (published, apply published (record s { revision = revision }))
      else (map (publish encoded_len) updates, s)

-- `chunks(size)`: `chunk`, of `n` elements, is still open.
unfoldable pub chunks_from : ℕ → ℕ → List String → List String → List (List String)
chunks_from size n chunk [] = if is_empty chunk then [] else chunk ∷ []
chunks_from size n chunk (x ∷ xs) = elim (eqb n size) [
  | true ↦ chunk ∷ chunks_from size 1 (x ∷ []) xs
  | false ↦ chunks_from size (suc n) (chunk ++ x ∷ []) xs
]

unfoldable pub chunks : ℕ → List String → List (List String)
chunks size xs = chunks_from size 0 [] xs

abbrev pub mempool_snapshot_ids_per_update : ℕ
mempool_snapshot_ids_per_update = 1_000

pub record MempoolSnapshot : Type 0 where
  pub revision : ℕ
  pub transaction_count : ℕ
  pub updates : List PublishedUpdate

abbrev pub template_of : MempoolState → SubscribeUpdate
template_of s = elim s.summary_template [ none ↦ default_update | some t ↦ t ]

module _ (encoded_len : SubscribeUpdate → ℕ) where
  -- The summary of one chunk of names.
  unfoldable pub summary : MempoolState → List String → PublishedUpdate
  summary s chunk = publish encoded_len (record (template_of s) {
    event_type = event_type_into EventType.mempool_changed;
    filters = [];
    mempool_revision = some s.revision;
    update = some (
        Update.mempool
          (record { action = mempool_action_into MempoolAction.added; transaction_ids = chunk }));
  })

  -- The details of a transaction, marked with the revision.
  unfoldable pub remark : ℕ → PublishedUpdate → PublishedUpdate
  remark revision u = publish encoded_len (record u.message { mempool_revision = some revision })

  unfoldable pub snapshot : MempoolState → MempoolSnapshot
  snapshot s = record {
    revision = s.revision;
    transaction_count = min (length s.entries) u64_max;
    updates =
        if is_empty s.entries
        then []
        else map (summary s) (chunks mempool_snapshot_ids_per_update (keys s.entries))
          ++ map (remark s.revision) (filter_map (λ found. found) (values s.entries));
  }

-- The updates around the snapshot.
unfoldable pub mempool_snapshot_marker : ℕ → ℕ → MempoolSnapshotPhase → SubscribeUpdate
mempool_snapshot_marker revision transaction_count phase = record default_update {
  event_type = event_type_into EventType.unspecified;
  mempool_revision = some revision;
  update = some (
      Update.mempool_snapshot (record {
        phase = phase_into phase;
        revision = revision;
        transaction_count = transaction_count;
      }));
}

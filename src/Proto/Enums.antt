-- ===== src/Proto/Enums.antt =====
-- The enumerations of geyser.proto, their numbers, and the `try_from` of an `i32`.
use zakura_grpc.Common.{ℕ, ℤ, pos, negsuc, Option, none, some, eqb, if◌then◌else◌, ◌≡◌, refl}

pub data EventType : Type 0 where
  unspecified block_accepted best_chain_changed block_finalized : EventType
  mempool_changed transaction utxo mempool_transaction : EventType

pub data BlockPayload : Type 0 where
  unspecified meta_only full : BlockPayload

pub data TransactionPayload : Type 0 where
  unspecified full meta_only raw_only transparent_only : TransactionPayload

pub data MempoolSnapshotPhase : Type 0 where
  unspecified begin end : MempoolSnapshotPhase

pub data BlockCommitment : Type 0 where
  unspecified accepted finalized : BlockCommitment

pub data MempoolAction : Type 0 where
  unspecified added invalidated mined : MempoolAction

abbrev pub event_type_number : EventType → ℕ
event_type_number EventType.unspecified = 0
event_type_number EventType.block_accepted = 1
event_type_number EventType.best_chain_changed = 2
event_type_number EventType.block_finalized = 3
event_type_number EventType.mempool_changed = 4
event_type_number EventType.transaction = 5
event_type_number EventType.utxo = 6
event_type_number EventType.mempool_transaction = 7

event_type_of : ℕ → Option EventType
event_type_of n =
    if eqb n 0
    then some EventType.unspecified
    else if eqb n 1
    then some EventType.block_accepted
    else if eqb n 2
    then some EventType.best_chain_changed
    else if eqb n 3
    then some EventType.block_finalized
    else if eqb n 4
    then some EventType.mempool_changed
    else if eqb n 5
    then some EventType.transaction
    else if eqb n 6
    then some EventType.utxo
    else if eqb n 7
    then some EventType.mempool_transaction
    else none

unfoldable pub event_type_try_from : ℤ → Option EventType
unfolding event_type_of
event_type_try_from (pos n) = event_type_of n
event_type_try_from (negsuc n) = none

abbrev pub event_type_into : EventType → ℤ
event_type_into t = pos (event_type_number t)

abbrev pub block_payload_number : BlockPayload → ℕ
block_payload_number BlockPayload.unspecified = 0
block_payload_number BlockPayload.meta_only = 1
block_payload_number BlockPayload.full = 2

unfoldable pub block_payload_try_from : ℤ → Option BlockPayload
block_payload_try_from (pos n) =
    if eqb n 0
    then some BlockPayload.unspecified
    else if eqb n 1
    then some BlockPayload.meta_only
    else if eqb n 2
    then some BlockPayload.full
    else none
block_payload_try_from (negsuc n) = none

abbrev pub block_payload_into : BlockPayload → ℤ
block_payload_into p = pos (block_payload_number p)

abbrev pub transaction_payload_number : TransactionPayload → ℕ
transaction_payload_number TransactionPayload.unspecified = 0
transaction_payload_number TransactionPayload.full = 1
transaction_payload_number TransactionPayload.meta_only = 2
transaction_payload_number TransactionPayload.raw_only = 3
transaction_payload_number TransactionPayload.transparent_only = 4

unfoldable pub transaction_payload_try_from : ℤ → Option TransactionPayload
transaction_payload_try_from (pos n) =
    if eqb n 0
    then some TransactionPayload.unspecified
    else if eqb n 1
    then some TransactionPayload.full
    else if eqb n 2
    then some TransactionPayload.meta_only
    else if eqb n 3
    then some TransactionPayload.raw_only
    else if eqb n 4
    then some TransactionPayload.transparent_only
    else none
transaction_payload_try_from (negsuc n) = none

abbrev pub transaction_payload_into : TransactionPayload → ℤ
transaction_payload_into p = pos (transaction_payload_number p)

abbrev pub phase_into : MempoolSnapshotPhase → ℤ
phase_into MempoolSnapshotPhase.unspecified = pos 0
phase_into MempoolSnapshotPhase.begin = pos 1
phase_into MempoolSnapshotPhase.end = pos 2

abbrev pub commitment_into : BlockCommitment → ℤ
commitment_into BlockCommitment.unspecified = pos 0
commitment_into BlockCommitment.accepted = pos 1
commitment_into BlockCommitment.finalized = pos 2

abbrev pub mempool_action_into : MempoolAction → ℤ
mempool_action_into MempoolAction.unspecified = pos 0
mempool_action_into MempoolAction.added = pos 1
mempool_action_into MempoolAction.invalidated = pos 2
mempool_action_into MempoolAction.mined = pos 3

unfoldable pub mempool_action_try_from : ℤ → Option MempoolAction
mempool_action_try_from (pos n) =
    if eqb n 0
    then some MempoolAction.unspecified
    else if eqb n 1
    then some MempoolAction.added
    else if eqb n 2
    then some MempoolAction.invalidated
    else if eqb n 3
    then some MempoolAction.mined
    else none
mempool_action_try_from (negsuc n) = none

-- A known event type survives the way through its `i32`.
pub try_from-into : (t : EventType) → event_type_try_from (event_type_into t) ≡ some t
unfolding event_type_try_from
try_from-into EventType.unspecified = refl
try_from-into _ = refl

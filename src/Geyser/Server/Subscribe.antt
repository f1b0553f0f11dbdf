-- ===== src/Geyser/Server/Subscribe.antt =====
-- `SharedState`, `subscribe`, `replay_height` and `reconnect_update` of server.rs. The broadcast
-- ring is Tokio's and is left out: `publish_batch` returns what it sends to it.
use zakura_grpc.Common.{
  ℕ, ◌*◌, not, Option, none, some, List, any, is_some_and, leb, eqb, string_eq, ◌==◌, Result, ok,
  err, ◌>>=◌, ◌>>◌, reject_if, if◌then◌else◌,
}
use zakura_grpc.Status.{Status, Message, invalid_argument}
use zakura_grpc.Proto.{
  EventType, SubscribeUpdate, Update, SubscribeRequest, ResumeCheckpoint, default_update,
  event_type_into,
}
use zakura_grpc.Geyser.Config.{Config}
use zakura_grpc.Geyser.Server.Projection.{PublishedUpdate}
use zakura_grpc.Geyser.Server.Replay.{
  ReplayBuffer, ReplaySnapshot, empty_buffer, push_batch_at, snapshot, verify_checkpoint,
}
use zakura_grpc.Geyser.Server.Mempool.{
  MempoolState, MempoolSnapshot, empty_mempool, publish_mempool, snapshot as mempool_snapshot,
}

pub record SharedState : Type 0 where
  pub replay : ReplayBuffer
  pub mempool : MempoolState

-- `SharedState::new`; `unit` is the length of a second.
unfoldable pub new_state : ℕ → Config → SharedState
new_state unit c = record {
  replay = empty_buffer (record {
    height_capacity = c.replay_stored_blocks;
    event_capacity = c.replay_max_events;
    byte_capacity = c.replay_max_bytes;
    max_age = elim c.replay_max_age_seconds [ none ↦ none | some s ↦ some (s * unit) ];
  });
  mempool = empty_mempool;
}

unfoldable pub replay_height : SubscribeRequest → Result Status (Option ℕ)
replay_height r = elim r.resume [
  | none ↦ ok r.from_height
  | some c ↦
      reject_if (c.finalized_block_hash == "") (invalid_argument Message.checkpoint_hash_empty)
      >> reject_if (is_some_and r.from_height (λ h. not (eqb h c.finalized_height)))
          (invalid_argument Message.from_height_differs)
      >> reject_if (any (λ b. leb b.height c.finalized_height) c.partial_blocks)
          (invalid_argument Message.partial_blocks_not_above)
      >> ok (some c.finalized_height)
]

unfoldable pub reconnect_update : ResumeCheckpoint → SubscribeUpdate
reconnect_update c = record default_update {
  event_type = event_type_into EventType.unspecified;
  update = some (
      Update.reconnect (record {
        finalized_height = c.finalized_height;
        finalized_block_hash = c.finalized_block_hash;
        discarded_blocks = c.partial_blocks;
      }));
}

pub record InitialSubscription : Type 0 where
  pub replay : ReplaySnapshot
  pub mempool : Option MempoolSnapshot
  pub reconnect : Option SubscribeUpdate

unfoldable pub verify_resume : Option ResumeCheckpoint → ReplayBuffer → Result Status (Unit {0})
verify_resume none r = ok tt
verify_resume (some c) r = verify_checkpoint c r

-- The state that `subscribe` leaves: old buckets go where it comes to the snapshot.
unfoldable pub state_after : SubscribeRequest → ℕ → SharedState → SharedState
state_after r now s = elim (replay_height r) [
  | err e ↦ s
  | ok from_height ↦ elim (verify_resume r.resume s.replay) [
    | err e ↦ s
    | ok _ ↦ record s { replay = (snapshot from_height now s.replay).1 }
  ]
]

module _ (encoded_len : SubscribeUpdate → ℕ) where
  -- `publish_batch`: what goes to the broadcast ring, and the state
  unfoldable pub publish_batch :
      List SubscribeUpdate → ℕ → SharedState → List PublishedUpdate × SharedState
  publish_batch updates now s =
      let batch = publish_mempool encoded_len updates s.mempool in
      (batch.0, record { replay = push_batch_at batch.0 now s.replay; mempool = batch.1 })

  -- `subscribe`: the answer
  unfoldable pub subscribe : SubscribeRequest → ℕ → SharedState → Result Status InitialSubscription
  subscribe r now s = do
    from_height ← replay_height r
    verify_resume r.resume s.replay
    replay ← (snapshot from_height now s.replay).0
    ok (record {
      replay = replay;
      mempool =
          if r.include_mempool_snapshot
          then some (mempool_snapshot encoded_len s.mempool)
          else none;
      reconnect = elim r.resume [ none ↦ none | some c ↦ some (reconnect_update c) ];
    })

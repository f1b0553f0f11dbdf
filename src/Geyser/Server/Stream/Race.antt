-- ===== src/Geyser/Server/Stream/Race.antt =====
-- A subscription that starts while `publish_batch` of server.rs runs: the batch enters the replay
-- buffer first and the ring afterwards, one update after the other, and `subscribe` has a receiver
-- before it takes the snapshot. The ring is one that does not overflow.
use zakura_grpc.Common.{ℕ, ◌≤◌, ◌≡◌, true, Option, List, [], ◌∷◌, ◌++◌, all, leb, ok}
use zakura_grpc.Proto.{SubscribeUpdate}
use zakura_grpc.Geyser.Server.Projection.{PublishedUpdate}
use zakura_grpc.Geyser.Server.Replay.{ReplaySnapshot, snapshot, evict}
use zakura_grpc.Geyser.Server.Subscribe.{SharedState, publish_batch}
use zakura_grpc.Geyser.Server.Stream.Live.{Rising}
use zakura_grpc.Geyser.Server.Stream.Sequenced.{Upto, Stored, last_of}

-- The call of `subscribe` before it has a receiver, with what the receiver holds, and after the
-- snapshot; then also with the updates of the batches that were published since.
pub data Subscriber : Type 0 where
  absent : Subscriber
  listening : List PublishedUpdate → Subscriber
  joined : ReplaySnapshot → List PublishedUpdate → List PublishedUpdate → Subscriber

-- What an update that goes to the ring does.
abbrev pub received : PublishedUpdate → Subscriber → Subscriber
received u Subscriber.absent = Subscriber.absent
received u (Subscriber.listening queue) = Subscriber.listening (queue ++ u ∷ [])
received u (Subscriber.joined replay queue since) = Subscriber.joined replay (queue ++ u ∷ []) since

-- What a batch that enters the buffer does.
abbrev pub noted : List PublishedUpdate → Subscriber → Subscriber
noted batch (Subscriber.joined replay queue since) = Subscriber.joined replay queue (since ++ batch)
noted batch s = s

-- The shared state, the updates of the current batch that are not in the ring yet, the last number
-- that was published, and the subscriber.
pub record Race : Type 0 where
  pub state : SharedState
  pub pending : List PublishedUpdate
  pub last : ℕ
  pub subscriber : Subscriber

module _ (encoded_len : SubscribeUpdate → ℕ) where
  -- A batch with rising numbers enters the buffer; its next update goes to the ring; the subscriber
  -- has a receiver; it takes its snapshot; other calls evict.
  pub data Step : Race → Race → Type 0 where
    pushed :
        (m : Race) (updates : List SubscribeUpdate) (now : ℕ)
        → m.pending ≡ []
        → Rising m.last (publish_batch encoded_len updates now m.state).0
        → Step m (record {
          state = (publish_batch encoded_len updates now m.state).1;
          pending = (publish_batch encoded_len updates now m.state).0;
          last = last_of m.last (publish_batch encoded_len updates now m.state).0;
          subscriber = noted (publish_batch encoded_len updates now m.state).0 m.subscriber;
        })
    sent :
        (m : Race) (u : PublishedUpdate) (rest : List PublishedUpdate)
        → m.pending ≡ u ∷ rest
        → Step m (record m { pending = rest; subscriber = received u m.subscriber })
    listens :
        (m : Race)
        → m.subscriber ≡ Subscriber.absent
        → Step m (record m { subscriber = Subscriber.listening [] })
    replayed :
        (m : Race) (queue : List PublishedUpdate) (from_height : Option ℕ) (now : ℕ)
        (replay : ReplaySnapshot)
        → m.subscriber ≡ Subscriber.listening queue
        → (snapshot from_height now m.state.replay).0 ≡ ok replay
        → Step m (record m {
          state = record m.state { replay = (snapshot from_height now m.state.replay).1 };
          subscriber = Subscriber.joined replay queue [];
        })
    evicted :
        (m : Race) (now : ℕ)
        → Step m (record m { state = record m.state { replay = evict now m.state.replay } })

  pub data Reaches : Race → Race → Type 0 where
    here : (m : Race) → Reaches m m
    next : (a b c : Race) → Reaches a b → Step b c → Reaches a c

-- The updates that are sent or about to be sent rise, up to the last number.
pub record Flows (last : ℕ) (us : List PublishedUpdate) : Type 0 where
  pub base : ℕ
  pub bounded : base ≤ last
  pub rising : Rising base us
  pub upto : Upto last us

-- What the receiver of a joined subscriber will have had in the end: updates at or below the
-- watermark of the replay, some above it, and all that was published since the snapshot.
pub record Joined (last : ℕ) (replay : ReplaySnapshot) (us since : List PublishedUpdate)
    : Type 0 where
  pub raced : List PublishedUpdate
  pub later : List PublishedUpdate
  pub split : us ≡ raced ++ (later ++ since)
  pub low : all (λ u. leb u.message.sequence replay.watermark) raced ≡ true
  pub rising : Rising replay.watermark (later ++ since)
  pub upto : Upto last (later ++ since)
  pub below : replay.watermark ≤ last

abbrev pub Ordered : ℕ → List PublishedUpdate → Subscriber → Type 0
Ordered last pending Subscriber.absent = Flows last pending
Ordered last pending (Subscriber.listening queue) = Flows last (queue ++ pending)
Ordered last pending (Subscriber.joined replay queue since) =
    Joined last replay (queue ++ pending) since

pub record Races (m : Race) : Type 0 where
  pub ordered : Ordered m.last m.pending m.subscriber
  pub stored : Stored m.last m.state.replay.buckets

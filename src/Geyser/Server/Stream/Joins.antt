-- ===== src/Geyser/Server/Stream/Joins.antt =====
-- What a subscriber of server.rs is sent that joins while batches are published.
use zakura_grpc.Common.{
  ℕ, ◌≤◌, ◌≡◌, sym, ap, subst, ◌∙◌, true, Option, List, [], ◌∷◌, ◌++◌, append_assoc, append-nil,
  all, All-append, All-back, leb, arith,
}
use zakura_grpc.Proto.{SubscribeUpdate}
use zakura_grpc.Chain.{Chain}
use zakura_grpc.Geyser.Config.{FilterLimits}
use zakura_grpc.Geyser.Filter.Request.{EventFilter}
use zakura_grpc.Geyser.Server.Projection.{PublishedUpdate}
use zakura_grpc.Geyser.Server.Replay.{ReplaySnapshot}
use zakura_grpc.Geyser.Server.Subscribe.{SharedState, publish_batch}
use zakura_grpc.Geyser.Server.Stream.{new_stream, send_all}
use zakura_grpc.Geyser.Server.Stream.Live.{Rising, unseen, run_live, live_after_replay}
use zakura_grpc.Geyser.Server.Stream.Sequenced.{
  Upto, Stored, Upto-mono, Stored-mono, last_of, last_of-Rising, Upto-Rising, Rising-append,
  split-Rising, evict-Stored, push-Stored, watermark-le, snapshot-watermark, snapshot-kept,
}
use zakura_grpc.Geyser.Server.Stream.Race.{
  Subscriber, Race, Step, Reaches, received, noted, Flows, Joined, Ordered, Races,
}

-- A batch with rising numbers after the others.
extended :
    (w last : ℕ) (us batch : List PublishedUpdate)
    → w ≤ last
    → Rising w us
    → Upto last us
    → Rising last batch
    → Rising w (us ++ batch) × Upto (last_of last batch) (us ++ batch)
extended w last us batch h r k s = (
  Rising-append w last us batch h r k s,
  All-append _ us batch (Upto-mono last _ us (last_of-Rising last batch s) k)
      (Upto-Rising last batch s),
)

noted-Ordered :
    (last : ℕ) (batch : List PublishedUpdate) (s : Subscriber)
    → Rising last batch
    → Ordered last [] s
    → Ordered (last_of last batch) batch (noted batch s)
noted-Ordered last batch Subscriber.absent r f = record {
  base = last;
  bounded = last_of-Rising last batch r;
  rising = r;
  upto = Upto-Rising last batch r;
}
noted-Ordered last batch (Subscriber.listening queue) r f =
    let old = subst (Flows last) (append-nil queue) f in
    let (rising, upto) = extended old.base last queue batch old.bounded old.rising old.upto r in
    let later = last_of-Rising last batch r in
    record { base = old.base; bounded = omega (arith, old.bounded); rising = rising; upto = upto }
noted-Ordered last batch (Subscriber.joined replay queue since) r f =
    let (rising, upto) =
      extended replay.watermark last (f.later ++ since) batch f.below f.rising f.upto r in
    let grown = append_assoc f.later since batch in
    let later = last_of-Rising last batch r in
    record {
      raced = f.raced;
      later = f.later;
      split =
          ap (λ us. us ++ batch) (sym (append-nil queue) ∙ f.split)
          ∙ append_assoc f.raced (f.later ++ since) batch
          ∙ ap (λ us. f.raced ++ us) grown;
      low = f.low;
      rising = subst (Rising replay.watermark) grown rising;
      upto = subst (Upto (last_of last batch)) grown upto;
      below = omega (arith, f.below);
    }

received-Ordered :
    (last : ℕ) (u : PublishedUpdate) (rest : List PublishedUpdate) (s : Subscriber)
    → Ordered last (u ∷ rest) s
    → Ordered last rest (received u s)
received-Ordered last u rest Subscriber.absent f = record {
  base = u.message.sequence;
  bounded = f.upto.0;
  rising = f.rising.1;
  upto = f.upto.1;
}
received-Ordered last u rest (Subscriber.listening queue) f =
    subst (Flows last) (sym (append_assoc queue (u ∷ []) rest)) f
received-Ordered last u rest (Subscriber.joined replay queue since) f =
    subst (λ us. Joined last replay us since) (sym (append_assoc queue (u ∷ []) rest)) f

-- The split of the updates of the receiver at the watermark.
joins :
    (last : ℕ) (replay : ReplaySnapshot) (us : List PublishedUpdate)
    → replay.watermark ≤ last
    → Flows last us
    → Joined last replay us []
joins last replay us h f =
    let (raced, later, same, low, high) = split-Rising f.base replay.watermark us f.rising in
    let whole = sym (append-nil later) in
    record {
      raced = raced;
      later = later;
      split = same ∙ ap (λ us. raced ++ us) whole;
      low = low;
      rising = subst (Rising replay.watermark) whole high;
      upto = subst (Upto last) whole (All-back _ raced later (subst (Upto last) same f.upto));
      below = h;
    }

module _ (encoded_len : SubscribeUpdate → ℕ) where
  pushed-Stored :
      (n : ℕ) (updates : List SubscribeUpdate) (now : ℕ) (s : SharedState)
      → Stored n s.replay.buckets
      → Rising n (publish_batch encoded_len updates now s).0
      → let out = publish_batch encoded_len updates now s in
        Stored (last_of n out.0) out.1.replay.buckets
  unfolding publish_batch
  pushed-Stored n updates now s h r =
      let batch = (publish_batch encoded_len updates now s).0 in
      push-Stored (last_of n batch) now batch s.replay
        (Stored-mono n (last_of n batch) s.replay.buckets (last_of-Rising n batch r) h)
        (Upto-Rising n batch r)

  Step-Races : (a b : Race) → Step encoded_len a b → Races a → Races b
  Step-Races a b (Step.pushed m updates now none_left r) v =
      let batch = (publish_batch encoded_len updates now m.state).0 in
      record {
        ordered =
            noted-Ordered m.last batch m.subscriber r
              (subst (λ p. Ordered m.last p m.subscriber) none_left v.ordered);
        stored = pushed-Stored m.last updates now m.state v.stored r;
      }
  Step-Races a b (Step.sent m u rest e) v = record {
    ordered =
        received-Ordered m.last u rest m.subscriber
          (subst (λ p. Ordered m.last p m.subscriber) e v.ordered);
    stored = v.stored;
  }
  Step-Races a b (Step.listens m e) v = record {
    ordered = subst (Ordered m.last m.pending) e v.ordered;
    stored = v.stored;
  }
  Step-Races a b (Step.replayed m queue from_height now replay e h) v =
      let kept = evict-Stored m.last now m.state.replay v.stored in
      let below : replay.watermark ≤ m.last =
        subst (λ w. w ≤ m.last) (sym (snapshot-watermark from_height now m.state.replay replay h))
          (watermark-le m.last _ kept) in
      record {
        ordered =
            joins m.last replay (queue ++ m.pending) below
              (subst (Ordered m.last m.pending) e v.ordered);
        stored =
            subst (λ r. Stored m.last r.buckets)
              (sym (snapshot-kept from_height now m.state.replay)) kept;
      }
  Step-Races a b (Step.evicted m now) v = record {
    ordered = v.ordered;
    stored = evict-Stored m.last now m.state.replay v.stored;
  }

  reached-Races : (a b : Race) → Reaches encoded_len a b → Races a → Races b
  reached-Races a b (Reaches.here m) v = v
  reached-Races a b (Reaches.next x y z path last) v =
      Step-Races y z last (reached-Races x y path v)

  -- However the publication of batches with rising numbers interleaves with the start of a
  -- subscription, from a state whose buffer and batch have numbers up to the last one: of what its
  -- receiver has had and of what the current batch still sends, the loop drops updates at or below
  -- the watermark of the replay, and sends through the filter, in order, all that was published
  -- since the snapshot and what the receiver held before that above the watermark, less the updates
  -- whose revision is at most that of a mempool snapshot.
  pub joins_without_gap :
      (chain : Chain) (limits : FilterLimits) (a b : Race) (replay : ReplaySnapshot)
      (queue since : List PublishedUpdate) (filter : EventFilter) (mempool : Option ℕ)
      → Reaches encoded_len a b
      → Races a
      → b.subscriber ≡ Subscriber.joined replay queue since
      → (raced later : List PublishedUpdate) × (queue ++ b.pending ≡ raced ++ (later ++ since))
        × (all (λ u. leb u.message.sequence replay.watermark) raced ≡ true)
        × Rising replay.watermark (later ++ since)
        × (run_live chain encoded_len limits
              (queue ++ b.pending)
              (new_stream filter (replay.watermark, mempool))
            ≡ send_all encoded_len filter (unseen mempool (later ++ since)))
  unfolding new_stream
  joins_without_gap chain limits a b replay queue since filter mempool path v e =
      let j : Joined b.last replay (queue ++ b.pending) since =
        subst (Ordered b.last b.pending) e (reached-Races a b path v).ordered in
      (
        j.raced,
        j.later,
        j.split,
        j.low,
        j.rising,
        ap
              (λ us.
                run_live chain encoded_len limits us
                  (new_stream filter (replay.watermark, mempool)))
              j.split
            ∙ live_after_replay chain encoded_len limits j.raced (j.later ++ since)
                (new_stream filter (replay.watermark, mempool)) j.low j.rising,
      )

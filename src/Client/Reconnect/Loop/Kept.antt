-- ===== src/Client/Reconnect/Loop/Kept.antt =====
-- What `run_subscription` of reconnect.rs keeps true of its session, and the request with which it
-- reconnects.
use zakura_grpc.Common.{
  ℕ, ◌≡◌, refl, sym, ◌∙◌, subst, Bool, true, false, Option, none, some, String, List, [], ◌∷◌,
  string_eq, ◌==◌, ltb, is_none_or, Bool-cases, Option-cases, inl, inr, if◌then◌else◌,
}
use zakura_grpc.Proto.{
  CanonicalBlock, BestChainUpdate, Change, Update, SubscribeUpdate, SubscribeRequest,
}
use zakura_grpc.Client.Dedup.{DedupState}
use zakura_grpc.Client.Dedup.Observe.{IsValid, observe-IsValid}
use zakura_grpc.Client.Resume.{
  Key, ChainResumeState, observe_update, observe_block, observe_change, insert_partial,
  insert_partials, is_finalized,
}
use zakura_grpc.Client.Resume.Partial.{IsChain, observe-IsChain}
use zakura_grpc.Client.Reconnect.{Session}
use zakura_grpc.Client.Reconnect.Handling.{Handled, Heartbeat, heartbeat, pass, note, handle_update}
use zakura_grpc.Client.Reconnect.Loop.{Incoming, Event, on_command, receive}

-- The blocks of the server have hashes.
abbrev pub HasHash : Option Update → Type 0
HasHash (some (Update.block b)) = (b.hash == "") ≡ false
HasHash (some (Update.transaction t)) = (t.block_hash == "") ≡ false
HasHash (some (Update.utxo x)) = (x.block_hash == "") ≡ false
HasHash _ = Unit

abbrev pub KnownHash : Option Key → Type 0
KnownHash none = Unit
KnownHash (some f) = (f.1 == "") ≡ false

abbrev pub DedupOf : Option DedupState → Type 0
DedupOf none = Unit
DedupOf (some d) = IsValid d

-- The chain and the deduplication are in order, and the finalized block has a hash.
pub record IsKept (s : Session) : Type 0 where
  pub chain : IsChain s.chain
  pub hash : KnownHash s.chain.finalized
  pub dedup : DedupOf s.dedup

insert_partial-finalized :
    (b : CanonicalBlock) (s : ChainResumeState) → (insert_partial b s).finalized ≡ s.finalized
unfolding insert_partial
insert_partial-finalized b s = elim (Bool-cases (is_none_or s.finalized (λ f. ltb f.0 b.height))) [
  | inl e ↦ rw (e, insert_partial) refl
  | inr e ↦ rw (e, insert_partial) refl
]

insert_partials-finalized :
    (bs : List CanonicalBlock) (s : ChainResumeState)
    → (insert_partials bs s).finalized ≡ s.finalized
unfolding insert_partials
insert_partials-finalized [] s = refl
insert_partials-finalized (b ∷ bs) s =
    insert_partials-finalized bs (insert_partial b s) ∙ insert_partial-finalized b s

observe_block-KnownHash :
    (h : ℕ) (hash : String) (finalized : Bool) (s : ChainResumeState)
    → (hash == "") ≡ false
    → KnownHash s.finalized
    → KnownHash (observe_block h hash finalized s).finalized
unfolding observe_block
observe_block-KnownHash h hash true s k v = k
observe_block-KnownHash h hash false s k v = subst KnownHash (sym (insert_partial-finalized _ s)) v

observe_change-KnownHash :
    (change : Option Change) (c : BestChainUpdate) (s : ChainResumeState)
    → c.change ≡ change
    → KnownHash s.finalized
    → KnownHash (observe_change c s).finalized
unfolding observe_change
observe_change-KnownHash none c s e v = rw (e, observe_change) v
observe_change-KnownHash (some (Change.grow g)) c s e v =
    rw (e, observe_change) (subst KnownHash (sym (insert_partial-finalized _ s)) v)
observe_change-KnownHash (some (Change.reset r)) c s e v =
    rw (e, observe_change)
      (subst KnownHash (sym (insert_partials-finalized r.connected_blocks _)) v)

observe-KnownHash :
    (x : Option Update) (s : ChainResumeState)
    → HasHash x
    → KnownHash s.finalized
    → KnownHash (observe_update x s).finalized
unfolding observe_update
observe-KnownHash (some (Update.block b)) s h v =
    observe_block-KnownHash b.height b.hash b.finalized s h v
observe-KnownHash (some (Update.best_chain c)) s h v = observe_change-KnownHash c.change c s refl v
observe-KnownHash (some (Update.transaction t)) s h v =
    observe_block-KnownHash t.height t.block_hash (is_finalized t.commitment) s h v
observe-KnownHash (some (Update.utxo x)) s h v =
    observe_block-KnownHash x.height x.block_hash (is_finalized x.commitment) s h v
observe-KnownHash (some (Update.reconnect r)) s h v = v
observe-KnownHash _ s h v = v

pass-DedupOf : (d : Option DedupState) (u : SubscribeUpdate) → DedupOf d → DedupOf (pass d u).0
unfolding pass
pass-DedupOf none u v = tt
pass-DedupOf (some d) u v = observe-IsValid d u v

note-IsKept : (u : SubscribeUpdate) (s : Session) → HasHash u.update → IsKept s → IsKept (note u s)
unfolding note
note-IsKept u s h v = record {
  chain = observe-IsChain u s.chain v.chain;
  hash = observe-KnownHash u.update s.chain h v.hash;
  dedup = pass-DedupOf s.dedup u v.dedup;
}

handle_update-IsKept :
    (request_open output_open : Bool) (u : SubscribeUpdate) (s : Session)
    → HasHash u.update
    → IsKept s
    → IsKept (handle_update request_open output_open u s).session
unfolding handle_update
handle_update-IsKept q o u s h v = by_heartbeat (heartbeat u.update) q o refl
  where
    by_heartbeat :
        (x : Option Heartbeat) (request_open output_open : Bool)
        → heartbeat u.update ≡ x
        → IsKept (handle_update request_open output_open u s).session
    by_heartbeat none q true e = elim (Bool-cases (pass s.dedup u).1) [
      | inl new ↦ rw (e, handle_update) (rw new (note-IsKept u s h v))
      | inr old ↦ rw (e, handle_update) (rw old (note-IsKept u s h v))
    ]
    by_heartbeat none q false e = elim (Bool-cases (pass s.dedup u).1) [
      | inl new ↦ rw (e, handle_update) (rw new (note-IsKept u s h v))
      | inr old ↦ rw (e, handle_update) (rw old (note-IsKept u s h v))
    ]
    by_heartbeat (some (Heartbeat.ping id)) true o e = rw (e, handle_update) v
    by_heartbeat (some (Heartbeat.ping id)) false o e = rw (e, handle_update) v
    by_heartbeat (some Heartbeat.own_pong) q o e = rw (e, handle_update) v

on_command-IsKept :
    (request_open : Bool) (r : SubscribeRequest) (s : Session)
    → IsKept s
    → IsKept (on_command request_open r s).session
unfolding on_command
on_command-IsKept true r s v = elim (Option-cases r.ping) [
  | inl e ↦ rw (e, on_command) (record { chain = v.chain; hash = v.hash; dedup = v.dedup })
  | inr (ping, e) ↦ rw (e, on_command) v
]
on_command-IsKept false r s v = elim (Option-cases r.ping) [
  | inl e ↦ rw (e, on_command) (record { chain = v.chain; hash = v.hash; dedup = v.dedup })
  | inr (ping, e) ↦ rw (e, on_command) v
]

-- An update that comes has hashes.
abbrev pub IsHashed : Incoming → Type 0
IsHashed (Incoming.update u) = HasHash u.update
IsHashed _ = Unit

abbrev pub Hashed : Event → Type 0
Hashed e = IsHashed e.incoming

pub both {ℓ} :
    {A : Type ℓ} {x y : A} (P : A → Type 0) (b : Bool) → P x → P y → P (if b then x else y)
both P true p q = p
both P false p q = q

pub receive-IsKept : (e : Event) (s : Session) → Hashed e → IsKept s → IsKept (receive e s).session
unfolding receive
receive-IsKept e s h v = by_incoming e.incoming refl
  where
    by_incoming : (x : Incoming) → e.incoming ≡ x → IsKept (receive e s).session
    by_incoming (Incoming.command r) k =
        rw (k, receive)
          (both (λ (x : Handled). IsKept x.session) s.commands_open
            (on_command-IsKept e.request_open r s v) v)
    by_incoming Incoming.commands_closed k =
        rw (k, receive) (record { chain = v.chain; hash = v.hash; dedup = v.dedup })
    by_incoming (Incoming.update u) k =
        rw (k, receive)
          (handle_update-IsKept e.request_open e.output_open u s (subst IsHashed k h) v)
    by_incoming Incoming.ended k = rw (k, receive) v
    by_incoming (Incoming.failed status) k = rw (k, receive) v

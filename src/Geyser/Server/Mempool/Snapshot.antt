-- ===== src/Geyser/Server/Mempool/Snapshot.antt =====
-- `MempoolState::snapshot` of server.rs, as a client reads it.
use zakura_grpc.Common.{
  ℕ, suc, ◌≡◌, refl, ap, ◌∙◌, Bool, true, ◌||◌, Option, none, some, String, List, [], ◌∷◌, ◌++◌,
  map, keys, values, map_get, string_eq, text_ord, ◌==◌, if◌then◌else◌, contains, contains-append,
  Ascending, Above, All, arith, Bool-cases, inl, inr, any, filter_map, is_some, is_empty, eqb,
}
use zakura_grpc.Proto.{Update, SubscribeUpdate, MempoolTransactionUpdate, TransactionPayload}
use zakura_grpc.Geyser.Server.Projection.{
  PublishedUpdate, publish, project_update, apply_payload_projection, project_mempool_transaction,
}
use zakura_grpc.Geyser.Server.Mempool.{
  Entries, MempoolState, apply, empty_mempool, chunks, chunks_from, summary, remark, snapshot,
  mempool_snapshot_ids_per_update,
}
use zakura_grpc.Geyser.Server.Mempool.Entries.{
  View, known, view_change, name_of, view_by, view_one, view_all, apply_refines_view,
}
use zakura_grpc.Geyser.Server.Mempool.Filed.{IsValid, Filed, filed_under, is_filed}

view_all-append :
    (xs ys : List PublishedUpdate) (v : View) → view_all (xs ++ ys) v ≡ view_all ys (view_all xs v)
unfolding view_all
view_all-append [] ys v = refl
view_all-append (x ∷ xs) ys v = view_all-append xs ys (view_one x v)

any_chunk :
    (size n : ℕ) (chunk xs : List String) (q : String)
    → any (λ c. contains c q) (chunks_from size n chunk xs) ≡ (contains chunk q || contains xs q)
unfolding chunks_from any contains
any_chunk size n [] [] q = refl
any_chunk size n (x ∷ chunk) [] q = ground arith
any_chunk size n chunk (x ∷ xs) q = elim (Bool-cases (eqb n size)) [
  | inl e ↦ rw (e, chunks_from) (ground (arith, any_chunk size 1 (x ∷ []) xs q))
  | inr e ↦
      rw (e, chunks_from)
        (ground
          (arith, any_chunk size (suc n) (chunk ++ x ∷ []) xs q, contains-append chunk (x ∷ []) q))
]

module _ (encoded_len : SubscribeUpdate → ℕ) where
  view_one-summary :
      (s : MempoolState) (chunk : List String) (v : View) (q : String)
      → view_one (summary encoded_len s chunk) v q ≡ (if contains chunk q then known (v q) else v q)
  unfolding view_by summary publish apply_payload_projection project_update view_change
  view_one-summary s chunk v q = refl

  view_all-summaries :
      (s : MempoolState) (cs : List (List String)) (v : View) (q : String)
      → view_all (map (summary encoded_len s) cs) v q
        ≡ (if any (λ c. contains c q) cs then known (v q) else v q)
  unfolding view_all any
  view_all-summaries s [] v q = refl
  view_all-summaries s (c ∷ cs) v q = ground (
    arith,
    view_all-summaries s cs (view_one (summary encoded_len s c) v) q,
    view_one-summary s c v q,
  )

  remark-update :
      (r : ℕ) (u : PublishedUpdate) (t : MempoolTransactionUpdate)
      → u.message.update ≡ some (Update.mempool_transaction t)
      → (remark encoded_len r u).message.update
        ≡ some (Update.mempool_transaction (project_mempool_transaction TransactionPayload.full t))
  unfolding remark publish apply_payload_projection project_update
  remark-update r u t e = rw e refl

  -- The name of a transaction, as the view reads it.
  abbrev entry_name : MempoolTransactionUpdate → String
  entry_name t = name_of t.unmined_transaction_id t.transaction_id

  entry_name-project :
      (t : MempoolTransactionUpdate)
      → entry_name (project_mempool_transaction TransactionPayload.full t) ≡ entry_name t
  unfolding project_mempool_transaction
  entry_name-project t = refl

  view_one-remark :
      (update : Option Update) (r : ℕ) (u : PublishedUpdate) (v : View) (k q : String)
      → u.message.update ≡ update
      → filed_under k update ≡ true
      → view_one (remark encoded_len r u) v q
        ≡ (if k == q then some (some (remark encoded_len r u)) else v q)
  unfolding view_by
  view_one-remark (some (Update.mempool_transaction t)) r u v k q e f =
      ap (λ x. view_by x (remark encoded_len r u) v q) (remark-update r u t e)
      ∙ ap (λ x. if x == q then some (some (remark encoded_len r u)) else v q)
          (entry_name-project t ∙ (string_eq.beq_iff (entry_name t) k).0 f)
  view_one-remark _ r u v k q e f = cc

  -- An entry as the snapshot of this revision tells it: details are published anew, with the
  -- revision on their message.
  pub remarked : ℕ → Option (Option PublishedUpdate) → Option (Option PublishedUpdate)
  remarked r (some (some u)) =
      some (some (publish encoded_len (record u.message { mempool_revision = some r })))
  remarked r other = other

  details_over :
      ℕ
      → Option (Option PublishedUpdate)
      → Option (Option PublishedUpdate)
      → Option (Option PublishedUpdate)
  details_over r (some (some u)) o = some (some (remark encoded_len r u))
  details_over r other o = o

  get-Above : (k q : String) (m : Entries) → All (Above k) m → (k == q) ≡ true → map_get q m ≡ none
  unfolding map_get
  get-Above k q [] a e = refl
  get-Above k q ((j, w) ∷ m) a e = ground (
    arith,
    get-Above k q m a.1 e,
    string_eq.beq_iff j q,
    string_eq.beq_iff k q,
    text_ord.lt_irrefl k,
    a.0,
  )

  view_all-details :
      (m : Entries) (r : ℕ) (v : View) (q : String)
      → Ascending m
      → All Filed m
      → view_all (map (remark encoded_len r) (filter_map (λ found. found) (values m))) v q
        ≡ details_over r (map_get q m) (v q)
  unfolding view_all filter_map map_get details_over is_filed
  view_all-details [] r v q a f = refl
  view_all-details ((k, none) ∷ m) r v q a f = elim (Bool-cases (k == q)) [
    | inl e ↦ rw e (
        view_all-details m r v q a.1 f.1 ∙ ap (λ x. details_over r x (v q)) (get-Above k q m a.0 e))
    | inr e ↦ rw e (view_all-details m r v q a.1 f.1)
  ]
  view_all-details ((k, some u) ∷ m) r v q a f =
      let w : View = view_one (remark encoded_len r u) v in
      let here : w q ≡ (if k == q then some (some (remark encoded_len r u)) else v q) =
        view_one-remark u.message.update r u v k q refl f.0 in
      elim (Bool-cases (k == q)) [
        | inl e ↦ rw e (
            view_all-details m r w q a.1 f.1
            ∙ ap (λ x. details_over r x (w q)) (get-Above k q m a.0 e)
            ∙ here
            ∙ ap (λ b. if b then some (some (remark encoded_len r u)) else v q) e)
        | inr e ↦ rw e (
            view_all-details m r w q a.1 f.1
            ∙ ap (details_over r (map_get q m))
                (here ∙ ap (λ b. if b then some (some (remark encoded_len r u)) else v q) e))
      ]

  contains-keys : (m : Entries) (q : String) → contains (keys m) q ≡ is_some (map_get q m)
  unfolding contains map_get
  contains-keys [] q = refl
  contains-keys ((j, w) ∷ m) q =
      ground (arith, contains-keys m q, string_eq.beq_iff j q, string_eq.beq_iff q j)

  finish :
      (r : ℕ) (b : Bool) (o : Option (Option PublishedUpdate))
      → b ≡ is_some o
      → details_over r o (if b then known none else none) ≡ remarked r o
  unfolding details_over remarked remark
  finish r b none e = rw e refl
  finish r b (some none) e = rw e refl
  finish r b (some (some u)) e = refl

  summaries : MempoolState → Entries → List PublishedUpdate
  unfolding chunks
  summaries s m = map (summary encoded_len s) (chunks mempool_snapshot_ids_per_update (keys m))

  details : ℕ → Entries → List PublishedUpdate
  unfolding filter_map
  details r m = map (remark encoded_len r) (filter_map (λ found. found) (values m))

  snapshot_updates :
      (s : MempoolState) (m : Entries)
      → (if is_empty m then [] else summaries s m ++ details s.revision m)
        ≡ summaries s m ++ details s.revision m
  unfolding summaries details chunks chunks_from filter_map
  snapshot_updates s [] = refl
  snapshot_updates s (x ∷ m) = refl

  view_all-summaries_of :
      (s : MempoolState) (m : Entries) (q : String)
      → view_all (summaries s m) (λ id. none) q ≡ (if contains (keys m) q then known none else none)
  unfolding summaries chunks contains
  view_all-summaries_of s m q =
      view_all-summaries s _ (λ id. none) q
      ∙ ap (λ b. if b then known none else none)
          (any_chunk mempool_snapshot_ids_per_update 0 [] (keys m) q)

  round_trip :
      (s : MempoolState) (m : Entries) (q : String)
      → Ascending m
      → All Filed m
      → view_all (summaries s m ++ details s.revision m) (λ id. none) q
        ≡ remarked s.revision (map_get q m)
  unfolding details
  round_trip s m q a f =
      ap (λ w. w q) (view_all-append (summaries s m) _ (λ id. none))
      ∙ view_all-details m s.revision (view_all (summaries s m) (λ id. none)) q a f
      ∙ ap (details_over s.revision (map_get q m)) (view_all-summaries_of s m q)
      ∙ finish s.revision _ (map_get q m) (contains-keys m q)

  -- A client that applies the updates of a snapshot to an empty mempool ends with the entries of
  -- the server, name by name: the same names, and the same details marked with the revision of the
  -- snapshot.
  pub snapshot_round_trip :
      (s : MempoolState) (q : String)
      → IsValid s
      → map_get q (apply (snapshot encoded_len s).updates empty_mempool).entries
        ≡ remarked s.revision (map_get q s.entries)
  unfolding snapshot summaries details map_get
  snapshot_round_trip s q v =
      apply_refines_view (snapshot encoded_len s).updates empty_mempool q
      ∙ ap (λ us. view_all us (λ id. none) q) (snapshot_updates s s.entries)
      ∙ round_trip s s.entries q v.ascending v.filed

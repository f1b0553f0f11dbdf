-- ===== src/Geyser/Server/Mempool/Entries.antt =====
-- What `MempoolState::apply` of server.rs does to the entries, against a plain map of names.
use zakura_grpc.Common.{
  zero, suc, ℤ, pos, negsuc, ◌||◌, eqb, ◌≡◌, refl, ap, ◌∙◌, Option, none, some, String, List, [],
  ◌∷◌, map_get, map_remove, string_eq, text_ord, ◌==◌, if◌then◌else◌, contains, get-tree_insert,
  get-map_remove, arith, Option-cases, inl, inr,
}
use zakura_grpc.Proto.{Update, MempoolUpdate, MempoolTransactionUpdate, mempool_action_try_from}
use zakura_grpc.Geyser.Server.Projection.{PublishedUpdate}
use zakura_grpc.Geyser.Server.Mempool.{
  Entries, MempoolState, or_default, add_all, remove_all, action_of, apply_action, entry_id,
  apply_by, apply_one, apply,
}

-- A mempool as a map: what is known of each name.
abbrev pub View : Type 0
View = String → Option (Option PublishedUpdate)

-- A name that is added keeps the details that are known of it.
abbrev pub known : Option (Option PublishedUpdate) → Option (Option PublishedUpdate)
known none = some none
known (some found) = some found

-- The numbers of the protocol: 1 adds names; 2 and 3, for names that were invalidated or mined,
-- remove them.
unfoldable pub view_change : ℤ → List String → View → View
unfolding contains
view_change (pos n) ids v id =
    if contains ids id
    then (if eqb n 1 then known (v id) else if eqb n 2 || eqb n 3 then none else v id)
    else v id
view_change (negsuc n) ids v id = v id

-- The unmined identifier of a transaction, or the plain one where there is none.
abbrev pub name_of : String → String → String
name_of unmined plain = if unmined == "" then plain else unmined

unfoldable pub view_by : Option Update → PublishedUpdate → View → View
view_by (some (Update.mempool change)) u v id =
    view_change change.action change.transaction_ids v id
view_by (some (Update.mempool_transaction t)) u v id =
    if name_of t.unmined_transaction_id t.transaction_id == id then some (some u) else v id
view_by _ u v id = v id

abbrev pub view_one : PublishedUpdate → View → View
view_one u = view_by u.message.update u

unfoldable pub view_all : List PublishedUpdate → View → View
view_all [] v = v
view_all (u ∷ us) v = view_all us (view_one u v)

get-or_default :
    (id q : String) (m : Entries)
    → map_get q (or_default id m) ≡ (if id == q then known (map_get q m) else map_get q m)
unfolding or_default
get-or_default id q m = elim (Option-cases (map_get id m)) [
  | inl e ↦ rw (e, or_default) (ground (arith, get-tree_insert id q none m, string_eq.beq_iff id q))
  | inr (a, e) ↦ rw (e, or_default) (ground (arith, string_eq.beq_iff id q))
]

get-add_all :
    (ids : List String) (q : String) (m : Entries)
    → map_get q (add_all ids m) ≡ (if contains ids q then known (map_get q m) else map_get q m)
unfolding add_all contains
get-add_all [] q m = refl
get-add_all (id ∷ ids) q m = ground (
  arith,
  get-add_all ids q (or_default id m),
  get-or_default id q m,
  string_eq.beq_iff id q,
  string_eq.beq_iff q id,
)

get-remove_all :
    (ids : List String) (q : String) (m : Entries)
    → map_get q (remove_all ids m) ≡ (if contains ids q then none else map_get q m)
unfolding remove_all contains
get-remove_all [] q m = refl
get-remove_all (id ∷ ids) q m = ground (
  arith,
  get-remove_all ids q (map_remove id m),
  get-map_remove id q m,
  string_eq.beq_iff id q,
  string_eq.beq_iff q id,
)

-- The changed entries by the number of the action.
abbrev NumberChanges : ℤ → MempoolUpdate → Entries → String → Type 0
NumberChanges n change m q =
    map_get q (apply_action (action_of change) change.transaction_ids m)
    ≡ view_change n change.transaction_ids (λ id. map_get id m) q

change_by_number :
    (n : ℤ) (change : MempoolUpdate) (m : Entries) (q : String)
    → change.action ≡ n
    → NumberChanges n change m q
unfolding apply_action view_change action_of mempool_action_try_from
change_by_number (pos zero) change m q e = rw e (ground arith)
change_by_number (pos (suc zero)) change m q e = rw e (get-add_all change.transaction_ids q m)
change_by_number (pos (suc (suc zero))) change m q e =
    rw e (get-remove_all change.transaction_ids q m)
change_by_number (pos (suc (suc (suc zero)))) change m q e =
    rw e (get-remove_all change.transaction_ids q m)
change_by_number (pos (suc (suc (suc (suc n))))) change m q e = rw e (ground arith)
change_by_number (negsuc n) change m q e = rw e refl

entry_id_lem :
    (t : MempoolTransactionUpdate) → entry_id t ≡ name_of t.unmined_transaction_id t.transaction_id
unfolding entry_id
entry_id_lem t = refl

view_of_update :
    (x : Option Update) (u : PublishedUpdate) (s : MempoolState) (q : String)
    → map_get q (apply_by x u s).entries ≡ view_by x u (λ id. map_get id s.entries) q
unfolding apply_by view_by entry_id
view_of_update (some (Update.mempool change)) u s q =
    change_by_number change.action change s.entries q refl
view_of_update (some (Update.mempool_transaction t)) u s q =
    get-tree_insert (entry_id t) q (some u) s.entries
view_of_update _ u s q = refl

-- After a batch the ordered map of `MempoolState` holds, name by name, what the plain map holds:
-- names that action 1 adds, without forgetting known details, the last details of a transaction
-- under its unmined identifier, or the plain one where there is none, and no name that action 2 or
-- 3 has removed since.
pub apply_refines_view :
    (us : List PublishedUpdate) (s : MempoolState) (q : String)
    → map_get q (apply us s).entries ≡ view_all us (λ id. map_get id s.entries) q
unfolding apply view_all
apply_refines_view [] s q = refl
apply_refines_view (u ∷ us) s q =
    apply_refines_view us (apply_one u s) q
    ∙ ap (λ v. view_all us v q) (λ i id. view_of_update u.message.update u s id i)

-- ===== src/Geyser/Server/Mempool/Filed.antt =====
-- The order of the entries of `MempoolState` of server.rs, and where details stand.
use zakura_grpc.Common.{
  ◌≡◌, refl, ap, ◌∙◌, Bool, true, false, Option, none, some, String, List, [], ◌∷◌, map_get,
  map_remove, string_eq, text_ord, ◌==◌, Ascending, tree_insert-Ascending, map_remove-Ascending,
  All, All-tree_insert, All-map_remove, is_none_or, beq_refl, Option-cases, inl, inr,
}
use zakura_grpc.Proto.{MempoolAction, Update}
use zakura_grpc.Geyser.Server.Projection.{PublishedUpdate}
use zakura_grpc.Geyser.Server.Mempool.{
  Entries, MempoolState, or_default, add_all, remove_all, action_of, apply_action, entry_id,
  apply_by, apply_one, apply, empty_mempool,
}
use zakura_grpc.Geyser.Server.Mempool.Entries.{name_of}

or_default-Ascending : (id : String) (m : Entries) → Ascending m → Ascending (or_default id m)
unfolding or_default
or_default-Ascending id m a = elim (Option-cases (map_get id m)) [
  | inl e ↦ rw (e, or_default) (tree_insert-Ascending id none m a)
  | inr (x, e) ↦ rw (e, or_default) a
]

add_all-Ascending : (ids : List String) (m : Entries) → Ascending m → Ascending (add_all ids m)
unfolding add_all
add_all-Ascending [] m a = a
add_all-Ascending (id ∷ ids) m a =
    add_all-Ascending ids (or_default id m) (or_default-Ascending id m a)

remove_all-Ascending :
    (ids : List String) (m : Entries) → Ascending m → Ascending (remove_all ids m)
unfolding remove_all
remove_all-Ascending [] m a = a
remove_all-Ascending (id ∷ ids) m a =
    remove_all-Ascending ids (map_remove id m) (map_remove-Ascending id m a)

-- The details of a transaction stand under its unmined identifier, or under the plain one where
-- there is none.
abbrev pub filed_under : String → Option Update → Bool
filed_under id (some (Update.mempool_transaction t)) =
    name_of t.unmined_transaction_id t.transaction_id == id
filed_under id _ = false

unfoldable pub is_filed : String × Option PublishedUpdate → Bool
is_filed e = is_none_or e.1 (λ u. filed_under e.0 u.message.update)

abbrev pub Filed : String × Option PublishedUpdate → Type 0
unfolding is_filed
Filed e = is_filed e ≡ true

-- The names rise strictly, and details stand under the identifier of their own transaction.
pub record IsValid (s : MempoolState) : Type 0 where
  pub ascending : Ascending s.entries
  pub filed : All Filed s.entries

or_default-Filed : (id : String) (m : Entries) → All Filed m → All Filed (or_default id m)
unfolding or_default is_filed
or_default-Filed id m a = elim (Option-cases (map_get id m)) [
  | inl e ↦ rw (e, or_default) (All-tree_insert Filed id none m refl a)
  | inr (x, e) ↦ rw (e, or_default) a
]

add_all-Filed : (ids : List String) (m : Entries) → All Filed m → All Filed (add_all ids m)
unfolding add_all
add_all-Filed [] m a = a
add_all-Filed (id ∷ ids) m a = add_all-Filed ids (or_default id m) (or_default-Filed id m a)

remove_all-Filed : (ids : List String) (m : Entries) → All Filed m → All Filed (remove_all ids m)
unfolding remove_all
remove_all-Filed [] m a = a
remove_all-Filed (id ∷ ids) m a =
    remove_all-Filed ids (map_remove id m) (All-map_remove Filed id m a)

action-IsValid :
    (a : MempoolAction) (ids : List String) (m : Entries)
    → Ascending m
    → All Filed m
    → Ascending (apply_action a ids m) × All Filed (apply_action a ids m)
unfolding apply_action
action-IsValid MempoolAction.added ids m a f = (add_all-Ascending ids m a, add_all-Filed ids m f)
action-IsValid MempoolAction.unspecified ids m a f = (a, f)
action-IsValid _ ids m a f = (remove_all-Ascending ids m a, remove_all-Filed ids m f)

apply_by-IsValid :
    (x : Option Update) (u : PublishedUpdate) (s : MempoolState)
    → u.message.update ≡ x
    → IsValid s
    → IsValid (apply_by x u s)
unfolding apply_by is_filed entry_id
apply_by-IsValid (some (Update.mempool change)) u s e v =
    let k =
      action-IsValid (action_of change) change.transaction_ids s.entries v.ascending v.filed in
    record { ascending = k.0; filed = k.1 }
apply_by-IsValid (some (Update.mempool_transaction t)) u s e v = record {
  ascending = tree_insert-Ascending (entry_id t) (some u) s.entries v.ascending;
  filed =
      All-tree_insert Filed (entry_id t) (some u) s.entries
        (ap (filed_under (entry_id t)) e ∙ beq_refl (entry_id t)) v.filed;
}
apply_by-IsValid _ u s e v = v

-- Every batch keeps details under the unmined identifier of their own transaction, or under the
-- plain one where there is none, and each name once, in rising order.
pub apply-IsValid :
    (us : List PublishedUpdate) (s : MempoolState) → IsValid s → IsValid (apply us s)
unfolding apply
apply-IsValid [] s v = v
apply-IsValid (u ∷ us) s v =
    apply-IsValid us (apply_one u s) (apply_by-IsValid u.message.update u s refl v)

pub IsValid-empty_mempool : IsValid empty_mempool
IsValid-empty_mempool = record { ascending = tt; filed = tt }

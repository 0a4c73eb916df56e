-- ===== src/Storage/Catalog/Replays.antt =====
-- The mutations of crates/nubisync-storage/src/lib.rs on a catalog's rows, against what each of them
-- means for the parent entries.
use nubisync.Base.{
  Dict, IsNodup, List, Option, Text, [], ◌∷◌, ◌≡◌, arith, contains, contains-keys, inl, inr, insert,
  insert-IsNodup, is_blank, keys, lookup, lookup-insert, map, none, ok, option_eq, reject_if,
  text_eq, ℕ, ℤ, ◌||◌, if◌then◌else◌, >>=-eq-ok, >>-eq-ok, Bool-cases, int_eq, nat_eq, refl,
}
use mathlib.Core.Path.{subst}
use nubisync.Core.Remote.{RemoteItem}
use nubisync.Sync.Catalog.{RootCatalogMutationPlan, upsert_plan, delete_plan}
use nubisync.Sync.Catalog.Mutations.{Stored, Mutates, Replays, done, step}
use nubisync.Storage.Tables.{ItemRow, RootTables, optional_size}
use nubisync.Storage.Subtree.{subtree}
use nubisync.Storage.Subtree.Closed.{stored_items, subtree_iff}
use nubisync.Storage.Catalog.{
  SyncRootCatalogMutation, upsert_mutation, delete_mutation, erase_all, item_row, apply_mutation,
  apply_mutations, upsert_sync_root_catalog_item, delete_sync_root_subtree_in_transaction,
}

-- The projection's mutation that a stored one stands for.
abbrev pub plan_of : SyncRootCatalogMutation → RootCatalogMutationPlan
plan_of (upsert_mutation item) = upsert_plan item
plan_of (delete_mutation remote_id) = delete_plan remote_id

abbrev pub catalog : RootTables → Stored
catalog t = stored_items t.items

-- The primary key of the items.
abbrev pub HasKeys : RootTables → Type 0
HasKeys t = IsNodup (keys t.items)

pub lookup-erase_all :
    (ids : List Text) (rows : Dict Text ItemRow) (x : Text)
    → lookup x (erase_all ids rows) ≡ (if contains ids x then none else lookup x rows)
unfolding lookup erase_all
lookup-erase_all ids [] x = ground arith
lookup-erase_all ids ((id, row) ∷ rows) x = ground (arith, lookup-erase_all ids rows x)

erase_all-IsNodup :
    (ids : List Text) (rows : Dict Text ItemRow)
    → IsNodup (keys rows)
    → IsNodup (keys (erase_all ids rows))
unfolding erase_all
erase_all-IsNodup ids [] u = tt
erase_all-IsNodup ids ((id, row) ∷ rows) (fresh, u) = ground (
  arith,
  erase_all-IsNodup ids rows u,
  contains-keys id (erase_all ids rows),
  lookup-erase_all ids rows id,
  contains-keys id rows,
)

upsert-Mutates :
    (item : RemoteItem) (size : Option ℕ) (observed : ℤ) (items : Dict Text ItemRow)
    → Mutates
        (upsert_plan item)
        (stored_items items)
        (stored_items (insert item.remote_id (item_row item size observed) items))
upsert-Mutates item size observed items =
    λ x. ground (arith, lookup-insert item.remote_id x (item_row item size observed) items)

erased-Mutates :
    (top : Text) (items : Dict Text ItemRow)
    → IsNodup (keys items)
    → Mutates
        (delete_plan top)
        (stored_items items)
        (stored_items (erase_all (subtree top items) items))
erased-Mutates top items u = λ x.
    let look = lookup-erase_all (subtree top items) items x in
    (
      λ b. ground (arith, look, (subtree_iff top items x u).1 b),
      λ n. elim (Bool-cases (contains (subtree top items) x)) [
        | inl e ↦ absurd (n ((subtree_iff top items x u).0 e))
        | inr e ↦ ground (arith, look, e)
      ],
    )

pub apply_mutation-Mutates :
    (observed : ℤ) (m : SyncRootCatalogMutation) (t : RootTables) {t' : RootTables}
    → HasKeys t
    → apply_mutation observed m t ≡ ok t'
    → Mutates (plan_of m) (catalog t) (catalog t') × HasKeys t'
unfolding apply_mutation upsert_sync_root_catalog_item delete_sync_root_subtree_in_transaction
apply_mutation-Mutates observed (upsert_mutation item) t {t'} u e =
    let (_, upserted) = >>-eq-ok (reject_if (item.trashed || is_blank item.remote_id) _) _ e in
    let (size, _, same) = >>=-eq-ok (optional_size item.size_bytes) _ upserted in
    let row = item_row item size observed in
    let rows : insert item.remote_id row t.items ≡ t'.items = ground arith in
    subst
      (λ items. Mutates (upsert_plan item) (catalog t) (stored_items items) × IsNodup (keys items))
      rows (upsert-Mutates item size observed t.items, insert-IsNodup item.remote_id row t.items u)
apply_mutation-Mutates observed (delete_mutation top) t {t'} u e =
    let (_, same) = >>-eq-ok (reject_if (is_blank top) _) _ e in
    let rows : erase_all (subtree top t.items) t.items ≡ t'.items = ground arith in
    subst
      (λ items. Mutates (delete_plan top) (catalog t) (stored_items items) × IsNodup (keys items))
      rows (erased-Mutates top t.items u, erase_all-IsNodup (subtree top t.items) t.items u)

pub apply_mutations-Replays :
    (observed : ℤ) (ms : List SyncRootCatalogMutation) (t : RootTables) {t' : RootTables}
    → HasKeys t
    → apply_mutations observed ms t ≡ ok t'
    → Replays (map plan_of ms) (catalog t) (catalog t') × HasKeys t'
unfolding apply_mutations
apply_mutations-Replays observed [] t {t'} u e =
    let same : t ≡ t' = ground arith in
    subst (λ r. Replays [] (catalog t) (catalog r) × HasKeys r) same (done (λ x. refl), u)
apply_mutations-Replays observed (m ∷ ms) t u e =
    let (after, first, rest) = >>=-eq-ok (apply_mutation observed m t) _ e in
    let (mutates, kept) = apply_mutation-Mutates observed m t u first in
    let (replays, last) = apply_mutations-Replays observed ms after kept rest in
    (step mutates replays, last)

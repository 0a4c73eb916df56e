-- ===== src/Storage/Catalog/Commits.antt =====
-- What a commit of crates/nubisync-storage/src/lib.rs does to the catalog, its count and its cursor.
use nubisync.Base.{
  sym, not, ◌==◌, List, Option, Text, [], ◌∷◌, ◌≡◌, ◌∙◌, arith, inl, inr, is_blank, length, lookup,
  map, none, ok, ok-injective, option_eq, refl, reject_if, some, text_eq, true, ℤ, ◌||◌, >>=-eq-ok,
  >>-eq-ok, Bool-cases, int_eq, keys, nat_eq,
}
use mathlib.Core.Path.{subst}
use nubisync.Core.Ids.{ChangeCursor}
use nubisync.Core.Remote.{RemoteItem, folder, kind_eq}
use nubisync.Sync.Catalog.Mutations.{Replays}
use nubisync.Storage.Tables.{InventoryStateRow, ItemRow, RootTables, optional_size}
use nubisync.Storage.Catalog.{
  completes_initial_catchup, at_cursor, set_change_cursor, refresh_sync_root_catalog_count,
  current_cursor, durable_cursor, commit_sync_root_catalog_batch_and_cursor, replay,
  SyncRootCatalogMutation, upsert_mutation, delete_mutation, SyncRootCatalogBatchCommit,
  apply_mutation, apply_mutations, upsert_sync_root_catalog_item,
  delete_sync_root_subtree_in_transaction, invalidate_existing,
  invalidate_sync_root_materialization_subtree, invalidate_sync_root_file_materialization,
  structural_change,
}
use nubisync.Storage.Catalog.Replays.{plan_of, catalog, HasKeys, apply_mutations-Replays}
use nubisync.Storage.Receipts.Paths.{HasReceipts, apply_mutations-HasUniquePaths}
use nubisync.Storage.Receipts.Steps.{apply_mutations-Match}

-- The tables that mutations leave alone.
abbrev pub IsFramed : RootTables → RootTables → Type 0
IsFramed t t' =
    (t'.inventory_state ≡ t.inventory_state)
    × (t'.window ≡ t.window)
    × (t'.events ≡ t.events)
    × (t'.tokens ≡ t.tokens)

invalidate_existing-IsFramed :
    (item : RemoteItem) (existing : Option ItemRow) (t : RootTables)
    → IsFramed t (invalidate_existing item existing t)
unfolding invalidate_existing invalidate_sync_root_materialization_subtree
    invalidate_sync_root_file_materialization
invalidate_existing-IsFramed item none t = (refl, refl, refl, refl)
invalidate_existing-IsFramed item (some existing) t =
    elim (Bool-cases (existing.item_kind == folder)) [
      | inl was ↦ elim (Bool-cases (structural_change item existing)) [
        | inl moved ↦ rw (was, moved) (refl, refl, refl, refl)
        | inr stays ↦ rw (was, stays) (refl, refl, refl, refl)
      ]
      | inr was ↦ rw was (refl, refl, refl, refl)
    ]

apply_mutation-IsFramed :
    (observed : ℤ) (m : SyncRootCatalogMutation) (t : RootTables) {t' : RootTables}
    → apply_mutation observed m t ≡ ok t'
    → IsFramed t t'
unfolding apply_mutation upsert_sync_root_catalog_item delete_sync_root_subtree_in_transaction
    invalidate_sync_root_materialization_subtree
apply_mutation-IsFramed observed (upsert_mutation item) t e =
    let (_, upserted) = >>-eq-ok (reject_if (item.trashed || is_blank item.remote_id) _) _ e in
    let (size, _, same) = >>=-eq-ok (optional_size item.size_bytes) _ upserted in
    subst (IsFramed t) (ok-injective same)
      (invalidate_existing-IsFramed item (lookup item.remote_id t.items) t)
apply_mutation-IsFramed observed (delete_mutation top) t e =
    let (_, same) = >>-eq-ok (reject_if (is_blank top) _) _ e in
    subst (IsFramed t) (ok-injective same) (refl, refl, refl, refl)

pub apply_mutations-IsFramed :
    (observed : ℤ) (ms : List SyncRootCatalogMutation) (t : RootTables) {t' : RootTables}
    → apply_mutations observed ms t ≡ ok t'
    → IsFramed t t'
unfolding apply_mutations
apply_mutations-IsFramed observed [] t e =
    subst (IsFramed t) (ok-injective e) (refl, refl, refl, refl)
apply_mutations-IsFramed observed (m ∷ ms) t e =
    let (after, first, rest) = >>=-eq-ok (apply_mutation observed m t) _ e in
    let (a, b, c, d) = apply_mutation-IsFramed observed m t first in
    let (a', b', c', d') = apply_mutations-IsFramed observed ms after rest in
    (a' ∙ a, b' ∙ b, c' ∙ c, d' ∙ d)

-- What a commit has done, from the tables `t` to `t'`.
pub record Commits (ms : List SyncRootCatalogMutation) (cursor : Text) (t t' : RootTables)
    (commit : SyncRootCatalogBatchCommit) : Type 0 where
  pub replays : Replays (map plan_of ms) (catalog t) (catalog t')
  pub keys_kept : HasKeys t'
  pub receipts_kept : HasReceipts t'
  pub cursor_set : durable_cursor t'.inventory_state ≡ ok cursor
  pub state_stored :
      (state : InventoryStateRow) × (t'.inventory_state ≡ some state)
      × (state.snapshot_complete ≡ true)
      × (state.catchup_complete ≡ true)
      × (state.item_count ≡ length t'.items)
      × (state.change_cursor ≡ some cursor)
  pub items_counted : commit.authoritative_items ≡ length t'.items
  pub all_applied : commit.mutations_applied ≡ length ms

-- The tables after the mutations, with the count and the cursor stored.
abbrev pub finished : Text → RootTables → InventoryStateRow → RootTables
finished cursor mutated state = record mutated {
  inventory_state = some (at_cursor cursor (record state { item_count = length mutated.items }));
}

pub replay-finished :
    (ms : List SyncRootCatalogMutation) (next : ChangeCursor) (observed : ℤ)
    (t mutated : RootTables) (state : InventoryStateRow)
    → apply_mutations observed ms t ≡ ok mutated
    → mutated.inventory_state ≡ some state
    → replay ms next observed t
      ≡ ok (
        record {
          mutations_applied = length ms;
          authoritative_items = length mutated.items;
          completed_initial_catchup = completes_initial_catchup t.inventory_state;
        },
        finished next.as_str mutated state,
      )
unfolding replay refresh_sync_root_catalog_count set_change_cursor
replay-finished ms next observed t mutated state applied is = rw (applied, is) refl

snapshot_of :
    (state : InventoryStateRow) {cursor : Text}
    → current_cursor (some state) ≡ ok cursor
    → state.snapshot_complete ≡ true
unfolding current_cursor
snapshot_of state e = ground arith

pub state_of :
    (state : Option InventoryStateRow) {cursor : Text}
    → current_cursor state ≡ ok cursor
    → (row : InventoryStateRow) × (state ≡ some row) × (row.snapshot_complete ≡ true)
state_of none e = unfold current_cursor in ground arith
state_of (some row) e = (row, refl, snapshot_of row e)

pub replay-Commits :
    (ms : List SyncRootCatalogMutation) (next : ChangeCursor) (observed : ℤ) (t : RootTables)
    {cursor : Text} {commit : SyncRootCatalogBatchCommit} {t' : RootTables}
    → HasKeys t
    → HasReceipts t
    → current_cursor t.inventory_state ≡ ok cursor
    → replay ms next observed t ≡ ok (commit, t')
    → Commits ms next.as_str t t' commit
      × (t'.window ≡ t.window)
      × (t'.events ≡ t.events)
      × (t'.tokens ≡ t.tokens)
unfolding replay
replay-Commits ms next observed t {commit = commit} {t' = t'} u h c e =
    let (mutated, applied, _) = >>=-eq-ok (apply_mutations observed ms t) _ e in
    let (replays, keys) = apply_mutations-Replays observed ms t u applied in
    let (kept, w, v, k) = apply_mutations-IsFramed observed ms t applied in
    let (state, is, whole) = state_of t.inventory_state c in
    let result = replay-finished ms next observed t mutated state applied (kept ∙ is) in
    let same = ok-injective (sym result ∙ e) in
    subst
      (λ p.
        Commits ms next.as_str t p.1 p.0
        × (p.1.window ≡ t.window)
        × (p.1.events ≡ t.events)
        × (p.1.tokens ≡ t.tokens))
      same
      (
        record {
          replays = replays;
          keys_kept = keys;
          receipts_kept = (
            apply_mutations-Match observed ms t h.0 applied,
            apply_mutations-HasUniquePaths observed ms t applied h.1,
          );
          cursor_set = unfold durable_cursor in rw whole refl;
          state_stored = (_, refl, whole, refl, refl, refl);
          items_counted = refl;
          all_applied = refl;
        },
        w,
        v,
        k,
      )

-- A batch that is committed leaves the catalog as replaying its mutations one after the other would,
-- with the next cursor as its durable cursor and the number of its items as its count, keeps every
-- current receipt right and at a path of its own, and changes no change window. The catalog had one
-- row for an id, and every current receipt was right and at a path of its own.
pub commit_batch-Commits :
    (expected : ChangeCursor) (ms : List SyncRootCatalogMutation) (next : ChangeCursor)
    (observed : ℤ) (t : RootTables) {commit : SyncRootCatalogBatchCommit} {t' : RootTables}
    → HasKeys t
    → HasReceipts t
    → commit_sync_root_catalog_batch_and_cursor expected ms next observed t ≡ ok (commit, t')
    → Commits ms next.as_str t t' commit
      × (t'.window ≡ t.window)
      × (t'.events ≡ t.events)
      × (t'.tokens ≡ t.tokens)
unfolding commit_sync_root_catalog_batch_and_cursor
commit_batch-Commits expected ms next observed t u h e =
    let (cursor, current, e1) = >>=-eq-ok (current_cursor t.inventory_state) _ e in
    let (_, replayed) = >>-eq-ok (reject_if (not (cursor == expected.as_str)) _) _ e1 in
    replay-Commits ms next observed t u h current replayed

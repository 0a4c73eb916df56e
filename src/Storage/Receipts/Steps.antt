-- ===== src/Storage/Receipts/Steps.antt =====
-- The steps of the transactions of crates/nubisync-storage/src/lib.rs keep current receipts right.
use nubisync.Base.{
  ok-injective, Dict, List, Option, Text, [], ◌∷◌, ◌≡◌, arith, contains, false, inl, inr, insert,
  is_blank, lookup, lookup-insert, none, ok, option_eq, reject_if, some, text_eq, true, ℕ, ℤ, ◌==◌,
  ◌||◌, >>=-eq-ok, >>-eq-ok, nat_eq, Bool-cases, int_eq, refl,
}
use mathlib.Core.Path.{subst}
use nubisync.Core.Remote.{RemoteItem, folder, kind_eq}
use nubisync.Storage.Tables.{ItemRow, RootTables, optional_size}
use nubisync.Storage.Subtree.{subtree}
use nubisync.Storage.Subtree.Closed.{grow_subtree-keeps}
use nubisync.Storage.Catalog.{
  SyncRootCatalogMutation, upsert_mutation, delete_mutation, erase_all, item_row, apply_mutation,
  apply_mutations, upsert_sync_root_catalog_item, delete_sync_root_subtree_in_transaction,
  invalidate_existing, invalidate_sync_root_materialization_subtree,
  invalidate_sync_root_file_materialization, structural_change,
}
use nubisync.Storage.Catalog.Replays.{lookup-erase_all}
use nubisync.Storage.Receipts.Matching.{
  ReceiptsMatch, stale_files-Match, stale_directories-Match, insert-FilesMatch,
  insert-DirectoriesMatch,
}

subtree-keeps : (top : Text) (items : Dict Text ItemRow) → contains (subtree top items) top ≡ true
unfolding subtree
subtree-keeps top items = grow_subtree-keeps _ (top ∷ []) items top (ground arith)

module _ (item : RemoteItem) (row : ItemRow) (t : RootTables) (h : ReceiptsMatch t) where
  -- The tables with the item's new row, after its receipts are made stale.
  abbrev upserted : RootTables → RootTables
  upserted invalidated = record invalidated { items = insert item.remote_id row t.items }

  elsewhere :
      (ids : List Text)
      → contains ids item.remote_id ≡ true
      → (x : Text) → contains ids x ≡ false
      → lookup x (insert item.remote_id row t.items) ≡ lookup x t.items
  elsewhere ids among x away = ground (arith, lookup-insert item.remote_id x row t.items)

  new-Match : lookup item.remote_id t.items ≡ none → ReceiptsMatch (upserted t)
  new-Match e = (
    insert-FilesMatch item.remote_id row t.items t.file_receipts h.0
        (ground (arith, e, h.0 item.remote_id)),
    insert-DirectoriesMatch item.remote_id row t.items t.directory_receipts h.1
        (ground (arith, e, h.1 item.remote_id)),
  )

  moved-Match :
      ReceiptsMatch (upserted (invalidate_sync_root_materialization_subtree item.remote_id t))
  unfolding invalidate_sync_root_materialization_subtree
  moved-Match =
      let ids = subtree item.remote_id t.items in
      let same = elsewhere ids (subtree-keeps item.remote_id t.items) in
      (
        stale_files-Match ids t.items _ t.file_receipts h.0 same,
        stale_directories-Match ids t.items _ t.directory_receipts h.1 same,
      )

  folder-Match :
      (existing : ItemRow)
      → lookup item.remote_id t.items ≡ some existing
      → (existing.item_kind == folder) ≡ true
      → (row.item_kind == folder) ≡ true
      → row.trashed ≡ false
      → ReceiptsMatch (upserted t)
  folder-Match existing e was is live = (
    insert-FilesMatch item.remote_id row t.items t.file_receipts h.0
        (ground (arith, e, h.0 item.remote_id)),
    insert-DirectoriesMatch item.remote_id row t.items t.directory_receipts h.1
        (ground (arith, e, h.1 item.remote_id)),
  )

  file-Match :
      (existing : ItemRow)
      → lookup item.remote_id t.items ≡ some existing
      → (existing.item_kind == folder) ≡ false
      → ReceiptsMatch (upserted (invalidate_sync_root_file_materialization item.remote_id t))
  unfolding invalidate_sync_root_file_materialization
  file-Match existing e was = (
    stale_files-Match (item.remote_id ∷ []) t.items _ t.file_receipts h.0
        (elsewhere (item.remote_id ∷ []) (ground arith)),
    insert-DirectoriesMatch item.remote_id row t.items t.directory_receipts h.1
        (ground (arith, e, h.1 item.remote_id)),
  )

upsert-Match :
    (item : RemoteItem) (size : Option ℕ) (observed : ℤ) (t : RootTables)
    (existing : Option ItemRow)
    → lookup item.remote_id t.items ≡ existing
    → ReceiptsMatch t
    → ReceiptsMatch (record (invalidate_existing item existing t) {
      items = insert item.remote_id (item_row item size observed) t.items;
    })
unfolding invalidate_existing
upsert-Match item size observed t none e h = new-Match item (item_row item size observed) t h e
upsert-Match item size observed t (some existing) e h =
    let row = item_row item size observed in
    elim (Bool-cases (existing.item_kind == folder)) [
      | inl was ↦ elim (Bool-cases (structural_change item existing)) [
        | inl moved ↦ rw (was, moved) (moved-Match item row t h)
        | inr stays ↦ rw (was, stays) (folder-Match item row t h existing e was (ground arith) refl)
      ]
      | inr was ↦ rw was (file-Match item row t h existing e was)
    ]

delete-Match :
    (top : Text) (t : RootTables)
    → ReceiptsMatch t
    → ReceiptsMatch (delete_sync_root_subtree_in_transaction top t)
unfolding delete_sync_root_subtree_in_transaction invalidate_sync_root_materialization_subtree
delete-Match top t h =
    let ids = subtree top t.items in
    (
      stale_files-Match ids t.items (erase_all ids t.items) t.file_receipts h.0 kept,
      stale_directories-Match ids t.items (erase_all ids t.items) t.directory_receipts h.1 kept,
    )
  where
    kept :
        (x : Text)
        → contains (subtree top t.items) x ≡ false
        → lookup x (erase_all (subtree top t.items) t.items) ≡ lookup x t.items
    kept x away = ground (arith, lookup-erase_all (subtree top t.items) t.items x)

pub apply_mutation-Match :
    (observed : ℤ) (m : SyncRootCatalogMutation) (t : RootTables) {t' : RootTables}
    → ReceiptsMatch t
    → apply_mutation observed m t ≡ ok t'
    → ReceiptsMatch t'
unfolding apply_mutation upsert_sync_root_catalog_item
apply_mutation-Match observed (upsert_mutation item) t h e =
    let (_, upserted) = >>-eq-ok (reject_if (item.trashed || is_blank item.remote_id) _) _ e in
    let (size, _, same) = >>=-eq-ok (optional_size item.size_bytes) _ upserted in
    subst ReceiptsMatch (ok-injective same) (upsert-Match item size observed t _ refl h)
apply_mutation-Match observed (delete_mutation top) t h e =
    let (_, same) = >>-eq-ok (reject_if (is_blank top) _) _ e in
    subst ReceiptsMatch (ok-injective same) (delete-Match top t h)

pub apply_mutations-Match :
    (observed : ℤ) (ms : List SyncRootCatalogMutation) (t : RootTables) {t' : RootTables}
    → ReceiptsMatch t
    → apply_mutations observed ms t ≡ ok t'
    → ReceiptsMatch t'
unfolding apply_mutations
apply_mutations-Match observed [] t h e = subst ReceiptsMatch (ok-injective e) h
apply_mutations-Match observed (m ∷ ms) t h e =
    let (after, first, rest) = >>=-eq-ok (apply_mutation observed m t) _ e in
    apply_mutations-Match observed ms after (apply_mutation-Match observed m t h first) rest

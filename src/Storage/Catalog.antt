-- ===== src/Storage/Catalog.antt =====
-- The catalog of one sync root in crates/nubisync-storage/src/lib.rs: mutations, which also make
-- materialization receipts stale, and the commit of a batch of them with the next cursor.
-- An operation returns the tables after its transaction. After an error the transaction is rolled
-- back, so that the tables are as they were.
use nubisync.Base.{
  Bool, Dict, List, Option, Result, Text, [], contains, err, false, if◌then◌else◌, insert, length,
  lookup, none, not, ok, ok_or, option_eq, reject_if, some, text_eq, true, ℕ, ℤ, ◌==◌, ◌>>=◌, ◌>>◌,
  ◌||◌, ◌∷◌, is_blank, is_some, int_eq, nat_eq,
}
pub mod Replays
pub mod Commits
pub mod Agree
use nubisync.Core.Ids.{ChangeCursor}
use nubisync.Core.Remote.{RemoteItem, folder, kind_eq}
use nubisync.Storage.Failure.{
  StorageError, invalid_sync_root_catalog_mutation, sqlite, sync_root_catalog_snapshot_missing,
  sync_root_catalog_catchup_cursor_missing, sync_root_catalog_change_cursor_missing,
  sync_root_catalog_expected_cursor_mismatch, sync_root_catalog_invalid_cursor_state,
}
use nubisync.Storage.Tables.{
  InventoryStateRow, ItemRow, FileReceiptRow, DirectoryReceiptRow, stale, RootTables, optional_size,
}
use nubisync.Storage.Subtree.{subtree}

pub data SyncRootCatalogMutation : Type 0 where
  upsert_mutation : RemoteItem → SyncRootCatalogMutation
  delete_mutation : Text → SyncRootCatalogMutation

-- `SET receipt_state = 'stale' WHERE remote_id IN (ids)`; a stale row stays stale.
unfoldable pub stale_files : List Text → Dict Text FileReceiptRow → Dict Text FileReceiptRow
stale_files ids [] = []
stale_files ids ((id, row) ∷ rows) =
    let rest = stale_files ids rows in
    if contains ids id then (id, record row { receipt_state = stale }) ∷ rest else (id, row) ∷ rest

unfoldable pub stale_directories :
    List Text → Dict Text DirectoryReceiptRow → Dict Text DirectoryReceiptRow
stale_directories ids [] = []
stale_directories ids ((id, row) ∷ rows) =
    let rest = stale_directories ids rows in
    if contains ids id then (id, record row { receipt_state = stale }) ∷ rest else (id, row) ∷ rest

unfoldable pub invalidate_sync_root_materialization_subtree : Text → RootTables → RootTables
unfolding stale_files stale_directories subtree
invalidate_sync_root_materialization_subtree remote_id t =
    let ids = subtree remote_id t.items in
    record t {
      file_receipts = stale_files ids t.file_receipts;
      directory_receipts = stale_directories ids t.directory_receipts;
    }

unfoldable pub invalidate_sync_root_file_materialization : Text → RootTables → RootTables
unfolding stale_files
invalidate_sync_root_file_materialization remote_id t = record t {
  file_receipts = stale_files (remote_id ∷ []) t.file_receipts;
}

abbrev pub structural_change : RemoteItem → ItemRow → Bool
structural_change item existing =
    not (item.kind == folder)
    || not (existing.parent_remote_id == item.parent_remote_id)
    || not (existing.name == item.name)

-- What an upsert does to the receipts, from the row that the item had.
unfoldable pub invalidate_existing : RemoteItem → Option ItemRow → RootTables → RootTables
unfolding invalidate_sync_root_materialization_subtree invalidate_sync_root_file_materialization
invalidate_existing item none t = t
invalidate_existing item (some existing) t =
    if existing.item_kind == folder
    then (if structural_change item existing
        then invalidate_sync_root_materialization_subtree item.remote_id t
        else t)
    else invalidate_sync_root_file_materialization item.remote_id t

abbrev pub item_row : RemoteItem → Option ℕ → ℤ → ItemRow
item_row item size_bytes observed_at_unix_ms = record {
  parent_remote_id = item.parent_remote_id;
  name = item.name;
  item_kind = item.kind;
  size_bytes = size_bytes;
  trashed = false;
  observed_at_unix_ms = observed_at_unix_ms;
}

unfoldable pub upsert_sync_root_catalog_item :
    RemoteItem → ℤ → RootTables → Result StorageError RootTables
unfolding invalidate_existing optional_size
upsert_sync_root_catalog_item item observed_at_unix_ms t = do
  size_bytes ← optional_size item.size_bytes
  let invalidated = invalidate_existing item (lookup item.remote_id t.items) t
  ok (record invalidated {
    items = insert item.remote_id (item_row item size_bytes observed_at_unix_ms) t.items;
  })

-- `DELETE FROM sync_root_remote_items WHERE remote_id IN (ids)`
unfoldable pub erase_all : List Text → Dict Text ItemRow → Dict Text ItemRow
erase_all ids [] = []
erase_all ids ((id, row) ∷ rows) =
    let rest = erase_all ids rows in if contains ids id then rest else (id, row) ∷ rest

unfoldable pub delete_sync_root_subtree_in_transaction : Text → RootTables → RootTables
unfolding invalidate_sync_root_materialization_subtree erase_all subtree
delete_sync_root_subtree_in_transaction remote_id t =
    record (invalidate_sync_root_materialization_subtree remote_id t) {
      items = erase_all (subtree remote_id t.items) t.items;
    }

unfoldable pub apply_mutation :
    ℤ → SyncRootCatalogMutation → RootTables → Result StorageError RootTables
unfolding upsert_sync_root_catalog_item delete_sync_root_subtree_in_transaction
apply_mutation observed_at_unix_ms (upsert_mutation item) t = do
  reject_if (item.trashed || is_blank item.remote_id) invalid_sync_root_catalog_mutation
  upsert_sync_root_catalog_item item observed_at_unix_ms t
apply_mutation observed_at_unix_ms (delete_mutation remote_id) t = do
  reject_if (is_blank remote_id) invalid_sync_root_catalog_mutation
  ok (delete_sync_root_subtree_in_transaction remote_id t)

unfoldable pub apply_mutations :
    ℤ → List SyncRootCatalogMutation → RootTables → Result StorageError RootTables
unfolding apply_mutation
apply_mutations observed_at_unix_ms [] t = ok t
apply_mutations observed_at_unix_ms (mutation ∷ mutations) t =
    apply_mutation observed_at_unix_ms mutation t >>= λ after.
    apply_mutations observed_at_unix_ms mutations after

-- The cursor up to which the catalog is durable.
unfoldable pub durable_cursor : Option InventoryStateRow → Result StorageError Text
durable_cursor none = err sync_root_catalog_snapshot_missing
durable_cursor (some state) =
    if not state.snapshot_complete
    then err sync_root_catalog_snapshot_missing
    else if state.catchup_complete
    then ok_or state.change_cursor sync_root_catalog_change_cursor_missing
    else ok_or state.catchup_from_cursor sync_root_catalog_catchup_cursor_missing

-- That cursor as a commit reads it: before the first catch-up no change cursor may be stored.
unfoldable pub current_cursor : Option InventoryStateRow → Result StorageError Text
current_cursor none = err sync_root_catalog_snapshot_missing
current_cursor (some state) =
    if not state.snapshot_complete
    then err sync_root_catalog_snapshot_missing
    else if state.catchup_complete
    then ok_or state.change_cursor sync_root_catalog_change_cursor_missing
    else if is_some state.change_cursor
    then err sync_root_catalog_invalid_cursor_state
    else ok_or state.catchup_from_cursor sync_root_catalog_catchup_cursor_missing

abbrev pub completes_initial_catchup : Option InventoryStateRow → Bool
completes_initial_catchup none = false
completes_initial_catchup (some state) = not state.catchup_complete

-- `refresh_sync_root_catalog_count`, and the update of the cursor that follows it in a commit.
unfoldable pub refresh_sync_root_catalog_count : RootTables → RootTables
refresh_sync_root_catalog_count t = elim t.inventory_state [
  | none ↦ t
  | some state ↦ record t { inventory_state = some (record state { item_count = length t.items }) }
]

abbrev pub at_cursor : Text → InventoryStateRow → InventoryStateRow
at_cursor cursor state = record state { catchup_complete = true; change_cursor = some cursor }

unfoldable pub set_change_cursor : Text → RootTables → RootTables
set_change_cursor cursor t = elim t.inventory_state [
  | none ↦ t
  | some state ↦ record t { inventory_state = some (at_cursor cursor state) }
]

pub record SyncRootCatalogBatchCommit : Type 0 where
  pub mutations_applied : ℕ
  pub authoritative_items : ℕ
  pub completed_initial_catchup : Bool

-- The part of a commit that follows its guards.
unfoldable pub replay :
    List SyncRootCatalogMutation
    → ChangeCursor
    → ℤ
    → RootTables
    → Result StorageError (SyncRootCatalogBatchCommit × RootTables)
unfolding apply_mutations refresh_sync_root_catalog_count set_change_cursor
replay mutations next_cursor observed_at_unix_ms t = do
  mutated ← apply_mutations observed_at_unix_ms mutations t
  let counted = refresh_sync_root_catalog_count mutated
  state ← ok_or counted.inventory_state sqlite
  ok (
    record {
      mutations_applied = length mutations;
      authoritative_items = state.item_count;
      completed_initial_catchup = completes_initial_catchup t.inventory_state;
    },
    set_change_cursor next_cursor.as_str counted,
  )

unfoldable pub commit_sync_root_catalog_batch_and_cursor :
    ChangeCursor
    → List SyncRootCatalogMutation
    → ChangeCursor
    → ℤ
    → RootTables
    → Result StorageError (SyncRootCatalogBatchCommit × RootTables)
unfolding current_cursor replay
commit_sync_root_catalog_batch_and_cursor expected_cursor mutations next_cursor observed_at t = do
  cursor ← current_cursor t.inventory_state
  reject_if (not (cursor == expected_cursor.as_str)) sync_root_catalog_expected_cursor_mismatch
  replay mutations next_cursor observed_at t

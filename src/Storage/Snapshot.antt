-- ===== src/Storage/Snapshot.antt =====
-- The remote snapshot of one sync root in crates/nubisync-storage/src/lib.rs: its items are staged page
-- by page, and a commit puts them in place of the catalog. A rebaseline does the same for a root whose
-- change window has grown too long, under guards on everything that is under way.
use nubisync.Base.{
  Text, List, Dict, Option, Result, Bool, [], ◌∷◌, ℕ, ℤ, ok, none, some, true, false, lookup,
  insert, length, any, contains, not, ltb, is_blank, reject_if, is_some, text_eq, nat_eq, option_eq,
  int_eq, ◌==◌, ◌&&◌, ◌||◌, ◌>>=◌, ◌>>◌, if◌then◌else◌, ◌-◌,
}
pub mod Staged
pub mod Ready
pub mod Rebased
use nubisync.Core.Ids.{ChangeCursor}
use nubisync.Core.Remote.{RemoteItem}
use nubisync.Core.Modes.{SyncMode, two_way, mode_eq}
use nubisync.Storage.Failure.{StorageError, sync_root_remote_rebaseline_precondition_failed}
use nubisync.Storage.Tables.{
  RootTables, ItemRow, InventoryStateRow, WindowRow, optional_size, i64_try_from,
}
use nubisync.Storage.Catalog.{
  item_row, upsert_sync_root_catalog_item, delete_sync_root_subtree_in_transaction,
  refresh_sync_root_catalog_count,
}
use nubisync.Storage.Closing.{without_window}
use nubisync.Storage.Intents.{
  Intents, IntentRow, RemoteWriteIntentStatus, planned, submitted, awaiting_confirmation, confirmed,
  conflict, failed, superseded, status_eq, is_positive,
}
use nubisync.Storage.Intents.Begin.{
  LocalStateRow, LocalEventRow, AuthorityStateRow, local_stands, catalog_stands,
}

-- The tables of a sync root with the staging table, a row under its `remote_id`, and with what a
-- rebaseline reads or clears besides.
pub record SnapshotTables : Type 0 where
  pub root : RootTables
  pub staging : Dict Text ItemRow
  pub mode : Option SyncMode
  pub local_state : Option LocalStateRow
  pub local_events : Dict ℤ LocalEventRow
  pub authority_state : Option AuthorityStateRow
  pub authority : Dict Text Bool
  pub settled : List ℤ
  pub intents : Intents

unfoldable pub begin_sync_root_remote_inventory_staging : SnapshotTables → SnapshotTables
begin_sync_root_remote_inventory_staging t = record t { staging = [] }

unfoldable pub clear_sync_root_remote_inventory_staging : SnapshotTables → SnapshotTables
clear_sync_root_remote_inventory_staging t = record t { staging = [] }

unfoldable pub staged_sync_root_remote_inventory_count : SnapshotTables → ℕ
staged_sync_root_remote_inventory_count t = length t.staging

-- A staged row may be one of the trash.
abbrev pub staged_row : RemoteItem → Option ℕ → ℤ → ItemRow
staged_row item size_bytes at = record (item_row item size_bytes at) { trashed = item.trashed }

unfoldable pub insert_sync_root_inventory_item :
    ℤ → RemoteItem → Dict Text ItemRow → Result StorageError (Dict Text ItemRow)
unfolding optional_size
insert_sync_root_inventory_item at item staging = do
  size_bytes ← optional_size item.size_bytes
  ok (insert item.remote_id (staged_row item size_bytes at) staging)

unfoldable pub insert_items :
    ℤ → List RemoteItem → Dict Text ItemRow → Result StorageError (Dict Text ItemRow)
unfolding insert_sync_root_inventory_item
insert_items at [] staging = ok staging
insert_items at (item ∷ items) staging =
    insert_sync_root_inventory_item at item staging >>= insert_items at items

unfoldable pub stage_sync_root_remote_inventory_items :
    List RemoteItem → ℤ → SnapshotTables → Result StorageError (ℕ × SnapshotTables)
unfolding insert_items
stage_sync_root_remote_inventory_items items at t = do
  staging ← insert_items at items t.staging
  ok (length items, record t { staging = staging })

-- The catalog is complete, and its catch-up starts from the cursor.
abbrev pub snapshot_state : ℕ → ℤ → ChangeCursor → InventoryStateRow
snapshot_state item_count at catchup_from_cursor = record {
  snapshot_complete = true;
  catchup_complete = false;
  item_count = item_count;
  snapshot_completed_at_unix_ms = some at;
  catchup_from_cursor = some catchup_from_cursor.as_str;
  change_cursor = none;
}

unfoldable pub commit_sync_root_remote_inventory_snapshot :
    ChangeCursor → ℤ → SnapshotTables → Result StorageError (ℕ × SnapshotTables)
unfolding i64_try_from
commit_sync_root_remote_inventory_snapshot cursor at t = do
  item_count ← i64_try_from (length t.staging)
  ok (
    length t.staging,
    record t {
      root = record t.root {
        inventory_state = some (snapshot_state item_count at cursor);
        items = t.staging;
      };
      staging = [];
    },
  )

abbrev pub fail_unless : Bool → Result StorageError (Unit {0})
fail_unless test = reject_if (not test) sync_root_remote_rebaseline_precondition_failed

abbrev pub is_pending_at : ℕ → ℤ × LocalEventRow → Bool
is_pending_at generation (_, event) = event.baseline_generation == generation && event.is_pending

abbrev pub is_active : RemoteWriteIntentStatus → Bool
is_active planned = true
is_active submitted = true
is_active awaiting_confirmation = true
is_active conflict = true
is_active confirmed = false
is_active failed = false
is_active superseded = false

abbrev pub is_unsettled : List ℤ → ℤ × IntentRow → Bool
is_unsettled settled (id, row) = row.status == confirmed && not (contains settled id)

-- The window waits for a further page, and is the one that the caller has seen.
abbrev pub has_grown : ChangeCursor → ℕ → ℕ → Option WindowRow → Bool
has_grown base pages changes none = false
has_grown base pages changes (some window) =
    window.base_cursor == base.as_str
    && is_some window.continuation
    && not (is_some window.checkpoint)
    && window.page_count == pages
    && window.change_count == changes

abbrev pub rebased : ℕ → ℤ → ChangeCursor → SnapshotTables → SnapshotTables
rebased item_count at cursor t = record t {
  root = without_window (record t.root {
    inventory_state = some (snapshot_state item_count at cursor);
    items = t.staging;
  });
  staging = [];
  authority_state = none;
  authority = [];
}

-- What the caller has read before: the window, the local generation and the staged items.
pub record Expected : Type 0 where
  pub window_base_cursor : ChangeCursor
  pub window_page_count : ℕ
  pub window_change_count : ℕ
  pub local_generation : ℕ
  pub staged_item_count : ℕ

unfoldable pub commit_sync_root_remote_inventory_rebaseline :
    Text → Expected → ChangeCursor → ℤ → SnapshotTables → Result StorageError (ℕ × SnapshotTables)
unfolding i64_try_from
commit_sync_root_remote_inventory_rebaseline sync_root_id expected cursor at t = do
  fail_unless
      (not (is_blank sync_root_id || ltb expected.window_page_count 64 || not (is_positive at)))
  pages ← i64_try_from expected.window_page_count
  changes ← i64_try_from expected.window_change_count
  generation ← i64_try_from expected.local_generation
  staged ← i64_try_from expected.staged_item_count
  fail_unless (t.mode == some two_way)
  fail_unless (local_stands generation t.local_state)
  fail_unless (not (any (is_pending_at generation) t.local_events))
  fail_unless (not (any (λ entry. is_active entry.1.status) t.intents))
  fail_unless (not (any (is_unsettled t.settled) t.intents))
  fail_unless (has_grown expected.window_base_cursor pages changes t.root.window)
  fail_unless (catalog_stands expected.window_base_cursor.as_str t.root.inventory_state)
  fail_unless (length t.staging == staged)
  fail_unless (length t.staging == expected.staged_item_count)
  item_count ← i64_try_from (length t.staging)
  ok (length t.staging, rebased item_count at cursor t)

-- The item of a row; its time of modification is not stored.
abbrev pub item_of : Text → ItemRow → RemoteItem
item_of remote_id row = record {
  remote_id = remote_id;
  parent_remote_id = row.parent_remote_id;
  name = row.name;
  kind = row.item_kind;
  size_bytes = row.size_bytes;
  modified_unix_ms = none;
  trashed = row.trashed;
}

abbrev pub read_item : Text → Option ItemRow → Option RemoteItem
read_item remote_id none = none
read_item remote_id (some row) = some (item_of remote_id row)

unfoldable pub sync_root_remote_item : Text → RootTables → Option RemoteItem
sync_root_remote_item remote_id t = read_item remote_id (lookup remote_id t.items)

unfoldable pub upsert_sync_root_remote_item :
    RemoteItem → ℤ → RootTables → Result StorageError RootTables
unfolding upsert_sync_root_catalog_item delete_sync_root_subtree_in_transaction
    refresh_sync_root_catalog_count
upsert_sync_root_remote_item item at t = do
  changed ←
      if item.trashed
      then ok (delete_sync_root_subtree_in_transaction item.remote_id t)
      else upsert_sync_root_catalog_item item at t
  ok (refresh_sync_root_catalog_count changed)

-- The number of the deleted rows, and the tables.
unfoldable pub delete_sync_root_remote_subtree : Text → RootTables → ℕ × RootTables
unfolding delete_sync_root_subtree_in_transaction refresh_sync_root_catalog_count
delete_sync_root_remote_subtree remote_id t =
    let deleted = delete_sync_root_subtree_in_transaction remote_id t in
    (length t.items - length deleted.items, refresh_sync_root_catalog_count deleted)

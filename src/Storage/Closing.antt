-- ===== src/Storage/Closing.antt =====
-- How a change window of crates/nubisync-storage/src/lib.rs ends: it is discarded, or its changes are
-- read and committed to the catalog with its checkpoint as the next cursor.
use nubisync.Base.{
  Bool, Dict, List, Option, Result, [], false, is_some, length, nat_eq, none, not, ok, ok_or,
  option_eq, reject_if, some, sort_by, text_eq, true, ℕ, ℤ, compare, Ordering, ◌==◌, ◌>>=◌, ◌>>◌,
  ◌||◌, ◌∷◌, err, int_eq,
}
pub mod Numbered
pub mod Staged
pub mod Ready
pub mod Committed
use nubisync.Core.Ids.{ChangeCursor}
use nubisync.Core.Remote.{RemoteChange, delete, upsert}
use nubisync.Storage.Failure.{
  StorageError, invalid_stored_remote_change, sync_root_change_window_base_cursor_mismatch,
  sync_root_change_window_missing, sync_root_change_window_incomplete,
  sync_root_change_window_checkpoint_mismatch, sync_root_change_window_change_count_mismatch,
  sync_root_catalog_expected_cursor_mismatch,
}
use nubisync.Storage.Tables.{
  EventRow, delete_event, upsert_event, WindowRow, RootTables, i64_try_from,
}
use nubisync.Storage.Catalog.{
  SyncRootCatalogMutation, SyncRootCatalogBatchCommit, current_cursor, durable_cursor, replay,
}

abbrev pub without_window : RootTables → RootTables
without_window t = record t { window = none; events = []; tokens = [] }

-- The discard of a window that is open.
unfoldable pub discard_open :
    ChangeCursor → WindowRow → RootTables → Result StorageError (Bool × RootTables)
unfolding durable_cursor
discard_open expected_base_cursor window t = do
  reject_if (not (window.base_cursor == expected_base_cursor.as_str))
      sync_root_change_window_base_cursor_mismatch
  durable ← durable_cursor t.inventory_state
  reject_if (not (durable == expected_base_cursor.as_str))
      sync_root_catalog_expected_cursor_mismatch
  ok (true, without_window t)

unfoldable pub discard_sync_root_change_window :
    ChangeCursor → RootTables → Result StorageError (Bool × RootTables)
unfolding discard_open
discard_sync_root_change_window expected_base_cursor t = elim t.window [
  | none ↦ ok (false, t)
  | some window ↦ discard_open expected_base_cursor window t
]

unfoldable pub read_event : EventRow → Result StorageError RemoteChange
read_event row = elim row.event_kind [
  | delete_event ↦ ok (delete row.remote_id)
  | upsert_event ↦ (do
    name ← ok_or row.name invalid_stored_remote_change
    kind ← ok_or row.item_kind invalid_stored_remote_change
    ok (
        upsert (record {
          remote_id = row.remote_id;
          parent_remote_id = row.parent_remote_id;
          name = name;
          kind = kind;
          size_bytes = row.size_bytes;
          modified_unix_ms = none;
          trashed = row.trashed;
        })))
]

abbrev pub by_sequence : ℕ × EventRow → ℕ × EventRow → Ordering
by_sequence a b = compare a.0 b.0

unfoldable pub read_events : Dict ℕ EventRow → Result StorageError (List RemoteChange)
unfolding read_event
read_events [] = ok []
read_events ((_, row) ∷ rows) = do
  change ← read_event row
  changes ← read_events rows
  ok (change ∷ changes)

unfoldable pub sync_root_change_window_changes :
    RootTables → Result StorageError (List RemoteChange)
unfolding read_events sort_by
sync_root_change_window_changes t = read_events (sort_by by_sequence t.events)

-- The guards of a commit on the window.
unfoldable pub check_window :
    ChangeCursor → ChangeCursor → ℕ → ℕ → Option WindowRow → Result StorageError (Unit {0})
check_window expected_base expected_checkpoint expected_count stored_count none =
    err sync_root_change_window_missing
check_window expected_base expected_checkpoint expected_count stored_count (some window) = do
  reject_if (is_some window.continuation || not (is_some window.checkpoint))
      sync_root_change_window_incomplete
  reject_if (not (window.base_cursor == expected_base.as_str))
      sync_root_change_window_base_cursor_mismatch
  reject_if (not (window.checkpoint == some expected_checkpoint.as_str))
      sync_root_change_window_checkpoint_mismatch
  reject_if (not (window.change_count == expected_count))
      sync_root_change_window_change_count_mismatch
  reject_if (not (stored_count == window.change_count))
      sync_root_change_window_change_count_mismatch
  ok tt

unfoldable pub commit_sync_root_catalog_change_window :
    ChangeCursor
    → ChangeCursor
    → ℕ
    → List SyncRootCatalogMutation
    → ℤ
    → RootTables
    → Result StorageError (SyncRootCatalogBatchCommit × RootTables)
unfolding i64_try_from check_window current_cursor replay
commit_sync_root_catalog_change_window base checkpoint count mutations observed_at t = do
  expected_count ← i64_try_from count
  check_window base checkpoint expected_count (length t.events) t.window
  cursor ← current_cursor t.inventory_state
  reject_if (not (cursor == base.as_str)) sync_root_catalog_expected_cursor_mismatch
  committed ← replay mutations checkpoint observed_at t
  ok (committed.0, without_window committed.1)

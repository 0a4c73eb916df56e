-- ===== src/Storage/History.antt =====
-- Any history of the operations of crates/nubisync-storage/src/lib.rs on the catalog, the change window
-- and the receipts of one sync root.
use nubisync.Base.{List, Option, Result, Text, err, ok, option_eq, text_eq, ℕ, ℤ}
pub mod Sound
pub mod Runs
use nubisync.Core.Ids.{ChangeCursor, ContinuationToken}
use nubisync.Core.Remote.{ChangePage}
use nubisync.Storage.Failure.{StorageError}
use nubisync.Storage.Tables.{RootTables}
use nubisync.Storage.Catalog.{SyncRootCatalogMutation, commit_sync_root_catalog_batch_and_cursor}
use nubisync.Storage.Catalog.Replays.{HasKeys}
use nubisync.Storage.Window.{stage_sync_root_change_window_page}
use nubisync.Storage.Closing.{
  discard_sync_root_change_window, commit_sync_root_catalog_change_window,
}
use nubisync.Storage.Closing.Staged.{HasWindow}
use nubisync.Storage.Receipts.{
  MaterializedFile, record_sync_root_file_materialization, record_sync_root_file_materializations,
  delete_sync_root_stale_file_materialization_receipt,
  delete_sync_root_stale_file_materialization_receipts,
}
use nubisync.Storage.Receipts.Paths.{HasReceipts}
use nubisync.Storage.Directories.{
  record_sync_root_directory_materializations,
  delete_sync_root_stale_directory_materialization_receipt,
  delete_sync_root_stale_directory_materialization_receipts,
}

pub data Operation : Type 0 where
  stages : ChangeCursor → Option ContinuationToken → ChangePage → Operation
  discards : ChangeCursor → Operation
  commits_batch : ChangeCursor → List SyncRootCatalogMutation → ChangeCursor → ℤ → Operation
  commits_window : ChangeCursor → ChangeCursor → ℕ → List SyncRootCatalogMutation → ℤ → Operation
  records_file : MaterializedFile → ℤ → Operation
  records_files : List MaterializedFile → ℤ → Operation
  records_directories : List (Text × Text) → ℤ → Operation
  deletes_file deletes_directory : Text → Operation
  deletes_files deletes_directories : List Text → Operation

-- The tables after a transaction that returns the value and the tables, or an error.
abbrev pub after_transaction :
    {A : Type 0} → RootTables → Result StorageError (A × RootTables) → RootTables
after_transaction t (err _) = t
after_transaction t (ok (_, t')) = t'

abbrev pub with_unit : Result StorageError RootTables → Result StorageError (Unit {0} × RootTables)
with_unit (err e) = err e
with_unit (ok t) = ok (tt, t)

unfoldable pub after : Operation → RootTables → RootTables
unfolding stage_sync_root_change_window_page discard_sync_root_change_window
    commit_sync_root_catalog_batch_and_cursor commit_sync_root_catalog_change_window
    record_sync_root_file_materialization record_sync_root_file_materializations
    record_sync_root_directory_materializations delete_sync_root_stale_file_materialization_receipt
    delete_sync_root_stale_directory_materialization_receipt
    delete_sync_root_stale_file_materialization_receipts
    delete_sync_root_stale_directory_materialization_receipts
after (stages base expected page) t =
    after_transaction t (stage_sync_root_change_window_page base expected page t)
after (discards base) t = after_transaction t (discard_sync_root_change_window base t)
after (commits_batch expected ms next at) t =
    after_transaction t (commit_sync_root_catalog_batch_and_cursor expected ms next at t)
after (commits_window base checkpoint count ms at) t =
    after_transaction t (commit_sync_root_catalog_change_window base checkpoint count ms at t)
after (records_file entry at) t =
    after_transaction t (with_unit (record_sync_root_file_materialization entry at t))
after (records_files entries at) t =
    after_transaction t (record_sync_root_file_materializations entries at t)
after (records_directories entries at) t =
    after_transaction t (record_sync_root_directory_materializations entries at t)
after (deletes_file id) t = (delete_sync_root_stale_file_materialization_receipt id t).1
after (deletes_directory id) t = (delete_sync_root_stale_directory_materialization_receipt id t).1
after (deletes_files ids) t =
    after_transaction t (delete_sync_root_stale_file_materialization_receipts ids t)
after (deletes_directories ids) t =
    after_transaction t (delete_sync_root_stale_directory_materialization_receipts ids t)

-- The catalog has one row for an id; every current receipt is of a live item of the catalog, a file's
-- with its size, and no two of files are at one path; and an open window is consistent.
pub record IsSound (t : RootTables) : Type 0 where
  pub one_row : HasKeys t
  pub receipts : HasReceipts t
  pub window_holds : HasWindow t

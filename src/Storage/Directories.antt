-- ===== src/Storage/Directories.antt =====
-- The receipts of materialized directories in crates/nubisync-storage/src/lib.rs.
use nubisync.Base.{
  Bool, Dict, List, Option, Result, Text, [], contains, erase, false, if◌then◌else◌, insert, length,
  lookup, none, not, ok, ok_or, option_eq, reject_if, some, text_eq, true, ℕ, ℤ, ◌&&◌, ◌==◌, ◌>>=◌,
  ◌>>◌, ◌||◌, ◌∷◌, int_eq, nat_eq,
}
pub mod Matching
use nubisync.Core.Remote.{folder, kind_eq}
use nubisync.Storage.Failure.{
  StorageError, invalid_directory_materialization_receipt,
  directory_materialization_receipt_remote_item_missing,
  directory_materialization_receipt_remote_item_mismatch,
  stale_directory_materialization_receipt_batch_mismatch, sqlite,
}
use nubisync.Storage.Tables.{DirectoryReceiptRow, ItemRow, RootTables, current}
use nubisync.Storage.Receipts.{is_current, is_bad_target, check_ids}

unfoldable pub validate_directory_materialization_receipt_values :
    Text → Text → Result StorageError (Unit {0})
unfolding is_bad_target
validate_directory_materialization_receipt_values remote_id relative_path =
    reject_if (is_bad_target remote_id relative_path) invalid_directory_materialization_receipt

-- Another row is current at the path: the partial unique index on current paths is violated.
unfoldable pub directory_path_taken : Text → Text → Dict Text DirectoryReceiptRow → Bool
directory_path_taken remote_id path [] = false
directory_path_taken remote_id path ((id, row) ∷ rows) =
    (not (id == remote_id) && is_current row.receipt_state && row.relative_path == path)
    || directory_path_taken remote_id path rows

abbrev pub is_live_folder : ItemRow → Bool
is_live_folder item = item.item_kind == folder && not item.trashed

abbrev pub directory_receipt : Text → ℤ → DirectoryReceiptRow
directory_receipt relative_path materialized_at_unix_ms = record {
  relative_path = relative_path;
  materialized_at_unix_ms = materialized_at_unix_ms;
  receipt_state = current;
}

-- An id and its path.
unfoldable pub record_directory : ℤ → Text × Text → RootTables → Result StorageError RootTables
unfolding directory_path_taken
record_directory materialized_at_unix_ms (remote_id, path) t = do
  item ← ok_or (lookup remote_id t.items) directory_materialization_receipt_remote_item_missing
  reject_if (not (is_live_folder item)) directory_materialization_receipt_remote_item_mismatch
  reject_if (directory_path_taken remote_id path t.directory_receipts) sqlite
  ok (record t {
    directory_receipts =
        insert remote_id (directory_receipt path materialized_at_unix_ms) t.directory_receipts;
  })

unfoldable pub check_directories :
    List Text → List Text → List (Text × Text) → Result StorageError (Unit {0})
unfolding validate_directory_materialization_receipt_values
check_directories ids paths [] = ok tt
check_directories ids paths ((remote_id, path) ∷ entries) = do
  validate_directory_materialization_receipt_values remote_id path
  reject_if (contains ids remote_id || contains paths path)
      invalid_directory_materialization_receipt
  check_directories (remote_id ∷ ids) (path ∷ paths) entries

unfoldable pub record_directories :
    ℤ → List (Text × Text) → RootTables → Result StorageError RootTables
unfolding record_directory
record_directories materialized_at_unix_ms [] t = ok t
record_directories materialized_at_unix_ms (entry ∷ entries) t = do
  after ← record_directory materialized_at_unix_ms entry t
  record_directories materialized_at_unix_ms entries after

unfoldable pub record_sync_root_directory_materializations :
    List (Text × Text) → ℤ → RootTables → Result StorageError (ℕ × RootTables)
unfolding check_directories record_directories
record_sync_root_directory_materializations [] materialized_at_unix_ms t = ok (0, t)
record_sync_root_directory_materializations (entry ∷ entries) materialized_at_unix_ms t = do
  check_directories [] [] (entry ∷ entries)
  after ← record_directories materialized_at_unix_ms (entry ∷ entries) t
  ok (length (entry ∷ entries), after)

abbrev pub is_stale_directory : Option DirectoryReceiptRow → Bool
is_stale_directory none = false
is_stale_directory (some row) = not (is_current row.receipt_state)

unfoldable pub delete_sync_root_stale_directory_materialization_receipt :
    Text → RootTables → Bool × RootTables
delete_sync_root_stale_directory_materialization_receipt remote_id t =
    if is_stale_directory (lookup remote_id t.directory_receipts)
    then (true, record t { directory_receipts = erase remote_id t.directory_receipts })
    else (false, t)

unfoldable pub delete_stale_directories :
    List Text → Dict Text DirectoryReceiptRow → Result StorageError (Dict Text DirectoryReceiptRow)
delete_stale_directories [] rows = ok rows
delete_stale_directories (id ∷ ids) rows = do
  reject_if (not (is_stale_directory (lookup id rows)))
      stale_directory_materialization_receipt_batch_mismatch
  delete_stale_directories ids (erase id rows)

unfoldable pub delete_sync_root_stale_directory_materialization_receipts :
    List Text → RootTables → Result StorageError (ℕ × RootTables)
unfolding check_ids delete_stale_directories
delete_sync_root_stale_directory_materialization_receipts [] t = ok (0, t)
delete_sync_root_stale_directory_materialization_receipts (id ∷ ids) t = do
  check_ids invalid_directory_materialization_receipt [] (id ∷ ids)
  rows ← delete_stale_directories (id ∷ ids) t.directory_receipts
  ok (length (id ∷ ids), record t { directory_receipts = rows })

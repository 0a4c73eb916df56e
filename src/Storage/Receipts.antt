-- ===== src/Storage/Receipts.antt =====
-- The receipts of materialized files in crates/nubisync-storage/src/lib.rs: recorded one by one or in
-- a batch, listed, counted, and deleted once they are stale.
pub mod Matching
pub mod Steps
pub mod Deleted
pub mod Recorded
pub mod Paths
use nubisync.Base.{
  Bool, Dict, List, Option, Result, Text, [], any, all, byte_len, contains, ends_with_char, erase,
  false, if◌then◌else◌, insert, is_blank, is_empty, leb, length, lookup, nat_eq, none, not, ok,
  ok_or, option_eq, reject_if, some, split, starts_with_char, text_eq, true, ℕ, ℤ, ◌&&◌, ◌==◌,
  ◌>>=◌, ◌>>◌, ◌||◌, ◌∷◌, int_eq,
}
use nubisync.Core.Path.{slash, is_bad_component}
use nubisync.Core.Remote.{file, kind_eq}
use nubisync.Storage.Failure.{
  StorageError, invalid_materialization_receipt, materialization_receipt_remote_item_missing,
  materialization_receipt_remote_item_mismatch, stale_materialization_receipt_batch_mismatch,
  sqlite,
}
use nubisync.Storage.Tables.{
  FileReceiptRow, ItemRow, ReceiptState, RootTables, current, stale, i64_try_from,
}

abbrev pub is_current : ReceiptState → Bool
is_current current = true
is_current stale = false

-- What both kinds of receipt ask of an id and a path.
unfoldable pub is_bad_target : Text → Text → Bool
unfolding is_blank split
is_bad_target remote_id relative_path =
    is_blank remote_id
    || is_empty relative_path
    || starts_with_char slash relative_path
    || ends_with_char slash relative_path
    || contains relative_path 0
    || any is_bad_component (split slash relative_path)

-- The test on the bytes. A character beyond ASCII has only bytes from 0x80 up, which fail it.
unfoldable pub is_lower_hex : ℕ → Bool
is_lower_hex c = (leb b'0' c && leb c b'9') || (leb b'a' c && leb c b'f')

unfoldable pub validate_materialization_receipt_values :
    Text → Text → Text → Result StorageError (Unit {0})
unfolding is_bad_target is_lower_hex byte_len
validate_materialization_receipt_values remote_id relative_path sha256_hex =
    reject_if
      (is_bad_target remote_id relative_path
        || not (byte_len sha256_hex == 64)
        || not (all is_lower_hex sha256_hex))
      invalid_materialization_receipt

-- Another row is current at the path: the partial unique index on current paths is violated.
unfoldable pub file_path_taken : Text → Text → Dict Text FileReceiptRow → Bool
file_path_taken remote_id path [] = false
file_path_taken remote_id path ((id, row) ∷ rows) =
    (not (id == remote_id) && is_current row.receipt_state && row.relative_path == path)
    || file_path_taken remote_id path rows

abbrev pub is_file_of : ItemRow → ℕ → Bool
is_file_of item size_bytes =
    item.item_kind == file && not item.trashed && item.size_bytes == some size_bytes

-- The file that is materialized: its id, path, size and hash.
pub record MaterializedFile : Type 0 where
  pub remote_id : Text
  pub relative_path : Text
  pub size_bytes : ℕ
  pub sha256_hex : Text

abbrev pub receipt_of : MaterializedFile → ℤ → FileReceiptRow
receipt_of entry materialized_at_unix_ms = record {
  relative_path = entry.relative_path;
  size_bytes = entry.size_bytes;
  sha256_hex = entry.sha256_hex;
  materialized_at_unix_ms = materialized_at_unix_ms;
  receipt_state = current;
}

-- The check against the catalog, and the insertion of a current receipt.
unfoldable pub record_file : ℤ → MaterializedFile → RootTables → Result StorageError RootTables
unfolding i64_try_from file_path_taken
record_file materialized_at_unix_ms entry t = do
  size_bytes ← i64_try_from entry.size_bytes
  item ← ok_or (lookup entry.remote_id t.items) materialization_receipt_remote_item_missing
  reject_if (not (is_file_of item size_bytes)) materialization_receipt_remote_item_mismatch
  reject_if (file_path_taken entry.remote_id entry.relative_path t.file_receipts) sqlite
  ok (record t {
    file_receipts =
        insert entry.remote_id (receipt_of entry materialized_at_unix_ms) t.file_receipts;
  })

unfoldable pub record_sync_root_file_materialization :
    MaterializedFile → ℤ → RootTables → Result StorageError RootTables
unfolding validate_materialization_receipt_values record_file
record_sync_root_file_materialization entry materialized_at_unix_ms t = do
  validate_materialization_receipt_values entry.remote_id entry.relative_path entry.sha256_hex
  record_file materialized_at_unix_ms entry t

-- The loop over a batch before its transaction, with the ids and the paths that it has seen.
unfoldable pub check_files :
    List Text → List Text → List MaterializedFile → Result StorageError (Unit {0})
unfolding validate_materialization_receipt_values
check_files ids paths [] = ok tt
check_files ids paths (entry ∷ entries) = do
  validate_materialization_receipt_values entry.remote_id entry.relative_path entry.sha256_hex
  reject_if (contains ids entry.remote_id || contains paths entry.relative_path)
      invalid_materialization_receipt
  check_files (entry.remote_id ∷ ids) (entry.relative_path ∷ paths) entries

unfoldable pub record_files :
    ℤ → List MaterializedFile → RootTables → Result StorageError RootTables
unfolding record_file
record_files materialized_at_unix_ms [] t = ok t
record_files materialized_at_unix_ms (entry ∷ entries) t = do
  after ← record_file materialized_at_unix_ms entry t
  record_files materialized_at_unix_ms entries after

unfoldable pub record_sync_root_file_materializations :
    List MaterializedFile → ℤ → RootTables → Result StorageError (ℕ × RootTables)
unfolding check_files record_files
record_sync_root_file_materializations [] materialized_at_unix_ms t = ok (0, t)
record_sync_root_file_materializations (entry ∷ entries) materialized_at_unix_ms t = do
  check_files [] [] (entry ∷ entries)
  after ← record_files materialized_at_unix_ms (entry ∷ entries) t
  ok (length (entry ∷ entries), after)

abbrev pub is_stale_file : Option FileReceiptRow → Bool
is_stale_file none = false
is_stale_file (some row) = not (is_current row.receipt_state)

unfoldable pub delete_sync_root_stale_file_materialization_receipt :
    Text → RootTables → Bool × RootTables
delete_sync_root_stale_file_materialization_receipt remote_id t =
    if is_stale_file (lookup remote_id t.file_receipts)
    then (true, record t { file_receipts = erase remote_id t.file_receipts })
    else (false, t)

-- The loop over the ids before the transaction, with those that it has seen.
unfoldable pub check_ids : StorageError → List Text → List Text → Result StorageError (Unit {0})
unfolding is_blank
check_ids failure seen [] = ok tt
check_ids failure seen (id ∷ ids) = do
  reject_if (is_blank id || contains seen id) failure
  check_ids failure (id ∷ seen) ids

unfoldable pub delete_stale_files :
    List Text → Dict Text FileReceiptRow → Result StorageError (Dict Text FileReceiptRow)
delete_stale_files [] rows = ok rows
delete_stale_files (id ∷ ids) rows = do
  reject_if (not (is_stale_file (lookup id rows))) stale_materialization_receipt_batch_mismatch
  delete_stale_files ids (erase id rows)

unfoldable pub delete_sync_root_stale_file_materialization_receipts :
    List Text → RootTables → Result StorageError (ℕ × RootTables)
unfolding check_ids delete_stale_files
delete_sync_root_stale_file_materialization_receipts [] t = ok (0, t)
delete_sync_root_stale_file_materialization_receipts (id ∷ ids) t = do
  check_ids invalid_materialization_receipt [] (id ∷ ids)
  rows ← delete_stale_files (id ∷ ids) t.file_receipts
  ok (length (id ∷ ids), record t { file_receipts = rows })

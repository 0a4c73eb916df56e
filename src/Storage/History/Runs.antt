-- ===== src/Storage/History/Runs.antt =====
-- Any history of the operations of crates/nubisync-storage/src/lib.rs keeps the tables of a sync root.
use nubisync.Base.{
  Dict, Bool, true, false, if◌then◌else◌, lookup, lookup-erase, erase, List, Text, Result, [], ◌∷◌,
  ◌≡◌, arith, err, ok, ok-injective, option_eq, sym, text_eq, >>=-eq-ok, >>-eq-ok, all, int_eq,
  nat_eq,
}
use mathlib.Core.Path.{subst}
use nubisync.Storage.Failure.{
  invalid_materialization_receipt, invalid_directory_materialization_receipt, StorageError,
}
use nubisync.Storage.Tables.{RootTables, FileReceiptRow}
use nubisync.Storage.Receipts.{
  check_files, check_ids, record_files, record_sync_root_file_materialization,
  record_sync_root_file_materializations, delete_sync_root_stale_file_materialization_receipt,
  delete_sync_root_stale_file_materialization_receipts, delete_stale_files, is_stale_file,
  validate_materialization_receipt_values,
}
use nubisync.Storage.Receipts.Deleted.{lookup-delete_stale_files}
use nubisync.Storage.Receipts.Paths.{HasReceipts, erased-HasUniquePaths, deleted-HasUniquePaths}
use nubisync.Storage.Directories.{
  record_sync_root_directory_materializations, record_directories, check_directories,
  delete_sync_root_stale_directory_materialization_receipt,
  delete_sync_root_stale_directory_materialization_receipts, delete_stale_directories,
  is_stale_directory,
}
use nubisync.Storage.Directories.Matching.{
  record_directories-Match, erased-DirectoriesMatch, deleted-DirectoriesMatch,
}
use nubisync.Storage.History.Sound.{
  with_files-IsSound, after_transaction-IsSound, stages-IsSound, discards-IsSound,
  commits_batch-IsSound, commits_window-IsSound, record_file-IsSound, record_files-IsSound,
  with_directories-IsSound,
}
use nubisync.Storage.History.{
  Operation, stages, discards, commits_batch, commits_window, records_file, records_files,
  records_directories, deletes_file, deletes_directory, deletes_files, deletes_directories, after,
  with_unit, IsSound,
}

with_unit-ok :
    (r : Result StorageError RootTables) {u : Unit {0}} {t : RootTables}
    → with_unit r ≡ ok (u, t)
    → r ≡ ok t
with_unit-ok (err e) h = ground arith
with_unit-ok (ok t) h = ground (arith, h)

if-IsSound :
    (test : Bool) (x y : Bool × RootTables)
    → IsSound x.1
    → IsSound y.1
    → IsSound (if test then x else y).1
if-IsSound true x y h k = h
if-IsSound false x y h k = k

erased-HasReceipts :
    (id : Text) (t : RootTables)
    → HasReceipts t
    → HasReceipts (record t { file_receipts = erase id t.file_receipts })
erased-HasReceipts id t ((files, directories), unique) = (
  (λ x. ground (arith, lookup-erase id x t.file_receipts, files x), directories),
  erased-HasUniquePaths id t.file_receipts unique,
)

deleted-HasReceipts :
    (ids : List Text) (t : RootTables) {rows : Dict Text FileReceiptRow}
    → delete_stale_files ids t.file_receipts ≡ ok rows
    → HasReceipts t
    → HasReceipts (record t { file_receipts = rows })
deleted-HasReceipts ids t e ((files, directories), unique) = (
  (λ x. ground (arith, lookup-delete_stale_files ids t.file_receipts e x, files x), directories),
  deleted-HasUniquePaths ids t.file_receipts e unique,
)

-- Every operation keeps the tables sound, whether it succeeds or not.
pub after-IsSound : (o : Operation) (t : RootTables) → IsSound t → IsSound (after o t)
unfolding after record_sync_root_file_materialization record_sync_root_file_materializations
    record_sync_root_directory_materializations delete_sync_root_stale_file_materialization_receipt
    delete_sync_root_stale_directory_materialization_receipt
    delete_sync_root_stale_file_materialization_receipts
    delete_sync_root_stale_directory_materialization_receipts
after-IsSound (stages base expected page) t h = stages-IsSound base expected page t h
after-IsSound (discards base) t h = discards-IsSound base t h
after-IsSound (commits_batch expected ms next at) t h =
    commits_batch-IsSound expected ms next at t h
after-IsSound (commits_window base checkpoint count ms at) t h =
    commits_window-IsSound base checkpoint count ms at t h
after-IsSound (records_file entry at) t h =
    after_transaction-IsSound t (with_unit (record_sync_root_file_materialization entry at t)) h
      (λ u t' e.
        let recorded = with_unit-ok (record_sync_root_file_materialization entry at t) e in
        let (_, last) =
          >>-eq-ok
            (validate_materialization_receipt_values entry.remote_id entry.relative_path
              entry.sha256_hex)
            _ recorded in
        record_file-IsSound at entry t h last)
after-IsSound (records_files [] at) t h = h
after-IsSound (records_files (entry ∷ entries) at) t h =
    after_transaction-IsSound t (record_sync_root_file_materializations (entry ∷ entries) at t) h
      (λ n t' e.
        let (_, e1) = >>-eq-ok (check_files [] [] (entry ∷ entries)) _ e in
        let (next, all, last) = >>=-eq-ok (record_files at (entry ∷ entries) t) _ e1 in
        subst (λ r. IsSound r.1) (ok-injective last)
          (record_files-IsSound at (entry ∷ entries) t h all))
after-IsSound (records_directories [] at) t h = h
after-IsSound (records_directories (entry ∷ entries) at) t h =
    after_transaction-IsSound t (record_sync_root_directory_materializations (entry ∷ entries) at t)
      h
      (λ n t' e.
        let (_, e1) = >>-eq-ok (check_directories [] [] (entry ∷ entries)) _ e in
        let (next, all, last) = >>=-eq-ok (record_directories at (entry ∷ entries) t) _ e1 in
        let (rows, same, right) =
          record_directories-Match at (entry ∷ entries) t all h.receipts.0.1 in
        subst (λ r. IsSound r.1) (ok-injective last)
          (subst IsSound (sym same) (with_directories-IsSound t rows h right)))
after-IsSound (deletes_file id) t h =
    if-IsSound (is_stale_file (lookup id t.file_receipts)) _ _
      (with_files-IsSound t (erase id t.file_receipts) h (erased-HasReceipts id t h.receipts)) h
after-IsSound (deletes_directory id) t h =
    if-IsSound (is_stale_directory (lookup id t.directory_receipts)) _ _
      (with_directories-IsSound t (erase id t.directory_receipts) h
        (erased-DirectoriesMatch id t.items t.directory_receipts h.receipts.0.1))
      h
after-IsSound (deletes_files []) t h = h
after-IsSound (deletes_files (id ∷ ids)) t h =
    after_transaction-IsSound t (delete_sync_root_stale_file_materialization_receipts (id ∷ ids) t)
      h
      (λ n t' e.
        let (_, e1) = >>-eq-ok (check_ids invalid_materialization_receipt [] (id ∷ ids)) _ e in
        let (rows, deleted, last) =
          >>=-eq-ok (delete_stale_files (id ∷ ids) t.file_receipts) _ e1 in
        subst (λ r. IsSound r.1) (ok-injective last)
          (with_files-IsSound t rows h (deleted-HasReceipts (id ∷ ids) t deleted h.receipts)))
after-IsSound (deletes_directories []) t h = h
after-IsSound (deletes_directories (id ∷ ids)) t h =
    after_transaction-IsSound t
      (delete_sync_root_stale_directory_materialization_receipts (id ∷ ids) t) h
      (λ n t' e.
        let (_, e1) =
          >>-eq-ok (check_ids invalid_directory_materialization_receipt [] (id ∷ ids)) _ e in
        let (rows, deleted, last) =
          >>=-eq-ok (delete_stale_directories (id ∷ ids) t.directory_receipts) _ e1 in
        subst (λ r. IsSound r.1) (ok-injective last)
          (with_directories-IsSound t rows h (
            deleted-DirectoriesMatch (id ∷ ids) t.items t.directory_receipts deleted
              h.receipts.0.1)))

-- A history of operations, from the first on.
unfoldable pub after_all : List Operation → RootTables → RootTables
unfolding after
after_all [] t = t
after_all (o ∷ os) t = after_all os (after o t)

-- Any history of operations keeps the tables sound, whichever of them succeed: the catalog has one row
-- for an id, every current receipt is of a live item of the catalog, a file's with its size and at a
-- path of its own, and an open window is consistent.
pub after_all-IsSound :
    (os : List Operation) (t : RootTables) → IsSound t → IsSound (after_all os t)
unfolding after_all
after_all-IsSound [] t h = h
after_all-IsSound (o ∷ os) t h = after_all-IsSound os (after o t) (after-IsSound o t h)

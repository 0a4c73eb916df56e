-- ===== src/Storage/Directories/Matching.antt =====
-- Recording and deleting receipts of directories in crates/nubisync-storage/src/lib.rs keeps current
-- receipts right.
use nubisync.Base.{
  sym, Dict, List, Option, Text, [], ◌∷◌, ◌≡◌, arith, erase, insert, lookup, lookup-erase,
  lookup-insert, none, not, ok, ok-injective, ok_or, option_eq, reject_if, reject_if-false, some,
  text_eq, ℤ, >>=-eq-ok, >>-eq-ok, int_eq, nat_eq,
}
use mathlib.Core.Path.{subst}
use nubisync.Core.Remote.{kind_eq}
use nubisync.Storage.Failure.{StorageError}
use nubisync.Storage.Tables.{ItemRow, DirectoryReceiptRow, RootTables}
use nubisync.Storage.Receipts.Matching.{DirectoriesMatch}
use nubisync.Storage.Directories.{
  record_directory, record_directories, is_live_folder, directory_path_taken, directory_receipt,
  is_stale_directory, delete_stale_directories,
}

-- A table of receipts of directories, with all else as it is.
abbrev pub with_directories : RootTables → Dict Text DirectoryReceiptRow → RootTables
with_directories t rows = record t { directory_receipts = rows }

record_directory-Match :
    (at : ℤ) (entry : Text × Text) (t : RootTables) {t' : RootTables}
    → record_directory at entry t ≡ ok t'
    → DirectoriesMatch t.items t.directory_receipts
    → (rows : Dict Text DirectoryReceiptRow) × (t' ≡ with_directories t rows)
      × DirectoriesMatch t.items rows
unfolding record_directory
record_directory-Match at (id, path) t e h =
    let (item, found, e1) = >>=-eq-ok (ok_or (lookup id t.items) _) _ e in
    let (live, e2) = >>-eq-ok (reject_if (not (is_live_folder item)) _) _ e1 in
    let (_, last) =
      >>-eq-ok (reject_if (directory_path_taken id path t.directory_receipts) _) _ e2 in
    let there = ok_or-some (lookup id t.items) _ found in
    let right = reject_if-false _ _ live in
    let row = directory_receipt path at in
    (
      insert id row t.directory_receipts,
      sym (ok-injective last),
      λ x. ground (arith, lookup-insert id x row t.directory_receipts, there, right, h x),
    )
  where
    ok_or-some :
        (o : Option ItemRow) (f : StorageError) {i : ItemRow} → ok_or o f ≡ ok i → o ≡ some i
    ok_or-some none f h = ground arith
    ok_or-some (some j) f h = ground arith

pub record_directories-Match :
    (at : ℤ) (entries : List (Text × Text)) (t : RootTables) {t' : RootTables}
    → record_directories at entries t ≡ ok t'
    → DirectoriesMatch t.items t.directory_receipts
    → (rows : Dict Text DirectoryReceiptRow) × (t' ≡ with_directories t rows)
      × DirectoriesMatch t.items rows
unfolding record_directories
record_directories-Match at [] t e h = (t.directory_receipts, sym (ok-injective e), h)
record_directories-Match at (entry ∷ entries) t {t'} e h =
    let (after, first, rest) = >>=-eq-ok (record_directory at entry t) _ e in
    let (rows, same, right) = record_directory-Match at entry t first h in
    let (last, same', right') =
      record_directories-Match at entries (with_directories t rows)
        (subst (λ q. record_directories at entries q ≡ ok t') same rest) right in
    (last, same', right')

pub erased-DirectoriesMatch :
    (id : Text) (items : Dict Text ItemRow) (rows : Dict Text DirectoryReceiptRow)
    → DirectoriesMatch items rows
    → DirectoriesMatch items (erase id rows)
erased-DirectoriesMatch id items rows h x = ground (arith, lookup-erase id x rows, h x)

pub deleted-DirectoriesMatch :
    (ids : List Text) (items : Dict Text ItemRow) (rows : Dict Text DirectoryReceiptRow)
    {rows' : Dict Text DirectoryReceiptRow}
    → delete_stale_directories ids rows ≡ ok rows'
    → DirectoriesMatch items rows
    → DirectoriesMatch items rows'
unfolding delete_stale_directories
deleted-DirectoriesMatch [] items rows e h = subst (DirectoriesMatch items) (ok-injective e) h
deleted-DirectoriesMatch (id ∷ ids) items rows e h =
    let (_, rest) = >>-eq-ok (reject_if (not (is_stale_directory (lookup id rows))) _) _ e in
    deleted-DirectoriesMatch ids items (erase id rows) rest
      (erased-DirectoriesMatch id items rows h)

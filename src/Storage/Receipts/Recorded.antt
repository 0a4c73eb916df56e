-- ===== src/Storage/Receipts/Recorded.antt =====
-- What recording materialized files in crates/nubisync-storage/src/lib.rs does.
use nubisync.Base.{
  ℕ, length, All, IsNodup, List, map, contains, ◌||◌, [], ◌∷◌, Bool, Dict, Option, Text, ◌≡◌, arith,
  false, insert, lookup, lookup-insert, not, none, ok, ok-injective, ok_or, option_eq, reject_if,
  reject_if-false, some, sym, text_eq, true, ℤ, nat_eq, >>=-eq-ok, >>-eq-ok, int_eq, ap, ◌∙◌, all,
  refl,
}
use mathlib.Core.Path.{subst}
use nubisync.Storage.Receipts.Deleted.{AreFresh, AreFresh-tail}
use nubisync.Core.Remote.{kind_eq}
use nubisync.Storage.Failure.{StorageError}
use nubisync.Storage.Tables.{FileReceiptRow, ItemRow, RootTables, i64_try_from}
use nubisync.Storage.Receipts.{
  record_sync_root_file_materializations, check_files, record_files,
  validate_materialization_receipt_values, MaterializedFile, receipt_of, record_file, is_file_of,
  is_current, file_path_taken,
}
use nubisync.Storage.Receipts.Matching.{ReceiptsMatch}

-- No two current receipts are at one path.
abbrev pub HasUniquePaths : Dict Text FileReceiptRow → Type 0
HasUniquePaths rows =
    (x y : Text) (a b : FileReceiptRow)
    → lookup x rows ≡ some a
    → lookup y rows ≡ some b
    → is_current a.receipt_state ≡ true
    → is_current b.receipt_state ≡ true
    → a.relative_path ≡ b.relative_path
    → x ≡ y

file_path_taken-lookup :
    (id path : Text) (rows : Dict Text FileReceiptRow) (x : Text) (a : FileReceiptRow)
    → file_path_taken id path rows ≡ false
    → lookup x rows ≡ some a
    → is_current a.receipt_state ≡ true
    → a.relative_path ≡ path
    → x ≡ id
unfolding file_path_taken lookup
file_path_taken-lookup id path [] x a free e c p = ground arith
file_path_taken-lookup id path ((y, row) ∷ rows) x a free e c p =
    ground (arith, file_path_taken-lookup id path rows x a)

-- What the insertion of a receipt has checked and done.
pub record Recording (at : ℤ) (entry : MaterializedFile) (t t' : RootTables) : Type 0 where
  pub item : ItemRow
  pub found : lookup entry.remote_id t.items ≡ some item
  pub fits : is_file_of item entry.size_bytes ≡ true
  pub free : file_path_taken entry.remote_id entry.relative_path t.file_receipts ≡ false
  pub result :
      t' ≡ record t { file_receipts = insert entry.remote_id (receipt_of entry at) t.file_receipts }

pub record_file-Recording :
    (at : ℤ) (entry : MaterializedFile) (t : RootTables) {t' : RootTables}
    → record_file at entry t ≡ ok t'
    → Recording at entry t t'
unfolding record_file i64_try_from
record_file-Recording at entry t e =
    let (size, small, e1) = >>=-eq-ok (i64_try_from entry.size_bytes) _ e in
    let (item, found, e2) = >>=-eq-ok (ok_or (lookup entry.remote_id t.items) _) _ e1 in
    let (right, e3) = >>-eq-ok (reject_if (not (is_file_of item size)) _) _ e2 in
    let (free, last) =
      >>-eq-ok (reject_if (file_path_taken entry.remote_id entry.relative_path t.file_receipts) _) _
        e3 in
    let same : entry.size_bytes ≡ size = ground (arith, small) in
    record {
      item = item;
      found = ok_or-some _ _ found;
      fits = ap (is_file_of item) same ∙ not-false _ (reject_if-false _ _ right);
      free = reject_if-false _ _ free;
      result = sym (ok-injective last);
    }
  where
    ok_or-some :
        (o : Option ItemRow) (f : StorageError) {i : ItemRow} → ok_or o f ≡ ok i → o ≡ some i
    ok_or-some none f h = ground arith
    ok_or-some (some j) f h = ground arith

    not-false : (b : Bool) → not b ≡ false → b ≡ true
    not-false b h = ground arith

-- A receipt that is inserted is right, and the only current one at its path.
pub record_file-Match :
    (at : ℤ) (entry : MaterializedFile) (t : RootTables) {t' : RootTables}
    → ReceiptsMatch t
    → record_file at entry t ≡ ok t'
    → ReceiptsMatch t'
record_file-Match at entry t h e =
    let r = record_file-Recording at entry t e in
    let row = receipt_of entry at in
    subst ReceiptsMatch (sym r.result) (
      λ x.
          ground
            (arith, lookup-insert entry.remote_id x row t.file_receipts, r.found, r.fits, h.0 x),
      h.1,
    )

pub record_file-HasUniquePaths :
    (at : ℤ) (entry : MaterializedFile) (t : RootTables) {t' : RootTables}
    → HasUniquePaths t.file_receipts
    → record_file at entry t ≡ ok t'
    → HasUniquePaths t'.file_receipts
record_file-HasUniquePaths at entry t h e =
    let r = record_file-Recording at entry t e in
    let row = receipt_of entry at in
    let look = (λ (z : Text). lookup-insert entry.remote_id z row t.file_receipts) in
    subst (λ q. HasUniquePaths q.file_receipts) (sym r.result)
      (λ x y a b ex ey ca cb p. ground (
        arith,
        look x,
        look y,
        h x y a b,
        file_path_taken-lookup entry.remote_id entry.relative_path t.file_receipts x a r.free,
        file_path_taken-lookup entry.remote_id entry.relative_path t.file_receipts y b r.free,
      ))

abbrev pub ids_of : MaterializedFile → Text
ids_of entry = entry.remote_id

pub record_files-Match :
    (at : ℤ) (entries : List MaterializedFile) (t : RootTables) {t' : RootTables}
    → ReceiptsMatch t
    → HasUniquePaths t.file_receipts
    → record_files at entries t ≡ ok t'
    → ReceiptsMatch t' × HasUniquePaths t'.file_receipts
unfolding record_files
record_files-Match at [] t h p e =
    subst (λ q. ReceiptsMatch q × HasUniquePaths q.file_receipts) (ok-injective e) (h, p)
record_files-Match at (entry ∷ entries) t h p e =
    let (after, first, rest) = >>=-eq-ok (record_file at entry t) _ e in
    record_files-Match at entries after (record_file-Match at entry t h first)
      (record_file-HasUniquePaths at entry t p first) rest

record_files-IsNodup :
    (ids paths : List Text) (entries : List MaterializedFile)
    → check_files ids paths entries ≡ ok tt
    → IsNodup (map ids_of entries) × AreFresh ids (map ids_of entries)
unfolding check_files
record_files-IsNodup ids paths [] e = (tt, tt)
record_files-IsNodup ids paths (entry ∷ entries) e =
    let (_, e1) =
      >>-eq-ok
        (validate_materialization_receipt_values entry.remote_id entry.relative_path
          entry.sha256_hex)
        _ e in
    let (a, rest) =
      >>-eq-ok (reject_if (contains ids entry.remote_id || contains paths entry.relative_path) _) _
        e1 in
    let (u, fresh) =
      record_files-IsNodup (entry.remote_id ∷ ids) (entry.relative_path ∷ paths) entries rest in
    let (seen, away) = AreFresh-tail ids entry.remote_id (map ids_of entries) fresh in
    ((away, u), (ground (arith, reject_if-false _ _ a), seen))

-- The receipts after the loop over a batch whose ids differ from one another.
record_files-Records :
    (at : ℤ) (entries : List MaterializedFile) (t : RootTables) {t' : RootTables}
    → IsNodup (map ids_of entries)
    → record_files at entries t ≡ ok t'
    → All (λ entry. lookup entry.remote_id t'.file_receipts ≡ some (receipt_of entry at)) entries
      × ((x : Text)
          → contains (map ids_of entries) x ≡ false
          → lookup x t'.file_receipts ≡ lookup x t.file_receipts)
unfolding record_files
record_files-Records at [] t u e =
    (tt, λ x away. ap (λ r. lookup x r.file_receipts) (sym (ok-injective e)))
record_files-Records at (entry ∷ entries) t {t'} (fresh, u) e =
    let (after, first, rest) = >>=-eq-ok (record_file at entry t) _ e in
    let r = record_file-Recording at entry t first in
    let row = receipt_of entry at in
    let (recorded, others) = record_files-Records at entries after u rest in
    let here = (λ (z : Text).
      ap (λ q. lookup z q.file_receipts) r.result
      ∙ lookup-insert entry.remote_id z row t.file_receipts) in
    (
      (ground (arith, others entry.remote_id fresh, here entry.remote_id), recorded),
      λ x away. ground (arith, others x, here x, away),
    )

-- What recording a batch has done.
pub record Records (entries : List MaterializedFile) (at : ℤ) (t : RootTables) (n : ℕ)
    (t' : RootTables) : Type 0 where
  pub counted : n ≡ length entries
  pub recorded :
      All (λ entry. lookup entry.remote_id t'.file_receipts ≡ some (receipt_of entry at)) entries
  pub others :
      (x : Text)
      → contains (map ids_of entries) x ≡ false
      → lookup x t'.file_receipts ≡ lookup x t.file_receipts
  pub receipts_kept : ReceiptsMatch t'
  pub paths_kept : HasUniquePaths t'.file_receipts

-- A batch that is recorded has a current receipt for each of its files, with the values that were
-- given, and leaves the receipts of all other ids as they were; the number that is returned is that
-- of the files. Current receipts are right afterwards and at different paths, where they were before.
pub record_batch-Records :
    (entries : List MaterializedFile) (at : ℤ) (t : RootTables) {n : ℕ} {t' : RootTables}
    → ReceiptsMatch t
    → HasUniquePaths t.file_receipts
    → record_sync_root_file_materializations entries at t ≡ ok (n, t')
    → Records entries at t n t'
unfolding record_sync_root_file_materializations
record_batch-Records [] at t h p e =
    subst (λ r. Records [] at t r.0 r.1) (ok-injective e)
      (record {
        counted = refl;
        recorded = tt;
        others = λ x away. refl;
        receipts_kept = h;
        paths_kept = p;
      })
record_batch-Records (entry ∷ entries) at t h p e =
    let (checked, e1) = >>-eq-ok (check_files [] [] (entry ∷ entries)) _ e in
    let (after, all, last) = >>=-eq-ok (record_files at (entry ∷ entries) t) _ e1 in
    let (distinct, _) = record_files-IsNodup [] [] (entry ∷ entries) checked in
    let (recorded, others) = record_files-Records at (entry ∷ entries) t distinct all in
    let (right, unique) = record_files-Match at (entry ∷ entries) t h p all in
    subst (λ r. Records (entry ∷ entries) at t r.0 r.1) (ok-injective last)
      (record {
        counted = refl;
        recorded = recorded;
        others = others;
        receipts_kept = right;
        paths_kept = unique;
      })

-- ===== src/Storage/Receipts/Deleted.antt =====
-- What the deletion of a batch of stale receipts of crates/nubisync-storage/src/lib.rs does.
use nubisync.Base.{
  All, Dict, IsNodup, List, Text, [], ◌∷◌, ◌≡◌, ◌↔◌, ap, arith, contains, erase, false,
  if◌then◌else◌, is_blank, length, lookup, lookup-erase, not, none, ok, ok-injective, option_eq,
  refl, reject_if, reject_if-false, sym, text_eq, true, ℕ, >>=-eq-ok, >>-eq-ok, int_eq, nat_eq,
}
use mathlib.Core.Path.{subst}
use nubisync.Storage.Failure.{invalid_materialization_receipt}
use nubisync.Storage.Tables.{FileReceiptRow, RootTables}
use nubisync.Storage.Receipts.{
  is_stale_file, check_ids, delete_stale_files,
  delete_sync_root_stale_file_materialization_receipts,
}

-- None of the ids was seen before.
abbrev pub AreFresh : List Text → List Text → Type 0
AreFresh seen ids = All (λ id. contains seen id ≡ false) ids

abbrev pub AreNamed : List Text → Type 0
AreNamed ids = All (λ id. is_blank id ≡ false) ids

pub AreFresh-tail :
    (seen : List Text) (id : Text) (ids : List Text)
    → AreFresh (id ∷ seen) ids
    → AreFresh seen ids × (contains ids id ≡ false)
AreFresh-tail seen id [] h = (tt, refl)
AreFresh-tail seen id (x ∷ ids) (h, hs) =
    let (rest, away) = AreFresh-tail seen id ids hs in
    ((ground (arith, h), rest), ground (arith, h, away))

abbrev pub AreStale : List Text → Dict Text FileReceiptRow → Type 0
AreStale ids rows = All (λ id. is_stale_file (lookup id rows) ≡ true) ids

AreStale-erase :
    (id : Text) (ids : List Text) (rows : Dict Text FileReceiptRow)
    → contains ids id ≡ false
    → AreStale ids (erase id rows) ↔ AreStale ids rows
AreStale-erase id [] rows away = (λ _. tt, λ _. tt)
AreStale-erase id (x ∷ ids) rows away =
    let rest = AreStale-erase id ids rows (ground (arith, away)) in
    (
      λ (h, hs). (ground (arith, h, away, lookup-erase id x rows), rest.0 hs),
      λ (h, hs). (ground (arith, h, away, lookup-erase id x rows), rest.1 hs),
    )

-- The rows without those of the ids.
pub delete_stale_files_iff :
    (ids : List Text) (rows : Dict Text FileReceiptRow)
    → IsNodup ids
    → ((rows' : Dict Text FileReceiptRow) × (delete_stale_files ids rows ≡ ok rows'))
      ↔ AreStale ids rows
unfolding delete_stale_files
delete_stale_files_iff [] rows u = (λ _. tt, λ _. (rows, refl))
delete_stale_files_iff (id ∷ ids) rows (away, u) =
    let rest = delete_stale_files_iff ids (erase id rows) u in
    let kept = AreStale-erase id ids rows away in
    (
      λ (rows', e).
          let (a, last) = >>-eq-ok (reject_if (not (is_stale_file (lookup id rows))) _) _ e in
          (ground (arith, reject_if-false _ _ a), kept.0 (rest.0 (rows', last))),
      λ (h, hs). let (rows', last) = rest.1 (kept.1 hs) in (rows', rw (h, last) refl),
    )

pub lookup-delete_stale_files :
    (ids : List Text) (rows : Dict Text FileReceiptRow) {rows' : Dict Text FileReceiptRow}
    → delete_stale_files ids rows ≡ ok rows'
    → (x : Text) → lookup x rows' ≡ (if contains ids x then none else lookup x rows)
unfolding delete_stale_files
lookup-delete_stale_files [] rows e x = ap (lookup x) (sym (ok-injective e))
lookup-delete_stale_files (id ∷ ids) rows e x =
    let (_, rest) = >>-eq-ok (reject_if (not (is_stale_file (lookup id rows))) _) _ e in
    ground (arith, lookup-delete_stale_files ids (erase id rows) rest x, lookup-erase id x rows)

-- A batch that is deleted takes the receipts of its ids and no other, and changes no other table; the
-- number that is returned is that of the ids.
delete_stale_batch-Deletes :
    (ids : List Text) (t : RootTables) {n : ℕ} {t' : RootTables}
    → delete_sync_root_stale_file_materialization_receipts ids t ≡ ok (n, t')
    → (n ≡ length ids)
      × ((x : Text)
          → lookup x t'.file_receipts ≡ (if contains ids x then none else lookup x t.file_receipts))
      × (record t' { file_receipts = t.file_receipts } ≡ t)
unfolding delete_sync_root_stale_file_materialization_receipts
delete_stale_batch-Deletes [] t e =
    subst
      (λ r.
        (r.0 ≡ 0)
        × ((x : Text) → lookup x r.1.file_receipts ≡ lookup x t.file_receipts)
        × (record r.1 { file_receipts = t.file_receipts } ≡ t))
      (ok-injective e) (refl, λ x. refl, refl)
delete_stale_batch-Deletes (id ∷ ids) t {n} {t'} e =
    let (_, e1) = >>-eq-ok (check_ids invalid_materialization_receipt [] (id ∷ ids)) _ e in
    let (rows, deleted, last) = >>=-eq-ok (delete_stale_files (id ∷ ids) t.file_receipts) _ e1 in
    subst
      (λ r.
        (r.0 ≡ length (id ∷ ids))
        × ((x : Text)
            → lookup x r.1.file_receipts
              ≡ (if contains (id ∷ ids) x then none else lookup x t.file_receipts))
        × (record r.1 { file_receipts = t.file_receipts } ≡ t))
      (ok-injective last) (refl, lookup-delete_stale_files (id ∷ ids) t.file_receipts deleted, refl)

-- ===== src/Storage/Receipts/Paths.antt =====
-- The steps of the transactions of crates/nubisync-storage/src/lib.rs make no further receipt current,
-- so that current receipts stay at different paths.
use nubisync.Base.{
  Dict, List, Option, Text, [], ◌∷◌, ◌≡◌, arith, contains, erase, false, inl, inr, is_blank, lookup,
  lookup-erase, none, ok, ok-injective, option_eq, reject_if, some, text_eq, true, ℤ, ◌==◌, ◌||◌,
  >>=-eq-ok, >>-eq-ok, Bool-cases, int_eq, nat_eq,
}
use mathlib.Core.Path.{subst}
use nubisync.Core.Remote.{RemoteItem, folder, kind_eq}
use nubisync.Storage.Tables.{FileReceiptRow, ItemRow, RootTables, optional_size}
use nubisync.Storage.Subtree.{subtree}
use nubisync.Storage.Catalog.{
  SyncRootCatalogMutation, upsert_mutation, delete_mutation, apply_mutation, apply_mutations,
  upsert_sync_root_catalog_item, delete_sync_root_subtree_in_transaction, invalidate_existing,
  invalidate_sync_root_materialization_subtree, invalidate_sync_root_file_materialization,
  stale_files, structural_change,
}
use nubisync.Storage.Receipts.{is_current, delete_stale_files}
use nubisync.Storage.Receipts.Matching.{ReceiptsMatch, lookup-stale_files, stale_file}
use nubisync.Storage.Receipts.Deleted.{lookup-delete_stale_files}
use nubisync.Storage.Receipts.Recorded.{HasUniquePaths}

-- Every current receipt is right, and no two are at one path.
abbrev pub HasReceipts : RootTables → Type 0
HasReceipts t = ReceiptsMatch t × HasUniquePaths t.file_receipts

-- A receipt that is current afterwards was the same before.
abbrev Weakens : Dict Text FileReceiptRow → Dict Text FileReceiptRow → Type 0
Weakens rows rows' =
    (x : Text) (a : FileReceiptRow)
    → lookup x rows' ≡ some a
    → is_current a.receipt_state ≡ true
    → lookup x rows ≡ some a

weakened-HasUniquePaths :
    (rows rows' : Dict Text FileReceiptRow)
    → Weakens rows rows'
    → HasUniquePaths rows
    → HasUniquePaths rows'
weakened-HasUniquePaths rows rows' w h x y a b ea eb ca cb p =
    h x y a b (w x a ea ca) (w y b eb cb) ca cb p

not_current :
    (r : Option FileReceiptRow) (a : FileReceiptRow)
    → stale_file r ≡ some a
    → is_current a.receipt_state ≡ false
not_current none a e = ground arith
not_current (some r) a e = ground (arith, e)

stale_files-Weakens :
    (ids : List Text) (rows : Dict Text FileReceiptRow) → Weakens rows (stale_files ids rows)
stale_files-Weakens ids rows x a e c = elim (Bool-cases (contains ids x)) [
  | inl p ↦ ground (arith, lookup-stale_files ids rows x, not_current (lookup x rows) a, e, c, p)
  | inr p ↦ ground (arith, lookup-stale_files ids rows x, e, p)
]

invalidate_existing-Weakens :
    (item : RemoteItem) (existing : Option ItemRow) (t : RootTables)
    → Weakens t.file_receipts (invalidate_existing item existing t).file_receipts
unfolding invalidate_existing invalidate_sync_root_materialization_subtree
    invalidate_sync_root_file_materialization
invalidate_existing-Weakens item none t = λ x a e c. e
invalidate_existing-Weakens item (some existing) t =
    elim (Bool-cases (existing.item_kind == folder)) [
      | inl was ↦ elim (Bool-cases (structural_change item existing)) [
        | inl moved ↦
            rw (was, moved) (stale_files-Weakens (subtree item.remote_id t.items) t.file_receipts)
        | inr stays ↦ rw (was, stays) (λ x a e c. e)
      ]
      | inr was ↦ rw was (stale_files-Weakens (item.remote_id ∷ []) t.file_receipts)
    ]

apply_mutation-HasUniquePaths :
    (observed : ℤ) (m : SyncRootCatalogMutation) (t : RootTables) {t' : RootTables}
    → apply_mutation observed m t ≡ ok t'
    → HasUniquePaths t.file_receipts
    → HasUniquePaths t'.file_receipts
unfolding apply_mutation upsert_sync_root_catalog_item delete_sync_root_subtree_in_transaction
    invalidate_sync_root_materialization_subtree
apply_mutation-HasUniquePaths observed (upsert_mutation item) t e h =
    let (_, upserted) = >>-eq-ok (reject_if (item.trashed || is_blank item.remote_id) _) _ e in
    let (size, _, same) = >>=-eq-ok (optional_size item.size_bytes) _ upserted in
    subst (λ r. HasUniquePaths r.file_receipts) (ok-injective same)
      (weakened-HasUniquePaths t.file_receipts _
        (invalidate_existing-Weakens item (lookup item.remote_id t.items) t) h)
apply_mutation-HasUniquePaths observed (delete_mutation top) t e h =
    let (_, same) = >>-eq-ok (reject_if (is_blank top) _) _ e in
    subst (λ r. HasUniquePaths r.file_receipts) (ok-injective same)
      (weakened-HasUniquePaths t.file_receipts _
        (stale_files-Weakens (subtree top t.items) t.file_receipts) h)

pub apply_mutations-HasUniquePaths :
    (observed : ℤ) (ms : List SyncRootCatalogMutation) (t : RootTables) {t' : RootTables}
    → apply_mutations observed ms t ≡ ok t'
    → HasUniquePaths t.file_receipts
    → HasUniquePaths t'.file_receipts
unfolding apply_mutations
apply_mutations-HasUniquePaths observed [] t e h =
    subst (λ r. HasUniquePaths r.file_receipts) (ok-injective e) h
apply_mutations-HasUniquePaths observed (m ∷ ms) t e h =
    let (after, first, rest) = >>=-eq-ok (apply_mutation observed m t) _ e in
    apply_mutations-HasUniquePaths observed ms after rest
      (apply_mutation-HasUniquePaths observed m t first h)

-- Deletions of stale receipts, one or a batch.
pub erased-HasUniquePaths :
    (id : Text) (rows : Dict Text FileReceiptRow)
    → HasUniquePaths rows
    → HasUniquePaths (erase id rows)
erased-HasUniquePaths id rows h =
    weakened-HasUniquePaths rows (erase id rows)
      (λ x a e c. ground (arith, lookup-erase id x rows, e)) h

pub deleted-HasUniquePaths :
    (ids : List Text) (rows : Dict Text FileReceiptRow) {rows' : Dict Text FileReceiptRow}
    → delete_stale_files ids rows ≡ ok rows'
    → HasUniquePaths rows
    → HasUniquePaths rows'
deleted-HasUniquePaths ids rows d h =
    weakened-HasUniquePaths rows _
      (λ x a e c. ground (arith, lookup-delete_stale_files ids rows d x, e)) h

-- ===== src/Tests/Receipts.antt =====
-- The subtrees and the receipts of crates/nubisync-storage/src/lib.rs, run.
use nubisync.Base.{
  [], ◌∷◌, ◌≡◌, ◌↔◌, codes, contains, true, ok, refl, lookup, pos, text_eq, nat_eq, option_eq,
  int_eq, erase, byte_len, insert, is_blank, is_whitespace, split, text_pair_eq, utf8_width,
}
use nubisync.Tests.{docs_id, notes_id}
use nubisync.Tests.Storage.{rows, tables, materialized, tables-HasKeys, tables-HasReceipts}
use nubisync.Core.Remote.{kind_eq}
use nubisync.Sync.Catalog.Mutations.{InSubtree}
use nubisync.Storage.Tables.{RootTables, ReceiptState, current, stale, i64_try_from}
use nubisync.Storage.Subtree.{subtree}
use nubisync.Storage.Subtree.Closed.{stored_items, subtree_iff}
use nubisync.Storage.Receipts.{
  record_sync_root_file_materializations, delete_sync_root_stale_file_materialization_receipts,
  check_files, check_ids, delete_stale_files, file_path_taken, is_bad_target, is_lower_hex,
  record_file, record_files, validate_materialization_receipt_values,
}
use nubisync.Storage.Receipts.Recorded.{Records, record_batch-Records}

subtree_iff_example :
    (contains (subtree docs_id rows) notes_id ≡ true)
    ↔ InSubtree (stored_items rows) docs_id notes_id
subtree_iff_example = subtree_iff docs_id rows notes_id tables-HasKeys

-- The tables with a receipt for `notes`.
abbrev with_receipt : ReceiptState → RootTables
with_receipt state = record tables {
  file_receipts =
      (
        notes_id,
        record {
          relative_path = codes "docs/notes";
          size_bytes = 5;
          sha256_hex = codes "0123456789abcdef0123456789abcdef0123456789abcdef0123456789abcdef";
          materialized_at_unix_ms = pos 5;
          receipt_state = state;
        },
      )
      ∷ [];
}

recorded :
    record_sync_root_file_materializations materialized (pos 5) tables
    ≡ ok (1, with_receipt current)
unfolding int_eq insert lookup byte_len is_blank is_whitespace split text_eq text_pair_eq utf8_width
    nat_eq option_eq kind_eq check_files file_path_taken is_bad_target is_lower_hex record_file
    record_files record_sync_root_file_materializations validate_materialization_receipt_values
    i64_try_from
recorded = refl

record_batch-Records_example : Records materialized (pos 5) tables 1 (with_receipt current)
record_batch-Records_example =
    record_batch-Records materialized (pos 5) tables tables-HasReceipts.0 tables-HasReceipts.1
      recorded

deleted :
    delete_sync_root_stale_file_materialization_receipts (notes_id ∷ []) (with_receipt stale)
    ≡ ok (1, tables)
unfolding int_eq erase lookup is_blank is_whitespace text_eq text_pair_eq nat_eq option_eq kind_eq
    check_ids delete_stale_files delete_sync_root_stale_file_materialization_receipts
deleted = refl

-- ===== src/Tests/Storage.antt =====
-- The catalog, the change window and the receipts of crates/nubisync-storage/src/lib.rs, run.
use nubisync.Storage.Directories.{
  check_directories, delete_stale_directories,
  delete_sync_root_stale_directory_materialization_receipt,
  delete_sync_root_stale_directory_materialization_receipts, directory_path_taken,
  record_directories, record_directory, record_sync_root_directory_materializations,
  validate_directory_materialization_receipt_values,
}
use nubisync.Base.{
  Text, List, Dict, Option, [], ◌∷◌, ◌≡◌, codes, false, true, none, some, refl, lookup, arith, ℕ,
  pos, text_eq, nat_eq, option_eq, byte_len, contains_key, erase, insert, int_eq, is_blank,
  is_whitespace, split, text_pair_eq, utf8_width,
}
use nubisync.Tests.{root_id, docs_id, notes_id, song_id}
use nubisync.Core.Ids.{ChangeCursor}
use nubisync.Core.Remote.{ChangePage, RemoteItemKind, file, folder, delete, kind_eq}
use nubisync.Storage.Tables.{
  RootTables, ItemRow, InventoryStateRow, stale, i64_checked_add, i64_try_from, optional_size,
}
use nubisync.Storage.Subtree.{subtree, grow_subtree, take_child}
use nubisync.Storage.Catalog.{
  delete_mutation, commit_sync_root_catalog_batch_and_cursor, apply_mutation, apply_mutations,
  current_cursor, delete_sync_root_subtree_in_transaction, durable_cursor, erase_all,
  invalidate_existing, invalidate_sync_root_file_materialization,
  invalidate_sync_root_materialization_subtree, refresh_sync_root_catalog_count, replay,
  set_change_cursor, stale_directories, stale_files, upsert_sync_root_catalog_item,
}
use nubisync.Storage.Catalog.Replays.{HasKeys}
use nubisync.Storage.Window.{
  stage_sync_root_change_window_page, event_of, insert_event, open_counts, stage_changes,
  stage_token,
}
use nubisync.Storage.Closing.{
  commit_sync_root_catalog_change_window, discard_sync_root_change_window, check_window,
  discard_open,
}
use nubisync.Storage.Receipts.{
  MaterializedFile, record_sync_root_file_materializations,
  delete_sync_root_stale_file_materialization_receipts, check_files, check_ids, delete_stale_files,
  delete_sync_root_stale_file_materialization_receipt, file_path_taken, is_bad_target, is_lower_hex,
  record_file, record_files, record_sync_root_file_materialization,
  validate_materialization_receipt_values,
}
use nubisync.Storage.Receipts.Paths.{HasReceipts}
use nubisync.Storage.History.{
  Operation, stages, commits_window, records_files, records_directories, deletes_files, IsSound,
  after,
}
use nubisync.Storage.History.Runs.{after_all, after_all-IsSound}

abbrev pub row_of : Option Text → Text → RemoteItemKind → Option ℕ → ItemRow
row_of parent name kind size = record {
  parent_remote_id = parent;
  name = name;
  item_kind = kind;
  size_bytes = size;
  trashed = false;
  observed_at_unix_ms = pos 1;
}

abbrev pub rows : Dict Text ItemRow
rows =
    (docs_id, row_of (some root_id) (codes "docs") folder none)
    ∷ (notes_id, row_of (some docs_id) (codes "notes") file (some 5))
    ∷ (song_id, row_of (some root_id) (codes "song") file (some 7))
    ∷ []

abbrev pub first_cursor : ChangeCursor
first_cursor = record { as_str = codes "c1" }

abbrev pub second_cursor : ChangeCursor
second_cursor = record { as_str = codes "c2" }

abbrev pub state_at : Text → ℕ → InventoryStateRow
state_at cursor count = record {
  snapshot_complete = true;
  catchup_complete = true;
  item_count = count;
  snapshot_completed_at_unix_ms = some (pos 1);
  catchup_from_cursor = some (codes "c0");
  change_cursor = some cursor;
}

-- A catalog at the first cursor, with no window and no receipt.
abbrev pub tables : RootTables
tables = record {
  inventory_state = some (state_at (codes "c1") 3);
  items = rows;
  window = none;
  events = [];
  tokens = [];
  file_receipts = [];
  directory_receipts = [];
}

pub tables-HasKeys : HasKeys tables
unfolding text_eq nat_eq
tables-HasKeys = (refl, (refl, (refl, tt)))

pub tables-HasReceipts : HasReceipts tables
unfolding lookup
tables-HasReceipts = ((λ x. refl, λ x. refl), λ x y a b e f c d p. ground arith)

tables-IsSound : IsSound tables
tables-IsSound = record {
  one_row = tables-HasKeys;
  receipts = tables-HasReceipts;
  window_holds = (refl, refl);
}

abbrev pub materialized : List MaterializedFile
materialized =
    (record {
      remote_id = notes_id;
      relative_path = codes "docs/notes";
      size_bytes = 5;
      sha256_hex = codes "0123456789abcdef0123456789abcdef0123456789abcdef0123456789abcdef";
    })
    ∷ []

abbrev pub last_page : ChangePage
last_page = record {
  changes = delete docs_id ∷ [];
  continuation = none;
  checkpoint = some second_cursor;
}

abbrev history : List Operation
history =
    records_files materialized (pos 5)
    ∷ records_directories ((docs_id, codes "docs") ∷ []) (pos 6)
    ∷ stages first_cursor none last_page
    ∷ commits_window first_cursor second_cursor 1 (delete_mutation docs_id ∷ []) (pos 7)
    ∷ deletes_files (notes_id ∷ [])
    ∷ []

-- What the history leaves: the deleted folder and its file are gone, their receipts became stale, and
-- that of the file was deleted.
abbrev left_over : RootTables
left_over = record {
  inventory_state = some (state_at (codes "c2") 1);
  items = (song_id, row_of (some root_id) (codes "song") file (some 7)) ∷ [];
  window = none;
  events = [];
  tokens = [];
  file_receipts = [];
  directory_receipts =
      (
        docs_id,
        record {
          relative_path = codes "docs";
          materialized_at_unix_ms = pos 6;
          receipt_state = stale;
        },
      )
      ∷ [];
}

leaves : after_all history tables ≡ left_over
unfolding int_eq contains_key erase insert lookup byte_len is_blank is_whitespace split text_eq
    text_pair_eq utf8_width nat_eq option_eq kind_eq apply_mutation apply_mutations
    commit_sync_root_catalog_batch_and_cursor current_cursor delete_sync_root_subtree_in_transaction
    durable_cursor erase_all invalidate_existing invalidate_sync_root_file_materialization
    invalidate_sync_root_materialization_subtree refresh_sync_root_catalog_count replay
    set_change_cursor stale_directories stale_files upsert_sync_root_catalog_item check_window
    commit_sync_root_catalog_change_window discard_open discard_sync_root_change_window
    check_directories delete_stale_directories
    delete_sync_root_stale_directory_materialization_receipt
    delete_sync_root_stale_directory_materialization_receipts directory_path_taken
    record_directories record_directory record_sync_root_directory_materializations
    validate_directory_materialization_receipt_values after after_all check_files check_ids
    delete_stale_files delete_sync_root_stale_file_materialization_receipt
    delete_sync_root_stale_file_materialization_receipts file_path_taken is_bad_target is_lower_hex
    record_file record_files record_sync_root_file_materialization
    record_sync_root_file_materializations validate_materialization_receipt_values grow_subtree
    subtree take_child i64_checked_add i64_try_from optional_size event_of insert_event open_counts
    stage_changes stage_sync_root_change_window_page stage_token
leaves = refl

after_all-IsSound_example : IsSound (after_all history tables)
after_all-IsSound_example = after_all-IsSound history tables tables-IsSound

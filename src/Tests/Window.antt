-- ===== src/Tests/Window.antt =====
-- The change window and the catalog commits of crates/nubisync-storage/src/lib.rs, run.
use nubisync.Storage.Subtree.{grow_subtree, subtree, take_child}
use nubisync.Base.{
  List, [], ◌∷◌, ◌≡◌, ◌++◌, codes, false, none, some, ok, err, refl, map, lookup, arith, pos,
  text_eq, nat_eq, option_eq, int_eq, contains_key, insert, insert_sorted, is_blank, is_whitespace,
  sort_by, text_pair_eq,
}
use nubisync.Tests.{root_id, docs_id, song_id}
use nubisync.Tests.Storage.{
  first_cursor, second_cursor, state_at, tables, last_page, row_of, tables-HasKeys,
  tables-HasReceipts,
}
use nubisync.Core.Remote.{file, delete, kind_eq}
use nubisync.Tests.Catalog.{projection, without_docs, indexed, applied}
use nubisync.Sync.Change.{unresolved_delete}
use nubisync.Sync.Catalog.Mutations.{stored}
use nubisync.Storage.Failure.{sync_root_change_window_missing}
use nubisync.Storage.Tables.{RootTables, i64_checked_add, i64_try_from, optional_size, delete_event}
use nubisync.Storage.Catalog.{
  SyncRootCatalogMutation, SyncRootCatalogBatchCommit, delete_mutation,
  commit_sync_root_catalog_batch_and_cursor, apply_mutation, apply_mutations, current_cursor,
  delete_sync_root_subtree_in_transaction, durable_cursor, erase_all, invalidate_existing,
  invalidate_sync_root_file_materialization, invalidate_sync_root_materialization_subtree,
  refresh_sync_root_catalog_count, replay, set_change_cursor, stale_directories, stale_files,
  upsert_sync_root_catalog_item,
}
use nubisync.Storage.Catalog.Replays.{catalog}
use nubisync.Storage.Catalog.Commits.{Commits}
use nubisync.Storage.Catalog.Agree.{Agrees, commit_follows_projection}
use nubisync.Storage.Window.{
  stage_sync_root_change_window_page, event_of, insert_event, open_counts, stage_changes,
  stage_token,
}
use nubisync.Storage.Closing.{
  sync_root_change_window_changes, commit_sync_root_catalog_change_window,
  discard_sync_root_change_window, check_window, read_event, read_events,
}
use nubisync.Storage.Closing.Numbered.{stored_change}
use nubisync.Storage.Closing.Staged.{HasWindow, stage_page-Stages}
use nubisync.Storage.Closing.Committed.{commit_window-Commits, commit_window_once}

abbrev mutations : List SyncRootCatalogMutation
mutations = delete_mutation docs_id ∷ []

abbrev done : SyncRootCatalogBatchCommit
done = record { mutations_applied = 1; authoritative_items = 1; completed_initial_catchup = false }

-- The tables without the folder `docs` and what is in it, at the second cursor.
abbrev deleted : RootTables
deleted = record tables {
  inventory_state = some (state_at (codes "c2") 1);
  items = (song_id, row_of (some root_id) (codes "song") file (some 7)) ∷ [];
}

committed :
    commit_sync_root_catalog_batch_and_cursor first_cursor mutations second_cursor (pos 7) tables
    ≡ ok (done, deleted)
unfolding int_eq insert lookup is_blank is_whitespace text_eq text_pair_eq nat_eq option_eq kind_eq
    apply_mutation apply_mutations commit_sync_root_catalog_batch_and_cursor current_cursor
    delete_sync_root_subtree_in_transaction erase_all invalidate_existing
    invalidate_sync_root_file_materialization invalidate_sync_root_materialization_subtree
    refresh_sync_root_catalog_count replay set_change_cursor stale_directories stale_files
    upsert_sync_root_catalog_item grow_subtree subtree take_child i64_try_from optional_size
committed = refl

agrees : Agrees (catalog tables) (stored projection)
unfolding lookup
agrees x = ground arith

commit_follows_projection_example : Agrees (catalog deleted) (stored without_docs)
commit_follows_projection_example =
    commit_follows_projection 3 (delete docs_id) unresolved_delete none projection first_cursor
      mutations second_cursor (pos 7) tables indexed tables-HasKeys tables-HasReceipts agrees
      applied refl committed

-- The tables after the last page of a window of one change is staged.
abbrev staged : RootTables
staged = record tables {
  window = some (record {
    base_cursor = codes "c1";
    continuation = none;
    checkpoint = some (codes "c2");
    page_count = 1;
    change_count = 1;
  });
  events =
      (
        0,
        record {
          event_kind = delete_event;
          remote_id = docs_id;
          parent_remote_id = none;
          name = none;
          item_kind = none;
          size_bytes = none;
          trashed = false;
        },
      )
      ∷ [];
}

staging :
    stage_sync_root_change_window_page first_cursor none last_page tables
    ≡ ok (
      record {
        base_cursor = first_cursor;
        continuation = none;
        checkpoint = some second_cursor;
        page_count = 1;
        change_count = 1;
      },
      staged,
    )
unfolding int_eq contains_key lookup is_blank is_whitespace text_eq text_pair_eq nat_eq option_eq
    durable_cursor i64_checked_add i64_try_from optional_size event_of insert_event open_counts
    stage_changes stage_sync_root_change_window_page stage_token
staging = refl

nothing_before : sync_root_change_window_changes tables ≡ ok []
unfolding insert_sorted sort_by read_event read_events sync_root_change_window_changes
nothing_before = refl

stage_page-Stages_example :
    HasWindow staged
    × (sync_root_change_window_changes staged ≡ ok ([] ++ map stored_change last_page.changes))
    × (record staged { window = none; events = []; tokens = [] } ≡ tables)
stage_page-Stages_example =
    stage_page-Stages first_cursor none last_page tables staging (refl, refl) nothing_before

window_committed :
    commit_sync_root_catalog_change_window first_cursor second_cursor 1 mutations (pos 7) staged
    ≡ ok (done, deleted)
unfolding int_eq insert lookup is_blank is_whitespace text_eq text_pair_eq nat_eq option_eq kind_eq
    apply_mutation apply_mutations current_cursor delete_sync_root_subtree_in_transaction erase_all
    invalidate_existing invalidate_sync_root_file_materialization
    invalidate_sync_root_materialization_subtree refresh_sync_root_catalog_count replay
    set_change_cursor stale_directories stale_files upsert_sync_root_catalog_item check_window
    commit_sync_root_catalog_change_window grow_subtree subtree take_child i64_try_from
    optional_size
window_committed = refl

commit_window-Commits_example :
    Commits mutations (codes "c2") staged deleted done
    × (deleted.window ≡ none)
    × (deleted.events ≡ [])
    × (deleted.tokens ≡ [])
commit_window-Commits_example =
    commit_window-Commits first_cursor second_cursor 1 mutations (pos 7) staged tables-HasKeys
      tables-HasReceipts window_committed

commit_window_once_example :
    (commit_sync_root_catalog_change_window first_cursor second_cursor 1 mutations (pos 7) deleted
      ≡ err sync_root_change_window_missing)
    × (discard_sync_root_change_window first_cursor deleted ≡ ok (false, deleted))
commit_window_once_example =
    commit_window_once first_cursor second_cursor 1 mutations (pos 7) staged window_committed

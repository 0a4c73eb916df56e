-- ===== src/Tests/Snapshot.antt =====
-- The remote snapshot and the rebaseline of crates/nubisync-storage/src/lib.rs, run.
use nubisync.Base.{
  is_blank, is_whitespace, Text, Dict, [], ◌∷◌, ◌≡◌, codes, true, none, some, ok, refl, length, pos,
  text_eq, nat_eq, option_eq, int_eq, insert,
}
use nubisync.Tests.{root_id, docs_id, song_id, docs, song}
use nubisync.Tests.Storage.{first_cursor, second_cursor, tables, row_of}
use nubisync.Core.Remote.{file, folder}
use nubisync.Core.Modes.{mode_eq, two_way}
use nubisync.Storage.Tables.{ItemRow, i64_try_from, optional_size}
use nubisync.Storage.Catalog.{current_cursor}
use nubisync.Storage.Intents.{status_eq}
use nubisync.Storage.Snapshot.{
  SnapshotTables, Expected, snapshot_state, begin_sync_root_remote_inventory_staging,
  stage_sync_root_remote_inventory_items, staged_sync_root_remote_inventory_count,
  commit_sync_root_remote_inventory_snapshot, commit_sync_root_remote_inventory_rebaseline,
  sync_root_remote_item, insert_items, insert_sync_root_inventory_item,
}
use nubisync.Storage.Snapshot.Staged.{last_with, read-commit_snapshot}
use nubisync.Storage.Snapshot.Ready.{IsReadyToRebase}
use nubisync.Storage.Snapshot.Rebased.{Rebases, commit_rebaseline-Rebases}

-- A root whose window waits for its page after the sixty-fourth, with a row left in the staging table.
abbrev before : SnapshotTables
before = record {
  root = record tables {
    window = some (record {
      base_cursor = codes "c1";
      continuation = some (codes "t64");
      checkpoint = none;
      page_count = 64;
      change_count = 0;
    });
    tokens = codes "t64" ∷ [];
  };
  staging = (docs_id, row_of (some root_id) (codes "old") folder none) ∷ [];
  mode = some two_way;
  local_state =
      some (record { snapshot_complete = true; generation = 2; observation_valid = true });
  local_events = [];
  authority_state = some (record { change_cursor = codes "c1"; item_count = 4 });
  authority = (root_id, true) ∷ [];
  settled = [];
  intents = [];
}

abbrev fresh_rows : Dict Text ItemRow
fresh_rows =
    (docs_id, row_of (some root_id) (codes "docs") folder none)
    ∷ (song_id, row_of (some root_id) (codes "song") file (some 7))
    ∷ []

abbrev with_staging : SnapshotTables
with_staging = record before { staging = fresh_rows }

staging :
    stage_sync_root_remote_inventory_items
      (docs ∷ song ∷ [])
      (pos 1)
      (begin_sync_root_remote_inventory_staging before)
    ≡ ok (2, with_staging)
unfolding int_eq insert text_eq nat_eq option_eq mode_eq status_eq
    begin_sync_root_remote_inventory_staging insert_items insert_sync_root_inventory_item
    stage_sync_root_remote_inventory_items i64_try_from optional_size
staging = refl

abbrev with_snapshot : SnapshotTables
with_snapshot = record before {
  root = record before.root {
    inventory_state = some (snapshot_state 2 (pos 9) second_cursor);
    items = fresh_rows;
  };
  staging = [];
}

snapshot_committed :
    commit_sync_root_remote_inventory_snapshot second_cursor (pos 9) with_staging
    ≡ ok (2, with_snapshot)
unfolding commit_sync_root_remote_inventory_snapshot i64_try_from
snapshot_committed = refl

read-commit_snapshot_example :
    ((x : Text) → sync_root_remote_item x with_snapshot.root ≡ last_with x (docs ∷ song ∷ []))
    × (current_cursor with_snapshot.root.inventory_state ≡ ok (codes "c2"))
    × (2 ≡ length with_snapshot.root.items)
    × (staged_sync_root_remote_inventory_count with_snapshot ≡ 0)
    × (record with_snapshot.root {
      items = before.root.items;
      inventory_state = before.root.inventory_state;
    }
        ≡ before.root)
read-commit_snapshot_example =
    read-commit_snapshot (docs ∷ song ∷ []) (pos 1) second_cursor (pos 9) before staging
      snapshot_committed

abbrev expected : Expected
expected = record {
  window_base_cursor = first_cursor;
  window_page_count = 64;
  window_change_count = 0;
  local_generation = 2;
  staged_item_count = 2;
}

abbrev after_rebaseline : SnapshotTables
after_rebaseline = record with_snapshot {
  root = record with_snapshot.root { window = none; tokens = [] };
  authority_state = none;
  authority = [];
}

rebaselined :
    commit_sync_root_remote_inventory_rebaseline
      (codes "photos")
      expected
      second_cursor
      (pos 9)
      with_staging
    ≡ ok (2, after_rebaseline)
unfolding commit_sync_root_remote_inventory_rebaseline i64_try_from is_blank nat_eq option_eq
    mode_eq text_eq status_eq is_whitespace
rebaselined = refl

commit_rebaseline-Rebases_example :
    IsReadyToRebase expected with_staging
    × Rebases expected second_cursor (pos 9) with_staging 2 after_rebaseline
commit_rebaseline-Rebases_example =
    commit_rebaseline-Rebases (codes "photos") expected second_cursor (pos 9) with_staging
      rebaselined

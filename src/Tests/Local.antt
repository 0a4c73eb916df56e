-- ===== src/Tests/Local.antt =====
-- The local inventory and its journal of crates/nubisync-storage/src/lib.rs, run.
use nubisync.Storage.Tables.{i64_try_from}
use nubisync.Base.{
  Text, [], ◌∷◌, ◌≡◌, codes, true, none, some, ok, err, refl, lookup, ℕ, ℤ, pos, arith, text_eq,
  nat_eq, option_eq, int_eq, insert,
}
use nubisync.Core.Modes.{item_kind_eq}
use nubisync.Core.Modes.{file}
use nubisync.Storage.Failure.{local_change_baseline_mismatch}
use nubisync.Storage.LocalEvent.{LocalChangeEventInput, created}
use nubisync.Storage.Local.{
  LocalTables, LocalInventoryState, JournalRow, LocalChangeJournalCommit, Baseline, pending,
  superseded, journal_key_eq, reconcile_sync_root_local_change_journal,
  commit_sync_root_local_inventory_snapshot, sync_root_local_inventory_state, check_baseline,
  count_pending, insert_events, supersede,
}
use nubisync.Storage.Local.Journal.{pending_change}
use nubisync.Storage.Local.Reconciled.{Reconciles, reconcile-Reconciles}
use nubisync.Storage.Local.Stale.{reconcile_stale}

abbrev state : LocalInventoryState
state = record {
  snapshot_complete = true;
  item_count = 0;
  snapshot_completed_at_unix_ms = some (pos 3);
  generation = 2;
  observation_valid = true;
}

abbrev baseline : Baseline
baseline = record { generation = 2; item_count = 0; snapshot_completed_at_unix_ms = some (pos 3) }

abbrev row_at : ℤ → JournalRow
row_at at = record {
  baseline_item_count = 0;
  baseline_snapshot_completed_at_unix_ms = some (pos 3);
  event_kind = created;
  baseline_kind = none;
  current_kind = some file;
  observed_at_unix_ms = at;
  status = pending;
}

-- A journal with a pending change of the generation.
abbrev tables : LocalTables
tables = record {
  state = some state;
  items = [];
  staging = [];
  events = ((2, codes "old"), row_at (pos 4)) ∷ [];
}

abbrev change : LocalChangeEventInput
change = record {
  relative_path = codes "docs/notes";
  kind = created;
  baseline_kind = none;
  current_kind = some file;
}

abbrev reconciled_tables : LocalTables
reconciled_tables = record tables {
  events =
      ((2, codes "old"), record (row_at (pos 4)) { status = superseded })
      ∷ ((2, codes "docs/notes"), row_at (pos 5))
      ∷ [];
}

abbrev summary : LocalChangeJournalCommit
summary = record {
  baseline_generation = 2;
  pending_events = 1;
  superseded_events = 1;
  current_diff_events = 1;
}

reconciling :
    reconcile_sync_root_local_change_journal baseline (change ∷ []) (pos 5) tables
    ≡ ok (summary, reconciled_tables)
unfolding int_eq insert text_eq nat_eq option_eq item_kind_eq check_baseline count_pending
    insert_events journal_key_eq reconcile_sync_root_local_change_journal supersede i64_try_from
reconciling = refl

reconcile-Reconciles_example : Reconciles baseline (change ∷ []) tables summary reconciled_tables
reconcile-Reconciles_example =
    reconcile-Reconciles baseline (change ∷ []) (pos 5) tables reconciling

abbrev next_tables : LocalTables
next_tables = record {
  state = some (record state { snapshot_completed_at_unix_ms = some (pos 9); generation = 3 });
  items = [];
  staging = [];
  events = ((2, codes "old"), record (row_at (pos 4)) { status = superseded }) ∷ [];
}

snapshot_committed : commit_sync_root_local_inventory_snapshot (pos 9) tables ≡ ok (0, next_tables)
unfolding commit_sync_root_local_inventory_snapshot supersede i64_try_from
snapshot_committed = refl

reconcile_stale_example :
    ((sync_root_local_inventory_state next_tables).generation ≡ 3)
    × (next_tables.items ≡ [])
    × ((key : ℕ × Text) → pending_change key.1 (lookup key next_tables.events) ≡ none)
    × (reconcile_sync_root_local_change_journal baseline (change ∷ []) (pos 10) next_tables
        ≡ err local_change_baseline_mismatch)
reconcile_stale_example =
    reconcile_stale (pos 9) baseline (change ∷ []) (pos 10) tables state refl refl (omega arith)
      (omega arith) snapshot_committed

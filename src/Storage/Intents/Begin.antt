-- ===== src/Storage/Intents/Begin.antt =====
-- The submission of remote-write intents in crates/nubisync-storage/src/lib.rs: its first attempt for a
-- file or a folder, and a further attempt for a file, each under the guards on what is stored of the
-- sync root.
use nubisync.Base.{
  reject_if, is_some, not, ◌||◌, true, Bool, Dict, List, Option, Result, Text, false, int_eq,
  lookup, nat_eq, none, ok_or, option_eq, some, suc, text_eq, ℕ, ℤ, ◌&&◌, ◌==◌, ◌>>=◌, ◌>>◌,
}
use nubisync.Core.Modes.{file, directory, two_way, SyncMode, mode_eq, LocalItemKind, item_kind_eq}
use nubisync.Storage.Failure.{
  invalid_remote_write_intent_execution_transition, StorageError,
  remote_write_intent_execution_precondition_failed,
}
use nubisync.Storage.Intents.Moves.{Update, stands_at}
use nubisync.Core.Ids.{ChangeCursor}
use nubisync.Storage.Tables.{i64_try_from, InventoryStateRow, WindowRow}
use nubisync.Storage.Intents.{
  Outcome, create_file, create_folder, operation_eq, RemoteWriteIntentOperation, is_positive,
  planned, settle, update_intent, read_execution_state, status_eq, Intents, IntentRow, submitted,
}

-- A row of `sync_root_local_inventory_state`, as the guards read it.
pub record LocalStateRow : Type 0 where
  pub snapshot_complete : Bool
  pub generation : ℕ
  pub observation_valid : Bool

-- A row of `sync_root_local_change_events`, as the guards read it: whether it is a creation, and
-- whether it is pending.
pub record LocalEventRow : Type 0 where
  pub baseline_generation : ℕ
  pub is_created : Bool
  pub relative_path : Text
  pub current_kind : Option LocalItemKind
  pub is_pending : Bool

-- A row of `sync_root_remote_write_authority_state`.
pub record AuthorityStateRow : Type 0 where
  pub change_cursor : Text
  pub item_count : ℕ

-- What is stored of the sync root and of its intents. `authority` has the column `can_add_children`.
pub record WriteTables : Type 0 where
  pub mode : Option SyncMode
  pub local_state : Option LocalStateRow
  pub local_events : Dict ℤ LocalEventRow
  pub inventory_state : Option InventoryStateRow
  pub window : Option WindowRow
  pub authority_state : Option AuthorityStateRow
  pub authority : Dict Text Bool
  pub settled : List ℤ
  pub intents : Intents

abbrev pub Guard : Type 0
Guard = Result StorageError (Unit {0})

abbrev pub require : Bool → Guard
require test = reject_if (not test) remote_write_intent_execution_precondition_failed

-- The local inventory is complete, at the generation of the intent, and its observation valid.
abbrev pub local_stands : ℕ → Option LocalStateRow → Bool
local_stands generation none = false
local_stands generation (some state) =
    state.snapshot_complete && state.generation == generation && state.observation_valid

-- The event that the intent comes from still asks for the item.
abbrev pub source_stands : LocalItemKind → ℕ → Option LocalEventRow → Bool
source_stands kind generation none = false
source_stands kind generation (some event) =
    event.baseline_generation == generation
    && event.is_created
    && event.current_kind == some kind
    && event.is_pending

abbrev pub catalog_stands : Text → Option InventoryStateRow → Bool
catalog_stands cursor none = false
catalog_stands cursor (some state) =
    state.snapshot_complete && state.catchup_complete && state.change_cursor == some cursor

abbrev pub authority_cursor : Option AuthorityStateRow → Option Text
authority_cursor none = none
authority_cursor (some state) = some state.change_cursor

abbrev pub find_intent : ℤ → Intents → Result StorageError IntentRow
find_intent intent_id intents =
    ok_or (lookup intent_id intents) remote_write_intent_execution_precondition_failed

-- `parent_can_add == Some(1)`
abbrev pub can_add_children : Option Bool → Bool
can_add_children none = false
can_add_children (some allowed) = allowed

-- The guards that follow those on the intent, with its parent.
unfoldable pub check_submission : LocalItemKind → Text → IntentRow → WriteTables → Guard
check_submission kind cursor row t = do
  require (local_stands row.baseline_generation t.local_state)
  require
      (source_stands kind row.baseline_generation (lookup row.source_local_event_id t.local_events))
  require (catalog_stands cursor t.inventory_state)
  require (not (is_some t.window))
  require (authority_cursor t.authority_state == some cursor)
  parent ← ok_or row.expected_parent_remote_id remote_write_intent_execution_precondition_failed
  require (can_add_children (lookup parent t.authority))

abbrev pub submit : Text → ℤ → IntentRow → IntentRow
submit cursor at row = record row {
  status = submitted;
  attempt_count = suc row.attempt_count;
  execution_generation = suc row.execution_generation;
  last_attempt_at_unix_ms = some at;
  submitted_at_unix_ms = some at;
  pre_submit_change_cursor = some cursor;
}

abbrev pub is_ready_to_begin : RemoteWriteIntentOperation → ℕ → IntentRow → Bool
is_ready_to_begin operation generation row =
    stands_at operation planned generation row
    && is_some row.predetermined_remote_id
    && is_some row.expected_parent_remote_id

-- What the two first submissions share: `sized` is their further guard on the intent.
unfoldable pub update_begin :
    RemoteWriteIntentOperation
    → LocalItemKind
    → (IntentRow → Bool)
    → ℤ
    → ℕ
    → ChangeCursor
    → ℤ
    → WriteTables
    → Update
unfolding i64_try_from update_intent check_submission
update_begin operation kind sized intent_id generation cursor at t = do
  reject_if (not (is_positive intent_id) || not (is_positive at))
      invalid_remote_write_intent_execution_transition
  expected_generation ← i64_try_from generation
  require (t.mode == some two_way)
  row ← find_intent intent_id t.intents
  require (is_ready_to_begin operation expected_generation row && sized row)
  check_submission kind cursor.as_str row t
  update_intent intent_id (stands_at operation planned expected_generation)
      (submit cursor.as_str at) t.intents

unfoldable pub begin_sync_root_file_create_submission :
    ℤ → ℕ → ChangeCursor → ℤ → WriteTables → Outcome
unfolding update_begin read_execution_state
begin_sync_root_file_create_submission intent_id generation cursor at t =
    settle intent_id t.intents (
      update_begin create_file file (λ row. is_some row.local_size_bytes) intent_id generation
        cursor at t)

unfoldable pub begin_sync_root_folder_create_submission :
    ℤ → ℕ → ChangeCursor → ℤ → WriteTables → Outcome
unfolding update_begin read_execution_state
begin_sync_root_folder_create_submission intent_id generation cursor at t =
    settle intent_id t.intents
      (update_begin create_folder directory (λ row. true) intent_id generation cursor at t)

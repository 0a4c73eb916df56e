-- ===== src/Storage/Intents/Restart.antt =====
-- A further attempt to submit the creation of a file, in crates/nubisync-storage/src/lib.rs.
use nubisync.Base.{
  Bool, Option, Result, Text, codes, contains, err, false, if◌then◌else◌, int_eq, is_some, length,
  lookup, nat_eq, none, not, ok, ok_or, option_eq, reject_if, some, text_eq, ℕ, ℤ, ◌&&◌, ◌==◌,
  ◌>>=◌, ◌>>◌, ◌||◌,
}
use nubisync.Core.Ids.{ChangeCursor}
use nubisync.Core.Modes.{two_way, mode_eq, file, item_kind_eq}
use nubisync.Storage.Failure.{
  sqlite, StorageError, invalid_remote_write_intent_execution_transition,
  remote_write_intent_execution_precondition_failed,
}
use nubisync.Storage.Tables.{InventoryStateRow, i64_try_from, i64_checked_add}
use nubisync.Storage.Intents.{
  IntentRow, Outcome, create_file, operation_eq, submitted, status_eq, is_positive, settle,
  update_intent, read_execution_state, validate_optional_checksum, validate_remote_write_identifier,
}
use nubisync.Storage.Intents.Moves.{Update, stands_at}
use nubisync.Storage.Intents.Begin.{
  WriteTables, LocalEventRow, Guard, require, find_intent, local_stands, catalog_stands,
  can_add_children, submit,
}

abbrev pub is_positive_size : Option ℕ → Bool
is_positive_size none = false
is_positive_size (some size) = not (size == 0)

abbrev pub is_ready_to_restart : ℕ → ℕ → IntentRow → Bool
is_ready_to_restart generation attempts row =
    stands_at create_file submitted generation row
    && row.attempt_count == attempts
    && is_positive_size row.local_size_bytes
    && is_some row.predetermined_remote_id
    && is_some row.expected_parent_remote_id
    && not (is_some row.expected_remote_version)
    && not (is_some row.awaiting_confirmation_at_unix_ms)
    && not (is_some row.confirmed_at_unix_ms)
    && not (is_some row.terminal_at_unix_ms)

-- The fingerprint is absent, or that of a file of the local size.
unfoldable pub check_fingerprint : ℕ → Option ℕ → Option Text → Option Text → Guard
unfolding validate_optional_checksum
check_fingerprint local_size none none none = ok tt
check_fingerprint local_size (some size) (some algorithm) (some checksum) =
    if algorithm == codes "sha256" && size == local_size && not (size == 0)
    then validate_optional_checksum (some algorithm) (some checksum)
    else err remote_write_intent_execution_precondition_failed
check_fingerprint local_size _ _ _ = err remote_write_intent_execution_precondition_failed

-- The pending event of the intent, whose columns are read as texts: no kind is an error of SQLite.
unfoldable pub check_source : Text → ℕ → Option LocalEventRow → Guard
check_source path generation none = err remote_write_intent_execution_precondition_failed
check_source path generation (some event) =
    if not (event.baseline_generation == generation && event.is_pending)
    then err remote_write_intent_execution_precondition_failed
    else elim event.current_kind [
      | none ↦ err sqlite
      | some kind ↦ require (event.is_created && kind == file && event.relative_path == path)
    ]

abbrev pub precondition {ℓ} : {A : Type ℓ} → Option A → Result StorageError A
precondition found = ok_or found remote_write_intent_execution_precondition_failed

-- The authority that was observed is that of the catalog at the cursor, with its root.
unfoldable pub check_authority : Text → InventoryStateRow → WriteTables → Guard
unfolding i64_checked_add
check_authority cursor catalog t = do
  state ← precondition t.authority_state
  expected_items ← i64_checked_add catalog.item_count 1
  require (
      state.change_cursor == cursor
      && state.item_count == expected_items
      && length t.authority == expected_items)

unfoldable pub check_restart : Text → IntentRow → WriteTables → Guard
unfolding check_fingerprint validate_remote_write_identifier check_authority check_source
check_restart cursor row t = do
  local_size ← precondition row.local_size_bytes
  check_fingerprint local_size row.expected_remote_size_bytes row.expected_checksum_algorithm
      row.expected_content_checksum
  predetermined ← precondition row.predetermined_remote_id
  parent ← precondition row.expected_parent_remote_id
  validate_remote_write_identifier predetermined
  validate_remote_write_identifier parent
  require (local_stands row.baseline_generation t.local_state)
  check_source row.relative_path row.baseline_generation
      (lookup row.source_local_event_id t.local_events)
  require (catalog_stands cursor t.inventory_state)
  catalog ← precondition t.inventory_state
  require (not (is_some t.window))
  check_authority cursor catalog t
  require (can_add_children (lookup parent t.authority))

unfoldable pub update_restart : ℤ → ℕ → ℕ → ChangeCursor → ℤ → WriteTables → Update
unfolding i64_try_from i64_checked_add update_intent check_restart
update_restart intent_id generation attempts cursor at t = do
  reject_if (not (is_positive intent_id) || attempts == 0 || not (is_positive at))
      invalid_remote_write_intent_execution_transition
  expected_generation ← i64_try_from generation
  expected_attempts ← i64_try_from attempts
  _ ← i64_checked_add expected_generation 1
  _ ← i64_checked_add expected_attempts 1
  require (t.mode == some two_way)
  row ← find_intent intent_id t.intents
  require (is_ready_to_restart expected_generation expected_attempts row)
  check_restart cursor.as_str row t
  require (not (contains t.settled intent_id))
  update_intent intent_id
      (λ row.
        stands_at create_file submitted expected_generation row
        && row.attempt_count == expected_attempts)
      (submit cursor.as_str at) t.intents

unfoldable pub restart_sync_root_file_create_submission :
    ℤ → ℕ → ℕ → ChangeCursor → ℤ → WriteTables → Outcome
unfolding update_restart read_execution_state
restart_sync_root_file_create_submission intent_id generation attempts cursor at t =
    settle intent_id t.intents (update_restart intent_id generation attempts cursor at t)

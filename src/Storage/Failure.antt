-- ===== src/Storage/Failure.antt =====
-- `StorageError` of crates/nubisync-storage/src/lib.rs, as far as the modelled operations return it.
use nubisync.Core.Error.{CoreError}

pub data StorageError : Type 0 where
  invalid_materialization_receipt : StorageError
  invalid_directory_materialization_receipt : StorageError
  directory_materialization_receipt_remote_item_missing : StorageError
  directory_materialization_receipt_remote_item_mismatch : StorageError
  materialization_receipt_remote_item_missing : StorageError
  materialization_receipt_remote_item_mismatch : StorageError
  stale_materialization_receipt_batch_mismatch : StorageError
  stale_directory_materialization_receipt_batch_mismatch : StorageError
  sqlite : StorageError
  numeric_overflow : StorageError
  invalid_sync_root_catalog_mutation : StorageError
  invalid_sync_root_change_page_boundary : StorageError
  invalid_sync_root_change_event : StorageError
  invalid_stored_remote_change : StorageError
  sync_root_change_window_base_cursor_mismatch : StorageError
  sync_root_change_window_continuation_mismatch : StorageError
  sync_root_change_window_already_complete : StorageError
  sync_root_change_window_missing : StorageError
  sync_root_change_window_incomplete : StorageError
  sync_root_change_window_checkpoint_mismatch : StorageError
  sync_root_change_window_change_count_mismatch : StorageError
  sync_root_change_window_pagination_loop : StorageError
  sync_root_change_window_safety_limit_exceeded : StorageError
  sync_root_remote_rebaseline_precondition_failed : StorageError
  sync_root_catalog_snapshot_missing : StorageError
  sync_root_catalog_catchup_cursor_missing : StorageError
  sync_root_catalog_change_cursor_missing : StorageError
  sync_root_catalog_expected_cursor_mismatch : StorageError
  sync_root_catalog_invalid_cursor_state : StorageError
  invalid_local_change_path : StorageError
  invalid_local_change_shape : StorageError
  local_change_baseline_mismatch : StorageError
  local_change_journal_count_mismatch : StorageError
  invalid_stored_local_change_event_kind : StorageError
  invalid_stored_local_change_event : StorageError
  invalid_remote_write_identifier : StorageError
  invalid_remote_write_checksum : StorageError
  invalid_stored_remote_write_intent_operation : StorageError
  invalid_stored_remote_write_intent_status : StorageError
  invalid_remote_write_intent_execution_transition : StorageError
  remote_write_intent_execution_precondition_failed : StorageError
  remote_write_intent_execution_compare_and_set_failed : StorageError
  remote_write_intent_execution_state_missing : StorageError
  invalid_stored_remote_write_intent_execution_state : StorageError
  core : CoreError → StorageError

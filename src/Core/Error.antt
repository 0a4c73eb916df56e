-- ===== src/Core/Error.antt =====
-- `CoreError` of crates/nubisync-core/src/lib.rs.
pub data CoreError : Type 0 where
  invalid_provider_id : CoreError
  invalid_account_subject : CoreError
  invalid_cursor : CoreError
  invalid_continuation_token : CoreError
  invalid_sync_mode : CoreError
  invalid_sync_root_id : CoreError
  invalid_sync_root_local_path : CoreError
  invalid_remote_root_id : CoreError
  invalid_local_item_relative_path : CoreError
  invalid_local_item_kind : CoreError
  invalid_local_item_size : CoreError

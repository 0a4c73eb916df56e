-- ===== src/Storage/Intents/Moves.antt =====
-- The transitions of crates/nubisync-storage/src/lib.rs that follow the submission of a remote-write
-- intent: each is one update, which names the status and the generation that it expects.
use nubisync.Base.{
  Bool, Option, Result, err, false, int_eq, nat_eq, none, not, ok, option_eq, reject_if, some, suc,
  text_eq, true, ℕ, ℤ, ◌&&◌, ◌==◌, ◌>>=◌, ◌>>◌, ◌||◌,
}
use nubisync.Core.Remote.{kind_eq}
use nubisync.Storage.Failure.{StorageError, invalid_remote_write_intent_execution_transition}
use nubisync.Storage.Tables.{i64_try_from}
use nubisync.Storage.Intents.{
  Intents, IntentRow, Outcome, RemoteWriteIntentOperation, create_file, create_folder, operation_eq,
  RemoteWriteIntentStatus, planned, submitted, awaiting_confirmation, confirmed, conflict, failed,
  superseded, status_eq, is_positive, settle, update_intent, read_execution_state,
}

abbrev pub Update : Type 0
Update = Result StorageError Intents

-- The status and the generation that an update names.
abbrev pub stands_at : RemoteWriteIntentOperation → RemoteWriteIntentStatus → ℕ → IntentRow → Bool
stands_at operation status generation row =
    row.operation_kind == operation
    && row.status == status
    && row.execution_generation == generation

-- `COALESCE(given, kept)`
abbrev pub coalesce : Option ℤ → Option ℤ → Option ℤ
coalesce none kept = kept
coalesce (some given) kept = some given

-- The times of awaiting, of confirmation and of the end that a new status sets.
abbrev pub times_of :
    RemoteWriteIntentStatus → ℤ → Result StorageError (Option ℤ × Option ℤ × Option ℤ)
times_of awaiting_confirmation at = ok (some at, none, none)
times_of confirmed at = ok (none, some at, none)
times_of conflict at = ok (none, none, some at)
times_of failed at = ok (none, none, some at)
times_of planned at = err invalid_remote_write_intent_execution_transition
times_of submitted at = err invalid_remote_write_intent_execution_transition
times_of superseded at = err invalid_remote_write_intent_execution_transition

abbrev pub moved : RemoteWriteIntentStatus → Option ℤ × Option ℤ × Option ℤ → IntentRow → IntentRow
moved status (awaiting, settled, ended) row = record row {
  status = status;
  execution_generation = suc row.execution_generation;
  awaiting_confirmation_at_unix_ms = coalesce awaiting row.awaiting_confirmation_at_unix_ms;
  confirmed_at_unix_ms = coalesce settled row.confirmed_at_unix_ms;
  terminal_at_unix_ms = coalesce ended row.terminal_at_unix_ms;
}

abbrev pub file_move : RemoteWriteIntentStatus → RemoteWriteIntentStatus → Bool
file_move submitted conflict = true
file_move submitted failed = true
file_move awaiting_confirmation confirmed = true
file_move awaiting_confirmation conflict = true
file_move _ _ = false

abbrev pub folder_move : RemoteWriteIntentStatus → RemoteWriteIntentStatus → Bool
folder_move submitted awaiting_confirmation = true
folder_move submitted conflict = true
folder_move submitted failed = true
folder_move awaiting_confirmation confirmed = true
folder_move awaiting_confirmation conflict = true
folder_move _ _ = false

-- What the transitions of the two operations share.
unfoldable pub update_status :
    RemoteWriteIntentOperation
    → (RemoteWriteIntentStatus → RemoteWriteIntentStatus → Bool)
    → ℤ
    → RemoteWriteIntentStatus
    → ℕ
    → RemoteWriteIntentStatus
    → ℤ
    → Intents
    → Update
unfolding i64_try_from update_intent
update_status operation allowed intent_id expected generation status at intents = do
  reject_if (not (is_positive intent_id) || not (is_positive at))
      invalid_remote_write_intent_execution_transition
  reject_if (not (allowed expected status)) invalid_remote_write_intent_execution_transition
  expected_generation ← i64_try_from generation
  times ← times_of status at
  update_intent intent_id (stands_at operation expected expected_generation) (moved status times)
      intents

unfoldable pub transition_sync_root_file_create_intent :
    ℤ → RemoteWriteIntentStatus → ℕ → RemoteWriteIntentStatus → ℤ → Intents → Outcome
unfolding update_status read_execution_state
transition_sync_root_file_create_intent intent_id expected generation status at intents =
    settle intent_id intents
      (update_status create_file file_move intent_id expected generation status at intents)

unfoldable pub transition_sync_root_folder_create_intent :
    ℤ → RemoteWriteIntentStatus → ℕ → RemoteWriteIntentStatus → ℤ → Intents → Outcome
unfolding update_status read_execution_state
transition_sync_root_folder_create_intent intent_id expected generation status at intents =
    settle intent_id intents
      (update_status create_folder folder_move intent_id expected generation status at intents)

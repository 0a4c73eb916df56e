-- ===== src/Storage/Intents.antt =====
-- The remote-write intents of crates/nubisync-storage/src/lib.rs: their operations, their statuses, the
-- tables that their transitions read, and the values that they validate.
use nubisync.Base.{
  Bool, Dict, Option, Result, Text, all, any, byte_len, codes, err, false, if◌then◌else◌, is_empty,
  is_whitespace, ltb, lookup, insert, map_err, nat_eq, none, ok, ok_or, option_eq, reject_if, some,
  suc, text_eq, true, ℕ, ℤ, pos, negsuc, zero, ◌&&◌, ◌==◌, ◌>>=◌, ◌||◌, Eq, int_eq, ◌>>◌,
}
pub mod Moves
pub mod Evidence
pub mod Begin
pub mod Restart
pub mod Graph
pub mod Steps
pub mod Calls
pub mod Runs
pub mod Accepted
use nubisync.Core.Ids.{ChangeCursor, new_change_cursor}
use nubisync.Core.Remote.{RemoteItemKind}
use nubisync.Storage.Failure.{
  StorageError, core, invalid_remote_write_identifier, invalid_remote_write_checksum,
  invalid_stored_remote_write_intent_operation, invalid_stored_remote_write_intent_status,
  remote_write_intent_execution_compare_and_set_failed, remote_write_intent_execution_state_missing,
}
use nubisync.Storage.Receipts.{is_lower_hex}

pub data RemoteWriteIntentOperation : Type 0 where
  create_file create_folder update_file trash_item : RemoteWriteIntentOperation

operation_discrete : Discrete RemoteWriteIntentOperation
operation_discrete = hlevel

instance unfoldable pub operation_eq : Eq RemoteWriteIntentOperation
unfolding operation_discrete
operation_eq = record { dec = operation_discrete }

unfoldable pub operation_as_str : RemoteWriteIntentOperation → Text
operation_as_str create_file = codes "create_file"
operation_as_str create_folder = codes "create_folder"
operation_as_str update_file = codes "update_file"
operation_as_str trash_item = codes "trash_item"

unfoldable pub parse_operation : Text → Result StorageError RemoteWriteIntentOperation
parse_operation value =
    if value == codes "create_file"
    then ok create_file
    else if value == codes "create_folder"
    then ok create_folder
    else if value == codes "update_file"
    then ok update_file
    else if value == codes "trash_item"
    then ok trash_item
    else err invalid_stored_remote_write_intent_operation

pub data RemoteWriteIntentStatus : Type 0 where
  planned submitted awaiting_confirmation confirmed conflict failed superseded :
      RemoteWriteIntentStatus

status_discrete : Discrete RemoteWriteIntentStatus
status_discrete = hlevel

instance unfoldable pub status_eq : Eq RemoteWriteIntentStatus
unfolding status_discrete
status_eq = record { dec = status_discrete }

unfoldable pub status_as_str : RemoteWriteIntentStatus → Text
status_as_str planned = codes "planned"
status_as_str submitted = codes "submitted"
status_as_str awaiting_confirmation = codes "awaiting_confirmation"
status_as_str confirmed = codes "confirmed"
status_as_str conflict = codes "conflict"
status_as_str failed = codes "failed"
status_as_str superseded = codes "superseded"

unfoldable pub parse_status : Text → Result StorageError RemoteWriteIntentStatus
parse_status value =
    if value == codes "planned"
    then ok planned
    else if value == codes "submitted"
    then ok submitted
    else if value == codes "awaiting_confirmation"
    then ok awaiting_confirmation
    else if value == codes "confirmed"
    then ok confirmed
    else if value == codes "conflict"
    then ok conflict
    else if value == codes "failed"
    then ok failed
    else if value == codes "superseded"
    then ok superseded
    else err invalid_stored_remote_write_intent_status

-- A row of `sync_root_remote_write_intents`, less the columns that no transition reads or writes. The
-- columns of the operation and the status admit only the names above. A size comes from a `u64`, so
-- that it is not negative.
pub record IntentRow : Type 0 where
  pub source_local_event_id : ℤ
  pub baseline_generation : ℕ
  pub operation_kind : RemoteWriteIntentOperation
  pub relative_path : Text
  pub local_size_bytes : Option ℕ
  pub predetermined_remote_id : Option Text
  pub expected_parent_remote_id : Option Text
  pub expected_remote_kind : Option RemoteItemKind
  pub expected_remote_version : Option Text
  pub expected_remote_size_bytes : Option ℕ
  pub expected_checksum_algorithm : Option Text
  pub expected_content_checksum : Option Text
  pub attempt_count : ℕ
  pub execution_generation : ℕ
  pub last_attempt_at_unix_ms : Option ℤ
  pub submitted_at_unix_ms : Option ℤ
  pub pre_submit_change_cursor : Option Text
  pub awaiting_confirmation_at_unix_ms : Option ℤ
  pub confirmed_at_unix_ms : Option ℤ
  pub terminal_at_unix_ms : Option ℤ
  pub status : RemoteWriteIntentStatus

abbrev pub Intents : Type 0
Intents = Dict ℤ IntentRow

-- `id <= 0` and `at_unix_ms <= 0`, the other way round.
abbrev pub is_positive : ℤ → Bool
is_positive (pos zero) = false
is_positive (pos (suc _)) = true
is_positive (negsuc _) = false

pub record RemoteWriteIntentExecutionState : Type 0 where
  pub intent_id : ℤ
  pub operation : RemoteWriteIntentOperation
  pub status : RemoteWriteIntentStatus
  pub attempt_count : ℕ
  pub execution_generation : ℕ
  pub last_attempt_at_unix_ms : Option ℤ
  pub submitted_at_unix_ms : Option ℤ
  pub pre_submit_change_cursor : Option ChangeCursor
  pub awaiting_confirmation_at_unix_ms : Option ℤ
  pub confirmed_at_unix_ms : Option ℤ
  pub terminal_at_unix_ms : Option ℤ

-- `.map(ChangeCursor::new).transpose()`
abbrev pub optional_cursor : Option Text → Result StorageError (Option ChangeCursor)
optional_cursor none = ok none
optional_cursor (some text) = map_err core (new_change_cursor text) >>= λ cursor. ok (some cursor)

-- The state of an intent that is there.
unfoldable pub execution_state : ℤ → IntentRow → Result StorageError RemoteWriteIntentExecutionState
unfolding new_change_cursor
execution_state intent_id row = do
  cursor ← optional_cursor row.pre_submit_change_cursor
  ok (record {
    intent_id = intent_id;
    operation = row.operation_kind;
    status = row.status;
    attempt_count = row.attempt_count;
    execution_generation = row.execution_generation;
    last_attempt_at_unix_ms = row.last_attempt_at_unix_ms;
    submitted_at_unix_ms = row.submitted_at_unix_ms;
    pre_submit_change_cursor = cursor;
    awaiting_confirmation_at_unix_ms = row.awaiting_confirmation_at_unix_ms;
    confirmed_at_unix_ms = row.confirmed_at_unix_ms;
    terminal_at_unix_ms = row.terminal_at_unix_ms;
  })

-- `query_remote_write_intent_execution_state(..)?.ok_or(..)`, which ends each transition.
unfoldable pub read_execution_state :
    ℤ → Intents → Result StorageError RemoteWriteIntentExecutionState
unfolding execution_state
read_execution_state intent_id intents =
    ok_or (lookup intent_id intents) remote_write_intent_execution_state_missing
    >>= execution_state intent_id

-- `UPDATE .. WHERE id = .. AND ..`, which has to change one row: the test is that of the statement.
unfoldable pub update_intent :
    ℤ → (IntentRow → Bool) → (IntentRow → IntentRow) → Intents → Result StorageError Intents
update_intent intent_id test change intents = elim (lookup intent_id intents) [
  | none ↦ err remote_write_intent_execution_compare_and_set_failed
  | some row ↦
      if test row
      then ok (insert intent_id (change row) intents)
      else err remote_write_intent_execution_compare_and_set_failed
]

-- What a transition returns, and the intents after it. The update stands also where the state cannot
-- be read afterwards.
abbrev pub Outcome : Type 0
Outcome = Result StorageError RemoteWriteIntentExecutionState × Intents

abbrev pub settle : ℤ → Intents → Result StorageError Intents → Outcome
settle intent_id intents (err failure) = (err failure, intents)
settle intent_id intents (ok updated) = (read_execution_state intent_id updated, updated)

-- A text that has white space at an end has some.
unfoldable pub validate_remote_write_identifier : Text → Result StorageError (Unit {0})
unfolding is_whitespace byte_len
validate_remote_write_identifier value =
    reject_if (is_empty value || any is_whitespace value || ltb 1024 (byte_len value))
      invalid_remote_write_identifier

unfoldable pub has_hex_digits : ℕ → Text → Bool
unfolding is_lower_hex byte_len
has_hex_digits count value = byte_len value == count && all is_lower_hex value

unfoldable pub validate_optional_checksum :
    Option Text → Option Text → Result StorageError (Unit {0})
unfolding has_hex_digits
validate_optional_checksum none none = ok tt
validate_optional_checksum none (some _) = err invalid_remote_write_checksum
validate_optional_checksum (some _) none = err invalid_remote_write_checksum
validate_optional_checksum (some algorithm) (some value) =
    if (algorithm == codes "md5" && has_hex_digits 32 value)
      || (algorithm == codes "sha256" && has_hex_digits 64 value)
    then ok tt
    else err invalid_remote_write_checksum

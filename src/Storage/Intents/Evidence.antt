-- ===== src/Storage/Intents/Evidence.antt =====
-- What crates/nubisync-storage/src/lib.rs stores of the content of a file that is being created: its
-- fingerprint, the completion of its upload, and the recovery from a conflict that it settles.
use nubisync.Base.{
  Bool, List, Option, Result, Text, codes, contains, err, if◌then◌else◌, int_eq, is_some, lookup,
  nat_eq, none, not, ok, ok_or, option_eq, reject_if, some, suc, text_eq, true, ℕ, ℤ, ◌&&◌, ◌==◌,
  ◌>>=◌, ◌>>◌, ◌||◌,
}
use nubisync.Core.Remote.{file, kind_eq}
use nubisync.Drive.Number.{parse_u64, print_u64}
use nubisync.Storage.Failure.{
  StorageError, invalid_remote_write_intent_execution_transition,
  remote_write_intent_execution_precondition_failed,
  invalid_stored_remote_write_intent_execution_state,
}
use nubisync.Storage.Tables.{i64_try_from}
use nubisync.Storage.Intents.{
  Intents, IntentRow, Outcome, create_file, operation_eq, submitted, awaiting_confirmation,
  confirmed, conflict, status_eq, is_positive, settle, update_intent, read_execution_state,
  validate_optional_checksum,
}
use nubisync.Storage.Intents.Moves.{Update, stands_at}

abbrev pub is_absent_or : {A : Type 0} → Bool → Option A → Bool
is_absent_or same none = true
is_absent_or same (some _) = same

abbrev pub fingerprinted : ℕ → Text → IntentRow → IntentRow
fingerprinted size_bytes sha256_hex row = record row {
  expected_remote_size_bytes = some size_bytes;
  expected_checksum_algorithm = some (codes "sha256");
  expected_content_checksum = some sha256_hex;
}

-- Evidence that is there has to be the same.
abbrev pub takes_fingerprint : ℕ → ℕ → Text → IntentRow → Bool
takes_fingerprint generation size_bytes sha256_hex row =
    stands_at create_file submitted generation row
    && is_absent_or (row.expected_remote_size_bytes == some size_bytes)
        row.expected_remote_size_bytes
    && is_absent_or (row.expected_checksum_algorithm == some (codes "sha256"))
        row.expected_checksum_algorithm
    && is_absent_or (row.expected_content_checksum == some sha256_hex) row.expected_content_checksum

unfoldable pub update_fingerprint : ℤ → ℕ → ℕ → Text → Intents → Update
unfolding i64_try_from update_intent validate_optional_checksum
update_fingerprint intent_id generation size sha256_hex intents = do
  reject_if (not (is_positive intent_id) || size == 0)
      invalid_remote_write_intent_execution_transition
  validate_optional_checksum (some (codes "sha256")) (some sha256_hex)
  expected_generation ← i64_try_from generation
  size_bytes ← i64_try_from size
  update_intent intent_id (takes_fingerprint expected_generation size_bytes sha256_hex)
      (fingerprinted size_bytes sha256_hex) intents

unfoldable pub record_sync_root_file_create_stream_fingerprint :
    ℤ → ℕ → ℕ → Text → Intents → Outcome
unfolding update_fingerprint read_execution_state
record_sync_root_file_create_stream_fingerprint intent_id generation size sha256_hex intents =
    settle intent_id intents (update_fingerprint intent_id generation size sha256_hex intents)

pub record RemoteWriteFileCreateContentEvidence : Type 0 where
  pub size_bytes : ℕ
  pub sha256_hex : Text
  pub remote_version : Option ℕ

unfoldable pub stored_version : Option Text → Result StorageError (Option ℕ)
unfolding parse_u64
stored_version none = ok none
stored_version (some value) = do
  parsed ← ok_or (parse_u64 value) invalid_stored_remote_write_intent_execution_state
  reject_if (parsed == 0) invalid_stored_remote_write_intent_execution_state
  ok (some parsed)

unfoldable pub evidence_of :
    IntentRow → Result StorageError (Option RemoteWriteFileCreateContentEvidence)
unfolding validate_optional_checksum stored_version
evidence_of row =
    go row.expected_remote_size_bytes row.expected_checksum_algorithm row.expected_content_checksum
  where
    go :
        Option ℕ
        → Option Text
        → Option Text
        → Result StorageError (Option RemoteWriteFileCreateContentEvidence)
    go none none none = ok none
    go (some size) (some algorithm) (some checksum) = do
      reject_if (size == 0 || not (algorithm == codes "sha256"))
          invalid_stored_remote_write_intent_execution_state
      validate_optional_checksum (some algorithm) (some checksum)
      version ← stored_version row.expected_remote_version
      ok (some (record { size_bytes = size; sha256_hex = checksum; remote_version = version }))
    go _ _ _ = err invalid_stored_remote_write_intent_execution_state

unfoldable pub sync_root_file_create_content_evidence :
    ℤ → Intents → Result StorageError (Option RemoteWriteFileCreateContentEvidence)
unfolding evidence_of
sync_root_file_create_content_evidence intent_id intents =
    if not (is_positive intent_id)
    then err invalid_remote_write_intent_execution_transition
    else elim (lookup intent_id intents) [
      | none ↦ ok none
      | some row ↦
          if row.operation_kind == create_file
          then evidence_of row
          else err invalid_stored_remote_write_intent_execution_state
    ]

abbrev pub has_evidence : IntentRow → Bool
has_evidence row =
    is_some row.expected_remote_size_bytes
    && row.expected_checksum_algorithm == some (codes "sha256")
    && is_some row.expected_content_checksum

abbrev pub uploaded : ℕ → ℤ → IntentRow → IntentRow
uploaded remote_version at row = record row {
  status = awaiting_confirmation;
  execution_generation = suc row.execution_generation;
  expected_remote_kind = some file;
  expected_remote_version = some (print_u64 remote_version);
  awaiting_confirmation_at_unix_ms = some at;
}

unfoldable pub update_upload : ℤ → ℕ → ℕ → ℤ → Intents → Update
unfolding i64_try_from update_intent sync_root_file_create_content_evidence
update_upload intent_id generation remote_version at intents = do
  reject_if (not (is_positive intent_id) || remote_version == 0 || not (is_positive at))
      invalid_remote_write_intent_execution_transition
  expected_generation ← i64_try_from generation
  found ← sync_root_file_create_content_evidence intent_id intents
  evidence ← ok_or found remote_write_intent_execution_precondition_failed
  reject_if (evidence.size_bytes == 0) remote_write_intent_execution_precondition_failed
  update_intent intent_id
      (λ row. stands_at create_file submitted expected_generation row && has_evidence row)
      (uploaded remote_version at) intents

unfoldable pub complete_sync_root_file_create_upload : ℤ → ℕ → ℕ → ℤ → Intents → Outcome
unfolding update_upload read_execution_state
complete_sync_root_file_create_upload intent_id generation remote_version at intents =
    settle intent_id intents (update_upload intent_id generation remote_version at intents)

abbrev pub recovered : ℤ → IntentRow → IntentRow
recovered at row = record row {
  status = confirmed;
  execution_generation = suc row.execution_generation;
  confirmed_at_unix_ms = some at;
  terminal_at_unix_ms = none;
}

-- The test of the recovery; the intents with a settlement are given by their ids.
abbrev pub takes_recovery : List ℤ → ℤ → ℕ → ℕ → IntentRow → Bool
takes_recovery settled intent_id generation attempts row =
    stands_at create_file conflict generation row
    && row.attempt_count == attempts
    && is_some row.pre_submit_change_cursor
    && row.expected_remote_kind == some file
    && is_some row.expected_remote_version
    && has_evidence row
    && not (contains settled intent_id)

unfoldable pub update_recovery : List ℤ → ℤ → ℕ → ℕ → ℤ → Intents → Update
unfolding i64_try_from update_intent
update_recovery settled intent_id generation attempts at intents = do
  reject_if
      (not (is_positive intent_id) || generation == 0 || attempts == 0 || not (is_positive at))
      invalid_remote_write_intent_execution_transition
  expected_generation ← i64_try_from generation
  attempt_count ← i64_try_from attempts
  update_intent intent_id (takes_recovery settled intent_id expected_generation attempt_count)
      (recovered at) intents

unfoldable pub recover_sync_root_file_create_confirmation_conflict :
    List ℤ → ℤ → ℕ → ℕ → ℤ → Intents → Outcome
unfolding update_recovery read_execution_state
recover_sync_root_file_create_confirmation_conflict settled intent_id generation attempts at
      intents =
    settle intent_id intents (update_recovery settled intent_id generation attempts at intents)

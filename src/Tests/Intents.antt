-- ===== src/Tests/Intents.antt =====
-- The remote-write intents of crates/nubisync-storage/src/lib.rs, run.
use nubisync.Storage.Receipts.{is_lower_hex}
use nubisync.Storage.Intents.Restart.{
  check_authority, check_fingerprint, check_restart, check_source,
  restart_sync_root_file_create_submission, update_restart,
}
use nubisync.Storage.Intents.Evidence.{
  complete_sync_root_file_create_upload, evidence_of,
  record_sync_root_file_create_stream_fingerprint,
  recover_sync_root_file_create_confirmation_conflict, stored_version,
  sync_root_file_create_content_evidence, update_fingerprint, update_recovery, update_upload,
}
use nubisync.Drive.Number.{parse_digits, parse_u64, print_digits, print_u64}
use nubisync.Core.Ids.{new_change_cursor}
use nubisync.Base.{
  List, [], ◌∷◌, ◌≡◌, codes, true, none, some, refl, lookup, arith, pos, text_eq, nat_eq, option_eq,
  int_eq, byte_len, insert, is_whitespace, text_pair_eq, utf8_width,
}
use mathlib.Core.Path.{subst}
use nubisync.Tests.{root_id}
use nubisync.Tests.Storage.{first_cursor, state_at}
use nubisync.Core.Modes.{two_way, mode_eq, item_kind_eq}
use nubisync.Core.Modes.{directory as is_directory}
use nubisync.Core.Remote.{kind_eq, folder}
use nubisync.Storage.Tables.{i64_checked_add, i64_try_from}
use nubisync.Storage.Intents.{
  IntentRow, Intents, planned, submitted, awaiting_confirmation, confirmed, create_folder,
  operation_eq, status_eq, execution_state, has_hex_digits, read_execution_state, update_intent,
  validate_optional_checksum, validate_remote_write_identifier,
}
use nubisync.Storage.Intents.Begin.{
  WriteTables, begin_sync_root_file_create_submission, begin_sync_root_folder_create_submission,
  check_submission, update_begin,
}
use nubisync.Storage.Intents.Moves.{
  update_status, transition_sync_root_file_create_intent, transition_sync_root_folder_create_intent,
}
use nubisync.Storage.Intents.Calls.{Call, begins_folder, moves_folder, outcome}
use nubisync.Storage.Intents.Graph.{IsConsistent}
use nubisync.Storage.Intents.Runs.{run, AreConsistent, Continues, run-Continues, run-AreConsistent}

-- The intent to create the folder `docs`.
abbrev intent : IntentRow
intent = record {
  source_local_event_id = pos 3;
  baseline_generation = 2;
  operation_kind = create_folder;
  relative_path = codes "docs";
  local_size_bytes = none;
  predetermined_remote_id = some (codes "1");
  expected_parent_remote_id = some root_id;
  expected_remote_kind = some folder;
  expected_remote_version = none;
  expected_remote_size_bytes = none;
  expected_checksum_algorithm = none;
  expected_content_checksum = none;
  attempt_count = 0;
  execution_generation = 0;
  last_attempt_at_unix_ms = none;
  submitted_at_unix_ms = none;
  pre_submit_change_cursor = none;
  awaiting_confirmation_at_unix_ms = none;
  confirmed_at_unix_ms = none;
  terminal_at_unix_ms = none;
  status = planned;
}

abbrev intents : Intents
intents = (pos 1, intent) ∷ []

-- What is stored when the intent is submitted.
abbrev tables : WriteTables
tables = record {
  mode = some two_way;
  local_state =
      some (record { snapshot_complete = true; generation = 2; observation_valid = true });
  local_events =
      (
        pos 3,
        record {
          baseline_generation = 2;
          is_created = true;
          relative_path = codes "docs";
          current_kind = some is_directory;
          is_pending = true;
        },
      )
      ∷ [];
  inventory_state = some (state_at (codes "c1") 3);
  window = none;
  authority_state = some (record { change_cursor = codes "c1"; item_count = 3 });
  authority = (root_id, true) ∷ [];
  settled = [];
  intents = intents;
}

abbrev calls : List (Call × WriteTables)
calls =
    (begins_folder (pos 1) 0 first_cursor (pos 5), tables)
    ∷ (moves_folder (pos 1) submitted 1 awaiting_confirmation (pos 6), tables)
    ∷ (moves_folder (pos 1) awaiting_confirmation 2 confirmed (pos 7), tables)
    ∷ []

abbrev confirmed_intents : Intents
confirmed_intents =
    (
      pos 1,
      record intent {
        status = confirmed;
        attempt_count = 1;
        execution_generation = 3;
        last_attempt_at_unix_ms = some (pos 5);
        submitted_at_unix_ms = some (pos 5);
        pre_submit_change_cursor = some (codes "c1");
        awaiting_confirmation_at_unix_ms = some (pos 6);
        confirmed_at_unix_ms = some (pos 7);
      },
    )
    ∷ []

confirms : run calls intents ≡ confirmed_intents
unfolding int_eq insert lookup byte_len is_whitespace text_eq text_pair_eq utf8_width nat_eq
    option_eq new_change_cursor item_kind_eq mode_eq kind_eq parse_digits parse_u64 print_digits
    print_u64 execution_state has_hex_digits operation_eq read_execution_state status_eq
    update_intent validate_optional_checksum validate_remote_write_identifier
    begin_sync_root_file_create_submission begin_sync_root_folder_create_submission check_submission
    update_begin outcome complete_sync_root_file_create_upload evidence_of
    record_sync_root_file_create_stream_fingerprint
    recover_sync_root_file_create_confirmation_conflict stored_version
    sync_root_file_create_content_evidence update_fingerprint update_recovery update_upload
    transition_sync_root_file_create_intent transition_sync_root_folder_create_intent update_status
    check_authority check_fingerprint check_restart check_source
    restart_sync_root_file_create_submission update_restart run is_lower_hex i64_checked_add
    i64_try_from
confirms = refl

there : lookup (pos 1) intents ≡ some intent
unfolding lookup int_eq
there = refl

run-Continues_example : Continues intent (lookup (pos 1) (run calls intents))
run-Continues_example = run-Continues calls intents (pos 1) intent there

intent-IsConsistent : IsConsistent intent
intent-IsConsistent = record {
  attempted = λ p. ground (arith, p);
  ended = refl;
  awaiting = λ p. ground (arith, p);
  settled = λ p. ground (arith, p);
  attempts_bounded = omega arith;
}

intents-AreConsistent : AreConsistent intents
unfolding lookup
intents-AreConsistent id row e =
    let same : intent ≡ row = ground (arith, e) in subst IsConsistent same intent-IsConsistent

run-AreConsistent_example : AreConsistent (run calls intents)
run-AreConsistent_example = run-AreConsistent calls intents intents-AreConsistent

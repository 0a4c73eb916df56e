-- ===== src/Storage/Intents/Calls.antt =====
-- The transitions of crates/nubisync-storage/src/lib.rs as calls, each with what it returns and leaves.
use nubisync.Base.{
  is_some, true, int_eq, Text, arith, err, inl, inr, nat_eq, ok, option_eq, refl, text_eq, ℕ, ℤ,
  ◌≡◌, ◌⊎◌,
}
use nubisync.Core.Ids.{ChangeCursor}
use nubisync.Core.Modes.{file, directory}
use nubisync.Storage.Intents.{
  Intents, Outcome, create_file, create_folder, RemoteWriteIntentStatus, settle,
}
use nubisync.Storage.Intents.Moves.{
  Update, file_move, folder_move, transition_sync_root_file_create_intent,
  transition_sync_root_folder_create_intent,
}
use nubisync.Storage.Intents.Evidence.{
  record_sync_root_file_create_stream_fingerprint, complete_sync_root_file_create_upload,
  recover_sync_root_file_create_confirmation_conflict,
}
use nubisync.Storage.Intents.Begin.{
  WriteTables, begin_sync_root_file_create_submission, begin_sync_root_folder_create_submission,
}
use nubisync.Storage.Intents.Restart.{restart_sync_root_file_create_submission}
use nubisync.Storage.Intents.Steps.{
  IsStep, update_status-IsStep, update_fingerprint-IsStep, update_upload-IsStep,
  update_recovery-IsStep, update_begin-IsStep, update_restart-IsStep,
}

-- A call of a transition: the intent, the generation that the caller expects, and the rest of its
-- arguments.
pub data Call : Type 0 where
  begins_file begins_folder : ℤ → ℕ → ChangeCursor → ℤ → Call
  restarts_file : ℤ → ℕ → ℕ → ChangeCursor → ℤ → Call
  records_fingerprint : ℤ → ℕ → ℕ → Text → Call
  completes_upload : ℤ → ℕ → ℕ → ℤ → Call
  moves_file moves_folder : ℤ → RemoteWriteIntentStatus → ℕ → RemoteWriteIntentStatus → ℤ → Call
  recovers_file : ℤ → ℕ → ℕ → ℤ → Call

unfoldable pub outcome : Call → WriteTables → Outcome
unfolding begin_sync_root_file_create_submission begin_sync_root_folder_create_submission
    restart_sync_root_file_create_submission record_sync_root_file_create_stream_fingerprint
    complete_sync_root_file_create_upload transition_sync_root_file_create_intent
    transition_sync_root_folder_create_intent recover_sync_root_file_create_confirmation_conflict
outcome (begins_file id generation cursor at) t =
    begin_sync_root_file_create_submission id generation cursor at t
outcome (begins_folder id generation cursor at) t =
    begin_sync_root_folder_create_submission id generation cursor at t
outcome (restarts_file id generation attempts cursor at) t =
    restart_sync_root_file_create_submission id generation attempts cursor at t
outcome (records_fingerprint id generation size sha256_hex) t =
    record_sync_root_file_create_stream_fingerprint id generation size sha256_hex t.intents
outcome (completes_upload id generation version at) t =
    complete_sync_root_file_create_upload id generation version at t.intents
outcome (moves_file id expected generation status at) t =
    transition_sync_root_file_create_intent id expected generation status at t.intents
outcome (moves_folder id expected generation status at) t =
    transition_sync_root_folder_create_intent id expected generation status at t.intents
outcome (recovers_file id generation attempts at) t =
    recover_sync_root_file_create_confirmation_conflict t.settled id generation attempts at
      t.intents

abbrev pub id_of : Call → ℤ
id_of (begins_file id _ _ _) = id
id_of (begins_folder id _ _ _) = id
id_of (restarts_file id _ _ _ _) = id
id_of (records_fingerprint id _ _ _) = id
id_of (completes_upload id _ _ _) = id
id_of (moves_file id _ _ _ _) = id
id_of (moves_folder id _ _ _ _) = id
id_of (recovers_file id _ _ _) = id

settle-IsStep :
    (id : ℤ) (intents : Intents) (updated : Update)
    → ((after : Intents) → updated ≡ ok after → IsStep id intents after)
    → ((settle id intents updated).1 ≡ intents) ⊎ IsStep id intents (settle id intents updated).1
settle-IsStep id intents (err _) steps = inl refl
settle-IsStep id intents (ok after) steps = inr (steps after refl)

pub outcome-IsStep :
    (c : Call) (t : WriteTables)
    → ((outcome c t).1 ≡ t.intents) ⊎ IsStep (id_of c) t.intents (outcome c t).1
unfolding outcome begin_sync_root_file_create_submission begin_sync_root_folder_create_submission
    restart_sync_root_file_create_submission record_sync_root_file_create_stream_fingerprint
    complete_sync_root_file_create_upload transition_sync_root_file_create_intent
    transition_sync_root_folder_create_intent recover_sync_root_file_create_confirmation_conflict
outcome-IsStep (begins_file id generation cursor at) t = settle-IsStep id t.intents _ (λ after.
    update_begin-IsStep create_file file (λ row. is_some row.local_size_bytes) id generation cursor
      at t)
outcome-IsStep (begins_folder id generation cursor at) t =
    settle-IsStep id t.intents _
      (λ after. update_begin-IsStep create_folder directory (λ row. true) id generation cursor at t)
outcome-IsStep (restarts_file id generation attempts cursor at) t =
    settle-IsStep id t.intents _ (λ after. update_restart-IsStep id generation attempts cursor at t)
outcome-IsStep (records_fingerprint id generation size sha256_hex) t =
    settle-IsStep id t.intents _
      (λ after. update_fingerprint-IsStep id generation size sha256_hex t.intents)
outcome-IsStep (completes_upload id generation version at) t =
    settle-IsStep id t.intents _ (λ after. update_upload-IsStep id generation version at t.intents)
outcome-IsStep (moves_file id expected generation status at) t =
    settle-IsStep id t.intents _ (λ after.
      update_status-IsStep create_file file_move (λ o n a. ground (arith, a)) id expected generation
        status at t.intents)
outcome-IsStep (moves_folder id expected generation status at) t =
    settle-IsStep id t.intents _ (λ after.
      update_status-IsStep create_folder folder_move (λ o n a. ground (arith, a)) id expected
        generation status at t.intents)
outcome-IsStep (recovers_file id generation attempts at) t =
    settle-IsStep id t.intents _
      (λ after. update_recovery-IsStep t.settled id generation attempts at t.intents)

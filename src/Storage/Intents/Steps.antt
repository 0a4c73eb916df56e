-- ===== src/Storage/Intents/Steps.antt =====
-- Each transition of crates/nubisync-storage/src/lib.rs changes one intent, along an edge of its graph.
use nubisync.Base.{
  contains, List, reject_if-false, ok_or, not, reject_if, ◌&&◌, ◌||◌, nat_eq, codes, >>-eq-ok,
  >>=-eq-ok, text_eq, some, Text, ℕ, option_eq, Bool, arith, false, inl, inr, insert, int_eq,
  lookup, ok, sym, true, ℤ, ◌==◌, ◌≡◌, Option-cases, Bool-cases,
}
use mathlib.Core.Path.{subst}
use nubisync.Core.Ids.{ChangeCursor}
use nubisync.Core.Modes.{LocalItemKind, mode_eq, two_way}
use nubisync.Core.Remote.{kind_eq}
use nubisync.Storage.Tables.{i64_try_from, i64_checked_add}
use nubisync.Storage.Intents.Begin.{
  WriteTables, submit, update_begin, check_submission, find_intent, require, is_ready_to_begin,
}
use nubisync.Storage.Intents.Restart.{update_restart, check_restart, is_ready_to_restart}
use nubisync.Storage.Intents.{
  planned, submitted, conflict, create_file, RemoteWriteIntentOperation, RemoteWriteIntentStatus,
  operation_eq, status_eq, is_positive, validate_optional_checksum, Intents, IntentRow,
  update_intent,
}
use nubisync.Storage.Intents.Moves.{
  stands_at, file_move, folder_move, moved, times_of, update_status,
}
use nubisync.Storage.Intents.Evidence.{
  takes_recovery, fingerprinted, takes_fingerprint, has_evidence, uploaded, recovered,
  update_fingerprint, update_upload, update_recovery, sync_root_file_create_content_evidence,
}
use nubisync.Storage.Intents.Graph.{begins, restarts, recovers, fingerprints, uploads, moves, Moves}

-- One intent is changed, along an edge.
pub record IsStep (intent_id : ℤ) (intents intents' : Intents) : Type 0 where
  pub row : IntentRow
  pub next : IntentRow
  pub found : lookup intent_id intents ≡ some row
  pub edge : Moves row next
  pub result : intents' ≡ insert intent_id next intents

update_intent-IsStep :
    (intent_id : ℤ) (test : IntentRow → Bool) (change : IntentRow → IntentRow) (intents : Intents)
    {intents' : Intents}
    → ((row : IntentRow) → test row ≡ true → Moves row (change row))
    → update_intent intent_id test change intents ≡ ok intents'
    → IsStep intent_id intents intents'
unfolding update_intent
update_intent-IsStep intent_id test change intents {intents'} edge e =
    elim (Option-cases (lookup intent_id intents)) [
      | inl f ↦ ground (arith, e, f)
      | inr (row, f) ↦ elim (Bool-cases (test row)) [
        | inl p ↦
            let same : insert intent_id (change row) intents ≡ intents' = ground (arith, e, f, p) in
            record { row = row; next = change row; found = f; edge = edge row p; result = sym same }
        | inr p ↦ ground (arith, e, f, p)
      ]
    ]

stands_at-status :
    (operation : RemoteWriteIntentOperation) (status : RemoteWriteIntentStatus) (generation : ℕ)
    (row : IntentRow)
    → stands_at operation status generation row ≡ true
    → row.status ≡ status
stands_at-status operation status generation row h = ground arith

left : (a b : Bool) → (a && b) ≡ true → a ≡ true
left a b h = ground arith

right : (a b : Bool) → (a && b) ≡ true → b ≡ true
right a b h = ground arith

not-false : (b : Bool) → not b ≡ false → b ≡ true
not-false b h = ground arith

pub update_status-IsStep :
    (operation : RemoteWriteIntentOperation)
    (allowed : RemoteWriteIntentStatus → RemoteWriteIntentStatus → Bool)
    → ((old new : RemoteWriteIntentStatus)
        → allowed old new ≡ true
        → (file_move old new || folder_move old new) ≡ true)
    → (intent_id : ℤ) (expected : RemoteWriteIntentStatus) (generation : ℕ)
      (status : RemoteWriteIntentStatus) (at : ℤ) (intents : Intents) {intents' : Intents}
    → update_status operation allowed intent_id expected generation status at intents ≡ ok intents'
    → IsStep intent_id intents intents'
unfolding update_status
update_status-IsStep operation allowed listed intent_id expected generation status at intents e =
    let (_, e1) =
      >>-eq-ok (reject_if (not (is_positive intent_id) || not (is_positive at)) _) _ e in
    let (a, e2) = >>-eq-ok (reject_if (not (allowed expected status)) _) _ e1 in
    let (g, _, e3) = >>=-eq-ok (i64_try_from generation) _ e2 in
    let (times, t, e4) = >>=-eq-ok (times_of status at) _ e3 in
    let may = listed expected status (not-false _ (reject_if-false _ _ a)) in
    update_intent-IsStep intent_id (stands_at operation expected g) (moved status times) intents
      (λ row p.
        let here = stands_at-status operation expected g row p in
        moves status at
          (subst (λ s. (file_move s status || folder_move s status) ≡ true) (sym here) may) t)
      e4

pub update_fingerprint-IsStep :
    (intent_id : ℤ) (generation size : ℕ) (sha256_hex : Text) (intents : Intents)
    {intents' : Intents}
    → update_fingerprint intent_id generation size sha256_hex intents ≡ ok intents'
    → IsStep intent_id intents intents'
unfolding update_fingerprint
update_fingerprint-IsStep intent_id generation size sha256_hex intents e =
    let (_, e1) = >>-eq-ok (reject_if (not (is_positive intent_id) || size == 0) _) _ e in
    let (_, e2) =
      >>-eq-ok (validate_optional_checksum (some (codes "sha256")) (some sha256_hex)) _ e1 in
    let (g, _, e3) = >>=-eq-ok (i64_try_from generation) _ e2 in
    let (n, _, e4) = >>=-eq-ok (i64_try_from size) _ e3 in
    update_intent-IsStep intent_id (takes_fingerprint g n sha256_hex) (fingerprinted n sha256_hex)
      intents
      (λ row p.
        fingerprints n sha256_hex
          (stands_at-status create_file submitted g row (left _ _ (left _ _ (left _ _ p)))))
      e4

pub update_upload-IsStep :
    (intent_id : ℤ) (generation version : ℕ) (at : ℤ) (intents : Intents) {intents' : Intents}
    → update_upload intent_id generation version at intents ≡ ok intents'
    → IsStep intent_id intents intents'
unfolding update_upload
update_upload-IsStep intent_id generation version at intents e =
    let (_, e1) =
      >>-eq-ok (reject_if (not (is_positive intent_id) || version == 0 || not (is_positive at)) _) _
        e in
    let (g, _, e2) = >>=-eq-ok (i64_try_from generation) _ e1 in
    let (found, _, e3) =
      >>=-eq-ok (sync_root_file_create_content_evidence intent_id intents) _ e2 in
    let (evidence, _, e4) = >>=-eq-ok (ok_or found _) _ e3 in
    let (_, e5) = >>-eq-ok (reject_if (evidence.size_bytes == 0) _) _ e4 in
    update_intent-IsStep intent_id
      (λ row. stands_at create_file submitted g row && has_evidence row) (uploaded version at)
      intents
      (λ row p.
        uploads version at (stands_at-status create_file submitted g row (left _ _ p))
          (right (stands_at create_file submitted g row) (has_evidence row) p))
      e5

pub update_recovery-IsStep :
    (settled : List ℤ) (intent_id : ℤ) (generation attempts : ℕ) (at : ℤ) (intents : Intents)
    {intents' : Intents}
    → update_recovery settled intent_id generation attempts at intents ≡ ok intents'
    → IsStep intent_id intents intents'
unfolding update_recovery
update_recovery-IsStep settled intent_id generation attempts at intents e =
    let (_, e1) =
      >>-eq-ok
        (reject_if
          (not (is_positive intent_id) || generation == 0 || attempts == 0 || not (is_positive at))
          _)
        _ e in
    let (g, _, e2) = >>=-eq-ok (i64_try_from generation) _ e1 in
    let (n, _, e3) = >>=-eq-ok (i64_try_from attempts) _ e2 in
    update_intent-IsStep intent_id (takes_recovery settled intent_id g n) (recovered at) intents
      (λ row p.
        recovers at
          (stands_at-status create_file conflict g row
            (left _ _ (left _ _ (left _ _ (left _ _ (left _ _ (left _ _ p)))))))
          (right _ _ (left _ _ p)))
      e3

pub update_begin-IsStep :
    (operation : RemoteWriteIntentOperation) (kind : LocalItemKind) (sized : IntentRow → Bool)
    (intent_id : ℤ) (generation : ℕ) (cursor : ChangeCursor) (at : ℤ) (t : WriteTables)
    {intents' : Intents}
    → update_begin operation kind sized intent_id generation cursor at t ≡ ok intents'
    → IsStep intent_id t.intents intents'
unfolding update_begin
update_begin-IsStep operation kind sized intent_id generation cursor at t e =
    let (_, e1) =
      >>-eq-ok (reject_if (not (is_positive intent_id) || not (is_positive at)) _) _ e in
    let (g, _, e2) = >>=-eq-ok (i64_try_from generation) _ e1 in
    let (_, e3) = >>-eq-ok (require (t.mode == some two_way)) _ e2 in
    let (row, _, e4) = >>=-eq-ok (find_intent intent_id t.intents) _ e3 in
    let (_, e5) = >>-eq-ok (require (is_ready_to_begin operation g row && sized row)) _ e4 in
    let (_, e6) = >>-eq-ok (check_submission kind cursor.as_str row t) _ e5 in
    update_intent-IsStep intent_id (stands_at operation planned g) (submit cursor.as_str at)
      t.intents (λ r p. begins cursor.as_str at (stands_at-status operation planned g r p)) e6

pub update_restart-IsStep :
    (intent_id : ℤ) (generation attempts : ℕ) (cursor : ChangeCursor) (at : ℤ) (t : WriteTables)
    {intents' : Intents}
    → update_restart intent_id generation attempts cursor at t ≡ ok intents'
    → IsStep intent_id t.intents intents'
unfolding update_restart
update_restart-IsStep intent_id generation attempts cursor at t e =
    let (_, e1) =
      >>-eq-ok (reject_if (not (is_positive intent_id) || attempts == 0 || not (is_positive at)) _)
        _ e in
    let (g, _, e2) = >>=-eq-ok (i64_try_from generation) _ e1 in
    let (n, _, e3) = >>=-eq-ok (i64_try_from attempts) _ e2 in
    let (_, _, e4) = >>=-eq-ok (i64_checked_add g 1) _ e3 in
    let (_, _, e5) = >>=-eq-ok (i64_checked_add n 1) _ e4 in
    let (_, e6) = >>-eq-ok (require (t.mode == some two_way)) _ e5 in
    let (row, _, e7) = >>=-eq-ok (find_intent intent_id t.intents) _ e6 in
    let (_, e8) = >>-eq-ok (require (is_ready_to_restart g n row)) _ e7 in
    let (_, e9) = >>-eq-ok (check_restart cursor.as_str row t) _ e8 in
    let (_, e10) = >>-eq-ok (require (not (contains t.settled intent_id))) _ e9 in
    update_intent-IsStep intent_id
      (λ r. stands_at create_file submitted g r && r.attempt_count == n) (submit cursor.as_str at)
      t.intents
      (λ r p. restarts cursor.as_str at (stands_at-status create_file submitted g r (left _ _ p)))
      e10

-- ===== src/Storage/Intents/Graph.antt =====
-- The statuses that a remote-write intent of crates/nubisync-storage/src/lib.rs goes through, as a
-- relation on its row, and what each edge of it keeps.
use nubisync.Base.{
  ap, ◌∙◌, refl, ok-injective, Bool, Option, Text, arith, false, int_eq, is_some, nat_eq, not, ok,
  option_eq, text_eq, true, ℕ, ℤ, ◌&&◌, ◌==◌, ◌≡◌, ◌≤◌, ◌||◌,
}
use mathlib.Core.Path.{subst}
use nubisync.Core.Remote.{kind_eq}
use nubisync.Storage.Intents.{
  awaiting_confirmation, confirmed, superseded, failed, conflict, planned, IntentRow, operation_eq,
  RemoteWriteIntentStatus, submitted, status_eq,
}
use nubisync.Storage.Intents.Moves.{file_move, folder_move, moved, times_of}
use nubisync.Storage.Intents.Evidence.{fingerprinted, has_evidence, uploaded, recovered}
use nubisync.Storage.Intents.Begin.{submit}

pub data Moves : IntentRow → IntentRow → Type 0 where
  begins :
      {row : IntentRow} (cursor : Text) (at : ℤ)
      → row.status ≡ planned
      → Moves row (submit cursor at row)
  restarts :
      {row : IntentRow} (cursor : Text) (at : ℤ)
      → row.status ≡ submitted
      → Moves row (submit cursor at row)
  fingerprints :
      {row : IntentRow} (size : ℕ) (sha256_hex : Text)
      → row.status ≡ submitted
      → Moves row (fingerprinted size sha256_hex row)
  uploads :
      {row : IntentRow} (version : ℕ) (at : ℤ)
      → row.status ≡ submitted
      → has_evidence row ≡ true
      → Moves row (uploaded version at row)
  moves :
      {row : IntentRow} (status : RemoteWriteIntentStatus) (at : ℤ)
      {times : Option ℤ × Option ℤ × Option ℤ}
      → (file_move row.status status || folder_move row.status status) ≡ true
      → times_of status at ≡ ok times
      → Moves row (moved status times row)
  recovers :
      {row : IntentRow} (at : ℤ)
      → row.status ≡ conflict
      → has_evidence row ≡ true
      → Moves row (recovered at row)

abbrev pub was_submitted : RemoteWriteIntentStatus → Bool
was_submitted planned = false
was_submitted superseded = false
was_submitted _ = true

abbrev pub has_ended : RemoteWriteIntentStatus → Bool
has_ended conflict = true
has_ended failed = true
has_ended _ = false

-- An intent that was submitted has the cursor and the time of it and counts an attempt; the time of
-- its end is set exactly in a conflict or a failure; one that awaits its confirmation or has it has the
-- time of it; and it counts no more attempts than generations.
pub record IsConsistent (row : IntentRow) : Type 0 where
  pub attempted :
      was_submitted row.status ≡ true
      → (is_some row.pre_submit_change_cursor
          && is_some row.submitted_at_unix_ms
          && not (row.attempt_count == 0))
        ≡ true
  pub ended : is_some row.terminal_at_unix_ms ≡ has_ended row.status
  pub awaiting :
      row.status ≡ awaiting_confirmation → is_some row.awaiting_confirmation_at_unix_ms ≡ true
  pub settled : row.status ≡ confirmed → is_some row.confirmed_at_unix_ms ≡ true
  pub attempts_bounded : row.attempt_count ≤ row.execution_generation

allowed-old :
    (old new : RemoteWriteIntentStatus)
    → (file_move old new || folder_move old new) ≡ true
    → (was_submitted old ≡ true) × (has_ended old ≡ false)
allowed-old planned new h = ground arith
allowed-old submitted new h = (refl, refl)
allowed-old awaiting_confirmation new h = (refl, refl)
allowed-old confirmed new h = ground arith
allowed-old conflict new h = ground arith
allowed-old failed new h = ground arith
allowed-old superseded new h = ground arith

submit-IsConsistent :
    (cursor : Text) (at : ℤ) (row : IntentRow)
    → has_ended row.status ≡ false
    → IsConsistent row
    → IsConsistent (submit cursor at row)
submit-IsConsistent cursor at row e h = record {
  attempted = λ n. ground arith;
  ended = h.ended ∙ e;
  awaiting = λ e. ground arith;
  settled = λ e. ground arith;
  attempts_bounded = omega (arith, h.attempts_bounded);
}

moved-IsConsistent :
    (status : RemoteWriteIntentStatus) (at : ℤ) (times : Option ℤ × Option ℤ × Option ℤ)
    (row : IntentRow)
    → was_submitted row.status ≡ true
    → has_ended row.status ≡ false
    → times_of status at ≡ ok times
    → IsConsistent row
    → IsConsistent (moved status times row)
moved-IsConsistent awaiting_confirmation at times row s e t h =
    subst (λ q. IsConsistent (moved awaiting_confirmation q row)) (ok-injective t)
      (record {
        attempted = λ _. h.attempted s;
        ended = h.ended ∙ e;
        awaiting = λ _. refl;
        settled = λ x. ground arith;
        attempts_bounded = omega (arith, h.attempts_bounded);
      })
moved-IsConsistent confirmed at times row s e t h =
    subst (λ q. IsConsistent (moved confirmed q row)) (ok-injective t)
      (record {
        attempted = λ _. h.attempted s;
        ended = h.ended ∙ e;
        awaiting = λ x. ground arith;
        settled = λ _. refl;
        attempts_bounded = omega (arith, h.attempts_bounded);
      })
moved-IsConsistent conflict at times row s e t h =
    subst (λ q. IsConsistent (moved conflict q row)) (ok-injective t)
      (record {
        attempted = λ _. h.attempted s;
        ended = refl;
        awaiting = λ x. ground arith;
        settled = λ x. ground arith;
        attempts_bounded = omega (arith, h.attempts_bounded);
      })
moved-IsConsistent failed at times row s e t h =
    subst (λ q. IsConsistent (moved failed q row)) (ok-injective t)
      (record {
        attempted = λ _. h.attempted s;
        ended = refl;
        awaiting = λ x. ground arith;
        settled = λ x. ground arith;
        attempts_bounded = omega (arith, h.attempts_bounded);
      })
moved-IsConsistent planned at times row s e t h = ground arith
moved-IsConsistent submitted at times row s e t h = ground arith
moved-IsConsistent superseded at times row s e t h = ground arith

-- Every edge keeps an intent consistent.
pub Moves-IsConsistent :
    {row row' : IntentRow} → Moves row row' → IsConsistent row → IsConsistent row'
Moves-IsConsistent {row} (begins cursor at p) h =
    submit-IsConsistent cursor at row (ap has_ended p) h
Moves-IsConsistent {row} (restarts cursor at p) h =
    submit-IsConsistent cursor at row (ap has_ended p) h
Moves-IsConsistent (fingerprints size sha p) h = record {
  attempted = h.attempted;
  ended = h.ended;
  awaiting = h.awaiting;
  settled = h.settled;
  attempts_bounded = h.attempts_bounded;
}
Moves-IsConsistent (uploads version at p e) h = record {
  attempted = λ _. h.attempted (ap was_submitted p);
  ended = h.ended ∙ ap has_ended p;
  awaiting = λ _. refl;
  settled = λ x. ground arith;
  attempts_bounded = omega (arith, h.attempts_bounded);
}
Moves-IsConsistent {row} (moves status at {times = times} p t) h =
    let (s, e) = allowed-old row.status status p in moved-IsConsistent status at times row s e t h
Moves-IsConsistent (recovers at p e) h = record {
  attempted = λ _. h.attempted (ap was_submitted p);
  ended = refl;
  awaiting = λ x. ground arith;
  settled = λ _. refl;
  attempts_bounded = omega (arith, h.attempts_bounded);
}

-- A status from which there is a transition.
abbrev pub is_open : RemoteWriteIntentStatus → Bool
is_open planned = true
is_open submitted = true
is_open awaiting_confirmation = true
is_open conflict = true
is_open _ = false

allowed_open :
    (old new : RemoteWriteIntentStatus)
    → (file_move old new || folder_move old new) ≡ true
    → is_open old ≡ true
allowed_open planned new h = refl
allowed_open submitted new h = refl
allowed_open awaiting_confirmation new h = refl
allowed_open confirmed new h = ground arith
allowed_open conflict new h = refl
allowed_open failed new h = ground arith
allowed_open superseded new h = ground arith

-- An edge leaves an open status, for the same item, and never to an earlier generation.
pub Moves-forward :
    {row row' : IntentRow}
    → Moves row row'
    → (is_open row.status ≡ true)
      × (row.execution_generation ≤ row'.execution_generation)
      × (row'.operation_kind ≡ row.operation_kind)
Moves-forward (begins cursor at p) = (ap is_open p, omega arith, refl)
Moves-forward (restarts cursor at p) = (ap is_open p, omega arith, refl)
Moves-forward (fingerprints size sha p) = (ap is_open p, omega arith, refl)
Moves-forward (uploads version at p e) = (ap is_open p, omega arith, refl)
Moves-forward {row} (moves status at p t) = (allowed_open row.status status p, omega arith, refl)
Moves-forward (recovers at p e) = (ap is_open p, omega arith, refl)

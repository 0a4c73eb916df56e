-- ===== src/Storage/Intents/Accepted.antt =====
-- When a transition of a remote-write intent of crates/nubisync-storage/src/lib.rs is accepted.
use nubisync.Base.{
  Bool, Option, Option-cases, arith, inl, inr, insert, int_eq, lookup, nat_eq, not, ok, option_eq,
  refl, reject_if, reject_if-false, some, true, ℕ, ℤ, ◌≡◌, ◌<◌, ◌↔◌, ◌||◌, ◌∙◌, ap, >>-eq-ok,
  >>=-eq-ok, text_eq,
}
use mathlib.Core.Path.{subst}
use nubisync.Storage.Tables.{i64_try_from, i64_bound}
use nubisync.Storage.Intents.{
  Intents, IntentRow, RemoteWriteIntentOperation, RemoteWriteIntentStatus, planned, submitted,
  awaiting_confirmation, confirmed, conflict, failed, superseded, operation_eq, status_eq,
  is_positive, update_intent,
}
use nubisync.Storage.Intents.Moves.{
  stands_at, file_move, folder_move, moved, times_of, update_status,
}

times_of-allowed :
    (old new : RemoteWriteIntentStatus) (at : ℤ)
    → (file_move old new || folder_move old new) ≡ true
    → (times : Option ℤ × Option ℤ × Option ℤ) × (times_of new at ≡ ok times)
times_of-allowed old awaiting_confirmation at h = (_, refl)
times_of-allowed old confirmed at h = (_, refl)
times_of-allowed old conflict at h = (_, refl)
times_of-allowed old failed at h = (_, refl)
times_of-allowed old planned at h = ground arith
times_of-allowed old submitted at h = ground arith
times_of-allowed old superseded at h = ground arith

update_intent_iff :
    (id : ℤ) (test : IntentRow → Bool) (change : IntentRow → IntentRow) (intents : Intents)
    → ((after : Intents) × (update_intent id test change intents ≡ ok after))
      ↔ ((row : IntentRow) × (lookup id intents ≡ some row) × (test row ≡ true))
unfolding update_intent
update_intent_iff id test change intents = (
  λ (after, e). elim (Option-cases (lookup id intents)) [
    | inl f ↦ ground (arith, e, f)
    | inr (row, f) ↦ (row, f, ground (arith, e, f))
  ],
  λ (row, f, p). (insert id (change row) intents, ground (arith, f, p)),
)

i64_try_from_iff : (n : ℕ) → (i64_try_from n ≡ ok n) ↔ (n < i64_bound)
unfolding i64_try_from
i64_try_from_iff n = (λ e. ground arith, λ h. ground arith)

i64_try_from-same : (n m : ℕ) → i64_try_from n ≡ ok m → m ≡ n
unfolding i64_try_from
i64_try_from-same n m e = ground arith

-- A transition is accepted exactly if the id and the time are positive, the two statuses are a listed
-- pair, and the stored intent is for the operation and at the status and the generation that the
-- caller expects, which fits an `i64`; in every other case there is an error. The listed pairs are
-- among those of files and folders.
update_status_iff :
    (operation : RemoteWriteIntentOperation)
    (allowed : RemoteWriteIntentStatus → RemoteWriteIntentStatus → Bool) (id : ℤ)
    (expected : RemoteWriteIntentStatus) (generation : ℕ) (status : RemoteWriteIntentStatus)
    (at : ℤ) (intents : Intents)
    → ((old new : RemoteWriteIntentStatus)
        → allowed old new ≡ true
        → (file_move old new || folder_move old new) ≡ true)
    → ((after : Intents) × (update_status operation allowed id expected generation status at intents
          ≡ ok after))
      ↔ ((is_positive id ≡ true)
          × (is_positive at ≡ true)
          × (allowed expected status ≡ true)
          × (generation < i64_bound)
          × ((row : IntentRow) × (lookup id intents ≡ some row)
              × (stands_at operation expected generation row ≡ true)))
unfolding update_status
update_status_iff operation allowed id expected generation status at intents listed = (
  λ (after, e).
      let (a, e1) = >>-eq-ok (reject_if (not (is_positive id) || not (is_positive at)) _) _ e in
      let (b, e2) = >>-eq-ok (reject_if (not (allowed expected status)) _) _ e1 in
      let (g, fits, e3) = >>=-eq-ok (i64_try_from generation) _ e2 in
      let (times, _, e4) = >>=-eq-ok (times_of status at) _ e3 in
      let both = reject_if-false _ _ a in
      let same = i64_try_from-same generation g fits in
      let (row, found, stands) =
        (update_intent_iff id (stands_at operation expected g) (moved status times) intents).0
          (after, e4) in
      (
        ground (arith, both),
        ground (arith, both),
        ground (arith, reject_if-false _ _ b),
        (i64_try_from_iff generation).0 (fits ∙ ap ok same),
        (row, found, subst (λ n. stands_at operation expected n row ≡ true) same stands),
      ),
  λ (a, b, c, small, (row, found, stands)).
      let fits = (i64_try_from_iff generation).1 small in
      let (times, t) = times_of-allowed expected status at (listed expected status c) in
      let (after, e) =
        (update_intent_iff id (stands_at operation expected generation) (moved status times)
            intents).1
          (row, found, stands) in
      (after, rw (a, b, c, fits, t) e),
)

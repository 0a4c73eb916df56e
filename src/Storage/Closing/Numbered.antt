-- ===== src/Storage/Closing/Numbered.antt =====
-- The events of a change window in crates/nubisync-storage/src/lib.rs: their sequence numbers, and
-- what is read back of the changes that a page stages.
use nubisync.Base.{
  ◌>>=◌, ◌≡◌, ◌∙◌, ap, length-append, ok-injective, >>=-eq-ok, >>-eq-ok, is_blank, is_empty, map,
  ◌||◌, reject_if, contains_key, Dict, List, Option, [], ◌∷◌, ◌++◌, ◌+◌, arith, length, nat_eq,
  none, ok, option_eq, refl, some, sort_by, insert_sorted, suc, text_eq, ℕ, int_eq,
}
use mathlib.Core.Path.{subst}
use mathlib.Core.List.{append-nil, append_assoc}
use nubisync.Core.Remote.{RemoteChange, upsert, delete}
use nubisync.Storage.Tables.{EventRow, optional_size, i64_try_from, i64_checked_add}
use nubisync.Storage.Window.{event_of, insert_event, stage_changes}
use nubisync.Storage.Closing.{read_event, read_events, by_sequence}

-- The events are those from `start` on, in order.
abbrev pub IsNumbered : ℕ → Dict ℕ EventRow → Type 0
IsNumbered start [] = Unit
IsNumbered start ((sequence, _) ∷ events) = (sequence ≡ start) × IsNumbered (suc start) events

-- What a stored change keeps: the time of the modification is not stored.
abbrev pub stored_change : RemoteChange → RemoteChange
stored_change (delete remote_id) = delete remote_id
stored_change (upsert item) = upsert (record item { modified_unix_ms = none })

insert_sorted-IsNumbered :
    (n : ℕ) (row : EventRow) (events : Dict ℕ EventRow)
    → IsNumbered (suc n) events
    → insert_sorted by_sequence (n, row) events ≡ (n, row) ∷ events
unfolding insert_sorted
insert_sorted-IsNumbered n row [] h = refl
insert_sorted-IsNumbered n row ((m, r) ∷ events) h = ground arith

-- The order by sequence is the order in which the events were inserted.
pub sort_by-IsNumbered :
    (n : ℕ) (events : Dict ℕ EventRow) → IsNumbered n events → sort_by by_sequence events ≡ events
unfolding sort_by
sort_by-IsNumbered n [] h = refl
sort_by-IsNumbered n ((m, row) ∷ events) (e, h) =
    ground (arith, sort_by-IsNumbered (suc n) events h, insert_sorted-IsNumbered m row events)

snoc-IsNumbered :
    (start : ℕ) (row : EventRow) (events : Dict ℕ EventRow) (sequence : ℕ)
    → IsNumbered start events
    → sequence ≡ start + length events
    → IsNumbered start (events ++ (sequence, row) ∷ [])
snoc-IsNumbered start row [] sequence h e = (omega (arith, e), tt)
snoc-IsNumbered start row ((n, r) ∷ events) sequence (same, h) e =
    (same, snoc-IsNumbered (suc start) row events sequence h (omega (arith, e)))

read_events-snoc :
    (events : Dict ℕ EventRow) (sequence : ℕ) (row : EventRow) (change : RemoteChange)
    {before : List RemoteChange}
    → read_events events ≡ ok before
    → read_event row ≡ ok change
    → read_events (events ++ (sequence, row) ∷ []) ≡ ok (before ++ change ∷ [])
unfolding read_events
read_events-snoc [] sequence row change {before} h e =
    subst (λ first. (read_event row >>= λ c. ok (c ∷ [])) ≡ ok (first ++ change ∷ []))
      (ok-injective h) (ground (arith, e))
read_events-snoc ((n, r) ∷ events) sequence row change {before} h e =
    let (first, here, rest) = >>=-eq-ok (read_event r) _ h in
    let (later, there, last) = >>=-eq-ok (read_events events) _ rest in
    let added = read_events-snoc events sequence row change there e in
    subst
      (λ all.
        (read_event r >>= λ c. read_events (events ++ (sequence, row) ∷ []) >>= λ cs. ok (c ∷ cs))
        ≡ ok (all ++ change ∷ []))
      (ok-injective last) (ground (arith, here, added))

pub optional_size-eq :
    (size : Option ℕ) {stored : Option ℕ} → optional_size size ≡ ok stored → size ≡ stored
unfolding optional_size i64_try_from
optional_size-eq none e = ground arith
optional_size-eq (some n) e = ground arith

-- A change is read back from its row.
read_event-event_of :
    (change : RemoteChange) {row : EventRow}
    → event_of change ≡ ok row
    → read_event row ≡ ok (stored_change change)
unfolding event_of read_event
read_event-event_of (delete remote_id) e =
    let (_, same) = >>-eq-ok (reject_if (is_blank remote_id) _) _ e in rw (← ok-injective same) refl
read_event-event_of (upsert item) e =
    let (_, sized) = >>-eq-ok (reject_if (is_blank item.remote_id || is_empty item.name) _) _ e in
    let (size, stored, same) = >>=-eq-ok (optional_size item.size_bytes) _ sized in
    rw (← ok-injective same) (rw (← optional_size-eq item.size_bytes stored) refl)

insert_event-eq :
    (sequence : ℕ) (row : EventRow) (events : Dict ℕ EventRow) {events' : Dict ℕ EventRow}
    → insert_event sequence row events ≡ ok events'
    → events ++ (sequence, row) ∷ [] ≡ events'
unfolding insert_event
insert_event-eq sequence row events e =
    ok-injective (>>-eq-ok (reject_if (contains_key sequence events) _) _ e).1

sequence-eq :
    (count offset : ℕ) {offset_i64 sequence : ℕ}
    → i64_try_from offset ≡ ok offset_i64
    → i64_checked_add count offset_i64 ≡ ok sequence
    → sequence ≡ count + offset
unfolding i64_try_from i64_checked_add
sequence-eq count offset o s = ground arith

-- The events after the changes of a page are staged.
pub stage_changes-IsNumbered :
    (count offset : ℕ) (changes : List RemoteChange) (events : Dict ℕ EventRow)
    {events' : Dict ℕ EventRow} {before : List RemoteChange}
    → stage_changes count offset changes events ≡ ok events'
    → IsNumbered 0 events
    → length events ≡ count + offset
    → read_events events ≡ ok before
    → IsNumbered 0 events'
      × (length events' ≡ length events + length changes)
      × (read_events events' ≡ ok (before ++ map stored_change changes))
unfolding stage_changes
stage_changes-IsNumbered count offset [] events {before = before} e h n r =
    rw (← ok-injective e) (h, omega arith, rw (append-nil before) r)
stage_changes-IsNumbered count offset (change ∷ changes) events {before = before} e h n r =
    let (offset_i64, o, e1) = >>=-eq-ok (i64_try_from offset) _ e in
    let (sequence, s, e2) = >>=-eq-ok (i64_checked_add count offset_i64) _ e1 in
    let (row, made, e3) = >>=-eq-ok (event_of change) _ e2 in
    let (after, inserted, rest) = >>=-eq-ok (insert_event sequence row events) _ e3 in
    let same = insert_event-eq sequence row events inserted in
    let at = sequence-eq count offset o s in
    let here = snoc-IsNumbered 0 row events sequence h (omega (arith, at, n)) in
    let longer : length after ≡ suc (length events) =
      rw (← same) (omega (arith, length-append events ((sequence, row) ∷ []))) in
    let read =
      read_events-snoc events sequence row (stored_change change) r
        (read_event-event_of change made) in
    let (numbered, count_after, reading) =
      stage_changes-IsNumbered count (suc offset) changes after rest
        (subst (IsNumbered 0) same here) (omega (arith, longer, n))
        (subst (λ d. read_events d ≡ ok (before ++ stored_change change ∷ [])) same read) in
    (
      numbered,
      omega (arith, count_after, longer),
      reading ∙ ap ok (append_assoc before (stored_change change ∷ []) (map stored_change changes)),
    )

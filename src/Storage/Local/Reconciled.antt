-- ===== src/Storage/Local/Reconciled.antt =====
-- A reconciliation of the journal of local changes in crates/nubisync-storage/src/lib.rs.
use nubisync.Base.{
  Text, List, Option, ◌≡◌, ◌∙◌, ap, sym, refl, ℕ, ℤ, ok, none, some, true, false, lookup, length,
  not, arith, ==_refl, text_eq, nat_eq, option_eq, int_eq, ◌==◌, >>=-eq-ok, >>-eq-ok, ok-injective,
  reject_if, reject_if-false,
}
use mathlib.Core.Path.{subst}
use nubisync.Storage.LocalEvent.{LocalChangeEventInput}
use nubisync.Storage.Tables.{i64_try_from}
use nubisync.Storage.Local.{
  LocalTables, LocalInventoryState, LocalChangeJournalCommit, Baseline, supersede, journal_key_eq,
  insert_events, check_baseline, count_pending, reconcile_sync_root_local_change_journal,
}
use nubisync.Storage.Local.Journal.{
  pending_change, last_change, or_change, or_change-none, pending-supersede, lookup-supersede_other,
  pending-insert_events, lookup-insert_events_other,
}

pub record Reconciles (expected : Baseline) (events : List LocalChangeEventInput) (t : LocalTables)
    (commit : LocalChangeJournalCommit) (t' : LocalTables) : Type 0 where
  pub stands :
      (state : LocalInventoryState) × (t.state ≡ some state)
      × (state.generation ≡ expected.generation)
      × (state.item_count ≡ expected.item_count)
      × (state.observation_valid ≡ true)
      × (state.snapshot_complete ≡ true)
      × (state.snapshot_completed_at_unix_ms ≡ expected.snapshot_completed_at_unix_ms)
  pub counted : commit.pending_events ≡ length events
  pub now_pending :
      (x : Text)
      → pending_change x (lookup (expected.generation, x) t'.events) ≡ last_change x events
  pub others :
      (h : ℕ) (x : Text)
      → (expected.generation == h) ≡ false
      → lookup (h, x) t'.events ≡ lookup (h, x) t.events
  pub kept : record t' { events = t.events } ≡ t

same_size : (n : ℕ) {m : ℕ} → i64_try_from n ≡ ok m → m ≡ n
unfolding i64_try_from
same_size n e = ground arith

check_baseline_sound :
    (g n : ℕ) (c : Option ℤ) (found : Option LocalInventoryState)
    → check_baseline g n c found ≡ ok tt
    → (state : LocalInventoryState) × (found ≡ some state)
      × (state.generation ≡ g)
      × (state.item_count ≡ n)
      × (state.observation_valid ≡ true)
      × (state.snapshot_complete ≡ true)
      × (state.snapshot_completed_at_unix_ms ≡ c)
unfolding check_baseline
check_baseline_sound g n c none e = ground arith
check_baseline_sound g n c (some state) e =
    let h = reject_if-false _ _ e in
    (
      state,
      refl,
      ground (arith, h),
      ground (arith, h),
      ground (arith, h),
      ground (arith, h),
      ground (arith, h),
    )

equal_sizes : (a b c : ℕ) → not (a == b) ≡ false → b ≡ c → a ≡ c
equal_sizes a b c h e = ground (arith, h, e)

-- The journal after a reconciliation that succeeds, which it does only against the local inventory
-- that stands, complete, valid and with the generation, the size and the time of the baseline: for
-- the generation of the baseline exactly the given changes are pending, and as many as there are
-- changes; the entries of all other generations and the other tables stay.
pub reconcile-Reconciles :
    (expected : Baseline) (events : List LocalChangeEventInput) (at : ℤ) (t : LocalTables)
    {commit : LocalChangeJournalCommit} {t' : LocalTables}
    → reconcile_sync_root_local_change_journal expected events at t ≡ ok (commit, t')
    → Reconciles expected events t commit t'
unfolding reconcile_sync_root_local_change_journal
reconcile-Reconciles expected events at t {commit} {t'} e =
    let (generation, g, e1) = >>=-eq-ok (i64_try_from expected.generation) _ e in
    let (item_count, n, e2) = >>=-eq-ok (i64_try_from expected.item_count) _ e1 in
    let (checked, e3) =
      >>-eq-ok (check_baseline generation item_count expected.snapshot_completed_at_unix_ms t.state)
        _ e2 in
    let of_baseline = (λ (key : ℕ × Text). key.0 == generation) in
    let baseline = record expected { generation = generation; item_count = item_count } in
    let (after, inserted, e4) =
      >>=-eq-ok (insert_events baseline at events (supersede of_baseline t.events)) _ e3 in
    let (size, s, e5) = >>=-eq-ok (i64_try_from (length events)) _ e4 in
    let (counted, last) =
      >>-eq-ok (reject_if (not (count_pending of_baseline after == size)) _) _ e5 in
    let same_generation = same_size expected.generation g in
    let (state, is, at_generation, at_count, valid, whole, at_time) =
      check_baseline_sound generation item_count _ t.state checked in
    subst (λ (r : LocalChangeJournalCommit × LocalTables). Reconciles expected events t r.0 r.1)
      (ok-injective last)
      (record {
        stands = (
          state,
          is,
          at_generation ∙ same_generation,
          at_count ∙ same_size _ n,
          valid,
          whole,
          at_time,
        );
        counted = equal_sizes _ size (length events) (reject_if-false _ _ counted) (same_size _ s);
        now_pending = λ x.
            subst (λ k. pending_change x (lookup (k, x) after) ≡ last_change x events)
              same_generation
              (pending-insert_events baseline at events (supersede of_baseline t.events) x inserted
                ∙ ap (or_change (last_change x events))
                    (pending-supersede of_baseline (generation, x) x t.events (==_refl generation))
                ∙ or_change-none (last_change x events));
        others = λ h x away.
            let other : (generation == h) ≡ false =
              subst (λ k. (k == h) ≡ false) (sym same_generation) away in
            lookup-insert_events_other baseline at events (supersede of_baseline t.events) h x other
              inserted
            ∙ lookup-supersede_other of_baseline (h, x) t.events (ground (arith, other));
        kept = refl;
      })

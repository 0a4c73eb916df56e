-- ===== src/Storage/Local/Stale.antt =====
-- A new local snapshot in crates/nubisync-storage/src/lib.rs against the journal of the one before it.
use nubisync.Base.{
  Text, List, Option, ◌≡◌, ◌∙◌, ◌<◌, ap, sym, refl, ℕ, ℤ, ok, err, none, some, true, lookup, length,
  suc, arith, text_eq, nat_eq, option_eq, int_eq, >>=-eq-ok, ok-injective,
}
use mathlib.Core.Path.{subst}
use nubisync.Storage.Failure.{local_change_baseline_mismatch}
use nubisync.Storage.LocalEvent.{LocalChangeEventInput}
use nubisync.Storage.Tables.{i64_try_from, i64_bound}
use nubisync.Storage.Local.{
  LocalTables, LocalInventoryState, Baseline, journal_key_eq, check_baseline,
  reconcile_sync_root_local_change_journal, commit_sync_root_local_inventory_snapshot,
  sync_root_local_inventory_state, next_generation,
}
use nubisync.Storage.Local.Journal.{pending_change, pending-supersede}

check_baseline-generation :
    (g n : ℕ) (c : Option ℤ) (state : LocalInventoryState)
    → state.generation ≡ suc g
    → check_baseline g n c (some state) ≡ err local_change_baseline_mismatch
unfolding check_baseline
check_baseline-generation g n c state e = ground (arith, e)

-- A committed local snapshot starts the next generation from the staged items, and ends the journal of
-- the one before: no change is pending any more, and a diff against the old generation is refused.
-- The generation and the count of the diff fit an `i64`.
pub reconcile_stale :
    (completed : ℤ) (expected : Baseline) (events : List LocalChangeEventInput) (at : ℤ)
    (t : LocalTables) {n : ℕ} {t' : LocalTables} (state : LocalInventoryState)
    → t.state ≡ some state
    → expected.generation ≡ state.generation
    → expected.generation < i64_bound
    → expected.item_count < i64_bound
    → commit_sync_root_local_inventory_snapshot completed t ≡ ok (n, t')
    → ((sync_root_local_inventory_state t').generation ≡ suc state.generation)
      × (t'.items ≡ t.staging)
      × ((key : ℕ × Text) → pending_change key.1 (lookup key t'.events) ≡ none)
      × (reconcile_sync_root_local_change_journal expected events at t'
          ≡ err local_change_baseline_mismatch)
unfolding commit_sync_root_local_inventory_snapshot sync_root_local_inventory_state
    reconcile_sync_root_local_change_journal i64_try_from
reconcile_stale completed expected events at t state is same few small e =
    let (count, fits, last) = >>=-eq-ok (i64_try_from (length t.staging)) _ e in
    let next : next_generation t.state ≡ suc state.generation = ap next_generation is in
    let now : LocalInventoryState = record {
      snapshot_complete = true;
      item_count = count;
      snapshot_completed_at_unix_ms = some completed;
      generation = next_generation t.state;
      observation_valid = true;
    } in
    let generation_fits : i64_try_from expected.generation ≡ ok expected.generation =
      ground (arith, few) in
    let count_fits : i64_try_from expected.item_count ≡ ok expected.item_count =
      ground (arith, small) in
    subst
      (λ (r : ℕ × LocalTables).
        ((sync_root_local_inventory_state r.1).generation ≡ suc state.generation)
        × (r.1.items ≡ t.staging)
        × ((key : ℕ × Text) → pending_change key.1 (lookup key r.1.events) ≡ none)
        × (reconcile_sync_root_local_change_journal expected events at r.1
            ≡ err local_change_baseline_mismatch))
      (ok-injective last)
      (
        next,
        refl,
        λ key. pending-supersede (λ k. true) key key.1 t.events refl,
        rw
            (
              generation_fits,
              count_fits,
              check_baseline-generation expected.generation expected.item_count
                  expected.snapshot_completed_at_unix_ms now (next ∙ ap suc (sym same)),
            )
            refl,
      )

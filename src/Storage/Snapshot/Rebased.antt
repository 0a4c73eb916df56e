-- ===== src/Storage/Snapshot/Rebased.antt =====
-- What `commit_sync_root_remote_inventory_rebaseline` of crates/nubisync-storage/src/lib.rs leaves.
use nubisync.Base.{
  [], not, none, Text, ◌≡◌, refl, ℕ, ℤ, ok, some, true, false, length, any, ==→≡, text_eq, nat_eq,
  option_eq, int_eq, ◌==◌, >>=-eq-ok, >>-eq-ok, ok-injective,
}
use mathlib.Core.Path.{subst}
use nubisync.Core.Ids.{ChangeCursor}
use nubisync.Core.Modes.{two_way, mode_eq}
use nubisync.Storage.Tables.{InventoryStateRow, i64_try_from}
use nubisync.Storage.Intents.{status_eq}
use nubisync.Storage.Intents.Begin.{local_stands, catalog_stands}
use nubisync.Storage.Snapshot.{
  SnapshotTables, Expected, fail_unless, is_pending_at, is_active, is_unsettled, has_grown,
  commit_sync_root_remote_inventory_rebaseline, rebased,
}
use nubisync.Storage.Snapshot.Ready.{
  IsReadyToRebase, any-false, inactive_IsSettled, passed, refuted, same_size, local_stands_sound,
  catalog_stands_sound, has_grown-HasGrown, many_pages_of, not_pending, grown_sized,
}

-- What it has done, each table by itself.
pub record Rebases (expected : Expected) (cursor : ChangeCursor) (at : ℤ) (t : SnapshotTables)
    (n : ℕ) (t' : SnapshotTables) : Type 0 where
  pub items_replaced : t'.root.items ≡ t.staging
  pub counted : (n ≡ expected.staged_item_count) × (length t'.root.items ≡ n)
  pub restarted :
      (state : InventoryStateRow) × (t'.root.inventory_state ≡ some state)
      × (state.snapshot_complete ≡ true)
      × (state.catchup_complete ≡ false)
      × (state.item_count ≡ n)
      × (state.snapshot_completed_at_unix_ms ≡ some at)
      × (state.catchup_from_cursor ≡ some cursor.as_str)
      × (state.change_cursor ≡ none)
  pub window_ended : (t'.root.window ≡ none) × (t'.root.events ≡ []) × (t'.root.tokens ≡ [])
  pub staging_cleared : t'.staging ≡ []
  pub authority_cleared : (t'.authority_state ≡ none) × (t'.authority ≡ [])
  pub receipts_kept :
      (t'.root.file_receipts ≡ t.root.file_receipts)
      × (t'.root.directory_receipts ≡ t.root.directory_receipts)
  pub intents_kept : (t'.intents ≡ t.intents) × (t'.settled ≡ t.settled)
  pub local_kept :
      (t'.mode ≡ t.mode) × (t'.local_state ≡ t.local_state) × (t'.local_events ≡ t.local_events)

-- What a rebaseline leaves, for the sizes that it has checked.
rebased-Rebases :
    (expected : Expected) (cursor : ChangeCursor) (at : ℤ) (t : SnapshotTables) (count : ℕ)
    → length t.staging ≡ expected.staged_item_count
    → i64_try_from (length t.staging) ≡ ok count
    → Rebases expected cursor at t (length t.staging) (rebased count at cursor t)
rebased-Rebases expected cursor at t count counted fits = record {
  items_replaced = refl;
  counted = (counted, refl);
  restarted = (_, refl, refl, refl, same_size (length t.staging) fits, refl, refl, refl);
  window_ended = (refl, refl, refl);
  staging_cleared = refl;
  authority_cleared = (refl, refl);
  receipts_kept = (refl, refl);
  intents_kept = (refl, refl);
  local_kept = (refl, refl, refl);
}

-- A rebaseline succeeds only for a two-way root with a complete local inventory of the expected
-- generation and a complete catalog at the base of its window, which is the one that the caller has
-- read, has sixty-four pages or more and waits for a further one, where no intent is under way or
-- unsettled and no local change of the generation is pending. It puts the staged items in place of the
-- catalog, as many as the caller expects, ends the window, clears the staging table and the authority
-- that was observed, and lets the catch-up start from the given cursor; receipts, intents and the local
-- tables stay.
pub commit_rebaseline-Rebases :
    (sync_root_id : Text) (expected : Expected) (cursor : ChangeCursor) (at : ℤ)
    (t : SnapshotTables) {n : ℕ} {t' : SnapshotTables}
    → commit_sync_root_remote_inventory_rebaseline sync_root_id expected cursor at t ≡ ok (n, t')
    → IsReadyToRebase expected t × Rebases expected cursor at t n t'
unfolding commit_sync_root_remote_inventory_rebaseline
commit_rebaseline-Rebases sync_root_id expected cursor at t {n} {t'} e =
    let (first, e1) = >>-eq-ok (fail_unless _) _ e in
    let (pages, p, e2) = >>=-eq-ok (i64_try_from expected.window_page_count) _ e1 in
    let (changes, c, e3) = >>=-eq-ok (i64_try_from expected.window_change_count) _ e2 in
    let (generation, g, e4) = >>=-eq-ok (i64_try_from expected.local_generation) _ e3 in
    let (staged, s, e5) = >>=-eq-ok (i64_try_from expected.staged_item_count) _ e4 in
    let (two, e6) = >>-eq-ok (fail_unless (t.mode == some two_way)) _ e5 in
    let (local, e7) = >>-eq-ok (fail_unless (local_stands generation t.local_state)) _ e6 in
    let (pending, e8) =
      >>-eq-ok (fail_unless (not (any (is_pending_at generation) t.local_events))) _ e7 in
    let (active, e9) =
      >>-eq-ok (fail_unless (not (any (λ entry. is_active entry.1.status) t.intents))) _ e8 in
    let (unsettled, e10) =
      >>-eq-ok (fail_unless (not (any (is_unsettled t.settled) t.intents))) _ e9 in
    let (grown, e11) =
      >>-eq-ok (fail_unless (has_grown expected.window_base_cursor pages changes t.root.window)) _
        e10 in
    let (remote, e12) =
      >>-eq-ok
        (fail_unless (catalog_stands expected.window_base_cursor.as_str t.root.inventory_state)) _
        e11 in
    let (_, e13) = >>-eq-ok (fail_unless (length t.staging == staged)) _ e12 in
    let (counted, e14) =
      >>-eq-ok (fail_unless (length t.staging == expected.staged_item_count)) _ e13 in
    let (count, fits, last) = >>=-eq-ok (i64_try_from (length t.staging)) _ e14 in
    (
      record {
        is_two_way = ==→≡ _ _ (passed _ two);
        local_ready =
            local_stands_sound expected.local_generation t.local_state
              (subst (λ k. local_stands k t.local_state ≡ true) (same_size _ g) (passed _ local));
        catalog_ready =
            catalog_stands_sound expected.window_base_cursor.as_str t.root.inventory_state
              (passed _ remote);
        grown =
            has_grown-HasGrown expected t.root.window
              (grown_sized expected.window_base_cursor expected.window_page_count
                expected.window_change_count t.root.window p c (passed _ grown))
              (many_pages_of _ _ at (passed _ first));
        all_settled = λ id row found.
            inactive_IsSettled t.settled id row row.status refl
              (any-false (λ entry. is_active entry.1.status) t.intents id row (refuted _ active)
                found)
              (any-false (is_unsettled t.settled) t.intents id row (refuted _ unsettled) found);
        none_pending = λ id event found. not_pending expected.local_generation id event (
            any-false (is_pending_at expected.local_generation) t.local_events id event
              (subst (λ k. any (is_pending_at k) t.local_events ≡ false) (same_size _ g)
                (refuted _ pending))
              found);
      },
      subst (λ (r : ℕ × SnapshotTables). Rebases expected cursor at t r.0 r.1) (ok-injective last)
          (rebased-Rebases expected cursor at t count (==→≡ _ _ (passed _ counted)) fits),
    )

-- ===== src/Storage/Closing/Committed.antt =====
-- When a change window of crates/nubisync-storage/src/lib.rs is committed, and what is left of it.
use nubisync.Base.{
  text_eq, sym, Bool, List, [], ◌≡◌, ◌∙◌, ◌<◌, ap, arith, err, false, length, not, none, ok,
  ok-injective, option_eq, refl, reject_if, reject_if-false, true, ℕ, ℤ, nat_eq, ◌==◌, >>=-eq-ok,
  >>-eq-ok, ==→≡, int_eq,
}
use mathlib.Core.Path.{subst}
use nubisync.Core.Ids.{ChangeCursor}
use nubisync.Storage.Failure.{sync_root_change_window_missing}
use nubisync.Storage.Tables.{RootTables, i64_try_from, i64_bound}
use nubisync.Storage.Catalog.{
  SyncRootCatalogMutation, SyncRootCatalogBatchCommit, current_cursor, replay,
}
use nubisync.Storage.Catalog.Replays.{HasKeys}
use nubisync.Storage.Catalog.Commits.{replay-Commits, Commits}
use nubisync.Storage.Receipts.Paths.{HasReceipts}
use nubisync.Storage.Closing.{
  without_window, discard_sync_root_change_window, commit_sync_root_catalog_change_window,
  check_window,
}
use nubisync.Storage.Closing.Ready.{IsReady, IsComplete, check_window_iff}

i64_try_from-eq : (n : ℕ) {m : ℕ} → i64_try_from n ≡ ok m → (m ≡ n) × (n < i64_bound)
unfolding i64_try_from
i64_try_from-eq n e = ground arith

-- What a successful commit has checked and done.
record Committing (base checkpoint : ChangeCursor) (count : ℕ) (ms : List SyncRootCatalogMutation)
    (observed : ℤ) (t : RootTables) (r : SyncRootCatalogBatchCommit × RootTables) : Type 0 where
  ready : IsReady base checkpoint count t
  after : SyncRootCatalogBatchCommit × RootTables
  replayed : replay ms checkpoint observed t ≡ ok after
  result : r ≡ (after.0, without_window after.1)

commit_window-Committing :
    (base checkpoint : ChangeCursor) (count : ℕ) (ms : List SyncRootCatalogMutation) (observed : ℤ)
    (t : RootTables) {r : SyncRootCatalogBatchCommit × RootTables}
    → commit_sync_root_catalog_change_window base checkpoint count ms observed t ≡ ok r
    → Committing base checkpoint count ms observed t r
unfolding commit_sync_root_catalog_change_window
commit_window-Committing base checkpoint count ms observed t e =
    let (n, fits, e1) = >>=-eq-ok (i64_try_from count) _ e in
    let (m, small) = i64_try_from-eq count fits in
    let (checked, e2) = >>-eq-ok (check_window base checkpoint n (length t.events) t.window) _ e1 in
    let (cursor, current, e3) = >>=-eq-ok (current_cursor t.inventory_state) _ e2 in
    let (at, e4) = >>-eq-ok (reject_if (not (cursor == base.as_str)) _) _ e3 in
    let (after, replayed, last) = >>=-eq-ok (replay ms checkpoint observed t) _ e4 in
    let (complete, counted) =
      (check_window_iff base checkpoint n (length t.events) t.window).0 checked in
    let here = ==→≡ cursor base.as_str (not-false _ (reject_if-false _ _ at)) in
    record {
      ready = record {
        fits = small;
        complete = subst (λ k. IsComplete base checkpoint k t.window) m complete;
        counted = counted ∙ m;
        at_base = current ∙ ap ok here;
      };
      after = after;
      replayed = replayed;
      result = sym (ok-injective last);
    }
  where
    not-false : (b : Bool) → not b ≡ false → b ≡ true
    not-false b h = ground arith

-- A window that is committed leaves the catalog as replaying the mutations one after the other would,
-- with the checkpoint as its durable cursor and the number of its items as its stored count, which is
-- also the one returned, keeps every
-- current receipt right and at a path of its own, and is gone with its events and tokens. The catalog
-- had one row for an id, and every current receipt was right and at a path of its own.
pub commit_window-Commits :
    (base checkpoint : ChangeCursor) (count : ℕ) (ms : List SyncRootCatalogMutation) (observed : ℤ)
    (t : RootTables) {commit : SyncRootCatalogBatchCommit} {t' : RootTables}
    → HasKeys t
    → HasReceipts t
    → commit_sync_root_catalog_change_window base checkpoint count ms observed t ≡ ok (commit, t')
    → Commits ms checkpoint.as_str t t' commit
      × (t'.window ≡ none)
      × (t'.events ≡ [])
      × (t'.tokens ≡ [])
commit_window-Commits base checkpoint count ms observed t {commit} {t'} u h e =
    let c = commit_window-Committing base checkpoint count ms observed t e in
    let done = (replay-Commits ms checkpoint observed t u h c.ready.at_base c.replayed).0 in
    subst
      (λ r.
        Commits ms checkpoint.as_str t r.1 r.0
        × (r.1.window ≡ none)
        × (r.1.events ≡ [])
        × (r.1.tokens ≡ []))
      (sym c.result)
      (
        record {
          replays = done.replays;
          keys_kept = done.keys_kept;
          receipts_kept = done.receipts_kept;
          cursor_set = done.cursor_set;
          state_stored = done.state_stored;
          items_counted = done.items_counted;
          all_applied = done.all_applied;
        },
        refl,
        refl,
        refl,
      )

-- A window is committed once: the same commit on the tables that a successful one has left returns
-- the error that there is no window, and there is nothing to discard.
pub commit_window_once :
    (base checkpoint : ChangeCursor) (count : ℕ) (ms : List SyncRootCatalogMutation) (observed : ℤ)
    (t : RootTables) {commit : SyncRootCatalogBatchCommit} {t' : RootTables}
    → commit_sync_root_catalog_change_window base checkpoint count ms observed t ≡ ok (commit, t')
    → (commit_sync_root_catalog_change_window base checkpoint count ms observed t'
        ≡ err sync_root_change_window_missing)
      × (discard_sync_root_change_window base t' ≡ ok (false, t'))
unfolding commit_sync_root_catalog_change_window discard_sync_root_change_window i64_try_from
    check_window
commit_window_once base checkpoint count ms observed t {t' = t'} e =
    let c = commit_window-Committing base checkpoint count ms observed t e in
    let gone : t'.window ≡ none = ap (λ r. r.1.window) c.result in
    let fits : i64_try_from count ≡ ok count = ground (arith, c.ready.fits) in
    (rw (fits, gone) refl, rw gone refl)

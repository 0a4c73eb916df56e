-- ===== src/Storage/History/Sound.antt =====
-- What every operation of crates/nubisync-storage/src/lib.rs keeps of the tables of a sync root.
use nubisync.Base.{
  false, arith, sym, [], ◌∷◌, Dict, Text, Option-cases, inl, inr, reject_if, not, ◌==◌, text_eq,
  >>-eq-ok, >>=-eq-ok, ok-injective, List, Option, Result, ◌≡◌, err, none, ok, option_eq, refl, ℕ,
  ℤ, int_eq, nat_eq,
}
use mathlib.Core.Path.{subst}
use nubisync.Storage.Tables.{WindowRow, FileReceiptRow, DirectoryReceiptRow, RootTables}
use nubisync.Storage.Catalog.{
  durable_cursor, SyncRootCatalogMutation, commit_sync_root_catalog_batch_and_cursor,
}
use nubisync.Storage.Receipts.{MaterializedFile, record_file, record_files}
use nubisync.Storage.Receipts.Recorded.{
  record_file-Recording, record_file-Match, record_file-HasUniquePaths,
}
use nubisync.Storage.Receipts.Matching.{DirectoriesMatch}
use nubisync.Storage.Directories.Matching.{with_directories}
use nubisync.Core.Ids.{ChangeCursor, ContinuationToken}
use nubisync.Core.Remote.{ChangePage}
use nubisync.Storage.Failure.{StorageError}
use nubisync.Storage.Catalog.Replays.{HasKeys}
use nubisync.Storage.Catalog.Commits.{commit_batch-Commits}
use nubisync.Storage.Window.{stage_sync_root_change_window_page}
use nubisync.Storage.Closing.{
  discard_open, without_window, discard_sync_root_change_window,
  commit_sync_root_catalog_change_window,
}
use nubisync.Storage.Closing.Staged.{HasWindow, WindowHolds, readable_window, stage_page-Stages}
use nubisync.Storage.Closing.Committed.{commit_window-Commits}
use nubisync.Storage.Receipts.Paths.{HasReceipts}
use nubisync.Storage.History.{
  stages, discards, commits_batch, commits_window, after, after_transaction, IsSound,
}

pub after_transaction-IsSound :
    {A : Type 0} (t : RootTables) (outcome : Result StorageError (A × RootTables))
    → IsSound t
    → ((value : A) (t' : RootTables) → outcome ≡ ok (value, t') → IsSound t')
    → IsSound (after_transaction t outcome)
after_transaction-IsSound t (err _) h keeps = h
after_transaction-IsSound t (ok (value, t')) h keeps = keeps value t' refl

WindowHolds-none : (t : RootTables) → t.window ≡ none → t.events ≡ [] → t.tokens ≡ [] → HasWindow t
WindowHolds-none t w e k = subst (λ o. WindowHolds o t.events t.tokens) (sym w) (e, k)

pub stages-IsSound :
    (base : ChangeCursor) (expected : Option ContinuationToken) (page : ChangePage) (t : RootTables)
    → IsSound t
    → IsSound (after (stages base expected page) t)
unfolding after
stages-IsSound base expected page t h =
    after_transaction-IsSound t (stage_sync_root_change_window_page base expected page t) h
      (λ state t' e.
        let (before, r) = readable_window t h.window_holds in
        let (window, _, same) = stage_page-Stages base expected page t e h.window_holds r in
        let kept = subst (λ q. HasKeys q × HasReceipts q) (sym same) (h.one_row, h.receipts) in
        record { one_row = kept.0; receipts = kept.1; window_holds = window })

without_window-IsSound : (t : RootTables) → IsSound t → IsSound (without_window t)
without_window-IsSound t h = record {
  one_row = h.one_row;
  receipts = h.receipts;
  window_holds = (refl, refl);
}

discard_open-IsSound :
    (base : ChangeCursor) (window : WindowRow) (t : RootTables)
    → IsSound t
    → IsSound (after_transaction t (discard_open base window t))
unfolding discard_open
discard_open-IsSound base window t h =
    after_transaction-IsSound t (discard_open base window t) h (λ done t' e.
      let (_, e1) = >>-eq-ok (reject_if (not (window.base_cursor == base.as_str)) _) _ e in
      let (durable, _, e2) = >>=-eq-ok (durable_cursor t.inventory_state) _ e1 in
      let (_, last) = >>-eq-ok (reject_if (not (durable == base.as_str)) _) _ e2 in
      subst (λ r. IsSound r.1) (ok-injective last) (without_window-IsSound t h))

pub discards-IsSound :
    (base : ChangeCursor) (t : RootTables) → IsSound t → IsSound (after (discards base) t)
unfolding after discard_sync_root_change_window
discards-IsSound base t h = elim (Option-cases t.window) [
  | inl w ↦
      let d : discard_sync_root_change_window base t ≡ ok (false, t) = ground (arith, w) in
      subst (λ r. IsSound (after_transaction t r)) (sym d) h
  | inr (window, w) ↦
      let d : discard_sync_root_change_window base t ≡ discard_open base window t =
        ground (arith, w) in
      subst (λ r. IsSound (after_transaction t r)) (sym d) (discard_open-IsSound base window t h)
]

pub commits_batch-IsSound :
    (expected : ChangeCursor) (ms : List SyncRootCatalogMutation) (next : ChangeCursor) (at : ℤ)
    (t : RootTables)
    → IsSound t
    → IsSound (after (commits_batch expected ms next at) t)
unfolding after
commits_batch-IsSound expected ms next at t h =
    after_transaction-IsSound t (commit_sync_root_catalog_batch_and_cursor expected ms next at t) h
      (λ commit t' e.
        let (c, w, v, k) = commit_batch-Commits expected ms next at t h.one_row h.receipts e in
        record {
          one_row = c.keys_kept;
          receipts = c.receipts_kept;
          window_holds =
              subst (λ o. WindowHolds o t'.events t'.tokens) (sym w)
                (subst (λ d. WindowHolds t.window d t'.tokens) (sym v)
                  (subst (WindowHolds t.window t.events) (sym k) h.window_holds));
        })

pub commits_window-IsSound :
    (base checkpoint : ChangeCursor) (count : ℕ) (ms : List SyncRootCatalogMutation) (at : ℤ)
    (t : RootTables)
    → IsSound t
    → IsSound (after (commits_window base checkpoint count ms at) t)
unfolding after
commits_window-IsSound base checkpoint count ms at t h =
    after_transaction-IsSound t
      (commit_sync_root_catalog_change_window base checkpoint count ms at t) h
      (λ commit t' e.
        let (c, w, v, k) =
          commit_window-Commits base checkpoint count ms at t h.one_row h.receipts e in
        record {
          one_row = c.keys_kept;
          receipts = c.receipts_kept;
          window_holds = WindowHolds-none t' w v k;
        })

-- What receipts of files have after an operation on them, with all else as it is.
pub with_files-IsSound :
    (t : RootTables) (rows : Dict Text FileReceiptRow)
    → IsSound t
    → HasReceipts (record t { file_receipts = rows })
    → IsSound (record t { file_receipts = rows })
with_files-IsSound t rows h r = record {
  one_row = h.one_row;
  receipts = r;
  window_holds = h.window_holds;
}

pub record_file-IsSound :
    (at : ℤ) (entry : MaterializedFile) (t : RootTables) {t' : RootTables}
    → IsSound t
    → record_file at entry t ≡ ok t'
    → IsSound t'
record_file-IsSound at entry t h e =
    let r = record_file-Recording at entry t e in
    let right = record_file-Match at entry t h.receipts.0 e in
    let unique = record_file-HasUniquePaths at entry t h.receipts.1 e in
    subst IsSound (sym r.result)
      (with_files-IsSound t _ h (subst HasReceipts r.result (right, unique)))

pub record_files-IsSound :
    (at : ℤ) (entries : List MaterializedFile) (t : RootTables) {t' : RootTables}
    → IsSound t
    → record_files at entries t ≡ ok t'
    → IsSound t'
unfolding record_files
record_files-IsSound at [] t h e = subst IsSound (ok-injective e) h
record_files-IsSound at (entry ∷ entries) t h e =
    let (next, first, rest) = >>=-eq-ok (record_file at entry t) _ e in
    record_files-IsSound at entries next (record_file-IsSound at entry t h first) rest

pub with_directories-IsSound :
    (t : RootTables) (rows : Dict Text DirectoryReceiptRow)
    → IsSound t
    → DirectoriesMatch t.items rows
    → IsSound (with_directories t rows)
with_directories-IsSound t rows h d = record {
  one_row = h.one_row;
  receipts = ((h.receipts.0.0, d), h.receipts.1);
  window_holds = h.window_holds;
}

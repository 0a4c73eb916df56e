-- ===== src/Storage/Closing/Staged.antt =====
-- The change window of crates/nubisync-storage/src/lib.rs as its operations keep it, and what is read
-- from it after a page is staged.
use nubisync.Base.{
  sort_by, ◌∙◌, [], refl, reject_if-false, ok-injective, ap, Option-cases, length, Dict, List,
  Option, Text, ◌∷◌, ◌≡◌, ◌++◌, ◌+◌, ◌≤◌, arith, contains, contains-append, false, inl, inr,
  is_some, map, nat_eq, none, not, ok, option_eq, reject_if, some, text_eq, true, ℕ, ◌==◌,
  >>=-eq-ok, >>-eq-ok, ltb, int_eq,
}
use mathlib.Core.Path.{subst}
use nubisync.Core.Ids.{ChangeCursor, ContinuationToken}
use nubisync.Core.Remote.{ChangePage, RemoteChange}
use nubisync.Storage.Tables.{EventRow, WindowRow, RootTables, i64_try_from, i64_checked_add}
use nubisync.Storage.Catalog.{durable_cursor}
use nubisync.Storage.Window.{
  SyncRootChangeWindowState, stage_sync_root_change_window_page, open_counts, stage_changes,
  stage_token, token_text, cursor_text, is_same, maximum_pages, maximum_changes,
}
use nubisync.Storage.Closing.{by_sequence, read_events, sync_root_change_window_changes}
use nubisync.Storage.Closing.Numbered.{
  IsNumbered, stored_change, sort_by-IsNumbered, stage_changes-IsNumbered,
}

-- An open window: it waits for a further page or has its checkpoint, its token is among those seen,
-- its counts are within the limits, and its events are as many as it counts, in order and readable.
pub record IsWindow (window : WindowRow) (events : Dict ℕ EventRow) (tokens : List Text)
    : Type 0 where
  pub one_end : is_some window.continuation ≡ not (is_some window.checkpoint)
  pub seen : (token : Text) → window.continuation ≡ some token → contains tokens token ≡ true
  pub few_pages : window.page_count ≤ maximum_pages
  pub few_changes : window.change_count ≤ maximum_changes
  pub counted : length events ≡ window.change_count
  pub numbered : IsNumbered 0 events
  pub readable : (changes : List RemoteChange) × (read_events events ≡ ok changes)

abbrev pub WindowHolds : Option WindowRow → Dict ℕ EventRow → List Text → Type 0
WindowHolds none events tokens = (events ≡ []) × (tokens ≡ [])
WindowHolds (some window) events tokens = IsWindow window events tokens

abbrev pub HasWindow : RootTables → Type 0
HasWindow t = WindowHolds t.window t.events t.tokens

-- The counts that a page adds to are those of the events so far.
open_counts-length :
    (base : Text) (expected : Option Text) (window : Option WindowRow) (events : Dict ℕ EventRow)
    (tokens : List Text) {counts : ℕ × ℕ}
    → WindowHolds window events tokens
    → open_counts base expected window ≡ ok counts
    → (length events ≡ counts.1)
      × IsNumbered 0 events
      × ((changes : List RemoteChange) × (read_events events ≡ ok changes))
unfolding open_counts read_events
open_counts-length base expected none events tokens {counts} (no_events, _) e =
    let (_, same) = >>-eq-ok (reject_if (is_some expected) _) _ e in
    let zeros : (0, 0) ≡ counts = ok-injective same in
    rw (no_events) (rw (← zeros) (refl, tt, ([], refl)))
open_counts-length base expected (some window) events tokens {counts} h e =
    let (_, e1) = >>-eq-ok (reject_if (is_some window.checkpoint) _) _ e in
    let (_, e2) = >>-eq-ok (reject_if (not (window.base_cursor == base)) _) _ e1 in
    let (_, same) = >>-eq-ok (reject_if (not (window.continuation == expected)) _) _ e2 in
    rw (← ok-injective same) (h.counted, h.numbered, h.readable)

stage_token-contains :
    (token : Option Text) (tokens : List Text) {tokens' : List Text}
    → stage_token token tokens ≡ ok tokens'
    → (x : Text) → token ≡ some x
    → contains tokens' x ≡ true
unfolding stage_token
stage_token-contains none tokens e x same = ground arith
stage_token-contains (some token) tokens e x same =
    let (_, added) = >>-eq-ok (reject_if (contains tokens token) _) _ e in
    rw (← ok-injective added) (ground (arith, contains-append tokens (token ∷ []) x))

token_text-cursor_text :
    (page : ChangePage)
    → is_same (is_some page.continuation) (is_some page.checkpoint) ≡ false
    → is_some (token_text page.continuation) ≡ not (is_some (cursor_text page.checkpoint))
token_text-cursor_text page h = elim (Option-cases page.continuation) [
  | inl e ↦ elim (Option-cases page.checkpoint) [
    | inl f ↦ ground (arith, e, f, h)
    | inr (c, f) ↦ rw (e, f) refl
  ]
  | inr (k, e) ↦ elim (Option-cases page.checkpoint) [
    | inl f ↦ rw (e, f) refl
    | inr (c, f) ↦ ground (arith, e, f, h)
  ]
]

sum-eq :
    (a n : ℕ) {m total : ℕ} → i64_try_from n ≡ ok m → i64_checked_add a m ≡ ok total → total ≡ a + n
unfolding i64_try_from i64_checked_add
sum-eq a n o s = ground arith

total_length :
    (after before count added total : ℕ)
    → after ≡ before + added
    → before ≡ count
    → total ≡ count + added
    → after ≡ total
total_length after before count added total longer counted sum = omega arith

no_offset : (n count : ℕ) → n ≡ count → n ≡ count + 0
no_offset n count counted = omega arith

few : (limit n : ℕ) → ltb limit n ≡ false → n ≤ limit
few limit n h = ground arith

-- An open window is readable.
pub readable_window :
    (t : RootTables)
    → HasWindow t
    → (changes : List RemoteChange) × (sync_root_change_window_changes t ≡ ok changes)
unfolding sync_root_change_window_changes
readable_window t h = read t.window h
  where
    read :
        (window : Option WindowRow)
        → WindowHolds window t.events t.tokens
        → (changes : List RemoteChange) × (read_events (sort_by by_sequence t.events) ≡ ok changes)
    read none (no_events, _) = (
      [],
      ap (λ d. read_events (sort_by by_sequence d)) no_events ∙ unfold read_events sort_by in refl,
    )
    read (some window) w =
        (w.readable.0, ap read_events (sort_by-IsNumbered 0 t.events w.numbered) ∙ w.readable.1)

-- A page that is staged keeps the window consistent, and its changes are read back after those that
-- were staged before, less their times of modification; no other table changes.
pub stage_page-Stages :
    (base : ChangeCursor) (expected : Option ContinuationToken) (page : ChangePage) (t : RootTables)
    {state : SyncRootChangeWindowState} {t' : RootTables} {before : List RemoteChange}
    → stage_sync_root_change_window_page base expected page t ≡ ok (state, t')
    → HasWindow t
    → sync_root_change_window_changes t ≡ ok before
    → HasWindow t'
      × (sync_root_change_window_changes t' ≡ ok (before ++ map stored_change page.changes))
      × (record t' { window = t.window; events = t.events; tokens = t.tokens } ≡ t)
unfolding stage_sync_root_change_window_page sync_root_change_window_changes
stage_page-Stages base expected page t {state} {t'} {before} e h r =
    let (ends, e1) =
      >>-eq-ok (reject_if (is_same (is_some page.continuation) (is_some page.checkpoint)) _) _ e in
    let (durable, _, e2) = >>=-eq-ok (durable_cursor t.inventory_state) _ e1 in
    let (_, e3) = >>-eq-ok (reject_if (not (durable == base.as_str)) _) _ e2 in
    let (counts, opened, e4) =
      >>=-eq-ok (open_counts base.as_str (token_text expected) t.window) _ e3 in
    let (pages, _, e5) = >>=-eq-ok (i64_checked_add counts.0 1) _ e4 in
    let (few_pages, e6) = >>-eq-ok (reject_if (ltb maximum_pages pages) _) _ e5 in
    let (added, long, e7) = >>=-eq-ok (i64_try_from (length page.changes)) _ e6 in
    let (total, sum, e8) = >>=-eq-ok (i64_checked_add counts.1 added) _ e7 in
    let (few_changes, e9) = >>-eq-ok (reject_if (ltb maximum_changes total) _) _ e8 in
    let (events, staged, e10) = >>=-eq-ok (stage_changes counts.1 0 page.changes t.events) _ e9 in
    let (tokens, tokened, e11) =
      >>=-eq-ok (stage_token (token_text page.continuation) t.tokens) _ e10 in
    let (counted, numbered, readable) =
      open_counts-length base.as_str (token_text expected) t.window t.events t.tokens h opened in
    let sorted = sort_by-IsNumbered 0 t.events numbered in
    let (numbered', longer, reading) =
      stage_changes-IsNumbered counts.1 0 page.changes t.events staged numbered
        (no_offset _ _ counted) (subst (λ d. read_events d ≡ ok before) sorted r) in
    let counts_add = sum-eq counts.1 (length page.changes) long sum in
    subst
      (λ after.
        HasWindow after
        × (sync_root_change_window_changes after ≡ ok (before ++ map stored_change page.changes))
        × (record after { window = t.window; events = t.events; tokens = t.tokens } ≡ t))
      (ap (λ p. p.1) (ok-injective e11))
      (
        record {
          one_end = token_text-cursor_text page (reject_if-false _ _ ends);
          seen = stage_token-contains (token_text page.continuation) t.tokens tokened;
          few_pages = few maximum_pages pages (reject_if-false _ _ few_pages);
          few_changes = few maximum_changes total (reject_if-false _ _ few_changes);
          counted = total_length _ _ _ _ _ longer counted counts_add;
          numbered = numbered';
          readable = (_, reading);
        },
        rw (sort_by-IsNumbered 0 events numbered') reading,
        refl,
      )

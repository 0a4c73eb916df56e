-- ===== src/Storage/Snapshot/Ready.antt =====
-- When `commit_sync_root_remote_inventory_rebaseline` of crates/nubisync-storage/src/lib.rs may put a
-- fresh inventory in place of the catalog.
use nubisync.Base.{
  ◌≤◌, is_some, [], not, ltb, ◌||◌, none, Text, List, Dict, Bool, ◌∷◌, ◌≡◌, ◌∙◌, ◌⊎◌, ap, refl, ℕ,
  ℤ, ok, some, true, false, lookup, any, contains, arith, inl, inr, Bool-cases, ==→≡, text_eq,
  nat_eq, option_eq, int_eq, ◌==◌, reject_if-false, Option,
}
use mathlib.Core.Path.{subst}
use nubisync.Core.Ids.{ChangeCursor}
use nubisync.Core.Modes.{two_way, mode_eq}
use nubisync.Storage.Tables.{WindowRow, InventoryStateRow, i64_try_from}
use nubisync.Storage.Intents.{
  IntentRow, RemoteWriteIntentStatus, planned, submitted, awaiting_confirmation, confirmed,
  conflict, failed, superseded, status_eq, is_positive,
}
use nubisync.Storage.Intents.Begin.{LocalStateRow, local_stands, catalog_stands, LocalEventRow}
use nubisync.Storage.Snapshot.{
  SnapshotTables, Expected, fail_unless, is_pending_at, is_active, is_unsettled, has_grown,
}

-- An entry that is looked up fails a test that every entry fails.
pub any-false :
    {V : Type 0} (test : ℤ × V → Bool) (rows : Dict ℤ V) (id : ℤ) (row : V)
    → any test rows ≡ false
    → lookup id rows ≡ some row
    → test (id, row) ≡ false
unfolding lookup
any-false test [] id row h e = ground arith
any-false test ((k, v) ∷ rows) id row h e = elim (Bool-cases (k == id)) [
  | inl same ↦
      let here : v ≡ row = ground (arith, e, same) in
      let there : test (k, v) ≡ false = ground (arith, h) in
      subst (λ (p : ℤ × _). test p ≡ false)
        (ap (λ x. (x, v)) (==→≡ k id same) ∙ ap (λ w. (id, w)) here) there
  | inr other ↦ any-false test rows id row (ground (arith, h)) (ground (arith, e, other))
]

-- An intent that nothing is to be done for any more.
abbrev pub IsSettled : List ℤ → ℤ → IntentRow → Type 0
IsSettled settled id row =
    ((row.status ≡ confirmed) × (contains settled id ≡ true))
    ⊎ (row.status ≡ failed)
    ⊎ (row.status ≡ superseded)

pub inactive_IsSettled :
    (settled : List ℤ) (id : ℤ) (row : IntentRow) (status : RemoteWriteIntentStatus)
    → row.status ≡ status
    → is_active status ≡ false
    → is_unsettled settled (id, row) ≡ false
    → IsSettled settled id row
inactive_IsSettled settled id row confirmed s a u = inl (s, ground (arith, s, u))
inactive_IsSettled settled id row failed s a u = inr (inl s)
inactive_IsSettled settled id row superseded s a u = inr (inr s)
inactive_IsSettled settled id row planned s a u = ground arith
inactive_IsSettled settled id row submitted s a u = ground arith
inactive_IsSettled settled id row awaiting_confirmation s a u = ground arith
inactive_IsSettled settled id row conflict s a u = ground arith

pub passed : (test : Bool) → fail_unless test ≡ ok tt → test ≡ true
passed test e = ground (arith, reject_if-false _ _ e)

pub refuted : (test : Bool) → fail_unless (not test) ≡ ok tt → test ≡ false
refuted test e = ground (arith, reject_if-false _ _ e)

pub same_size : (n : ℕ) {m : ℕ} → i64_try_from n ≡ ok m → m ≡ n
unfolding i64_try_from
same_size n e = ground arith

-- The window that the caller has read, which waits for a further page after sixty-four of them.
pub record HasGrown (expected : Expected) (window : WindowRow) : Type 0 where
  pub at_base : window.base_cursor ≡ expected.window_base_cursor.as_str
  pub waiting : (token : Text) × (window.continuation ≡ some token)
  pub open_end : window.checkpoint ≡ none
  pub pages : window.page_count ≡ expected.window_page_count
  pub changes : window.change_count ≡ expected.window_change_count
  pub many_pages : 64 ≤ expected.window_page_count

-- What a rebaseline has found in the tables.
pub record IsReadyToRebase (expected : Expected) (t : SnapshotTables) : Type 0 where
  pub is_two_way : t.mode ≡ some two_way
  pub local_ready :
      (state : LocalStateRow) × (t.local_state ≡ some state)
      × (state.snapshot_complete ≡ true)
      × (state.generation ≡ expected.local_generation)
      × (state.observation_valid ≡ true)
  pub catalog_ready :
      (state : InventoryStateRow) × (t.root.inventory_state ≡ some state)
      × (state.snapshot_complete ≡ true)
      × (state.catchup_complete ≡ true)
      × (state.change_cursor ≡ some expected.window_base_cursor.as_str)
  pub grown : (window : WindowRow) × (t.root.window ≡ some window) × HasGrown expected window
  pub all_settled :
      (id : ℤ) (row : IntentRow) → lookup id t.intents ≡ some row → IsSettled t.settled id row
  pub none_pending :
      (id : ℤ) (event : LocalEventRow)
      → lookup id t.local_events ≡ some event
      → event.baseline_generation ≡ expected.local_generation
      → event.is_pending ≡ false

pub local_stands_sound :
    (generation : ℕ) (found : Option LocalStateRow)
    → local_stands generation found ≡ true
    → (state : LocalStateRow) × (found ≡ some state)
      × (state.snapshot_complete ≡ true)
      × (state.generation ≡ generation)
      × (state.observation_valid ≡ true)
local_stands_sound generation none h = ground arith
local_stands_sound generation (some state) h =
    (state, refl, ground (arith, h), ground (arith, h), ground (arith, h))

pub catalog_stands_sound :
    (cursor : Text) (found : Option InventoryStateRow)
    → catalog_stands cursor found ≡ true
    → (state : InventoryStateRow) × (found ≡ some state)
      × (state.snapshot_complete ≡ true)
      × (state.catchup_complete ≡ true)
      × (state.change_cursor ≡ some cursor)
catalog_stands_sound cursor none h = ground arith
catalog_stands_sound cursor (some state) h =
    (state, refl, ground (arith, h), ground (arith, h), ground (arith, h))

waiting_token :
    (continuation : Option Text)
    → is_some continuation ≡ true
    → (token : Text) × (continuation ≡ some token)
waiting_token none h = ground arith
waiting_token (some token) h = (token, refl)

no_value : (checkpoint : Option Text) → is_some checkpoint ≡ false → checkpoint ≡ none
no_value none h = refl
no_value (some cursor) h = ground arith

pub has_grown-HasGrown :
    (expected : Expected) (found : Option WindowRow)
    → has_grown expected.window_base_cursor expected.window_page_count expected.window_change_count
        found
      ≡ true
    → 64 ≤ expected.window_page_count
    → (window : WindowRow) × (found ≡ some window) × HasGrown expected window
has_grown-HasGrown expected none h many = ground arith
has_grown-HasGrown expected (some window) h many = (
  window,
  refl,
  record {
    at_base = ground (arith, h);
    waiting = waiting_token window.continuation (ground (arith, h));
    open_end = no_value window.checkpoint (ground (arith, h));
    pages = ground (arith, h);
    changes = ground (arith, h);
    many_pages = many;
  },
)

pub many_pages_of :
    (blank : Bool) (pages : ℕ) (at : ℤ)
    → not (blank || ltb pages 64 || not (is_positive at)) ≡ true
    → 64 ≤ pages
many_pages_of blank pages at h = ground (arith, h)

pub not_pending :
    (generation : ℕ) (id : ℤ) (event : LocalEventRow)
    → is_pending_at generation (id, event) ≡ false
    → event.baseline_generation ≡ generation
    → event.is_pending ≡ false
not_pending generation id event h e = ground (arith, h, e)

pub grown_sized :
    (base : ChangeCursor) (a b : ℕ) (window : Option WindowRow) {pages changes : ℕ}
    → i64_try_from a ≡ ok pages
    → i64_try_from b ≡ ok changes
    → has_grown base pages changes window ≡ true
    → has_grown base a b window ≡ true
grown_sized base a b window {pages} {changes} p c h =
    subst (λ k. has_grown base a k window ≡ true) (same_size b c)
      (subst (λ k. has_grown base k changes window ≡ true) (same_size a p) h)

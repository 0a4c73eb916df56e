-- ===== src/Storage/Closing/Ready.antt =====
-- The guards of the commits of crates/nubisync-storage/src/lib.rs, and the mutations that they take.
use nubisync.Base.{
  insert, lookup, All, Bool, List, Option, Text, [], ◌∷◌, ◌≡◌, ◌∙◌, ◌↔◌, ◌<◌, arith, false,
  is_blank, is_some, length, not, none, ok, option_eq, refl, reject_if, reject_if-false, some,
  text_eq, true, ℕ, ℤ, nat_eq, ◌==◌, ◌||◌, >>=-eq-ok, >>-eq-ok, ==→≡, ==_refl, int_eq,
}
use nubisync.Core.Ids.{ChangeCursor}
use nubisync.Storage.Tables.{WindowRow, RootTables, optional_size, i64_try_from, i64_bound}
use nubisync.Storage.Catalog.{
  item_row, invalidate_existing, delete_sync_root_subtree_in_transaction, SyncRootCatalogMutation,
  upsert_mutation, delete_mutation, apply_mutation, apply_mutations, upsert_sync_root_catalog_item,
  current_cursor,
}
use nubisync.Storage.Closing.{check_window}

abbrev pub FitsSize : Option ℕ → Type 0
FitsSize none = Unit
FitsSize (some n) = n < i64_bound

-- A mutation that the store takes.
abbrev pub IsValid : SyncRootCatalogMutation → Type 0
IsValid (upsert_mutation item) =
    (item.trashed ≡ false) × (is_blank item.remote_id ≡ false) × FitsSize item.size_bytes
IsValid (delete_mutation remote_id) = is_blank remote_id ≡ false

-- The window has its checkpoint, and is the one that the caller has read.
abbrev pub IsComplete : ChangeCursor → ChangeCursor → ℕ → Option WindowRow → Type 0
IsComplete base checkpoint count none = ⊥
IsComplete base checkpoint count (some window) =
    (window.continuation ≡ none)
    × (window.base_cursor ≡ base.as_str)
    × (window.checkpoint ≡ some checkpoint.as_str)
    × (window.change_count ≡ count)

-- The window can be committed: it is complete and holds as many events as the caller has read, and
-- the catalog is still at the cursor that the window starts from.
pub record IsReady (base checkpoint : ChangeCursor) (count : ℕ) (t : RootTables) : Type 0 where
  pub fits : count < i64_bound
  pub complete : IsComplete base checkpoint count t.window
  pub counted : length t.events ≡ count
  pub at_base : current_cursor t.inventory_state ≡ ok base.as_str

pub check_window_iff :
    (base checkpoint : ChangeCursor) (count stored : ℕ) (window : Option WindowRow)
    → (check_window base checkpoint count stored window ≡ ok tt)
      ↔ (IsComplete base checkpoint count window × (stored ≡ count))
unfolding check_window
check_window_iff base checkpoint count stored none = (λ e. ground arith, λ e. absurd e.0)
check_window_iff base checkpoint count stored (some w) = (
  λ e.
      let (a, e1) =
        >>-eq-ok (reject_if (is_some w.continuation || not (is_some w.checkpoint)) _) _ e in
      let (b, e2) = >>-eq-ok (reject_if (not (w.base_cursor == base.as_str)) _) _ e1 in
      let (c, e3) = >>-eq-ok (reject_if (not (w.checkpoint == some checkpoint.as_str)) _) _ e2 in
      let (d, e4) = >>-eq-ok (reject_if (not (w.change_count == count)) _) _ e3 in
      let (f, _) = >>-eq-ok (reject_if (not (stored == w.change_count)) _) _ e4 in
      let counts = ==→≡ w.change_count count (not-false _ (reject_if-false _ _ d)) in
      (
        (
          is_some-none _ _ (reject_if-false _ _ a),
          ==→≡ w.base_cursor base.as_str (not-false _ (reject_if-false _ _ b)),
          ==→≡ w.checkpoint (some checkpoint.as_str) (not-false _ (reject_if-false _ _ c)),
          counts,
        ),
        ==→≡ stored w.change_count (not-false _ (reject_if-false _ _ f)) ∙ counts,
      ),
  λ ((a, b, c, d), f).
      rw (a, b, c, d, f, ==_refl base.as_str, ==_refl (some checkpoint.as_str), ==_refl count) refl,
)
  where
    not-false : (b : Bool) → not b ≡ false → b ≡ true
    not-false b h = ground arith

    is_some-none : (o : Option Text) (b : Bool) → (is_some o || b) ≡ false → o ≡ none
    is_some-none none b h = refl
    is_some-none (some x) b h = ground arith

optional_size_iff :
    (size : Option ℕ) → ((n : Option ℕ) × (optional_size size ≡ ok n)) ↔ FitsSize size
unfolding optional_size i64_try_from
optional_size_iff none = (λ _. tt, λ _. (none, refl))
optional_size_iff (some n) = (λ (m, e). ground arith, λ h. (some n, ground arith))

apply_mutation_iff :
    (observed : ℤ) (m : SyncRootCatalogMutation) (t : RootTables)
    → ((t' : RootTables) × (apply_mutation observed m t ≡ ok t')) ↔ IsValid m
unfolding apply_mutation upsert_sync_root_catalog_item
apply_mutation_iff observed (upsert_mutation item) t = (
  λ (t', e).
      let (a, upserted) = >>-eq-ok (reject_if (item.trashed || is_blank item.remote_id) _) _ e in
      let (size, sized, _) = >>=-eq-ok (optional_size item.size_bytes) _ upserted in
      let passed = reject_if-false _ _ a in
      (
        ground (arith, passed),
        ground (arith, passed),
        (optional_size_iff item.size_bytes).0 (size, sized),
      ),
  λ (a, b, fits).
      let (size, sized) = (optional_size_iff item.size_bytes).1 fits in
      (
        record (invalidate_existing item (lookup item.remote_id t.items) t) {
          items = insert item.remote_id (item_row item size observed) t.items;
        },
        rw (a, b, sized) refl,
      ),
)
apply_mutation_iff observed (delete_mutation remote_id) t = (
  λ (t', e). reject_if-false _ _ (>>-eq-ok (reject_if (is_blank remote_id) _) _ e).0,
  λ v. (delete_sync_root_subtree_in_transaction remote_id t, rw v refl),
)

pub apply_mutations_iff :
    (observed : ℤ) (ms : List SyncRootCatalogMutation) (t : RootTables)
    → ((t' : RootTables) × (apply_mutations observed ms t ≡ ok t')) ↔ All IsValid ms
unfolding apply_mutations
apply_mutations_iff observed [] t = (λ _. tt, λ _. (t, refl))
apply_mutations_iff observed (m ∷ ms) t = (
  λ (t', e).
      let (after, first, rest) = >>=-eq-ok (apply_mutation observed m t) _ e in
      (
        (apply_mutation_iff observed m t).0 (after, first),
        (apply_mutations_iff observed ms after).0 (t', rest),
      ),
  λ (v, vs).
      let (after, first) = (apply_mutation_iff observed m t).1 v in
      let (t', rest) = (apply_mutations_iff observed ms after).1 vs in (t', rw first rest),
)

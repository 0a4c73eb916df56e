-- ===== src/Storage/Snapshot/Staged.antt =====
-- What is read of a remote snapshot of crates/nubisync-storage/src/lib.rs after it is staged and
-- committed.
use nubisync.Base.{
  Text, List, Dict, Option, [], ◌∷◌, ◌≡◌, ◌∙◌, ap, sym, refl, ℕ, ℤ, ok, none, some, lookup,
  lookup-insert, length, arith, inl, inr, Bool-cases, ==→≡, text_eq, nat_eq, option_eq, int_eq,
  ◌==◌, >>=-eq-ok, ok-injective, if◌then◌else◌,
}
use mathlib.Core.Path.{subst}
use nubisync.Core.Ids.{ChangeCursor}
use nubisync.Core.Remote.{RemoteItem}
use nubisync.Storage.Tables.{ItemRow, optional_size, i64_try_from}
use nubisync.Storage.Catalog.{current_cursor}
use nubisync.Storage.Closing.Numbered.{optional_size-eq}
use nubisync.Storage.Snapshot.{
  SnapshotTables, staged_row, item_of, read_item, insert_sync_root_inventory_item, insert_items,
  begin_sync_root_remote_inventory_staging, stage_sync_root_remote_inventory_items,
  staged_sync_root_remote_inventory_count, commit_sync_root_remote_inventory_snapshot,
  sync_root_remote_item,
}

abbrev pub or_else : Option RemoteItem → Option RemoteItem → Option RemoteItem
or_else none other = other
or_else (some item) other = some item

-- The last item with the id, as it is stored: without its time of modification.
abbrev pub last_with : Text → List RemoteItem → Option RemoteItem
last_with remote_id [] = none
last_with remote_id (item ∷ items) =
    or_else (last_with remote_id items)
      (if item.remote_id == remote_id then some (record item { modified_unix_ms = none }) else none)

or_else_assoc : (a b c : Option RemoteItem) → or_else a (or_else b c) ≡ or_else (or_else a b) c
or_else_assoc none b c = refl
or_else_assoc (some a) b c = refl

read-staged_row :
    (at : ℤ) (item : RemoteItem) (size : Option ℕ) (x : Text)
    → item.size_bytes ≡ size
    → item.remote_id ≡ x
    → some (item_of x (staged_row item size at)) ≡ some (record item { modified_unix_ms = none })
read-staged_row at item size x s same =
    ap
      (λ (p : Text × Option ℕ).
        some (record item { remote_id = p.0; size_bytes = p.1; modified_unix_ms = none }))
      (ground (arith, s, same))

read-insert_item :
    (at : ℤ) (item : RemoteItem) (staging : Dict Text ItemRow) {next : Dict Text ItemRow} (x : Text)
    → insert_sync_root_inventory_item at item staging ≡ ok next
    → read_item x (lookup x next)
      ≡ or_else
          (if item.remote_id == x then some (record item { modified_unix_ms = none }) else none)
          (read_item x (lookup x staging))
unfolding insert_sync_root_inventory_item
read-insert_item at item staging x e =
    let (size, stored, last) = >>=-eq-ok (optional_size item.size_bytes) _ e in
    let row = staged_row item size at in
    let found =
      ap (λ d. read_item x (lookup x d)) (sym (ok-injective last))
      ∙ ap (read_item x) (lookup-insert item.remote_id x row staging) in
    elim (Bool-cases (item.remote_id == x)) [
      | inl same ↦
          found
          ∙ rw same (
              read-staged_row at item size x (optional_size-eq item.size_bytes stored)
                (==→≡ item.remote_id x same))
      | inr other ↦ found ∙ rw other refl
    ]

read-insert_items :
    (at : ℤ) (items : List RemoteItem) (staging : Dict Text ItemRow) {final : Dict Text ItemRow}
    (x : Text)
    → insert_items at items staging ≡ ok final
    → read_item x (lookup x final) ≡ or_else (last_with x items) (read_item x (lookup x staging))
unfolding insert_items
read-insert_items at [] staging x e = ap (λ d. read_item x (lookup x d)) (sym (ok-injective e))
read-insert_items at (item ∷ items) staging x e =
    let (next, first, rest) = >>=-eq-ok (insert_sync_root_inventory_item at item staging) _ e in
    read-insert_items at items next x rest
    ∙ ap (or_else (last_with x items)) (read-insert_item at item staging x first)
    ∙ or_else_assoc (last_with x items) _ (read_item x (lookup x staging))

-- A snapshot that is begun anew, staged and committed is what is read afterwards: for each id the last
-- staged item that has it, less its time of modification, and nothing for any other id. The catch-up
-- starts from the given cursor, the number that is returned counts the stored items, nothing is left
-- in the staging table, and neither the receipts nor an open window change.
pub read-commit_snapshot :
    (items : List RemoteItem) (observed : ℤ) (cursor : ChangeCursor) (completed : ℤ)
    (t : SnapshotTables) {n m : ℕ} {staged t' : SnapshotTables}
    → stage_sync_root_remote_inventory_items items observed
        (begin_sync_root_remote_inventory_staging t)
      ≡ ok (n, staged)
    → commit_sync_root_remote_inventory_snapshot cursor completed staged ≡ ok (m, t')
    → ((x : Text) → sync_root_remote_item x t'.root ≡ last_with x items)
      × (current_cursor t'.root.inventory_state ≡ ok cursor.as_str)
      × (m ≡ length t'.root.items)
      × (staged_sync_root_remote_inventory_count t' ≡ 0)
      × (record t'.root { items = t.root.items; inventory_state = t.root.inventory_state } ≡ t.root)
unfolding stage_sync_root_remote_inventory_items begin_sync_root_remote_inventory_staging
    commit_sync_root_remote_inventory_snapshot sync_root_remote_item current_cursor
    staged_sync_root_remote_inventory_count lookup
read-commit_snapshot items observed cursor completed t {n} {m} {staged} {t'} e c =
    let (rows, inserted, last) = >>=-eq-ok (insert_items observed items []) _ e in
    let now = record t { staging = rows } in
    let same : now ≡ staged = ap (λ p. p.1) (ok-injective last) in
    let from_now =
      subst (λ s. commit_sync_root_remote_inventory_snapshot cursor completed s ≡ ok (m, t'))
        (sym same) c in
    let (count, fits, done) = >>=-eq-ok (i64_try_from (length rows)) _ from_now in
    subst
      (λ (r : ℕ × SnapshotTables).
        ((x : Text) → read_item x (lookup x r.1.root.items) ≡ last_with x items)
        × (current_cursor r.1.root.inventory_state ≡ ok cursor.as_str)
        × (r.0 ≡ length r.1.root.items)
        × (length r.1.staging ≡ 0)
        × (record r.1.root { items = t.root.items; inventory_state = t.root.inventory_state }
            ≡ t.root))
      (ok-injective done)
      (
        λ x. read-insert_items observed items [] x inserted ∙ or_else-none (last_with x items),
        refl,
        refl,
        refl,
        refl,
      )
  where
    or_else-none : (found : Option RemoteItem) → or_else found none ≡ found
    or_else-none none = refl
    or_else-none (some item) = refl

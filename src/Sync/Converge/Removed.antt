-- ===== src/Sync/Converge/Removed.antt =====
-- The drafts that the loops of `plan_receive_only_convergence` of
-- crates/nubisync-sync/src/convergence.rs make for what is left over.
use nubisync.Base.{
  ==_refl, ==→≡, >>=-eq-ok, Among, Bool-cases, IsNodup, List, Text, [], any, arith, contains,
  contains_key, false, inl, inr, int_eq, lookup, nat_eq, none, ok, option_eq, refl, some,
  starts_with, text_eq, true, ◌++◌, ◌==◌, ◌∙◌, ◌∷◌, ◌≡◌,
}
use mathlib.Core.Path.{subst}
use mathlib.Core.List.{append_assoc}
use nubisync.Core.Path.{slash}
use nubisync.Core.Remote.{RemoteItem}
use nubisync.Sync.Hydration.{ids_of}
use nubisync.Sync.Local.{LocalTreeEntryKind, LocalTreeEntry, local_kind_eq}
use nubisync.Sync.Paths.Layout.{expected_names}
use nubisync.Sync.Materialize.{local_paths}
use nubisync.Sync.Converge.Receipts.{ReceiveOnlyOwnershipReceipt, stale}
use nubisync.Sync.Converge.Drafts.{
  ReceiveOnlyConvergenceActionKind, revalidate_stale_file_deletion, delete_owned_empty_directory,
}
use nubisync.Sync.Converge.Decide.{decide_entry, receipt_is_settled, local_directory_is_empty}
use nubisync.Sync.Converge.Index.{Context}
use nubisync.Sync.Converge.Plan.{
  Drafting, draft_actions, add_action, draft_expected, draft_entry, draft_entries, no_drafting,
}
use nubisync.Sync.Converge.Reasons.{IsEmptyDirectory}
use nubisync.Sync.Converge.Kept.{
  draft_for, add_action_new, draft_expected_elsewhere, draft_entry_elsewhere,
  draft_entries_elsewhere, draft_receipts_elsewhere,
}

contains_paths-Among :
    (entries : List LocalTreeEntry) (entry : LocalTreeEntry)
    → Among entry entries
    → contains (local_paths entries) entry.relative_path ≡ true
contains_paths-Among [] entry m = absurd m
contains_paths-Among (x ∷ entries) entry (inl p) =
    rw (← p) (ground (arith, ==_refl x.relative_path))
contains_paths-Among (x ∷ entries) entry (inr m) =
    ground (arith, contains_paths-Among entries entry m)

module _ (c : Context) (entry : LocalTreeEntry) (kind : ReceiveOnlyConvergenceActionKind)
    (id : Text) (fresh : contains (expected_names c.expected_paths) entry.relative_path ≡ false)
    (decided_so : decide_entry c.receipt_by_path c.expected_by_remote_id c.local_entries entry
      ≡ (kind, some id)) where
  draft_entry_new :
      (s : Drafting) {t : Drafting}
      → draft_entry c entry s ≡ ok t
      → lookup entry.relative_path s.drafts ≡ none
      → lookup entry.relative_path t.drafts ≡ some (draft_for kind (some id) entry.relative_path)
  unfolding draft_entry
  draft_entry_new s {t} f absent =
      let added : add_action s kind (some id) entry.relative_path c.max_actions ≡ ok t =
        ground (arith, fresh, decided_so) in
      add_action_new c.max_actions entry.relative_path s kind (some id) entry.relative_path added
        absent

  draft_entries_new :
      (entries : List LocalTreeEntry) (s : Drafting) {t : Drafting}
      → draft_entries c entries s ≡ ok t
      → IsNodup (local_paths entries)
      → Among entry entries
      → lookup entry.relative_path s.drafts ≡ none
      → lookup entry.relative_path t.drafts ≡ some (draft_for kind (some id) entry.relative_path)
  unfolding draft_entries
  draft_entries_new [] s h once m absent = absurd m
  draft_entries_new (x ∷ entries) s h (new, once) (inl p) absent =
      let (t, f, g) = >>=-eq-ok (draft_entry c x s) _ h in
      let away : contains (local_paths entries) entry.relative_path ≡ false =
        subst (λ (y : LocalTreeEntry). contains (local_paths entries) y.relative_path ≡ false) p
          new in
      let added : draft_entry c entry s ≡ ok t = subst (λ y. draft_entry c y s ≡ ok t) p f in
      draft_entries_elsewhere c entry.relative_path entries t g
        (λ y n _. ground (arith, away, contains_paths-Among entries y n))
      ∙ draft_entry_new s added absent
  draft_entries_new (x ∷ entries) s h (new, once) (inr m) absent =
      let (t, f, g) = >>=-eq-ok (draft_entry c x s) _ h in
      draft_entries_new entries t g once m (
        draft_entry_elsewhere c entry.relative_path x s f
          (λ _. ground (arith, new, contains_paths-Among entries entry m))
        ∙ absent)

  pub draft_actions_removed :
      (receipts : List ReceiveOnlyOwnershipReceipt) {s : Drafting}
      → draft_actions c receipts ≡ ok s
      → IsNodup (local_paths c.local_entries)
      → Among entry c.local_entries
      → ((r : ReceiveOnlyOwnershipReceipt)
          → Among r receipts
          → r.relative_path ≡ entry.relative_path
          → receipt_is_settled c.local_by_path c.expected_by_remote_id r ≡ true)
      → lookup entry.relative_path s.drafts ≡ some (draft_for kind (some id) entry.relative_path)
  unfolding draft_actions
  draft_actions_removed receipts h once m settled =
      let q = entry.relative_path in
      let (s, f1, f2) = >>=-eq-ok (draft_expected c c.expected_paths no_drafting) _ h in
      let (t, f3, f4) = >>=-eq-ok (draft_entries c c.local_entries s) _ f2 in
      let none_before : lookup q s.drafts ≡ none =
        draft_expected_elsewhere c q c.expected_paths no_drafting f1 fresh
        ∙ unfold lookup in refl in
      draft_receipts_elsewhere c q receipts t f4 settled
      ∙ draft_entries_new c.local_entries s f3 once m none_before

module _ (c : Context) (entry : LocalTreeEntry) (r : ReceiveOnlyOwnershipReceipt)
    (there : lookup entry.relative_path c.receipt_by_path ≡ some r) (is_stale : r.state ≡ stale)
    (of_kind : r.kind ≡ entry.kind)
    (gone : contains_key r.remote_id c.expected_by_remote_id ≡ false) where
  pub decided_file :
      entry.kind ≡ LocalTreeEntryKind.file
      → decide_entry c.receipt_by_path c.expected_by_remote_id c.local_entries entry
        ≡ (revalidate_stale_file_deletion, some r.remote_id)
  unfolding decide_entry
  decided_file kind = ground (arith, there, is_stale, of_kind, gone, kind)

  pub decided_directory :
      entry.kind ≡ LocalTreeEntryKind.directory
      → local_directory_is_empty entry.relative_path c.local_entries ≡ true
      → decide_entry c.receipt_by_path c.expected_by_remote_id c.local_entries entry
        ≡ (delete_owned_empty_directory, some r.remote_id)
  unfolding decide_entry
  decided_directory kind empty = ground (arith, there, is_stale, of_kind, gone, kind, empty)

starts_with_split : (s p : Text) → starts_with s p ≡ true → (rest : Text) × (s ≡ p ++ rest)
starts_with_split s [] h = (s, refl)
starts_with_split [] (y ∷ p) h = cc
starts_with_split (x ∷ s) (y ∷ p) h =
    let (rest, same) = starts_with_split s p (ground arith) in
    let head : x ≡ y = ground arith in (rest, rw (head, same) refl)

none_below :
    (prefix : Text) (entries : List LocalTreeEntry)
    → ((entry : LocalTreeEntry)
        → Among entry entries
        → starts_with entry.relative_path prefix ≡ false)
    → any (λ x. starts_with x.relative_path prefix) entries ≡ false
none_below prefix [] h = refl
none_below prefix (x ∷ entries) h =
    ground (arith, h x (inl refl), none_below prefix entries (λ y m. h y (inr m)))

pub empty_lem :
    (path : Text) (entries : List LocalTreeEntry)
    → IsEmptyDirectory entries path
    → local_directory_is_empty path entries ≡ true
unfolding local_directory_is_empty
empty_lem path entries h =
    let prefix = path ++ slash ∷ [] in
    let below = none_below prefix entries (λ entry m.
      elim (Bool-cases (starts_with entry.relative_path prefix)) [
        | inl starts ↦
            let (rest, same) = starts_with_split entry.relative_path prefix starts in
            absurd (h entry rest m (same ∙ append_assoc path (slash ∷ []) rest))
        | inr other ↦ other
      ]) in
    rw below refl

pub Among-ids_of :
    (items : List RemoteItem) (id : Text)
    → contains (ids_of items) id ≡ true
    → (i : RemoteItem) × Among i items × (i.remote_id ≡ id)
Among-ids_of [] id h = cc
Among-ids_of (x ∷ items) id h = elim (Bool-cases (x.remote_id == id)) [
  | inl same ↦ (x, inl refl, ==→≡ x.remote_id id same)
  | inr differ ↦ let (i, m, p) = Among-ids_of items id (ground arith) in (i, inr m, p)
]

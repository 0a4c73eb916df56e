-- ===== src/Sync/Converge/Covered.antt =====
-- A plan of crates/nubisync-sync/src/convergence.rs has the actions for the items of the catalog.
use mathlib.Core.Path.{subst}
use nubisync.Base.{
  Among, List, Option-cases, Text, ap, arith, contains_key, false, inl, inr, int_eq, lookup, nat_eq,
  none, ok, option_eq, refl, some, sym, text_eq, true, ◌≡◌, Bool-cases, IsNodup, [], contains, ◌∙◌,
  ◌≢◌,
}
use nubisync.Core.Remote.{RemoteItem}
use nubisync.Sync.Local.{LocalTreeEntryKind, LocalTreeEntry, local_kind_eq}
use nubisync.Sync.Paths.{RemoteExpectedPath}
use nubisync.Sync.Converge.Receipts.{ReceiveOnlyOwnershipReceipt}
use nubisync.Sync.Converge.Drafts.{
  revalidate_stale_file_deletion, delete_owned_empty_directory, ReceiveOnlyConvergenceActionKind,
  verify_existing_file, revalidate_stale_file_replacement,
}
use nubisync.Sync.Converge.Decide.{
  decide_entry, local_directory_is_empty, act, identity_conflict, path_conflict, receipt_is_settled,
}
use nubisync.Sync.Converge.Index.{Context}
use nubisync.Sync.Converge.Plan.{Drafting, draft_actions, sorted_actions}
use nubisync.Sync.Converge.Reads.{Reads}
use nubisync.Sync.Converge.Reasons.{
  IsGone, IsLeftOver, IsEmptyDirectory, IsUncontested, IsFree, IsThere, IsUnclaimed,
}
use nubisync.Sync.Converge.Idle.{decided}
use nubisync.Sync.Paths.Built.{entries_known}
use nubisync.Sync.Paths.Layout.{expected_names}
use nubisync.Sync.Materialize.{local_paths}
use nubisync.Sync.Converge.Removed.{
  Among-ids_of, empty_lem, decided_file, decided_directory, draft_actions_removed,
}
use nubisync.Sync.Converge.Reasoned.{contains_ids-Among, Among-expected_names}
use nubisync.Sync.Converge.Kept.{draft_actions_new}
use nubisync.Sync.Converge.Carried.{
  Covers, creation, sorted_HasAction, IsOfKind_lem, decided-creation, decided_verification,
  decided_replacement, HasAction,
}

module _ (items : List RemoteItem) (entries : List LocalTreeEntry)
    (receipts : List ReceiveOnlyOwnershipReceipt) (c : Context)
    (reads : Reads items entries receipts c) where
  no_identity_conflict :
      (e : RemoteExpectedPath)
      → IsUncontested receipts e
      → identity_conflict (lookup e.remote_id c.receipt_by_remote_id) e ≡ false
  no_identity_conflict e clear = elim (Option-cases (lookup e.remote_id c.receipt_by_remote_id)) [
    | inl absent ↦ rw absent refl
    | inr (r, there) ↦
        let (x, m, id, same) = reads.by_receipt_id.sound e.remote_id r there in
        let (path, of_kind) = (clear x m).0 id in
        let kind = IsOfKind_lem e.kind x.kind of_kind in
        rw (there, ← same) (ground (arith, path, kind))
  ]

  no_path_conflict :
      (e : RemoteExpectedPath)
      → IsUncontested receipts e
      → path_conflict (lookup e.relative_path c.receipt_by_path) e ≡ false
  no_path_conflict e clear = elim (Option-cases (lookup e.relative_path c.receipt_by_path)) [
    | inl absent ↦ rw absent refl
    | inr (r, there) ↦
        let (x, m, path, same) = reads.by_receipt_path.sound e.relative_path r there in
        let id = (clear x m).1 path in rw (there, ← same) (ground (arith, id))
  ]

  uncontested_settled :
      (e : RemoteExpectedPath)
      → Among e c.expected_paths
      → IsUncontested receipts e
      → (r : ReceiveOnlyOwnershipReceipt) → Among r receipts
      → r.relative_path ≡ e.relative_path
      → receipt_is_settled c.local_by_path c.expected_by_remote_id r ≡ true
  unfolding receipt_is_settled contains_key
  uncontested_settled e m clear r n path =
      let id = (clear r n).1 path in
      let kind = IsOfKind_lem e.kind r.kind ((clear r n).0 id).1 in
      let found : lookup r.remote_id c.expected_by_remote_id ≡ some (e.relative_path, e.kind) =
        rw id (reads.by_expected_id.complete e m) in
      ground (arith, found, path, kind)

  free_lookup : (path : Text) → IsFree entries path → lookup path c.local_by_path ≡ none
  free_lookup path free = elim (Option-cases (lookup path c.local_by_path)) [
    | inl absent ↦ absent
    | inr (kind, there) ↦
        let (x, m, p, _) = reads.by_local_path.sound path kind there in absurd (free x m p)
  ]

  there_lookup :
      (kind : LocalTreeEntryKind) (path : Text)
      → IsThere entries kind path
      → lookup path c.local_by_path ≡ some kind
  there_lookup kind path (x, m, p, k) = rw (← p, ← k) (reads.by_local_path.complete x m)

  unclaimed_lookup :
      (id : Text) → IsUnclaimed receipts (some id) → lookup id c.receipt_by_remote_id ≡ none
  unclaimed_lookup id unclaimed = elim (Option-cases (lookup id c.receipt_by_remote_id)) [
    | inl absent ↦ absent
    | inr (r, there) ↦
        let (x, m, p, _) = reads.by_receipt_id.sound id r there in
        absurd (unclaimed x m (ap some (sym p)))
  ]

  expected-Among :
      (e : RemoteExpectedPath)
      → Among e c.expected_paths
      → (item : RemoteItem) × Among item items × (item.remote_id ≡ e.remote_id)
  expected-Among e m = Among-ids_of items e.remote_id (
      entries_known items reads.root [] c.expected_paths reads.laid_out.entries e.remote_id
        (contains_ids-Among c.expected_paths e m))

  gone_absent : (id : Text) → IsGone items id → contains_key id c.expected_by_remote_id ≡ false
  unfolding contains_key
  gone_absent id gone = elim (Option-cases (lookup id c.expected_by_remote_id)) [
    | inl absent ↦ rw absent refl
    | inr (v, there) ↦
        let (e, m, p, _) = reads.by_expected_id.sound id v there in
        let (item, n, q) = expected-Among e m in absurd (gone item n (q ∙ p))
  ]

  unexpected :
      (path : Text)
      → ((e : RemoteExpectedPath) → Among e c.expected_paths → e.relative_path ≢ path)
      → contains (expected_names c.expected_paths) path ≡ false
  unexpected path none_there = elim (Bool-cases (contains (expected_names c.expected_paths) path)) [
    | inl known ↦
        let (e, m, p) = Among-expected_names c.expected_paths path known in
        absurd (none_there e m p)
    | inr fresh ↦ fresh
  ]

  there_settled :
      (entry : LocalTreeEntry)
      → Among entry entries
      → (r : ReceiveOnlyOwnershipReceipt) → Among r receipts
      → r.relative_path ≡ entry.relative_path
      → receipt_is_settled c.local_by_path c.expected_by_remote_id r ≡ true
  unfolding receipt_is_settled contains_key
  there_settled entry m r n path =
      let found : lookup r.relative_path c.local_by_path ≡ some entry.kind =
        rw path (reads.by_local_path.complete entry m) in
      ground (arith, found)

  left_over_action :
      {s : Drafting} (entry : LocalTreeEntry) (kind : ReceiveOnlyConvergenceActionKind) (id : Text)
      → draft_actions c receipts ≡ ok s
      → Among entry entries
      → contains (expected_names c.expected_paths) entry.relative_path ≡ false
      → decide_entry c.receipt_by_path c.expected_by_remote_id c.local_entries entry
        ≡ (kind, some id)
      → HasAction (sorted_actions s.drafts) kind id entry.relative_path
  left_over_action {s} entry kind id h m fresh so =
      sorted_HasAction s.drafts kind id entry.relative_path (
        draft_actions_removed c entry kind id fresh so receipts h
          (subst (λ xs. IsNodup (local_paths xs)) (sym reads.entries_kept) reads.distinct_entries)
          (subst (Among entry) (sym reads.entries_kept) m) (there_settled entry m))

  removed_file_lem :
      {s : Drafting} (id path : Text)
      → draft_actions c receipts ≡ ok s
      → IsLeftOver items c.expected_paths entries receipts LocalTreeEntryKind.file (some id) path
      → HasAction (sorted_actions s.drafts) revalidate_stale_file_deletion id path
  removed_file_lem {s} id path h
        ((entry, m, at_, kind), away, (i, same, (r, n, is_stale, r_kind, r_id, r_path), gone)) =
      let there : lookup entry.relative_path c.receipt_by_path ≡ some r =
        rw (at_, ← r_path) (reads.by_receipt_path.complete r n) in
      let of_kind = r_kind ∙ sym kind in
      let absent = gone_absent r.remote_id (rw r_id gone) in
      let fresh = unexpected entry.relative_path (rw at_ away) in
      let id_same : r.remote_id ≡ id = ground (arith, r_id, same) in
      subst (λ q. HasAction (sorted_actions s.drafts) revalidate_stale_file_deletion id q) at_
        (subst
          (λ j.
            HasAction (sorted_actions s.drafts) revalidate_stale_file_deletion j
              entry.relative_path)
          id_same
          (left_over_action entry revalidate_stale_file_deletion r.remote_id h m fresh
            (decided_file c entry r there is_stale of_kind absent kind)))

  removed_directory_lem :
      {s : Drafting} (id path : Text)
      → draft_actions c receipts ≡ ok s
      → IsLeftOver items c.expected_paths entries receipts LocalTreeEntryKind.directory
          (some id)
          path
      → IsEmptyDirectory entries path
      → HasAction (sorted_actions s.drafts) delete_owned_empty_directory id path
  removed_directory_lem {s} id path h
        ((entry, m, at_, kind), away, (i, same, (r, n, is_stale, r_kind, r_id, r_path), gone))
        bare =
      let there : lookup entry.relative_path c.receipt_by_path ≡ some r =
        rw (at_, ← r_path) (reads.by_receipt_path.complete r n) in
      let of_kind = r_kind ∙ sym kind in
      let absent = gone_absent r.remote_id (rw r_id gone) in
      let fresh = unexpected entry.relative_path (rw at_ away) in
      let id_same : r.remote_id ≡ id = ground (arith, r_id, same) in
      let empty : local_directory_is_empty entry.relative_path c.local_entries ≡ true =
        rw (at_, reads.entries_kept) (empty_lem path entries bare) in
      subst (λ q. HasAction (sorted_actions s.drafts) delete_owned_empty_directory id q) at_
        (subst
          (λ j.
            HasAction (sorted_actions s.drafts) delete_owned_empty_directory j entry.relative_path)
          id_same
          (left_over_action entry delete_owned_empty_directory r.remote_id h m fresh
            (decided_directory c entry r there is_stale of_kind absent kind empty)))

  pub draft_actions-Covers :
      {s : Drafting}
      → draft_actions c receipts ≡ ok s
      → Covers items c.expected_paths entries receipts (sorted_actions s.drafts)
  draft_actions-Covers {s} h =
      let act_on =
        λ (kind : ReceiveOnlyConvergenceActionKind) (e : RemoteExpectedPath)
            (m : Among e c.expected_paths) (clear : IsUncontested receipts e)
            (so : decided c e ≡ act kind).
          sorted_HasAction s.drafts kind e.remote_id e.relative_path (
            draft_actions_new c receipts e kind h reads.laid_out.distinct_paths m so
              (uncontested_settled e m clear)) in
      record {
        created = λ e m clear free. act_on (creation e.kind) e m clear (
            decided-creation c e (no_identity_conflict e clear) (no_path_conflict e clear)
              (free_lookup e.relative_path free));
        verified = λ e m clear of_kind there unclaimed. act_on verify_existing_file e m clear (
            decided_verification c e (no_identity_conflict e clear) (no_path_conflict e clear)
              of_kind (there_lookup LocalTreeEntryKind.file e.relative_path there)
              (unclaimed_lookup e.remote_id unclaimed));
        replaced = λ e m clear of_kind there (r, n, is_stale, r_kind, id, path).
            act_on revalidate_stale_file_replacement e m clear (
              decided_replacement c e (no_identity_conflict e clear) (no_path_conflict e clear) r
                of_kind (there_lookup LocalTreeEntryKind.file e.relative_path there)
                (rw (← id) (reads.by_receipt_id.complete r n)) is_stale);
        removed_file = λ id path. removed_file_lem id path h;
        removed_directory = λ id path. removed_directory_lem id path h;
      }

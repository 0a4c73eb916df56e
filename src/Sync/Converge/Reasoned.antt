-- ===== src/Sync/Converge/Reasoned.antt =====
-- From what the loops of `plan_receive_only_convergence` of
-- crates/nubisync-sync/src/convergence.rs find in the indexes to the reasons for its actions.
use nubisync.Base.{
  ==_refl, ==→≡, Among, Bool, Bool-cases, List, Option, Text, [], any, arith, contains,
  contains_key, false, inl, inr, int_eq, lookup, nat_eq, none, option_eq, refl, some, starts_with,
  text_eq, true, ◌++◌, ◌==◌, ◌∷◌, ◌≡◌, sym,
}
use mathlib.Core.Path.{subst}
use mathlib.Core.List.{append_assoc}
use nubisync.Core.Path.{slash}
use nubisync.Core.Remote.{RemoteItem, RemoteItemKind, file, folder}
use nubisync.Sync.Local.{LocalTreeEntryKind, LocalTreeEntry}
use nubisync.Sync.Paths.{RemoteExpectedPath}
use nubisync.Sync.Paths.Layout.{expected_names, expected_ids}
use nubisync.Sync.Paths.Ends.{contains-Among}
use nubisync.Sync.Converge.Receipts.{ReceiveOnlyOwnershipReceipt}
use nubisync.Sync.Converge.Drafts.{
  ReceiveOnlyConvergenceActionKind, create_directory, materialize_missing_file,
  verify_existing_file, revalidate_stale_file_replacement, revalidate_stale_file_deletion,
  delete_owned_empty_directory, blocked,
}
use nubisync.Sync.Converge.Decide.{
  identity_conflict, path_conflict, local_kind_for_remote, local_directory_is_empty,
}
use nubisync.Sync.Converge.Index.{Context}
use nubisync.Sync.Converge.Reads.{Reads}
use nubisync.Sync.Converge.Justified.{IsExpected, IsAbandoned, IsJustified}
use nubisync.Sync.Converge.Reasons.{
  IsOfKind, IsUncontested, IsWanted, IsFree, IsThere, IsGone, IsEmptyDirectory, IsLeftOver,
  HasReason,
}

pub local_kind-IsOfKind :
    (kind : RemoteItemKind) (k : LocalTreeEntryKind)
    → k ≡ local_kind_for_remote kind
    → IsOfKind kind k
unfolding local_kind_for_remote
local_kind-IsOfKind file k h = h
local_kind-IsOfKind folder k h = h

starts_with-append : (p q : Text) → starts_with (p ++ q) p ≡ true
starts_with-append [] q = refl
starts_with-append (x ∷ p) q = ground (arith, ==_refl x, starts_with-append p q)

any-Among :
    (p : LocalTreeEntry → Bool) (entries : List LocalTreeEntry) (entry : LocalTreeEntry)
    → Among entry entries
    → any p entries ≡ false
    → p entry ≡ false
any-Among p [] entry m h = absurd m
any-Among p (x ∷ entries) entry (inl e) h = rw (← e) (ground arith)
any-Among p (x ∷ entries) entry (inr m) h = any-Among p entries entry m (ground arith)

IsEmptyDirectory_lem :
    (path : Text) (entries : List LocalTreeEntry)
    → local_directory_is_empty path entries ≡ true
    → IsEmptyDirectory entries path
unfolding local_directory_is_empty
IsEmptyDirectory_lem path entries h entry rest m e =
    let below : (path ++ slash ∷ []) ++ rest ≡ path ++ slash ∷ rest =
      append_assoc path (slash ∷ []) rest in
    ground (
      arith,
      any-Among (λ x. starts_with x.relative_path (path ++ slash ∷ [])) entries entry m
          (ground arith),
      starts_with-append (path ++ slash ∷ []) rest,
      below,
    )

pub contains_names-Among :
    (es : List RemoteExpectedPath) (e : RemoteExpectedPath)
    → Among e es
    → contains (expected_names es) e.relative_path ≡ true
contains_names-Among [] e m = absurd m
contains_names-Among (x ∷ es) e (inl p) = rw (← p) (ground (arith, ==_refl x.relative_path))
contains_names-Among (x ∷ es) e (inr m) = ground (arith, contains_names-Among es e m)

pub contains_ids-Among :
    (es : List RemoteExpectedPath) (e : RemoteExpectedPath)
    → Among e es
    → contains (expected_ids es) e.remote_id ≡ true
contains_ids-Among [] e m = absurd m
contains_ids-Among (x ∷ es) e (inl p) = rw (← p) (ground (arith, ==_refl x.remote_id))
contains_ids-Among (x ∷ es) e (inr m) = ground (arith, contains_ids-Among es e m)

pub Among-expected_names :
    (es : List RemoteExpectedPath) (path : Text)
    → contains (expected_names es) path ≡ true
    → (e : RemoteExpectedPath) × Among e es × (e.relative_path ≡ path)
Among-expected_names [] path h = cc
Among-expected_names (x ∷ es) path h = elim (Bool-cases (x.relative_path == path)) [
  | inl same ↦ (x, inl refl, ==→≡ x.relative_path path same)
  | inr differ ↦ let (e, m, p) = Among-expected_names es path (ground arith) in (e, inr m, p)
]

Among-expected_ids :
    (es : List RemoteExpectedPath) (id : Text)
    → contains (expected_ids es) id ≡ true
    → (e : RemoteExpectedPath) × Among e es × (e.remote_id ≡ id)
Among-expected_ids [] id h = cc
Among-expected_ids (x ∷ es) id h = elim (Bool-cases (x.remote_id == id)) [
  | inl same ↦ (x, inl refl, ==→≡ x.remote_id id same)
  | inr differ ↦ let (e, m, p) = Among-expected_ids es id (ground arith) in (e, inr m, p)
]

module _ (items : List RemoteItem) (entries : List LocalTreeEntry)
    (receipts : List ReceiveOnlyOwnershipReceipt) (c : Context)
    (reads : Reads items entries receipts c) where
  absent_IsFree : (path : Text) → lookup path c.local_by_path ≡ none → IsFree entries path
  absent_IsFree path absent entry m e = ground (arith, reads.by_local_path.complete entry m)

  pub lookup-IsThere :
      (path : Text) (kind : LocalTreeEntryKind)
      → lookup path c.local_by_path ≡ some kind
      → IsThere entries kind path
  lookup-IsThere path kind there = reads.by_local_path.sound path kind there

  uncontested_lem :
      (e : RemoteExpectedPath)
      → identity_conflict (lookup e.remote_id c.receipt_by_remote_id) e ≡ false
      → path_conflict (lookup e.relative_path c.receipt_by_path) e ≡ false
      → IsUncontested receipts e
  uncontested_lem e no_identity no_path r m = (
    λ same.
        let there : lookup e.remote_id c.receipt_by_remote_id ≡ some r =
          rw (← same) (reads.by_receipt_id.complete r m) in
        (ground (arith, there), local_kind-IsOfKind e.kind r.kind (ground (arith, there))),
    λ same.
        let there : lookup e.relative_path c.receipt_by_path ≡ some r =
          rw (← same) (reads.by_receipt_path.complete r m) in
        ground (arith, there),
  )

  expected_IsWanted :
      (kind : RemoteItemKind) (remote_id : Option Text) (path : Text)
      → IsExpected c kind remote_id path
      → IsWanted c.expected_paths receipts kind remote_id path
  expected_IsWanted kind remote_id path (e, m, at_, p, id, no_identity, no_path) =
      let here : path_conflict (lookup e.relative_path c.receipt_by_path) e ≡ false =
        subst (λ q. path_conflict (lookup q c.receipt_by_path) e ≡ false) (sym at_) no_path in
      (e, m, at_, p, id, uncontested_lem e no_identity here)

  gone_lem : (id : Text) → contains_key id c.expected_by_remote_id ≡ false → IsGone items id
  unfolding contains_key
  gone_lem id absent item m same =
      let (e, n, p) =
        Among-expected_ids c.expected_paths id
          (rw (← same) (reads.laid_out.all_items item.remote_id (contains-Among item items m))) in
      ground (arith, reads.by_expected_id.complete e n)

  abandoned_IsLeftOver :
      (kind : LocalTreeEntryKind) (remote_id : Option Text) (path : Text)
      → IsAbandoned c kind remote_id path
      → IsLeftOver items c.expected_paths entries receipts kind remote_id path
  abandoned_IsLeftOver kind remote_id path
        (entry, r, m, at_, of_kind, fresh, there, (is_stale, r_kind, id), gone) =
      let (x, n, same_path, same) = reads.by_receipt_path.sound path r there in
      (
        (entry, subst (Among entry) reads.entries_kept m, at_, of_kind),
        λ e k p. ground (arith, contains_names-Among c.expected_paths e k),
        (
          r.remote_id,
          id,
          (r, subst (λ y. Among y receipts) same n, is_stale, r_kind, refl, rw (← same) same_path),
          gone_lem r.remote_id gone,
        ),
      )

  pub IsJustified-HasReason :
      (kind : ReceiveOnlyConvergenceActionKind) (remote_id : Option Text) (path : Text)
      → IsJustified c kind remote_id path
      → HasReason items c.expected_paths entries receipts kind remote_id path
  IsJustified-HasReason create_directory id path (wanted, absent) =
      (expected_IsWanted folder id path wanted, absent_IsFree path absent)
  IsJustified-HasReason materialize_missing_file id path (wanted, absent) =
      (expected_IsWanted file id path wanted, absent_IsFree path absent)
  IsJustified-HasReason verify_existing_file id path (wanted, there, (i, p, unclaimed)) = (
    expected_IsWanted file id path wanted,
    lookup-IsThere path LocalTreeEntryKind.file there,
    λ r m same. ground (arith, reads.by_receipt_id.complete r m),
  )
  IsJustified-HasReason revalidate_stale_file_replacement id path
        (wanted, there, (i, r, p, found, is_stale, of_kind, at_)) =
      let (x, n, same_id, same) = reads.by_receipt_id.sound i r found in
      (
        expected_IsWanted file id path wanted,
        lookup-IsThere path LocalTreeEntryKind.file there,
        (
          i,
          p,
          (r, subst (λ y. Among y receipts) same n, is_stale, of_kind, rw (← same) same_id, at_),
        ),
      )
  IsJustified-HasReason revalidate_stale_file_deletion id path h =
      abandoned_IsLeftOver LocalTreeEntryKind.file id path h
  IsJustified-HasReason delete_owned_empty_directory id path (h, empty) = (
    abandoned_IsLeftOver LocalTreeEntryKind.directory id path h,
    IsEmptyDirectory_lem path entries (rw (← reads.entries_kept) empty),
  )
  IsJustified-HasReason blocked id path h = tt

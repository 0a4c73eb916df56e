-- ===== src/Sync/Converge/Justified.antt =====
-- What each action of a plan of crates/nubisync-sync/src/convergence.rs rests on.
use nubisync.Base.{
  Among, Option, Text, contains, contains_key, false, int_eq, lookup, nat_eq, none, option_eq, some,
  text_eq, true, ◌≡◌, arith, refl, Option-cases, inl, inr,
}
use nubisync.Sync.Local.{LocalTreeEntryKind, LocalTreeEntry, local_kind_eq}
use nubisync.Core.Remote.{RemoteItemKind, file, folder}
use nubisync.Sync.Paths.{RemoteExpectedPath}
use nubisync.Sync.Paths.Layout.{expected_names}
use nubisync.Sync.Converge.Receipts.{stale, ReceiveOnlyOwnershipReceipt}
use nubisync.Sync.Converge.Drafts.{
  ReceiveOnlyConvergenceActionKind, create_directory, materialize_missing_file,
  verify_existing_file, revalidate_stale_file_replacement, revalidate_stale_file_deletion,
  delete_owned_empty_directory, blocked,
}
use nubisync.Sync.Converge.Decide.{
  identity_conflict, path_conflict, act, decide_expected, decide_entry, local_kind_for_remote,
  local_directory_is_empty,
}
use nubisync.Sync.Converge.Index.{Context}

-- An expected path of the kind, with the item of the action, and no receipt against it.
abbrev pub IsExpected : Context → RemoteItemKind → Option Text → Text → Type 0
IsExpected c kind remote_id path =
    (e : RemoteExpectedPath) × Among e c.expected_paths
    × (e.relative_path ≡ path)
    × (e.kind ≡ kind)
    × (remote_id ≡ some e.remote_id)
    × (identity_conflict (lookup e.remote_id c.receipt_by_remote_id) e ≡ false)
    × (path_conflict (lookup path c.receipt_by_path) e ≡ false)

abbrev pub IsStaleReceipt : ReceiveOnlyOwnershipReceipt → LocalTreeEntryKind → Option Text → Type 0
IsStaleReceipt receipt kind remote_id =
    (receipt.state ≡ stale) × (receipt.kind ≡ kind) × (remote_id ≡ some receipt.remote_id)

-- A local entry at a path that nothing expects, with a stale receipt of an item that is gone.
abbrev pub IsAbandoned : Context → LocalTreeEntryKind → Option Text → Text → Type 0
IsAbandoned c kind remote_id path =
    (entry : LocalTreeEntry) × (receipt : ReceiveOnlyOwnershipReceipt) × Among entry c.local_entries
    × (entry.relative_path ≡ path)
    × (entry.kind ≡ kind)
    × (contains (expected_names c.expected_paths) path ≡ false)
    × (lookup path c.receipt_by_path ≡ some receipt)
    × IsStaleReceipt receipt kind remote_id
    × (contains_key receipt.remote_id c.expected_by_remote_id ≡ false)

abbrev pub IsJustified : Context → ReceiveOnlyConvergenceActionKind → Option Text → Text → Type 0
IsJustified c create_directory remote_id path =
    IsExpected c folder remote_id path × (lookup path c.local_by_path ≡ none)
IsJustified c materialize_missing_file remote_id path =
    IsExpected c file remote_id path × (lookup path c.local_by_path ≡ none)
IsJustified c verify_existing_file remote_id path =
    IsExpected c file remote_id path
    × (lookup path c.local_by_path ≡ some LocalTreeEntryKind.file)
    × ((id : Text) × (remote_id ≡ some id) × (lookup id c.receipt_by_remote_id ≡ none))
IsJustified c revalidate_stale_file_replacement remote_id path =
    IsExpected c file remote_id path
    × (lookup path c.local_by_path ≡ some LocalTreeEntryKind.file)
    × ((id : Text) × (receipt : ReceiveOnlyOwnershipReceipt) × (remote_id ≡ some id)
        × (lookup id c.receipt_by_remote_id ≡ some receipt)
        × (receipt.state ≡ stale)
        × (receipt.kind ≡ LocalTreeEntryKind.file)
        × (receipt.relative_path ≡ path))
IsJustified c revalidate_stale_file_deletion remote_id path =
    IsAbandoned c LocalTreeEntryKind.file remote_id path
IsJustified c delete_owned_empty_directory remote_id path =
    IsAbandoned c LocalTreeEntryKind.directory remote_id path
    × (local_directory_is_empty path c.local_entries ≡ true)
IsJustified c blocked remote_id path = Unit

module _ (c : Context) (e : RemoteExpectedPath) (m : Among e c.expected_paths) where
  pub expected_IsJustified :
      (kind : ReceiveOnlyConvergenceActionKind)
      → decide_expected c.local_by_path c.receipt_by_remote_id c.receipt_by_path e ≡ act kind
      → IsJustified c kind (some e.remote_id) e.relative_path
  unfolding decide_expected local_kind_for_remote
  expected_IsJustified create_directory h =
      ((e, m, refl, ground arith, refl, ground arith, ground arith), ground arith)
  expected_IsJustified materialize_missing_file h =
      ((e, m, refl, ground arith, refl, ground arith, ground arith), ground arith)
  expected_IsJustified verify_existing_file h = (
    (e, m, refl, ground arith, refl, ground arith, ground arith),
    ground arith,
    (e.remote_id, refl, ground arith),
  )
  expected_IsJustified revalidate_stale_file_replacement h =
      elim (Option-cases (lookup e.remote_id c.receipt_by_remote_id)) [
        | inl absent ↦ ground (arith, absent)
        | inr (receipt, there) ↦ (
          (e, m, refl, ground (arith, there), refl, ground (arith, there), ground (arith, there)),
          ground (arith, there),
          (
            e.remote_id,
            receipt,
            refl,
            there,
            ground (arith, there),
            ground (arith, there),
            ground (arith, there),
          ),
        )
      ]
  expected_IsJustified revalidate_stale_file_deletion h = ground arith
  expected_IsJustified delete_owned_empty_directory h = ground arith
  expected_IsJustified blocked h = tt

module _ (c : Context) (entry : LocalTreeEntry) (m : Among entry c.local_entries)
    (fresh : contains (expected_names c.expected_paths) entry.relative_path ≡ false) where
  pub entry-IsJustified_as :
      (kind : ReceiveOnlyConvergenceActionKind) (remote_id : Option Text)
      → decide_entry c.receipt_by_path c.expected_by_remote_id c.local_entries entry
        ≡ (kind, remote_id)
      → IsJustified c kind remote_id entry.relative_path
  unfolding decide_entry
  entry-IsJustified_as create_directory id h = ground arith
  entry-IsJustified_as materialize_missing_file id h = ground arith
  entry-IsJustified_as verify_existing_file id h = ground arith
  entry-IsJustified_as revalidate_stale_file_replacement id h = ground arith
  entry-IsJustified_as revalidate_stale_file_deletion id h =
      elim (Option-cases (lookup entry.relative_path c.receipt_by_path)) [
        | inl absent ↦ ground (arith, absent)
        | inr (receipt, there) ↦ (
          entry,
          receipt,
          m,
          refl,
          ground (arith, there),
          fresh,
          there,
          (ground (arith, there), ground (arith, there), ground (arith, there)),
          ground (arith, there),
        )
      ]
  entry-IsJustified_as delete_owned_empty_directory id h =
      elim (Option-cases (lookup entry.relative_path c.receipt_by_path)) [
        | inl absent ↦ ground (arith, absent)
        | inr (receipt, there) ↦ (
          (
            entry,
            receipt,
            m,
            refl,
            ground (arith, there),
            fresh,
            there,
            (ground (arith, there), ground (arith, there), ground (arith, there)),
            ground (arith, there),
          ),
          ground (arith, there),
        )
      ]
  entry-IsJustified_as blocked id h = tt

-- ===== src/Sync/Converge/Carried.antt =====
-- The actions that a plan of crates/nubisync-sync/src/convergence.rs has for the items of the catalog.
use nubisync.Base.{
  Among, Among-sort_by, Bool-cases, List, Text, [], ap, arith, false, inl, inr, int_eq, lookup, map,
  nat_eq, none, option_eq, refl, some, sort_by, text_eq, ◌==◌, ◌∷◌, ◌≡◌,
}
use nubisync.Core.Remote.{RemoteItemKind, file, folder, RemoteItem}
use nubisync.Sync.Local.{LocalTreeEntryKind, LocalTreeEntry, local_kind_eq}
use nubisync.Sync.Paths.{RemoteExpectedPath}
use nubisync.Sync.Converge.Receipts.{stale, ReceiveOnlyOwnershipReceipt}
use nubisync.Sync.Converge.Drafts.{
  ReceiveOnlyConvergenceActionKind, create_directory, materialize_missing_file,
  verify_existing_file, revalidate_stale_file_deletion, delete_owned_empty_directory,
  revalidate_stale_file_replacement, ActionDraft, Drafts,
}
use nubisync.Sync.Converge.Decide.{
  act, decide_expected, identity_conflict, path_conflict, local_kind_for_remote,
}
use nubisync.Sync.Converge.Index.{Context}
use nubisync.Sync.Converge.Plan.{
  ReceiveOnlyConvergenceAction, action_of, by_key, compare_actions, sorted_actions,
}
use nubisync.Sync.Converge.Reasons.{
  IsLeftOver, IsEmptyDirectory, IsOfKind, IsUncontested, IsFree, IsThere, IsUnclaimed,
  HasStaleReceipt,
}
use nubisync.Sync.Converge.Idle.{decided}
use nubisync.Sync.Converge.Kept.{draft_for}

abbrev pub HasAction :
    List ReceiveOnlyConvergenceAction → ReceiveOnlyConvergenceActionKind → Text → Text → Type 0
HasAction actions kind remote_id path =
    (a : ReceiveOnlyConvergenceAction) × Among a actions
    × (a.kind ≡ kind)
    × (a.remote_id ≡ some remote_id)
    × (a.relative_path ≡ path)

abbrev pub creation : RemoteItemKind → ReceiveOnlyConvergenceActionKind
creation folder = create_directory
creation file = materialize_missing_file

-- What the layout wants is planned for, where no receipt is against it: what is missing is created,
-- a file that no receipt claims is verified, one under a stale receipt is replaced. And what is left
-- over is deleted, a directory when it is empty.
pub record Covers (items : List RemoteItem) (es : List RemoteExpectedPath)
    (entries : List LocalTreeEntry) (receipts : List ReceiveOnlyOwnershipReceipt)
    (actions : List ReceiveOnlyConvergenceAction) : Type 0 where
  pub created :
      (e : RemoteExpectedPath)
      → Among e es
      → IsUncontested receipts e
      → IsFree entries e.relative_path
      → HasAction actions (creation e.kind) e.remote_id e.relative_path
  pub verified :
      (e : RemoteExpectedPath)
      → Among e es
      → IsUncontested receipts e
      → e.kind ≡ file
      → IsThere entries LocalTreeEntryKind.file e.relative_path
      → IsUnclaimed receipts (some e.remote_id)
      → HasAction actions verify_existing_file e.remote_id e.relative_path
  pub replaced :
      (e : RemoteExpectedPath)
      → Among e es
      → IsUncontested receipts e
      → e.kind ≡ file
      → IsThere entries LocalTreeEntryKind.file e.relative_path
      → HasStaleReceipt receipts LocalTreeEntryKind.file e.remote_id e.relative_path
      → HasAction actions revalidate_stale_file_replacement e.remote_id e.relative_path
  pub removed_file :
      (id path : Text)
      → IsLeftOver items es entries receipts LocalTreeEntryKind.file (some id) path
      → HasAction actions revalidate_stale_file_deletion id path
  pub removed_directory :
      (id path : Text)
      → IsLeftOver items es entries receipts LocalTreeEntryKind.directory (some id) path
      → IsEmptyDirectory entries path
      → HasAction actions delete_owned_empty_directory id path

lookup-Among :
    (q : Text) (d : ActionDraft) (drafts : Drafts)
    → lookup q drafts ≡ some d
    → (k : Text) × Among (k, d) drafts
unfolding lookup
lookup-Among q d [] h = absurd (ground arith)
lookup-Among q d ((k, x) ∷ drafts) h = elim (Bool-cases (k == q)) [
  | inl here ↦ let same : x ≡ d = ground (arith, here) in (k, inl (ap (λ y. (k, y)) same))
  | inr later ↦ let (j, m) = lookup-Among q d drafts (ground (arith, later)) in (j, inr m)
]

Among-action_of :
    (x : Text × ActionDraft) (drafts : Drafts)
    → Among x drafts
    → Among (action_of x) (map action_of drafts)
Among-action_of x [] m = absurd m
Among-action_of x (y ∷ drafts) (inl e) = inl (ap action_of e)
Among-action_of x (y ∷ drafts) (inr m) = inr (Among-action_of x drafts m)

pub sorted_HasAction :
    (drafts : Drafts) (kind : ReceiveOnlyConvergenceActionKind) (id path : Text)
    → lookup path drafts ≡ some (draft_for kind (some id) path)
    → HasAction (sorted_actions drafts) kind id path
unfolding sorted_actions
sorted_HasAction drafts kind id path h =
    let d = draft_for kind (some id) path in
    let (k, m) = lookup-Among path d drafts h in
    (
      action_of (k, d),
      Among-sort_by compare_actions (action_of (k, d)) (map action_of (sort_by by_key drafts))
          (Among-action_of (k, d) (sort_by by_key drafts) (Among-sort_by by_key (k, d) drafts m)),
      refl,
      refl,
      refl,
    )

pub IsOfKind_lem :
    (kind : RemoteItemKind) (k : LocalTreeEntryKind)
    → IsOfKind kind k
    → k ≡ local_kind_for_remote kind
unfolding local_kind_for_remote
IsOfKind_lem file k h = h
IsOfKind_lem folder k h = h

module _ (c : Context) (e : RemoteExpectedPath)
    (no_identity : identity_conflict (lookup e.remote_id c.receipt_by_remote_id) e ≡ false)
    (no_path : path_conflict (lookup e.relative_path c.receipt_by_path) e ≡ false) where
  pub decided-creation :
      lookup e.relative_path c.local_by_path ≡ none → decided c e ≡ act (creation e.kind)
  unfolding decide_expected
  decided-creation absent = ground (arith, no_identity, no_path, absent)

  pub decided_verification :
      e.kind ≡ file
      → lookup e.relative_path c.local_by_path ≡ some LocalTreeEntryKind.file
      → lookup e.remote_id c.receipt_by_remote_id ≡ none
      → decided c e ≡ act verify_existing_file
  unfolding decide_expected local_kind_for_remote
  decided_verification of_kind there absent =
      ground (arith, no_identity, no_path, of_kind, there, absent)

  pub decided_replacement :
      (r : ReceiveOnlyOwnershipReceipt)
      → e.kind ≡ file
      → lookup e.relative_path c.local_by_path ≡ some LocalTreeEntryKind.file
      → lookup e.remote_id c.receipt_by_remote_id ≡ some r
      → r.state ≡ stale
      → decided c e ≡ act revalidate_stale_file_replacement
  unfolding decide_expected local_kind_for_remote
  decided_replacement r of_kind there found is_stale =
      ground (arith, no_identity, no_path, of_kind, there, found, is_stale)

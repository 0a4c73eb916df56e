-- ===== src/Sync/Converge/Reasons.antt =====
-- The reasons for the actions of a plan of crates/nubisync-sync/src/convergence.rs, said of the
-- catalog, the local tree and the receipts that it is made from.
use nubisync.Base.{
  Among, List, Option, Text, int_eq, nat_eq, option_eq, some, text_eq, ◌++◌, ◌∷◌, ◌≡◌, ◌≢◌,
}
use nubisync.Core.Path.{slash}
use nubisync.Core.Remote.{RemoteItem, RemoteItemKind, file, folder}
use nubisync.Sync.Local.{LocalTreeEntryKind, LocalTreeEntry}
use nubisync.Sync.Paths.{RemoteExpectedPath}
use nubisync.Sync.Converge.Receipts.{stale, ReceiveOnlyOwnershipReceipt}
use nubisync.Sync.Converge.Drafts.{
  ReceiveOnlyConvergenceActionKind, create_directory, materialize_missing_file,
  verify_existing_file, revalidate_stale_file_replacement, revalidate_stale_file_deletion,
  delete_owned_empty_directory, blocked,
}

-- A directory stands for a folder, a file for a file.
abbrev pub IsOfKind : RemoteItemKind → LocalTreeEntryKind → Type 0
IsOfKind folder kind = kind ≡ LocalTreeEntryKind.directory
IsOfKind file kind = kind ≡ LocalTreeEntryKind.file

-- The receipts of the expected item are at its path and of its kind, and those at its path are its.
abbrev pub IsUncontested : List ReceiveOnlyOwnershipReceipt → RemoteExpectedPath → Type 0
IsUncontested receipts e =
    (r : ReceiveOnlyOwnershipReceipt)
    → Among r receipts
    → (r.remote_id ≡ e.remote_id → (r.relative_path ≡ e.relative_path) × IsOfKind e.kind r.kind)
      × (r.relative_path ≡ e.relative_path → r.remote_id ≡ e.remote_id)

abbrev pub IsWanted :
    List RemoteExpectedPath
    → List ReceiveOnlyOwnershipReceipt
    → RemoteItemKind
    → Option Text
    → Text
    → Type 0
IsWanted es receipts kind remote_id path =
    (e : RemoteExpectedPath) × Among e es
    × (e.relative_path ≡ path)
    × (e.kind ≡ kind)
    × (remote_id ≡ some e.remote_id)
    × IsUncontested receipts e

abbrev pub IsFree : List LocalTreeEntry → Text → Type 0
IsFree entries path = (entry : LocalTreeEntry) → Among entry entries → entry.relative_path ≢ path

abbrev pub IsThere : List LocalTreeEntry → LocalTreeEntryKind → Text → Type 0
IsThere entries kind path =
    (entry : LocalTreeEntry) × Among entry entries
    × (entry.relative_path ≡ path)
    × (entry.kind ≡ kind)

abbrev pub IsUnclaimed : List ReceiveOnlyOwnershipReceipt → Option Text → Type 0
IsUnclaimed receipts remote_id =
    (r : ReceiveOnlyOwnershipReceipt) → Among r receipts → remote_id ≢ some r.remote_id

-- A stale receipt of the item, at the path and of the kind.
abbrev pub HasStaleReceipt :
    List ReceiveOnlyOwnershipReceipt → LocalTreeEntryKind → Text → Text → Type 0
HasStaleReceipt receipts kind id path =
    (r : ReceiveOnlyOwnershipReceipt) × Among r receipts
    × (r.state ≡ stale)
    × (r.kind ≡ kind)
    × (r.remote_id ≡ id)
    × (r.relative_path ≡ path)

abbrev pub IsGone : List RemoteItem → Text → Type 0
IsGone items id = (item : RemoteItem) → Among item items → item.remote_id ≢ id

-- Nothing lies below the path.
abbrev pub IsEmptyDirectory : List LocalTreeEntry → Text → Type 0
IsEmptyDirectory entries path =
    (entry : LocalTreeEntry) (rest : Text)
    → Among entry entries
    → entry.relative_path ≢ path ++ slash ∷ rest

-- The entry of the kind may be deleted: its path is not expected, and it was written under a
-- receipt, now stale, for an item that is no longer in the catalog.
abbrev pub IsLeftOver :
    List RemoteItem
    → List RemoteExpectedPath
    → List LocalTreeEntry
    → List ReceiveOnlyOwnershipReceipt
    → LocalTreeEntryKind
    → Option Text
    → Text
    → Type 0
IsLeftOver items es entries receipts kind remote_id path =
    IsThere entries kind path
    × ((e : RemoteExpectedPath) → Among e es → e.relative_path ≢ path)
    × ((id : Text) × (remote_id ≡ some id)
        × HasStaleReceipt receipts kind id path
        × IsGone items id)

module _ (items : List RemoteItem) (es : List RemoteExpectedPath) (entries : List LocalTreeEntry)
    (receipts : List ReceiveOnlyOwnershipReceipt) where
  abbrev pub HasReason : ReceiveOnlyConvergenceActionKind → Option Text → Text → Type 0
  HasReason create_directory remote_id path =
      IsWanted es receipts folder remote_id path × IsFree entries path
  HasReason materialize_missing_file remote_id path =
      IsWanted es receipts file remote_id path × IsFree entries path
  HasReason verify_existing_file remote_id path =
      IsWanted es receipts file remote_id path
      × IsThere entries LocalTreeEntryKind.file path
      × IsUnclaimed receipts remote_id
  HasReason revalidate_stale_file_replacement remote_id path =
      IsWanted es receipts file remote_id path
      × IsThere entries LocalTreeEntryKind.file path
      × ((id : Text) × (remote_id ≡ some id)
          × HasStaleReceipt receipts LocalTreeEntryKind.file id path)
  HasReason revalidate_stale_file_deletion remote_id path =
      IsLeftOver items es entries receipts LocalTreeEntryKind.file remote_id path
  HasReason delete_owned_empty_directory remote_id path =
      IsLeftOver items es entries receipts LocalTreeEntryKind.directory remote_id path
      × IsEmptyDirectory entries path
  HasReason blocked remote_id path = Unit

-- ===== src/Sync/Converge/Decide.antt =====
-- What the three loops of `plan_receive_only_convergence` in
-- crates/nubisync-sync/src/convergence.rs decide for one expected path, one local entry and one
-- receipt.
use nubisync.Base.{
  Bool, Dict, List, Option, Text, [], any, contains_key, false, if◌then◌else◌, int_eq, lookup,
  nat_eq, none, not, option_eq, some, starts_with, text_eq, true, ◌&&◌, ◌++◌, ◌==◌, ◌||◌, ◌∷◌,
}
use nubisync.Core.Path.{slash}
use nubisync.Core.Remote.{RemoteItemKind, file, folder}
use nubisync.Sync.Local.{LocalTreeEntryKind, LocalTreeEntry, local_kind_eq}
use nubisync.Sync.Paths.{RemoteExpectedPath}
use nubisync.Sync.Materialize.{Locals}
use nubisync.Sync.Converge.Receipts.{
  ReceiveOnlyReceiptState, current, stale, ReceiveOnlyOwnershipReceipt,
}
use nubisync.Sync.Converge.Drafts.{
  ReceiveOnlyConvergenceActionKind, create_directory, materialize_missing_file,
  verify_existing_file, revalidate_stale_file_replacement, revalidate_stale_file_deletion,
  delete_owned_empty_directory, blocked,
}

abbrev pub Receipts : Type 0
Receipts = Dict Text ReceiveOnlyOwnershipReceipt

abbrev pub Expected : Type 0
Expected = Dict Text (Text × RemoteItemKind)

unfoldable pub local_kind_for_remote : RemoteItemKind → LocalTreeEntryKind
local_kind_for_remote file = LocalTreeEntryKind.file
local_kind_for_remote folder = LocalTreeEntryKind.directory

-- `!local_entries.iter().any(|entry| entry.relative_path().starts_with(&prefix))`
unfoldable pub local_directory_is_empty : Text → List LocalTreeEntry → Bool
local_directory_is_empty path local_entries =
    not (any (λ entry. starts_with entry.relative_path (path ++ slash ∷ [])) local_entries)

-- For an expected path: an action on it, or one of the three counters.
pub data Decision : Type 0 where
  act : ReceiveOnlyConvergenceActionKind → Decision
  current_owned_file : Decision
  current_owned_directory : Decision
  unowned_matching_directory : Decision

abbrev pub identity_conflict : Option ReceiveOnlyOwnershipReceipt → RemoteExpectedPath → Bool
identity_conflict none e = false
identity_conflict (some receipt) e =
    not (receipt.relative_path == e.relative_path)
    || not (receipt.kind == local_kind_for_remote e.kind)

abbrev pub path_conflict : Option ReceiveOnlyOwnershipReceipt → RemoteExpectedPath → Bool
path_conflict none e = false
path_conflict (some receipt) e = not (receipt.remote_id == e.remote_id)

abbrev decide_missing : RemoteItemKind → Decision
decide_missing folder = act create_directory
decide_missing file = act materialize_missing_file

abbrev decide_directory : Option ReceiveOnlyReceiptState → Decision
decide_directory (some current) = current_owned_directory
decide_directory (some stale) = act blocked
decide_directory none = unowned_matching_directory

abbrev decide_file : Option ReceiveOnlyReceiptState → Decision
decide_file (some current) = current_owned_file
decide_file (some stale) = act revalidate_stale_file_replacement
decide_file none = act verify_existing_file

abbrev state_of : Option ReceiveOnlyOwnershipReceipt → Option ReceiveOnlyReceiptState
state_of none = none
state_of (some receipt) = some receipt.state

abbrev decide_by_kind : LocalTreeEntryKind → Option ReceiveOnlyOwnershipReceipt → Decision
decide_by_kind LocalTreeEntryKind.directory receipt = decide_directory (state_of receipt)
decide_by_kind LocalTreeEntryKind.file receipt = decide_file (state_of receipt)

abbrev decide_local :
    Option LocalTreeEntryKind → RemoteItemKind → Option ReceiveOnlyOwnershipReceipt → Decision
decide_local none kind receipt = decide_missing kind
decide_local (some local_kind) kind receipt =
    if local_kind == local_kind_for_remote kind
    then decide_by_kind local_kind receipt
    else act blocked

-- The body of the loop over the expected paths.
unfoldable pub decide_expected : Locals → Receipts → Receipts → RemoteExpectedPath → Decision
unfolding local_kind_for_remote
decide_expected local_by_path receipt_by_remote_id receipt_by_path e =
    let receipt_by_id = lookup e.remote_id receipt_by_remote_id in
    let receipt_at_path = lookup e.relative_path receipt_by_path in
    if identity_conflict receipt_by_id e || path_conflict receipt_at_path e
    then act blocked
    else decide_local (lookup e.relative_path local_by_path) e.kind receipt_by_id

abbrev decide_stale : LocalTreeEntryKind → Bool → ReceiveOnlyConvergenceActionKind
decide_stale LocalTreeEntryKind.file empty = revalidate_stale_file_deletion
decide_stale LocalTreeEntryKind.directory true = delete_owned_empty_directory
decide_stale LocalTreeEntryKind.directory false = blocked

abbrev pub is_stale : ReceiveOnlyReceiptState → Bool
is_stale current = false
is_stale stale = true

abbrev decide_unexpected :
    Option ReceiveOnlyOwnershipReceipt
    → Expected
    → List LocalTreeEntry
    → LocalTreeEntry
    → ReceiveOnlyConvergenceActionKind × Option Text
decide_unexpected none expected_by_remote_id local_entries entry = (blocked, none)
decide_unexpected (some receipt) expected_by_remote_id local_entries entry = (
  (if not (is_stale receipt.state)
        || not (receipt.kind == entry.kind)
        || contains_key receipt.remote_id expected_by_remote_id
      then blocked
      else decide_stale entry.kind (local_directory_is_empty entry.relative_path local_entries)),
  some receipt.remote_id,
)

-- The body of the loop over the local entries, for a path that is not expected.
unfoldable pub decide_entry :
    Receipts
    → Expected
    → List LocalTreeEntry
    → LocalTreeEntry
    → ReceiveOnlyConvergenceActionKind × Option Text
decide_entry receipt_by_path expected_by_remote_id local_entries entry =
    decide_unexpected (lookup entry.relative_path receipt_by_path) expected_by_remote_id
      local_entries entry

abbrev same_target : Option (Text × RemoteItemKind) → ReceiveOnlyOwnershipReceipt → Bool
same_target none receipt = false
same_target (some (path, kind)) receipt =
    path == receipt.relative_path && local_kind_for_remote kind == receipt.kind

-- The body of the loop over the receipts: whether nothing is to be done about one.
unfoldable pub receipt_is_settled : Locals → Expected → ReceiveOnlyOwnershipReceipt → Bool
receipt_is_settled local_by_path expected_by_remote_id receipt =
    contains_key receipt.relative_path local_by_path
    || (contains_key receipt.remote_id expected_by_remote_id
        && same_target (lookup receipt.remote_id expected_by_remote_id) receipt)

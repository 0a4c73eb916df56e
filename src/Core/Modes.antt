-- ===== src/Core/Modes.antt =====
-- `SyncMode` and `LocalItemKind` of crates/nubisync-core/src/lib.rs, with their storage names.
use nubisync.Base.{
  Eq, Text, codes, text_eq, Result, ◌≡◌, if◌then◌else◌, ok, ◌==◌, ◌↔◌, arith, err, int_eq, nat_eq,
  option_eq,
}
use nubisync.Core.Error.{CoreError, invalid_sync_mode, invalid_local_item_kind}

pub data SyncMode : Type 0 where
  two_way mirror_local_to_remote receive_only : SyncMode

mode_discrete : Discrete SyncMode
mode_discrete = hlevel

instance unfoldable pub mode_eq : Eq SyncMode
unfolding mode_discrete
mode_eq = record { dec = mode_discrete }

unfoldable pub sync_mode_as_str : SyncMode → Text
sync_mode_as_str two_way = codes "two_way"
sync_mode_as_str mirror_local_to_remote = codes "mirror_local_to_remote"
sync_mode_as_str receive_only = codes "receive_only"

unfoldable pub parse_sync_mode : Text → Result CoreError SyncMode
parse_sync_mode value =
    if value == codes "two_way"
    then ok two_way
    else if value == codes "mirror_local_to_remote"
    then ok mirror_local_to_remote
    else if value == codes "receive_only"
    then ok receive_only
    else err invalid_sync_mode

pub data LocalItemKind : Type 0 where
  file directory : LocalItemKind

item_kind_discrete : Discrete LocalItemKind
item_kind_discrete = hlevel

instance unfoldable pub item_kind_eq : Eq LocalItemKind
unfolding item_kind_discrete
item_kind_eq = record { dec = item_kind_discrete }

unfoldable pub local_item_kind_as_str : LocalItemKind → Text
local_item_kind_as_str file = codes "file"
local_item_kind_as_str directory = codes "directory"

unfoldable pub parse_local_item_kind : Text → Result CoreError LocalItemKind
parse_local_item_kind value =
    if value == codes "file"
    then ok file
    else if value == codes "directory"
    then ok directory
    else err invalid_local_item_kind

-- A stored mode is read back as itself, and no other text is read as it.
parse_sync_mode_iff :
    (value : Text) (mode : SyncMode)
    → (parse_sync_mode value ≡ ok mode) ↔ (value ≡ sync_mode_as_str mode)
unfolding parse_sync_mode sync_mode_as_str
parse_sync_mode_iff value two_way = (λ h. ground arith, λ h. ground arith)
parse_sync_mode_iff value mirror_local_to_remote = (λ h. ground arith, λ h. ground arith)
parse_sync_mode_iff value receive_only = (λ h. ground arith, λ h. ground arith)

-- A stored kind is read back as itself, and no other text is read as it.
pub parse_local_item_kind_iff :
    (value : Text) (kind : LocalItemKind)
    → (parse_local_item_kind value ≡ ok kind) ↔ (value ≡ local_item_kind_as_str kind)
unfolding parse_local_item_kind local_item_kind_as_str
parse_local_item_kind_iff value file = (λ h. ground arith, λ h. ground arith)
parse_local_item_kind_iff value directory = (λ h. ground arith, λ h. ground arith)

-- ===== src/Sync/Local.antt =====
-- Local tree entries and the safe names and paths of crates/nubisync-sync/src/lib.rs.
use nubisync.Base.{
  Eq, Result, Text, any, codes, contains, ends_with_char, err, if◌then◌else◌, int_eq, is_empty,
  nat_eq, ok, option_eq, reject_if, split, starts_with_char, text_eq, ◌==◌, ◌>>=◌, ◌>>◌, ◌||◌,
}
pub mod Safe
use nubisync.Core.Path.{slash, is_bad_component}

pub data LocalTreeEntryKind : Type 0 where
  file directory : LocalTreeEntryKind

local_kind_discrete : Discrete LocalTreeEntryKind
local_kind_discrete = hlevel

instance unfoldable pub local_kind_eq : Eq LocalTreeEntryKind
unfolding local_kind_discrete
local_kind_eq = record { dec = local_kind_discrete }

pub data ReceiveOnlyMaterializationPlanError : Type 0 where
  invalid_remote_item : ReceiveOnlyMaterializationPlanError
  unsafe_remote_name : ReceiveOnlyMaterializationPlanError
  duplicate_remote_id : ReceiveOnlyMaterializationPlanError
  duplicate_sibling_name : ReceiveOnlyMaterializationPlanError
  incomplete_remote_catalog : ReceiveOnlyMaterializationPlanError
  invalid_remote_parent_kind : ReceiveOnlyMaterializationPlanError
  remote_path_collision : ReceiveOnlyMaterializationPlanError
  invalid_local_relative_path : ReceiveOnlyMaterializationPlanError
  duplicate_local_path : ReceiveOnlyMaterializationPlanError

abbrev pub Planned {ℓ} : Type ℓ → Type ℓ
Planned A = Result ReceiveOnlyMaterializationPlanError A

unfoldable pub validate_safe_remote_name : Text → Planned (Unit {0})
validate_safe_remote_name name =
    reject_if
      (is_empty name
        || name == codes "."
        || name == codes ".."
        || contains name slash
        || contains name 0)
      unsafe_remote_name

unfoldable pub validate_safe_relative_path : Text → Planned (Unit {0})
validate_safe_relative_path relative_path =
    if is_empty relative_path
      || starts_with_char slash relative_path
      || ends_with_char slash relative_path
      || contains relative_path 0
    then err invalid_local_relative_path
    else if any is_bad_component (split slash relative_path)
    then err invalid_local_relative_path
    else ok tt

pub record LocalTreeEntry : Type 0 where
  pub relative_path : Text
  pub kind : LocalTreeEntryKind

unfoldable pub new_local_tree_entry : Text → LocalTreeEntryKind → Planned LocalTreeEntry
new_local_tree_entry relative_path kind = do
  validate_safe_relative_path relative_path
  ok (record { relative_path = relative_path; kind = kind })

-- ===== src/Core/Path.antt =====
-- `validate_local_snapshot_relative_path` of crates/nubisync-core/src/lib.rs.
pub mod Parts
pub mod Join
use nubisync.Base.{
  Text, codes, text_eq, Bool, split, ℕ, is_empty, nat_eq, Result, ◌||◌, if◌then◌else◌, ◌==◌,
  starts_with_char, ends_with_char, contains, err, any, int_eq, ok, option_eq,
}
use nubisync.Core.Error.{CoreError, invalid_local_item_relative_path}

-- `/`
abbrev pub slash : ℕ
slash = b'/'

-- The body of the loop over the components.
abbrev pub is_bad_component : Text → Bool
is_bad_component component = is_empty component || component == codes "." || component == codes ".."

unfoldable pub validate_local_snapshot_relative_path : Text → Result CoreError (Unit {0})
unfolding split text_eq nat_eq
validate_local_snapshot_relative_path relative_path =
    if is_empty relative_path
      || starts_with_char slash relative_path
      || ends_with_char slash relative_path
      || contains relative_path 0
    then err invalid_local_item_relative_path
    else if any is_bad_component (split slash relative_path)
    then err invalid_local_item_relative_path
    else ok tt

-- ===== src/Core/Snapshot.antt =====
-- `LocalItemSnapshot` of crates/nubisync-core/src/lib.rs.
use nubisync.Base.{
  Option, Result, Text, arith, err, false, is_some, none, ok, some, true, ℕ, ℤ, ◌>>◌, ◌↔◌, ◌≡◌,
}
use nubisync.Core.Error.{CoreError, invalid_local_item_size}
use nubisync.Core.Modes.{LocalItemKind, file, directory}
use nubisync.Core.Path.{validate_local_snapshot_relative_path}
use nubisync.Core.Path.Parts.{IsSafePath, validate_iff_IsSafePath}

pub record LocalItemSnapshot : Type 0 where
  pub relative_path : Text
  pub kind : LocalItemKind
  pub size_bytes : Option ℕ
  pub modified_unix_ns : ℤ
  pub device_id : ℕ
  pub inode : ℕ

-- The `match kind` on the size.
unfoldable pub check_local_item_size : LocalItemKind → Option ℕ → Result CoreError (Unit {0})
check_local_item_size file none = err invalid_local_item_size
check_local_item_size directory (some _) = err invalid_local_item_size
check_local_item_size _ _ = ok tt

unfoldable pub new_local_item_snapshot :
    Text → LocalItemKind → Option ℕ → ℤ → ℕ → ℕ → Result CoreError LocalItemSnapshot
new_local_item_snapshot relative_path kind size_bytes modified_unix_ns device_id inode = do
  validate_local_snapshot_relative_path relative_path
  check_local_item_size kind size_bytes
  ok (record {
    relative_path = relative_path;
    kind = kind;
    size_bytes = size_bytes;
    modified_unix_ns = modified_unix_ns;
    device_id = device_id;
    inode = inode;
  })

abbrev pub SizeFits : LocalItemKind → Option ℕ → Type 0
SizeFits file size = is_some size ≡ true
SizeFits directory size = is_some size ≡ false

check_local_item_size_iff :
    (kind : LocalItemKind) (size : Option ℕ)
    → (check_local_item_size kind size ≡ ok tt) ↔ SizeFits kind size
unfolding check_local_item_size
check_local_item_size_iff file none = (λ h. ground arith, λ h. ground arith)
check_local_item_size_iff file (some _) = (λ h. ground arith, λ h. ground arith)
check_local_item_size_iff directory none = (λ h. ground arith, λ h. ground arith)
check_local_item_size_iff directory (some _) = (λ h. ground arith, λ h. ground arith)

-- A snapshot is accepted exactly when its path is safe and it has a size if it is a file and
-- none if it is a directory. It holds what was given.
new_local_item_snapshot_iff :
    (s given : LocalItemSnapshot)
    → (new_local_item_snapshot given.relative_path given.kind given.size_bytes
          given.modified_unix_ns given.device_id given.inode
        ≡ ok s)
      ↔ (IsSafePath given.relative_path × SizeFits given.kind given.size_bytes × (s ≡ given))
unfolding new_local_item_snapshot
new_local_item_snapshot_iff s given =
    let (safe, path_ok) = validate_iff_IsSafePath given.relative_path in
    let (fits, size_ok) = check_local_item_size_iff given.kind given.size_bytes in
    (λ h. ground (arith, safe, fits), λ h. ground (arith, path_ok h.0, size_ok h.1))

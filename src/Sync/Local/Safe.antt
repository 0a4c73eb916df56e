-- ===== src/Sync/Local/Safe.antt =====
-- The two validators of relative paths agree, and a safe name extends a safe path.
use nubisync.Base.{
  Text, [], arith, contains, contains-append, false, int_eq, nat_eq, ok, option_eq, split, text_eq,
  ◌++◌, ◌↔◌, ◌∷◌, ◌≡◌,
}
use nubisync.Core.Path.{slash, is_bad_component, validate_local_snapshot_relative_path}
use nubisync.Core.Path.Parts.{IsSafePath, validate_iff_IsSafePath}
use nubisync.Core.Path.Join.{split-append, split_of_absent, any-append}
use nubisync.Sync.Local.{validate_safe_remote_name, validate_safe_relative_path}

-- The copy of the validator in the sync crate accepts the paths that the core crate's accepts.
pub validate_safe_relative_path_iff :
    (path : Text) → (validate_safe_relative_path path ≡ ok tt) ↔ IsSafePath path
validate_safe_relative_path_iff path =
    let (sound, complete) = validate_iff_IsSafePath path in
    (λ h. sound (same h), λ h. back (complete h))
  where
    same :
        validate_safe_relative_path path ≡ ok tt
        → validate_local_snapshot_relative_path path ≡ ok tt
    same h =
        unfold validate_safe_relative_path validate_local_snapshot_relative_path in ground arith

    back :
        validate_local_snapshot_relative_path path ≡ ok tt
        → validate_safe_relative_path path ≡ ok tt
    back h =
        unfold validate_safe_relative_path validate_local_snapshot_relative_path in ground arith

-- A name that can stand between two slashes.
abbrev pub IsSafeName : Text → Type 0
IsSafeName name =
    (is_bad_component name ≡ false) × (contains name slash ≡ false) × (contains name 0 ≡ false)

pub validate_safe_remote_name_iff :
    (name : Text) → (validate_safe_remote_name name ≡ ok tt) ↔ IsSafeName name
unfolding validate_safe_remote_name
validate_safe_remote_name_iff name = (λ h. ground arith, λ h. ground arith)

pub IsSafePath-of_name : (name : Text) → IsSafeName name → IsSafePath name
IsSafePath-of_name name (good, no_slash, no_nul) =
    (no_nul, rw (split_of_absent slash name no_slash) (ground arith))

pub IsSafePath-join :
    (path name : Text) → IsSafePath path → IsSafeName name → IsSafePath (path ++ slash ∷ name)
IsSafePath-join path name (p0, pc) (good, no_slash, no_nul) = (
  ground (arith, contains-append path (slash ∷ name) 0),
  rw (split-append slash path name, split_of_absent slash name no_slash)
      (ground (arith, any-append is_bad_component (split slash path) (name ∷ []))),
)

-- A remote name that the planner accepts is a safe path by itself, and joined by a slash to a safe
-- path it gives a safe path.
safe_name_extends :
    (path name : Text)
    → validate_safe_remote_name name ≡ ok tt
    → validate_safe_relative_path path ≡ ok tt
    → (validate_safe_relative_path name ≡ ok tt)
      × (validate_safe_relative_path (path ++ slash ∷ name) ≡ ok tt)
safe_name_extends path name h safe =
    let named = (validate_safe_remote_name_iff name).0 h in
    (
      (validate_safe_relative_path_iff name).1 (IsSafePath-of_name name named),
      (validate_safe_relative_path_iff (path ++ slash ∷ name)).1
          (IsSafePath-join path name ((validate_safe_relative_path_iff path).0 safe) named),
    )

-- ===== src/Core/Path/Parts.antt =====
-- Which relative paths are accepted: the components say it all.
use nubisync.Base.{
  Text, split, any, contains, ℕ, ◌≡◌, List, false, ok, is_empty, ◌↔◌, ◌∷◌, arith, ends_with_char,
  starts_with_char, true, [], int_eq, nat_eq, option_eq, refl, text_eq,
}
use nubisync.Core.Path.{slash, is_bad_component, validate_local_snapshot_relative_path, Text, split}
use nubisync.Core.Path.Join.{split-cons}

-- No NUL, and no component that is empty, `.` or `..`.
abbrev pub IsSafePath : Text → Type 0
IsSafePath path = (contains path 0 ≡ false) × (any is_bad_component (split slash path) ≡ false)

ends_with-split :
    (c : ℕ) (s : Text) (p : Text) (ps : List Text)
    → split c s ≡ p ∷ ps
    → ends_with_char c s ≡ true
    → any is_bad_component ps ≡ true
unfolding split
ends_with-split c [] p ps e h = cc
ends_with-split c (x ∷ []) p ps e h = ground arith
ends_with-split c (x ∷ y ∷ s) p ps e h =
    let (q, qs, f) = split-cons c (y ∷ s) in ground (arith, f, ends_with-split c (y ∷ s) q qs f h)

-- The tests for emptiness and for a slash at either end follow from the loop.
ends_are_implied :
    (s : Text)
    → any is_bad_component (split slash s) ≡ false
    → (is_empty s ≡ false) × (starts_with_char slash s ≡ false) × (ends_with_char slash s ≡ false)
unfolding split
ends_are_implied [] h = cc
ends_are_implied (x ∷ s) h =
    let (q, qs, f) = split-cons slash (x ∷ s) in
    (refl, ground arith, ground (arith, f, ends_with-split slash (x ∷ s) q qs f))

-- A relative path is accepted exactly when it has no NUL and no component between its slashes is
-- empty, `.` or `..`: the separate tests for an empty path and for a slash at either end add
-- nothing.
pub validate_iff_IsSafePath :
    (path : Text) → (validate_local_snapshot_relative_path path ≡ ok tt) ↔ IsSafePath path
unfolding validate_local_snapshot_relative_path
validate_iff_IsSafePath path = (λ h. ground arith, λ h. ground (arith, ends_are_implied path h.1))

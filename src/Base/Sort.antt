-- ===== src/Base/Sort.antt =====
-- `slice::sort_by`, a stable sort, as an insertion sort.
use Prim.Native.Nat.{suc, Ordering}
use mathlib.Core.Path.{◌≡◌, refl}
use mathlib.Core.Logic.{inl, inr}
use mathlib.Core.Bool.{Bool, true, false}
use mathlib.Core.List.{List, [], ◌∷◌}
use native.Mathlib.Omega.{arith}
use nubisync.Base.Tests.{if◌then◌else◌, Bool-cases}
use nubisync.Base.Lists.{length, All, Among}

abbrev pub is_gt : Ordering → Bool
is_gt Ordering.gt = true
is_gt _ = false

-- `Ordering::then_with`
abbrev pub then_with : Ordering → Ordering → Ordering
then_with Ordering.eq o = o
then_with o _ = o

module _ {ℓ} {A : Type ℓ} (compare_by : A → A → Ordering) where
  unfoldable pub insert_sorted : A → List A → List A
  insert_sorted x [] = x ∷ []
  insert_sorted x (y ∷ ys) = if is_gt (compare_by x y) then y ∷ insert_sorted x ys else x ∷ y ∷ ys

  unfoldable pub sort_by : List A → List A
  unfolding insert_sorted
  sort_by [] = []
  sort_by (x ∷ xs) = insert_sorted x (sort_by xs)

  pub length-insert_sorted : (x : A) (xs : List A) → length (insert_sorted x xs) ≡ suc (length xs)
  unfolding insert_sorted
  length-insert_sorted x [] = refl
  length-insert_sorted x (y ∷ ys) = ground (arith, length-insert_sorted x ys)

  pub length-sort_by : (xs : List A) → length (sort_by xs) ≡ length xs
  unfolding sort_by
  length-sort_by [] = refl
  length-sort_by (x ∷ xs) = omega (arith, length-insert_sorted x (sort_by xs), length-sort_by xs)

  pub All-insert_sorted {κ} :
      (P : A → Type κ) (x : A) (xs : List A) → P x → All P xs → All P (insert_sorted x xs)
  unfolding insert_sorted
  All-insert_sorted P x [] p h = (p, tt)
  All-insert_sorted P x (y ∷ ys) p h = elim (Bool-cases (is_gt (compare_by x y))) [
    | inl after ↦ rw after (h.0, All-insert_sorted P x ys p h.1)
    | inr before ↦ rw before (p, h)
  ]

  pub All-sort_by {κ} : (P : A → Type κ) (xs : List A) → All P xs → All P (sort_by xs)
  unfolding sort_by
  All-sort_by P [] h = h
  All-sort_by P (x ∷ xs) h = All-insert_sorted P x (sort_by xs) h.0 (All-sort_by P xs h.1)

module _ {A : Type 0} (compare_by : A → A → Ordering) where
  Among-insert_sorted :
      (a x : A) (xs : List A) → Among a (x ∷ xs) → Among a (insert_sorted compare_by x xs)
  unfolding insert_sorted
  Among-insert_sorted a x [] m = m
  Among-insert_sorted a x (y ∷ ys) m = elim (Bool-cases (is_gt (compare_by x y))) [
    | inr before ↦ rw before m
    | inl after ↦ rw after (elim m [
      | inl e ↦ inr (Among-insert_sorted a x ys (inl e))
      | inr n ↦ elim n [ inl e ↦ inl e | inr k ↦ inr (Among-insert_sorted a x ys (inr k)) ]
    ])
  ]

  pub Among-sort_by : (a : A) (xs : List A) → Among a xs → Among a (sort_by compare_by xs)
  unfolding sort_by
  Among-sort_by a [] m = m
  Among-sort_by a (x ∷ xs) (inl e) = Among-insert_sorted a x (sort_by compare_by xs) (inl e)
  Among-sort_by a (x ∷ xs) (inr m) =
      Among-insert_sorted a x (sort_by compare_by xs) (inr (Among-sort_by a xs m))

-- ===== src/Base/Lists.antt =====
-- Lists measured by native numbers, lists as sets, and the pigeonhole lemmas on them.
use Prim.Native.Nat.{ℕ, suc, ◌+◌, ◌≤◌}
use mathlib.Core.Path.{◌≡◌, refl}
use mathlib.Core.Logic.{◌≢◌, ◌⊎◌, inl, inr}
use mathlib.Core.Bool.{Bool, true, false, ◌||◌, ◌&&◌}
use mathlib.Core.List.{List, [], ◌∷◌, ◌++◌}
use native.Mathlib.Omega.{arith}
use nubisync.Base.Tests.{Eq, ◌==◌, if◌then◌else◌}

module _ {ℓ} {A : Type ℓ} where
  abbrev pub length : List A → ℕ
  length [] = 0
  length (_ ∷ xs) = suc (length xs)

  abbrev pub all : (A → Bool) → List A → Bool
  all p [] = true
  all p (x ∷ xs) = p x && all p xs

  abbrev pub any : (A → Bool) → List A → Bool
  any p [] = false
  any p (x ∷ xs) = p x || any p xs

  abbrev pub All {κ} : (A → Type κ) → List A → Type κ
  All P [] = Unit
  All P (x ∷ xs) = P x × All P xs

  -- `.iter().filter(p).count()`
  unfoldable pub count_if : (A → Bool) → List A → ℕ
  count_if p [] = 0
  count_if p (x ∷ xs) = let n = count_if p xs in if p x then suc n else n

  pub length-append : (xs ys : List A) → length (xs ++ ys) ≡ length xs + length ys
  length-append [] ys = omega arith
  length-append (x ∷ xs) ys = omega (arith, length-append xs ys)

  pub All-append {κ} : (P : A → Type κ) (xs ys : List A) → All P xs → All P ys → All P (xs ++ ys)
  All-append P [] ys hx hy = hy
  All-append P (x ∷ xs) ys hx hy = (hx.0, All-append P xs ys hx.1 hy)

module _ {ℓ} {A : Type ℓ} ⦃e : Eq A⦄ where
  abbrev pub contains : List A → A → Bool
  contains [] a = false
  contains (x ∷ xs) a = x == a || contains xs a

  abbrev pub IsNodup : List A → Type 0
  IsNodup [] = Unit
  IsNodup (x ∷ xs) = (contains xs x ≡ false) × IsNodup xs

  abbrev pub IsSubset : List A → List A → Type ℓ
  IsSubset xs ys = (a : A) → contains xs a ≡ true → contains ys a ≡ true

  -- `HashSet::remove`
  unfoldable pub remove : A → List A → List A
  remove a [] = []
  remove a (x ∷ xs) = let rest = remove a xs in if x == a then rest else x ∷ rest

  pub contains-append :
      (xs ys : List A) (a : A) → contains (xs ++ ys) a ≡ (contains xs a || contains ys a)
  contains-append [] ys a = refl
  contains-append (x ∷ xs) ys a = ground (arith, contains-append xs ys a)

  pub contains-remove :
      (a b : A) (xs : List A) → contains (remove a xs) b ≡ (if a == b then false else contains xs b)
  unfolding remove
  contains-remove a b [] = ground arith
  contains-remove a b (x ∷ xs) = ground (arith, contains-remove a b xs)

  -- One occurrence of `a` less.
  remove_first : A → List A → List A
  remove_first a [] = []
  remove_first a (x ∷ xs) = let rest = remove_first a xs in if x == a then xs else x ∷ rest

  length-remove_first :
      (a : A) (xs : List A) → contains xs a ≡ true → length xs ≡ suc (length (remove_first a xs))
  unfolding remove_first
  length-remove_first a [] h = cc
  length-remove_first a (x ∷ xs) h = ground (arith, length-remove_first a xs)

  contains-remove_first :
      (a b : A) (xs : List A) → a ≢ b → contains xs b ≡ true → contains (remove_first a xs) b ≡ true
  unfolding remove_first
  contains-remove_first a b [] n h = h
  contains-remove_first a b (x ∷ xs) n h = ground (arith, contains-remove_first a b xs)

  -- A duplicate-free list inside another is no longer than it.
  pub length-le_of_subset : (xs ys : List A) → IsNodup xs → IsSubset xs ys → length xs ≤ length ys
  length-le_of_subset [] ys u s = omega arith
  length-le_of_subset (x ∷ xs) ys (fresh, u) s = omega (
    arith,
    length-remove_first x ys (s x (ground arith)),
    length-le_of_subset xs (remove_first x ys) u
        (λ a m. contains-remove_first x a ys (λ p. cc) (s a (ground arith))),
  )

  -- One that is also as long as the other has every element of it.
  pub subset_of_length-le :
      (xs ys : List A) → IsNodup xs → IsSubset xs ys → length ys ≤ length xs → IsSubset ys xs
  subset_of_length-le xs ys u s le a m = ground (arith, longer)
    where
      longer : contains xs a ≡ false → suc (length xs) ≤ length ys
      longer fresh = length-le_of_subset (a ∷ xs) ys (fresh, u) (λ b n. ground (arith, s b))

  pub remove-IsNodup : (a : A) (xs : List A) → IsNodup xs → IsNodup (remove a xs)
  unfolding remove
  remove-IsNodup a [] u = tt
  remove-IsNodup a (x ∷ xs) (fresh, u) =
      ground (arith, remove-IsNodup a xs u, contains-remove a x xs)

  pub snoc-IsNodup :
      (xs : List A) (a : A) → IsNodup xs → contains xs a ≡ false → IsNodup (xs ++ a ∷ [])
  snoc-IsNodup [] a u h = (refl, tt)
  snoc-IsNodup (x ∷ xs) a (fresh, u) h =
      ground (arith, snoc-IsNodup xs a u, contains-append xs (a ∷ []) x)

module _ {ℓ κ} {A : Type ℓ} (P : A → Type κ) where
  pub All-snoc : (xs : List A) (x : A) → All P xs → P x → All P (xs ++ x ∷ [])
  All-snoc xs x h p = All-append P xs (x ∷ []) h (p, tt)

-- Membership with the place kept.
abbrev pub Among : {A : Type 0} → A → List A → Type 0
Among a [] = ⊥
Among a (x ∷ xs) = (x ≡ a) ⊎ Among a xs

pub Among-append_left : {A : Type 0} (a : A) (xs ys : List A) → Among a xs → Among a (xs ++ ys)
Among-append_left a [] ys m = absurd m
Among-append_left a (x ∷ xs) ys (inl e) = inl e
Among-append_left a (x ∷ xs) ys (inr m) = inr (Among-append_left a xs ys m)

pub Among-snoc : {A : Type 0} (a : A) (xs : List A) → Among a (xs ++ a ∷ [])
Among-snoc a [] = inl refl
Among-snoc a (x ∷ xs) = inr (Among-snoc a xs)

pub Among-snoc_cases :
    {A : Type 0} (a : A) (xs : List A) (x : A) → Among a (xs ++ x ∷ []) → Among a xs ⊎ (x ≡ a)
Among-snoc_cases a [] x (inl e) = inr e
Among-snoc_cases a [] x (inr m) = absurd m
Among-snoc_cases a (y ∷ xs) x (inl e) = inl (inl e)
Among-snoc_cases a (y ∷ xs) x (inr m) = elim (Among-snoc_cases a xs x m) [
  | inl old ↦ inl (inr old)
  | inr e ↦ inr e
]

-- ===== src/Core/Path/Join.antt =====
-- Splitting a path at its slashes, and joining a name to a path.
use nubisync.Base.{
  Text, Bool, split, List, ℕ, any, contains, ◌++◌, ◌≡◌, false, ◌||◌, ◌∷◌, Bool-cases, [], arith,
  ◌==◌, inl, inr, int_eq, nat_eq, option_eq, refl, text_eq,
}

pub split-cons : (c : ℕ) (s : Text) → (p : Text) × (ps : List Text) × (split c s ≡ p ∷ ps)
unfolding split
split-cons c [] = ([], [], refl)
split-cons c (x ∷ s) =
    let (p, ps, e) = split-cons c s in
    elim (Bool-cases (x == c)) [
      | inl here ↦ ([], split c s, rw here)
      | inr more ↦ (x ∷ p, ps, rw (more, e))
    ]

pub split-append : (c : ℕ) (s t : Text) → split c (s ++ c ∷ t) ≡ split c s ++ split c t
unfolding split
split-append c [] t = ground arith
split-append c (x ∷ s) t = let (p, ps, e) = split-cons c s in ground (arith, split-append c s t, e)

pub split_of_absent : (c : ℕ) (s : Text) → contains s c ≡ false → split c s ≡ s ∷ []
unfolding split
split_of_absent c [] h = refl
split_of_absent c (x ∷ s) h = ground (arith, split_of_absent c s)

pub any-append {ℓ} :
    {A : Type ℓ} (p : A → Bool) (xs ys : List A) → any p (xs ++ ys) ≡ (any p xs || any p ys)
any-append p [] ys = refl
any-append p (x ∷ xs) ys = ground (arith, any-append p xs ys)

-- ===== src/Base/Maps.antt =====
-- `HashMap` and `BTreeMap` as association lists with one entry for a key.
use mathlib.Core.Path.{◌≡◌, refl}
use mathlib.Core.Bool.{Bool, true, false}
use mathlib.Core.Option.{Option, none, some}
use mathlib.Core.List.{List, [], ◌∷◌}
use native.Mathlib.Omega.{arith}
use nubisync.Base.Tests.{Eq, ◌==◌, if◌then◌else◌}
use nubisync.Base.Lists.{length, contains, IsNodup}

abbrev pub Dict {ℓ κ} : Type ℓ → Type κ → Type (ℓ ⊔ κ)
Dict K V = List (K × V)

abbrev pub keys {ℓ κ} : {K : Type ℓ} {V : Type κ} → Dict K V → List K
keys [] = []
keys ((k, _) ∷ d) = k ∷ keys d

abbrev pub is_some {ℓ} : {A : Type ℓ} → Option A → Bool
is_some none = false
is_some (some _) = true

module _ {ℓ κ} {K : Type ℓ} {V : Type κ} ⦃e : Eq K⦄ where
  unfoldable pub lookup : K → Dict K V → Option V
  lookup k [] = none
  lookup k ((j, v) ∷ d) = if j == k then some v else lookup k d

  -- A key that is there keeps its place.
  unfoldable pub insert : K → V → Dict K V → Dict K V
  insert k v [] = (k, v) ∷ []
  insert k v ((j, w) ∷ d) = if j == k then (k, v) ∷ d else (j, w) ∷ insert k v d

  unfoldable pub erase : K → Dict K V → Dict K V
  erase k [] = []
  erase k ((j, w) ∷ d) = let rest = erase k d in if j == k then rest else (j, w) ∷ rest

  unfoldable pub contains_key : K → Dict K V → Bool
  unfolding lookup
  contains_key k d = is_some (lookup k d)

  pub lookup-insert :
      (k j : K) (v : V) (d : Dict K V)
      → lookup j (insert k v d) ≡ (if k == j then some v else lookup j d)
  unfolding lookup insert
  lookup-insert k j v [] = refl
  lookup-insert k j v ((i, w) ∷ d) = ground (arith, lookup-insert k j v d)

  pub lookup-erase :
      (k j : K) (d : Dict K V) → lookup j (erase k d) ≡ (if k == j then none else lookup j d)
  unfolding lookup erase
  lookup-erase k j [] = ground arith
  lookup-erase k j ((i, w) ∷ d) = ground (arith, lookup-erase k j d)

  pub contains-keys : (k : K) (d : Dict K V) → contains (keys d) k ≡ is_some (lookup k d)
  unfolding lookup
  contains-keys k [] = refl
  contains-keys k ((i, w) ∷ d) = ground (arith, contains-keys k d)

  pub insert-IsNodup :
      (k : K) (v : V) (d : Dict K V) → IsNodup (keys d) → IsNodup (keys (insert k v d))
  unfolding insert
  insert-IsNodup k v [] u = (refl, tt)
  insert-IsNodup k v ((j, w) ∷ d) (fresh, u) = ground (
    arith,
    insert-IsNodup k v d u,
    contains-keys j (insert k v d),
    lookup-insert k j v d,
    contains-keys j d,
  )

  pub erase-IsNodup : (k : K) (d : Dict K V) → IsNodup (keys d) → IsNodup (keys (erase k d))
  unfolding erase
  erase-IsNodup k [] u = tt
  erase-IsNodup k ((j, w) ∷ d) (fresh, u) = ground (
    arith,
    erase-IsNodup k d u,
    contains-keys j (erase k d),
    lookup-erase k j d,
    contains-keys j d,
  )

  pub length-keys : (d : Dict K V) → length (keys d) ≡ length d
  length-keys [] = refl
  length-keys (_ ∷ d) = omega (arith, length-keys d)

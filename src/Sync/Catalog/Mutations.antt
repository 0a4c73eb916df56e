-- ===== src/Sync/Catalog/Mutations.antt =====
-- What `apply_change` does to the projection, against the mutations that it hands to storage.
use nubisync.Base.{
  List, Option, Text, [], arith, if◌then◌else◌, int_eq, lookup, map, nat_eq, none, ok, option_eq,
  refl, some, text_eq, ℕ, ◌==◌, ◌∷◌, ◌≡◌, Option-cases, Result, Result-cases, contains_key, err,
  inl, inr, ◌>>◌,
}
use mathlib.Core.Path.{subst}
use nubisync.Core.Remote.{RemoteItem, RemoteChange, upsert, delete}
use nubisync.Sync.Change.{
  RootChangeMembership, RootCatalogAction, ignore, revalidate_root, upsert_item,
  delete_subtree as subtree_action, hydrate_subtree, plan_root_catalog_change,
}
use nubisync.Sync.Failure.{RootCatalogProjectionError}
use nubisync.Sync.Projection.{RootCatalogProjection, apply_upsert, delete_subtree}
use nubisync.Sync.Projection.Index.{IsIndexed, apply_upsert-IsIndexed, parent-apply_upsert}
use nubisync.Sync.Projection.Delete.{Below, self, under}
use nubisync.Sync.Projection.Forget.{parents-delete_subtree, delete_subtree-IsIndexed}
use nubisync.Sync.Hydration.{reject_unexpected_hydration, validate_hydration}
use nubisync.Sync.Catalog.{
  RootCatalogMutationPlan, upsert_plan, delete_plan, RootCatalogResolution, noop, revalidate,
  mutations, upsert_all, apply_change, apply_action, Applied, changed_id, apply_item,
  apply_hydration, apply_delete,
}

-- A stored catalog: the parent entry of each id.
abbrev pub Stored : Type 0
Stored = Text → Option (Option Text)

-- `x` is `top`, or its chain of parents in the stored catalog leads there.
pub data InSubtree (s : Stored) (top : Text) : Text → Type 0 where
  itself : InSubtree s top top
  child : {p c : Text} → InSubtree s top p → s c ≡ some (some p) → InSubtree s top c

-- What one mutation does to a stored catalog.
abbrev pub Mutates : RootCatalogMutationPlan → Stored → Stored → Type 0
Mutates (upsert_plan item) s t =
    (x : Text) → t x ≡ (if item.remote_id == x then some item.parent_remote_id else s x)
Mutates (delete_plan top) s t =
    (x : Text) → (InSubtree s top x → t x ≡ none) × (¬ InSubtree s top x → t x ≡ s x)

pub data Replays : List RootCatalogMutationPlan → Stored → Stored → Type 0 where
  done : {s t : Stored} → ((x : Text) → t x ≡ s x) → Replays [] s t
  step :
      {m : RootCatalogMutationPlan} {ms : List RootCatalogMutationPlan} {s t u : Stored}
      → Mutates m s t
      → Replays ms t u
      → Replays (m ∷ ms) s u

abbrev pub mutations_of : RootCatalogResolution → List RootCatalogMutationPlan
mutations_of noop = []
mutations_of revalidate = []
mutations_of (mutations ms) = ms

abbrev pub stored : RootCatalogProjection → Stored
stored p = λ x. lookup x p.parents

-- The projection after a change keeps its index, and is what replaying the mutations gives.
abbrev Follows : RootCatalogProjection → RootCatalogResolution → RootCatalogProjection → Type 0
Follows p resolution p' = IsIndexed p' × Replays (mutations_of resolution) (stored p) (stored p')

upsert_all-Follows :
    (items : List RemoteItem) (p : RootCatalogProjection)
    → IsIndexed p
    → IsIndexed (upsert_all items p)
      × Replays (map upsert_plan items) (stored p) (stored (upsert_all items p))
unfolding upsert_all
upsert_all-Follows [] p h = (h, done (λ x. refl))
upsert_all-Follows (item ∷ items) p h =
    let (index, rest) =
      upsert_all-Follows items (apply_upsert item p) (apply_upsert-IsIndexed item p h) in
    (index, step (parent-apply_upsert item p) rest)

module _ (p : RootCatalogProjection) (h : IsIndexed p) where
  Below-of_subtree : (top x : Text) → InSubtree (stored p) top x → Below p.children_by_parent top x
  Below-of_subtree top x itself = self
  Below-of_subtree top x (child {p = q} b e) =
      under (Below-of_subtree top _ b) (ground (arith, h.inverse q x))

  subtree_of_Below : (top x : Text) → Below p.children_by_parent top x → InSubtree (stored p) top x
  subtree_of_Below top x self = itself
  subtree_of_Below top x (under {p = q} b m) =
      child (subtree_of_Below top _ b) (ground (arith, h.inverse q x))

  delete-Follows :
      (fuel : ℕ) (top : Text) {p' : RootCatalogProjection}
      → delete_subtree fuel top p ≡ some p'
      → IsIndexed p' × Replays (delete_plan top ∷ []) (stored p) (stored p')
  delete-Follows fuel top {p'} e = (
    delete_subtree-IsIndexed fuel top p h e,
    step {t = stored p'}
        (λ x.
          let (gone, kept) = parents-delete_subtree fuel top p h e x in
          (λ b. gone (Below-of_subtree top x b), λ n. kept (λ b. n (subtree_of_Below top x b))))
        (done (λ x. refl)),
  )

  AllFollow : Option Applied → Type 0
  AllFollow none = Unit
  AllFollow (some (err _)) = Unit
  AllFollow (some (ok (resolution, p'))) = Follows p resolution p'

  checked-AllFollow :
      (m : Result RootCatalogProjectionError (Unit {0})) (resolution : RootCatalogResolution)
      → mutations_of resolution ≡ []
      → AllFollow (some (m >> ok (resolution, p)))
  unfolding AllFollow
  checked-AllFollow (err _) resolution e = tt
  checked-AllFollow (ok _) resolution e = (h, rw e (done (λ x. refl)))

  apply_item-AllFollow :
      (change : RemoteChange) (hydration : Option (List RemoteItem))
      → AllFollow (some (apply_item change hydration p))
  unfolding AllFollow reject_unexpected_hydration
  apply_item-AllFollow change (some _) = tt
  apply_item-AllFollow (delete _) none = tt
  apply_item-AllFollow (upsert item) none =
      (apply_upsert-IsIndexed item p h, step (parent-apply_upsert item p) (done (λ x. refl)))

  hydrated-AllFollow :
      (m : Result RootCatalogProjectionError (Unit {0})) (items : List RemoteItem)
      → AllFollow (some (m >> ok (mutations (map upsert_plan items), upsert_all items p)))
  unfolding AllFollow
  hydrated-AllFollow (err _) items = tt
  hydrated-AllFollow (ok _) items = upsert_all-Follows items p h

  apply_hydration-AllFollow :
      (change : RemoteChange) (hydration : Option (List RemoteItem))
      → AllFollow (some (apply_hydration change hydration p))
  unfolding AllFollow
  apply_hydration-AllFollow change none = tt
  apply_hydration-AllFollow (delete _) (some items) = tt
  apply_hydration-AllFollow (upsert item) (some items) =
      hydrated-AllFollow (validate_hydration item items) items

  apply_delete-AllFollow : (fuel : ℕ) (top : Text) → AllFollow (apply_delete fuel top p)
  unfolding AllFollow
  apply_delete-AllFollow fuel top = elim (Option-cases (delete_subtree fuel top p)) [
    | inl e ↦ rw (e, AllFollow) tt
    | inr (p', e) ↦ rw (e, AllFollow) (delete-Follows fuel top e)
  ]

  apply_action-AllFollow :
      (fuel : ℕ) (action : RootCatalogAction) (change : RemoteChange)
      (hydration : Option (List RemoteItem))
      → AllFollow (apply_action fuel action change hydration p)
  unfolding apply_action
  apply_action-AllFollow fuel ignore change hydration =
      checked-AllFollow (reject_unexpected_hydration hydration) noop refl
  apply_action-AllFollow fuel revalidate_root change hydration =
      checked-AllFollow (reject_unexpected_hydration hydration) revalidate refl
  apply_action-AllFollow fuel upsert_item change hydration = apply_item-AllFollow change hydration
  apply_action-AllFollow fuel subtree_action change (some _) =
      unfold reject_unexpected_hydration AllFollow in tt
  apply_action-AllFollow fuel subtree_action change none =
      unfold reject_unexpected_hydration in apply_delete-AllFollow fuel (changed_id change)
  apply_action-AllFollow fuel hydrate_subtree change hydration =
      apply_hydration-AllFollow change hydration

  apply_change-AllFollow :
      (fuel : ℕ) (change : RemoteChange) (membership : RootChangeMembership)
      (hydration : Option (List RemoteItem))
      → AllFollow (apply_change fuel change membership hydration p)
  unfolding apply_change AllFollow
  apply_change-AllFollow fuel change membership hydration =
      elim (Result-cases
        (plan_root_catalog_change change membership (contains_key (changed_id change) p.parents))) [
          | inl (action, e) ↦
              rw (e, AllFollow) (apply_action-AllFollow fuel action change hydration)
          | inr (_, e) ↦ rw (e, AllFollow) tt
        ]

-- A change that is applied leaves the projection as replaying the returned mutations would leave
-- a stored catalog, with its buckets still the inverse of the parent map; where the resolution
-- carries no mutations the projection's entries are as they were.
pub apply_change-Replays :
    (fuel : ℕ) (change : RemoteChange) (membership : RootChangeMembership)
    (hydration : Option (List RemoteItem)) (p : RootCatalogProjection)
    {resolution : RootCatalogResolution} {p' : RootCatalogProjection}
    → IsIndexed p
    → apply_change fuel change membership hydration p ≡ some (ok (resolution, p'))
    → IsIndexed p' × Replays (mutations_of resolution) (stored p) (stored p')
unfolding AllFollow
apply_change-Replays fuel change membership hydration p h e =
    subst (AllFollow p h) e (apply_change-AllFollow p h fuel change membership hydration)

-- ===== src/Sync/Projection/Cycle.antt =====
-- The walk of `delete_subtree` keeps no set of the items that it has seen, and does not end on a
-- cycle of parents; an upsert can make one.
use nubisync.Base.{
  ==_refl, Bool-cases, List, Text, [], arith, contains, contains-append, inl, inr, int_eq, lookup,
  nat_eq, none, option_eq, refl, some, suc, text_eq, true, zero, ℕ, ◌++◌, ◌==◌, ◌∷◌, ◌≡◌, ◌≢◌,
}
use nubisync.Core.Remote.{RemoteItem}
use nubisync.Sync.Projection.{
  RootCatalogProjection, Buckets, bucket, collect_subtree, delete_subtree, apply_upsert,
}
use nubisync.Sync.Projection.Index.{
  is_child, IsIndexed, apply_upsert-IsIndexed, parent-apply_upsert,
}

-- Each member of the list has a child that is a member.
abbrev pub IsCyclic : Buckets → List Text → Type 0
IsCyclic children members =
    (x : Text)
    → contains members x ≡ true
    → (y : Text) × (is_child children x y ≡ true) × (contains members y ≡ true)

collect_never_ends :
    (children : Buckets) (members : List Text)
    → IsCyclic children members
    → (fuel : ℕ) (queue : List Text) (x : Text) → contains members x ≡ true
    → contains queue x ≡ true
    → collect_subtree fuel children queue ≡ none
unfolding collect_subtree
collect_never_ends children members cyclic fuel [] x m k = cc
collect_never_ends children members cyclic zero (z ∷ queue) x m k = refl
collect_never_ends children members cyclic (suc fuel) (z ∷ queue) x m k =
    elim (Bool-cases (z == x)) [
      | inl here ↦
          let (y, below, member) = cyclic x m in
          let same : z ≡ x = ground arith in
          ground (
            arith,
            collect_never_ends children members cyclic fuel (queue ++ bucket z children) y member
                (ground (arith, contains-append queue (bucket z children) y)),
          )
      | inr there ↦ ground (
        arith,
        collect_never_ends children members cyclic fuel (queue ++ bucket z children) x m
            (ground (arith, contains-append queue (bucket z children) x)),
      )
    ]

-- Where the buckets are the inverse of the parent map and an upsert moves a folder under one of its
-- own children, other than itself, the deletion of that folder's subtree returns for no number of
-- rounds.
pub delete_subtree_after_cycle :
    (p : RootCatalogProjection) (item : RemoteItem) (child : Text)
    → IsIndexed p
    → lookup child p.parents ≡ some (some item.remote_id)
    → item.remote_id ≢ child
    → item.parent_remote_id ≡ some child
    → (fuel : ℕ) → delete_subtree fuel item.remote_id (apply_upsert item p) ≡ none
unfolding delete_subtree
delete_subtree_after_cycle p item child h is_below differ moved fuel = ground (
  arith,
  collect_never_ends children (item.remote_id ∷ child ∷ []) cyclic fuel (item.remote_id ∷ [])
      item.remote_id (ground (arith, ==_refl item.remote_id))
      (ground (arith, ==_refl item.remote_id)),
)
  where
    children : Buckets
    children = (apply_upsert item p).children_by_parent

    index : IsIndexed (apply_upsert item p)
    index = apply_upsert-IsIndexed item p h

    cyclic : IsCyclic children (item.remote_id ∷ child ∷ [])
    cyclic x m = elim (Bool-cases (item.remote_id == x)) [
      | inl top ↦ (
        child,
        ground (arith, index.inverse x child, parent-apply_upsert item p child),
        ground (arith, ==_refl child),
      )
      | inr low ↦ (
        item.remote_id,
        ground (arith, index.inverse x item.remote_id, parent-apply_upsert item p item.remote_id),
        ground (arith, ==_refl item.remote_id),
      )
    ]

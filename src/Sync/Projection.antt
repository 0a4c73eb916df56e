-- ===== src/Sync/Projection.antt =====
-- `RootCatalogProjection` of crates/nubisync-sync/src/lib.rs: the catalog of one root in memory,
-- as the parent of each item and, for each parent, the set of its children.
use nubisync.Base.{
  Bool, Dict, List, Option, Text, [], contains, erase, false, if◌then◌else◌, insert, int_eq, length,
  lookup, nat_eq, none, option_eq, remove, some, suc, text_eq, zero, ℕ, ◌++◌, ◌==◌, ◌∷◌, true,
}
pub mod Index
pub mod Walk
pub mod Complete
pub mod Delete
pub mod Forget
pub mod Depth
pub mod Cycle
use nubisync.Core.Remote.{RemoteItem}

pub record RootCatalogProjection : Type 0 where
  pub root_remote_id : Text
  pub parents : Dict Text (Option Text)
  pub children_by_parent : Dict Text (List Text)

abbrev pub Buckets : Type 0
Buckets = Dict Text (List Text)

-- The children of one parent; no bucket counts as an empty one.
unfoldable pub bucket : Text → Buckets → List Text
bucket parent children = elim (lookup parent children) [ none ↦ [] | some c ↦ c ]

-- `HashSet::insert`
abbrev pub set_insert : Text → List Text → List Text
set_insert x xs = if contains xs x then xs else x ∷ xs

-- Puts a bucket back, or removes it if it is empty.
abbrev put_bucket : Text → List Text → Buckets → Buckets
put_bucket parent [] children = erase parent children
put_bucket parent (x ∷ xs) children = insert parent (x ∷ xs) children

-- Takes a child out of its parent's bucket, and the bucket away if that leaves it empty.
unfoldable pub remove_child : Text → Text → Buckets → Buckets
remove_child parent child children = elim (lookup parent children) [
  | none ↦ children
  | some siblings ↦ put_bucket parent (remove child siblings) children
]

-- `.entry(parent).or_default().insert(child)`
unfoldable pub add_child : Text → Text → Buckets → Buckets
add_child parent child children = insert parent (set_insert child (bucket parent children)) children

-- The old parent of an item, if the catalog has one.
abbrev detach : Option (Option Text) → Text → Buckets → Buckets
detach (some (some old_parent)) child children = remove_child old_parent child children
detach _ child children = children

abbrev attach : Option Text → Text → Buckets → Buckets
attach (some parent) child children = add_child parent child children
attach none child children = children

unfoldable pub apply_upsert : RemoteItem → RootCatalogProjection → RootCatalogProjection
apply_upsert item p = record p {
  parents = insert item.remote_id item.parent_remote_id p.parents;
  children_by_parent =
      attach item.parent_remote_id item.remote_id
        (detach (lookup item.remote_id p.parents) item.remote_id p.children_by_parent);
}

-- The walk of `delete_subtree` down the tree, from a queue; `none` means that the fuel ran out.
unfoldable pub collect_subtree : ℕ → Buckets → List Text → Option (List Text)
collect_subtree fuel children [] = some []
collect_subtree zero children (_ ∷ _) = none
collect_subtree (suc fuel) children (current ∷ queue) =
    elim (collect_subtree fuel children (queue ++ bucket current children)) [
      | none ↦ none
      | some delete_order ↦ some (current ∷ delete_order)
    ]

-- One round of the loop over the reversed delete order.
abbrev forget_parent : Option (Option Text) → Text → Buckets → Buckets
forget_parent (some (some parent)) child children = remove_child parent child children
forget_parent _ child children = children

unfoldable pub delete_one : RootCatalogProjection → Text → RootCatalogProjection
delete_one p current = record p {
  parents = erase current p.parents;
  children_by_parent =
      forget_parent (lookup current p.parents) current (erase current p.children_by_parent);
}

-- The items that come later in the order go first.
unfoldable pub delete_all : List Text → RootCatalogProjection → RootCatalogProjection
delete_all [] p = p
delete_all (current ∷ delete_order) p = delete_one (delete_all delete_order p) current

unfoldable pub delete_subtree : ℕ → Text → RootCatalogProjection → Option RootCatalogProjection
delete_subtree fuel remote_id p =
    elim (collect_subtree fuel p.children_by_parent (remote_id ∷ [])) [
      | none ↦ none
      | some delete_order ↦ some (delete_all delete_order p)
    ]

-- The inner loop of a breadth-first walk: children that are new go to the set and to the queue.
unfoldable pub visit_children : List Text → List Text → List Text → List Text × List Text
visit_children [] queue reached = (queue, reached)
visit_children (child ∷ children) queue reached =
    let seen = contains reached child in
    visit_children children (if seen then queue else queue ++ child ∷ [])
      (if seen then reached else child ∷ reached)

-- The walk from a queue; the set of all that it reached, or `none` if the fuel ran out.
unfoldable pub reach : ℕ → Buckets → List Text → List Text → Option (List Text)
reach fuel children [] reached = some reached
reach zero children (_ ∷ _) reached = none
reach (suc fuel) children (parent ∷ queue) reached =
    let (queue', reached') = visit_children (bucket parent children) queue reached in
    reach fuel children queue' reached'

abbrev pub no_entries {ℓ} : {A : Type ℓ} → List A → Bool
no_entries [] = true
no_entries (_ ∷ _) = false

-- The walk takes an id off the queue in each round, and no id of the catalog is queued twice.
unfoldable pub is_complete : RootCatalogProjection → Bool
is_complete p =
    if no_entries p.parents
    then true
    else elim (reach (suc (length p.parents)) p.children_by_parent (p.root_remote_id ∷ []) []) [
      | none ↦ false
      | some reached ↦ length reached == length p.parents
    ]

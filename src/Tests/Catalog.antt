-- ===== src/Tests/Catalog.antt =====
-- The catalog projection of crates/nubisync-sync/src/lib.rs, run.
use nubisync.Base.{
  contains_key, erase, insert, int_eq, is_blank, is_whitespace, lookup, nat_eq, option_eq, remove,
  text_eq, text_pair_eq, Text, [], arith, contains, err, false, if◌then◌else◌, none, ok, refl, some,
  suc, true, ℕ, ℕ_discrete, ◌==◌, ◌↔◌, ◌∷◌, ◌≡◌, ◌≢◌, ◌≤◌, ◌⊎◌,
}
use nubisync.Tests.{root_id, docs_id, notes_id, song_id, docs, notes, catalog}
use nubisync.Core.Remote.{RemoteItem, file, folder, upsert, delete, item_eq, kind_eq}
use nubisync.Sync.Change.{
  RootCatalogAction, plan_root_catalog_change, plan_root_catalog_change_iff, IsGone, IsLive,
  IsMisplaced, descendant, unresolved_delete, ignore, hydrate_subtree, upsert_item,
  invalid_change_context, plan_delete, plan_upsert,
}
use nubisync.Sync.Projection.{
  RootCatalogProjection, apply_upsert, collect_subtree, delete_subtree, is_complete, add_child,
  bucket, delete_all, delete_one, reach, remove_child, visit_children,
}
use nubisync.Sync.Projection.Index.{IsIndexed, is_child}
use nubisync.Sync.Projection.Complete.{HangsUnderRoot, is_complete_iff}
use nubisync.Sync.Projection.Delete.{Below, self, under, collect_iff_Below}
use nubisync.Sync.Projection.Forget.{
  delete_subtree_removes, delete_subtree_keeps, delete_subtree-IsIndexed,
}
use nubisync.Sync.Projection.Depth.{IsRanked, rounds, sum_over, delete_subtree_returns}
use nubisync.Sync.Projection.Cycle.{delete_subtree_after_cycle}
use nubisync.Sync.Hydration.{
  validate_hydration, check_hydration_complete, check_hydration_items, check_hydration_root,
  hydration_children, push_child, reject_unexpected_hydration,
}
use nubisync.Sync.Hydration.Whole.{IsWholeSubtree, validate_hydration_iff}
use nubisync.Sync.Catalog.{
  new_projection, apply_change, mutations, delete_plan, add_initial, apply_action, upsert_all,
}
use nubisync.Sync.Catalog.Initial.{parent_in, new_projection_holds}
use nubisync.Sync.Catalog.Mutations.{Replays, mutations_of, stored, apply_change-Replays}

abbrev pub projection : RootCatalogProjection
projection = record {
  root_remote_id = root_id;
  parents = (docs_id, some root_id) ∷ (notes_id, some docs_id) ∷ (song_id, some root_id) ∷ [];
  children_by_parent = (root_id, song_id ∷ docs_id ∷ []) ∷ (docs_id, notes_id ∷ []) ∷ [];
}

abbrev pub without_docs : RootCatalogProjection
without_docs = record {
  root_remote_id = root_id;
  parents = (song_id, some root_id) ∷ [];
  children_by_parent = (root_id, song_id ∷ []) ∷ [];
}

made : new_projection root_id catalog ≡ ok projection
unfolding int_eq remove contains_key erase insert lookup is_blank is_whitespace text_eq text_pair_eq
    nat_eq option_eq add_initial new_projection add_child apply_upsert bucket is_complete reach
    remove_child visit_children
made = refl

new_projection_holds_example :
    (projection.root_remote_id ≡ root_id)
    × ((x : Text) → lookup x projection.parents ≡ parent_in catalog x)
    × IsIndexed projection
    × ((x : Text) → contains_key x projection.parents ≡ true → HangsUnderRoot projection x)
new_projection_holds_example = new_projection_holds root_id catalog projection made

pub indexed : IsIndexed projection
indexed = (new_projection_holds root_id catalog projection made).2

is_complete_iff_example :
    (is_complete projection ≡ true)
    ↔ ((x : Text) → contains_key x projection.parents ≡ true → HangsUnderRoot projection x)
is_complete_iff_example = is_complete_iff projection indexed

collected :
    collect_subtree 3 projection.children_by_parent (docs_id ∷ []) ≡ some (docs_id ∷ notes_id ∷ [])
unfolding int_eq lookup text_eq nat_eq option_eq bucket collect_subtree
collected = refl

deleted : delete_subtree 3 docs_id projection ≡ some without_docs
unfolding int_eq remove erase insert lookup text_eq nat_eq option_eq bucket collect_subtree
    delete_all delete_one delete_subtree remove_child
deleted = refl

notes_listed : is_child projection.children_by_parent docs_id notes_id ≡ true
unfolding int_eq lookup text_eq nat_eq option_eq bucket
notes_listed = refl

delete_subtree_removes_example : lookup notes_id without_docs.parents ≡ none
delete_subtree_removes_example =
    delete_subtree_removes 3 docs_id projection indexed deleted notes_id (under self notes_listed)

song_not-Below : ¬ Below projection.children_by_parent docs_id song_id
unfolding text_eq ℕ_discrete
song_not-Below below =
    let listed : contains (docs_id ∷ notes_id ∷ []) song_id ≡ true =
      (collect_iff_Below projection.children_by_parent 3 docs_id collected song_id).1 below in
    ground arith

delete_subtree_keeps_example :
    lookup song_id without_docs.parents ≡ lookup song_id projection.parents
delete_subtree_keeps_example =
    delete_subtree_keeps 3 docs_id projection indexed deleted song_id song_not-Below

delete_subtree-IsIndexed_example : IsIndexed without_docs
delete_subtree-IsIndexed_example = delete_subtree-IsIndexed 3 docs_id projection indexed deleted

abbrev rank : Text → Text → Text → ℕ
rank base top x = if x == base then 2 else if x == top then 1 else 0

small_tree_IsRanked :
    (base top inner outer : Text)
    → (base == top) ≡ false
    → (base == inner) ≡ false
    → (base == outer) ≡ false
    → (top == inner) ≡ false
    → (top == outer) ≡ false
    → IsRanked ((base, outer ∷ top ∷ []) ∷ (top, inner ∷ []) ∷ []) (rank base top)
unfolding bucket lookup
small_tree_IsRanked base top inner outer a b c d e p x listed = ground arith

ranked : IsRanked projection.children_by_parent (rank root_id docs_id)
unfolding text_eq
ranked = small_tree_IsRanked root_id docs_id notes_id song_id refl refl refl refl refl

enough : rounds (suc (rank root_id docs_id docs_id)) projection.children_by_parent docs_id ≤ 3
unfolding int_eq lookup text_eq nat_eq option_eq bucket rounds sum_over
enough = omega arith

delete_subtree_returns_example :
    (p' : RootCatalogProjection) × (delete_subtree 3 docs_id projection ≡ some p')
delete_subtree_returns_example =
    delete_subtree_returns projection (rank root_id docs_id) ranked docs_id 3 enough

-- `docs` moved under its own child.
abbrev moved : RemoteItem
moved = record docs { parent_remote_id = some notes_id }

notes_in_docs : lookup notes_id projection.parents ≡ some (some moved.remote_id)
unfolding lookup text_eq
notes_in_docs = refl

docs_differ : moved.remote_id ≢ notes_id
docs_differ p = ground arith

delete_subtree_after_cycle_example :
    delete_subtree 1000 docs_id (apply_upsert moved projection) ≡ none
delete_subtree_after_cycle_example =
    delete_subtree_after_cycle projection moved notes_id indexed notes_in_docs docs_differ refl 1000

validate_hydration_iff_example :
    (validate_hydration docs (docs ∷ notes ∷ []) ≡ ok tt) ↔ IsWholeSubtree docs docs (notes ∷ [])
validate_hydration_iff_example = validate_hydration_iff docs docs (notes ∷ [])

pub applied :
    apply_change 3 (delete docs_id) unresolved_delete none projection
    ≡ some (ok (mutations (delete_plan docs_id ∷ []), without_docs))
unfolding int_eq remove contains_key erase insert lookup is_blank is_whitespace text_eq text_pair_eq
    nat_eq option_eq item_eq kind_eq apply_action apply_change upsert_all plan_delete
    plan_root_catalog_change plan_upsert check_hydration_complete check_hydration_items
    check_hydration_root hydration_children push_child reject_unexpected_hydration
    validate_hydration add_child apply_upsert bucket collect_subtree delete_all delete_one
    delete_subtree reach remove_child visit_children
applied = refl

apply_change-Replays_example :
    IsIndexed without_docs
    × Replays
        (mutations_of (mutations (delete_plan docs_id ∷ [])))
        (stored projection)
        (stored without_docs)
apply_change-Replays_example =
    apply_change-Replays 3 (delete docs_id) unresolved_delete none projection indexed applied

plan_root_catalog_change_iff_example :
    ((plan_root_catalog_change (upsert docs) descendant false ≡ ok RootCatalogAction.delete_subtree)
      ↔ (IsGone (upsert docs) descendant × (false ≡ true)))
    × ((plan_root_catalog_change (upsert docs) descendant false ≡ ok ignore)
        ↔ (IsGone (upsert docs) descendant × (false ≡ false)))
    × ((plan_root_catalog_change (upsert docs) descendant false ≡ ok hydrate_subtree)
        ↔ (IsLive (upsert docs) descendant folder × (false ≡ false)))
    × ((plan_root_catalog_change (upsert docs) descendant false ≡ ok upsert_item) ↔ (
        IsLive (upsert docs) descendant file
        ⊎ (IsLive (upsert docs) descendant folder × (false ≡ true))))
    × ((plan_root_catalog_change (upsert docs) descendant false ≡ err invalid_change_context)
        ↔ IsMisplaced (upsert docs) descendant)
plan_root_catalog_change_iff_example = plan_root_catalog_change_iff (upsert docs) descendant false

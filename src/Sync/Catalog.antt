-- ===== src/Sync/Catalog.antt =====
-- The operations of `RootCatalogProjection` in crates/nubisync-sync/src/lib.rs that may fail: `new`,
-- `apply_change` and `validate_complete`.
use nubisync.Base.{
  List, Option, Result, Text, [], contains_key, err, if◌then◌else◌, int_eq, is_blank, is_empty, map,
  nat_eq, none, not, ok, ok_or, option_eq, reject_if, some, text_eq, ℕ, ◌==◌, ◌>>=◌, ◌>>◌, ◌||◌,
  ◌∷◌,
}
pub mod Initial
pub mod Mutations
use nubisync.Core.Remote.{RemoteItem, RemoteChange, upsert, delete}
use nubisync.Sync.Change.{
  RootChangeMembership, RootCatalogAction, ignore, revalidate_root, upsert_item,
  delete_subtree as subtree_action, hydrate_subtree, invalid_change_context,
  plan_root_catalog_change,
}
use nubisync.Sync.Failure.{
  RootCatalogProjectionError, plan, invalid_root_identifier, invalid_initial_catalog_item,
  duplicate_initial_remote_id, incomplete_initial_catalog, hydration_required,
  incomplete_projected_catalog,
}
use nubisync.Sync.Projection.{RootCatalogProjection, apply_upsert, delete_subtree, is_complete}
use nubisync.Sync.Hydration.{Check, reject_unexpected_hydration, validate_hydration}

pub data RootCatalogMutationPlan : Type 0 where
  upsert_plan : RemoteItem → RootCatalogMutationPlan
  delete_plan : Text → RootCatalogMutationPlan

pub data RootCatalogResolution : Type 0 where
  noop : RootCatalogResolution
  revalidate : RootCatalogResolution
  mutations : List RootCatalogMutationPlan → RootCatalogResolution

abbrev pub Projected : Type 0
Projected = Result RootCatalogProjectionError RootCatalogProjection

-- The loop of `new`.
unfoldable pub add_initial : List RemoteItem → RootCatalogProjection → Projected
add_initial [] p = ok p
add_initial (item ∷ items) p =
    let rest = add_initial items (apply_upsert item p) in
    if is_blank item.remote_id
      || is_empty item.name
      || item.trashed
      || item.remote_id == p.root_remote_id
    then err invalid_initial_catalog_item
    else if contains_key item.remote_id p.parents
    then err duplicate_initial_remote_id
    else rest

abbrev pub empty_projection : Text → RootCatalogProjection
empty_projection root_remote_id = record {
  root_remote_id = root_remote_id;
  parents = [];
  children_by_parent = [];
}

unfoldable pub new_projection : Text → List RemoteItem → Projected
new_projection root_remote_id items = do
  reject_if (is_blank root_remote_id) invalid_root_identifier
  projection ← add_initial items (empty_projection root_remote_id)
  reject_if (not (is_complete projection)) incomplete_initial_catalog
  ok projection

unfoldable pub validate_complete : RootCatalogProjection → Check
validate_complete p = if is_complete p then ok tt else err incomplete_projected_catalog

abbrev pub changed_id : RemoteChange → Text
changed_id (delete remote_id) = remote_id
changed_id (upsert item) = item.remote_id

-- `let RemoteChange::Upsert(item) = change else { return Err(..) }`
abbrev pub upserted : RemoteChange → Result RootCatalogProjectionError RemoteItem
upserted (upsert item) = ok item
upserted (delete _) = err (plan invalid_change_context)

unfoldable pub upsert_all : List RemoteItem → RootCatalogProjection → RootCatalogProjection
upsert_all [] p = p
upsert_all (item ∷ items) p = upsert_all items (apply_upsert item p)

-- The result and the projection after it; the projection is as it was after an error.
abbrev pub Applied : Type 0
Applied = Result RootCatalogProjectionError (RootCatalogResolution × RootCatalogProjection)

-- `none` means that the deletion of a subtree ran out of fuel.
abbrev apply_delete : ℕ → Text → RootCatalogProjection → Option Applied
apply_delete fuel remote_id p = elim (delete_subtree fuel remote_id p) [
  | none ↦ none
  | some p' ↦ some (ok (mutations (delete_plan remote_id ∷ []), p'))
]

abbrev apply_hydration : RemoteChange → Option (List RemoteItem) → RootCatalogProjection → Applied
apply_hydration change hydration p = do
  items ← ok_or hydration hydration_required
  root_item ← upserted change
  validate_hydration root_item items
  ok (mutations (map upsert_plan items), upsert_all items p)

abbrev apply_item : RemoteChange → Option (List RemoteItem) → RootCatalogProjection → Applied
apply_item change hydration p = do
  reject_unexpected_hydration hydration
  item ← upserted change
  ok (mutations (upsert_plan item ∷ []), apply_upsert item p)

unfoldable pub apply_action :
    ℕ
    → RootCatalogAction
    → RemoteChange
    → Option (List RemoteItem)
    → RootCatalogProjection
    → Option Applied
apply_action fuel ignore change hydration p =
    some (reject_unexpected_hydration hydration >> ok (noop, p))
apply_action fuel revalidate_root change hydration p =
    some (reject_unexpected_hydration hydration >> ok (revalidate, p))
apply_action fuel upsert_item change hydration p = some (apply_item change hydration p)
apply_action fuel subtree_action change hydration p = elim (reject_unexpected_hydration hydration) [
  | err e ↦ some (err e)
  | ok _ ↦ apply_delete fuel (changed_id change) p
]
apply_action fuel hydrate_subtree change hydration p = some (apply_hydration change hydration p)

unfoldable pub apply_change :
    ℕ
    → RemoteChange
    → RootChangeMembership
    → Option (List RemoteItem)
    → RootCatalogProjection
    → Option Applied
apply_change fuel change membership hydration p =
    let previously_cataloged = contains_key (changed_id change) p.parents in
    elim (plan_root_catalog_change change membership previously_cataloged) [
      | err e ↦ some (err (plan e))
      | ok action ↦ apply_action fuel action change hydration p
    ]

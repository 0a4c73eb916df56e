-- ===== src/Sync/Change.antt =====
-- `plan_root_catalog_change` of crates/nubisync-sync/src/lib.rs: one provider change against one
-- selected remote subtree.
use nubisync.Base.{Bool, Result, err, false, if◌then◌else◌, ok, true, ◌↔◌, ◌≡◌, ◌⊎◌, arith}
use nubisync.Core.Remote.{RemoteItemKind, file, folder, RemoteItem, RemoteChange, upsert, delete}

pub data RootChangeMembership : Type 0 where
  root descendant outside unresolved_delete : RootChangeMembership

pub data RootCatalogAction : Type 0 where
  ignore revalidate_root upsert_item delete_subtree hydrate_subtree : RootCatalogAction

pub data RootCatalogPlanError : Type 0 where
  invalid_change_context : RootCatalogPlanError

-- `if previously_cataloged { DeleteSubtree } else { Ignore }`
abbrev forget : Bool → Result RootCatalogPlanError RootCatalogAction
forget previously_cataloged = if previously_cataloged then ok delete_subtree else ok ignore

-- The `match item.kind` of an item inside the subtree.
abbrev plan_descendant : RemoteItemKind → Bool → RootCatalogAction
plan_descendant file _ = upsert_item
plan_descendant folder true = upsert_item
plan_descendant folder false = hydrate_subtree

unfoldable pub plan_delete :
    RootChangeMembership → Bool → Result RootCatalogPlanError RootCatalogAction
plan_delete root _ = ok revalidate_root
plan_delete unresolved_delete previously_cataloged = forget previously_cataloged
plan_delete descendant _ = err invalid_change_context
plan_delete outside _ = err invalid_change_context

unfoldable pub plan_upsert :
    RemoteItem → RootChangeMembership → Bool → Result RootCatalogPlanError RootCatalogAction
plan_upsert item unresolved_delete _ = err invalid_change_context
plan_upsert item root _ = ok revalidate_root
plan_upsert item outside previously_cataloged = forget previously_cataloged
plan_upsert item descendant previously_cataloged =
    if item.trashed
    then forget previously_cataloged
    else ok (plan_descendant item.kind previously_cataloged)

unfoldable pub plan_root_catalog_change :
    RemoteChange → RootChangeMembership → Bool → Result RootCatalogPlanError RootCatalogAction
unfolding plan_delete plan_upsert
plan_root_catalog_change (delete _) membership previously_cataloged =
    plan_delete membership previously_cataloged
plan_root_catalog_change (upsert item) membership previously_cataloged =
    plan_upsert item membership previously_cataloged

-- The change says that its item is gone from the subtree.
abbrev pub IsGone : RemoteChange → RootChangeMembership → Type 0
IsGone (delete _) membership = membership ≡ unresolved_delete
IsGone (upsert item) membership =
    (membership ≡ outside) ⊎ ((membership ≡ descendant) × (item.trashed ≡ true))

-- The change carries an item that lies in the subtree and is not trashed.
abbrev pub IsLive : RemoteChange → RootChangeMembership → RemoteItemKind → Type 0
IsLive (delete _) membership kind = ⊥
IsLive (upsert item) membership kind =
    (membership ≡ descendant) × (item.trashed ≡ false) × (item.kind ≡ kind)

-- A delete whose place in the tree is resolved, and an upsert whose place is not.
abbrev pub IsMisplaced : RemoteChange → RootChangeMembership → Type 0
IsMisplaced (delete _) membership = (membership ≡ descendant) ⊎ (membership ≡ outside)
IsMisplaced (upsert _) membership = membership ≡ unresolved_delete

-- A subtree is deleted exactly when its item is in the catalog and the change says that it is
-- gone; a gone item that the catalog lacks is ignored. A folder is hydrated exactly when it is
-- live and the catalog lacks it. Exactly the other live items are upserted,
-- and exactly a misplaced change is refused.
pub plan_root_catalog_change_iff :
    (change : RemoteChange) (membership : RootChangeMembership) (cataloged : Bool)
    → ((plan_root_catalog_change change membership cataloged ≡ ok delete_subtree)
        ↔ (IsGone change membership × (cataloged ≡ true)))
      × ((plan_root_catalog_change change membership cataloged ≡ ok ignore)
          ↔ (IsGone change membership × (cataloged ≡ false)))
      × ((plan_root_catalog_change change membership cataloged ≡ ok hydrate_subtree)
          ↔ (IsLive change membership folder × (cataloged ≡ false)))
      × ((plan_root_catalog_change change membership cataloged ≡ ok upsert_item) ↔ (
          IsLive change membership file ⊎ (IsLive change membership folder × (cataloged ≡ true))))
      × ((plan_root_catalog_change change membership cataloged ≡ err invalid_change_context)
          ↔ IsMisplaced change membership)
unfolding plan_root_catalog_change
plan_root_catalog_change_iff (delete _) membership cataloged = (
  (λ h. ground arith, λ h. ground arith),
  (λ h. ground arith, λ h. ground arith),
  (λ h. ground arith, λ h. ground arith),
  (λ h. ground arith, λ h. ground arith),
  (λ h. ground arith, λ h. ground arith),
)
plan_root_catalog_change_iff (upsert item) membership cataloged = (
  (λ h. ground arith, λ h. ground arith),
  (λ h. ground arith, λ h. ground arith),
  (λ h. ground arith, λ h. ground arith),
  (λ h. ground arith, λ h. ground arith),
  (λ h. ground arith, λ h. ground arith),
)

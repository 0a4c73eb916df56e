-- ===== src/Sync/Hydration.antt =====
-- `validate_hydration` of crates/nubisync-sync/src/lib.rs: the check of a folder's subtree that a
-- provider delivered, before the projection takes it in.
use nubisync.Base.{
  List, Option, Result, Text, [], contains, err, if◌then◌else◌, insert, int_eq, is_blank, is_empty,
  is_some, length, nat_eq, none, not, ok, option_eq, reject_if, some, suc, text_eq, ◌++◌, ◌==◌,
  ◌>>=◌, ◌>>◌, ◌||◌, ◌∷◌,
}
pub mod Parts
pub mod Whole
use nubisync.Core.Remote.{RemoteItem, RemoteItemKind, folder, kind_eq, item_eq}
use nubisync.Sync.Projection.{Buckets, bucket, reach}
use nubisync.Sync.Failure.{
  RootCatalogProjectionError, unexpected_hydration, invalid_hydration_root, invalid_hydration_item,
  duplicate_hydration_remote_id, incomplete_hydration,
}

abbrev pub Check : Type 0
Check = Result RootCatalogProjectionError (Unit {0})

unfoldable pub reject_unexpected_hydration : Option (List RemoteItem) → Check
reject_unexpected_hydration hydration = reject_if (is_some hydration) unexpected_hydration

-- The test on the first item.
unfoldable pub check_hydration_root : RemoteItem → List RemoteItem → Check
check_hydration_root expected_root [] = err invalid_hydration_root
check_hydration_root expected_root (actual_root ∷ _) =
    reject_if
      (not (actual_root == expected_root)
        || not (actual_root.kind == folder)
        || actual_root.trashed)
      invalid_hydration_root

-- The first loop, over all items, with the ids seen so far.
unfoldable pub check_hydration_items : List Text → List RemoteItem → Check
check_hydration_items seen [] = ok tt
check_hydration_items seen (item ∷ items) =
    let rest = check_hydration_items (item.remote_id ∷ seen) items in
    if is_blank item.remote_id || is_empty item.name || item.trashed
    then err invalid_hydration_item
    else if contains seen item.remote_id
    then err duplicate_hydration_remote_id
    else rest

-- `.entry(parent).or_default().push(child)`
unfoldable pub push_child : Text → Text → Buckets → Buckets
unfolding bucket
push_child parent child children = insert parent (bucket parent children ++ child ∷ []) children

abbrev pub child_under : Option Text → List Text → Text → Buckets → Option Buckets
child_under none ids child children = none
child_under (some parent) ids child children =
    if contains ids parent then some (push_child parent child children) else none

-- The second loop, over the items after the first; `none` where a parent is missing.
unfoldable pub hydration_children : List Text → List RemoteItem → Buckets → Option Buckets
hydration_children ids [] children = some children
hydration_children ids (item ∷ items) children =
    elim (child_under item.parent_remote_id ids item.remote_id children) [
      | none ↦ none
      | some children' ↦ hydration_children ids items children'
    ]

abbrev pub ids_of : List RemoteItem → List Text
ids_of [] = []
ids_of (item ∷ items) = item.remote_id ∷ ids_of items

abbrev pub rest_of : List RemoteItem → List RemoteItem
rest_of [] = []
rest_of (_ ∷ items) = items

-- The walk from the root over the buckets. Each round takes one id off the queue, and an id is
-- queued once.
abbrev pub hydration_reached : Text → List RemoteItem → Buckets → Option (List Text)
hydration_reached root hydration children =
    reach (suc (length hydration)) children (root ∷ []) (root ∷ [])

abbrev counted : Option (List Text) → List RemoteItem → Check
counted none hydration = err incomplete_hydration
counted (some reached) hydration =
    reject_if (not (length reached == length hydration)) incomplete_hydration

unfoldable pub check_hydration_complete : Text → List RemoteItem → Check
check_hydration_complete root hydration =
    elim (hydration_children (ids_of hydration) (rest_of hydration) []) [
      | none ↦ err incomplete_hydration
      | some children ↦ counted (hydration_reached root hydration children) hydration
    ]

unfoldable pub validate_hydration : RemoteItem → List RemoteItem → Check
validate_hydration expected_root hydration = do
  check_hydration_root expected_root hydration
  check_hydration_items [] hydration
  check_hydration_complete expected_root.remote_id hydration

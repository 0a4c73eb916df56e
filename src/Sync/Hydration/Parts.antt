-- ===== src/Sync/Hydration/Parts.antt =====
-- The checks of `validate_hydration`, one by one.
use nubisync.Base.{
  All, Bool, IsNodup, List, Text, [], any, contains, false, int_eq, is_blank, is_empty, nat_eq, ok,
  option_eq, refl, some, text_eq, ◌&&◌, ◌==◌, ◌↔◌, ◌∷◌, ◌≡◌, all, arith, contains-append,
  lookup-insert, true, ◌++◌, ◌||◌, Option, Option-cases, inl, inr, none,
}
use nubisync.Core.Remote.{RemoteItem, folder, kind_eq, item_eq}
use nubisync.Sync.Projection.{Buckets, bucket}
use nubisync.Sync.Projection.Index.{is_child}
use nubisync.Sync.Hydration.{
  check_hydration_root, check_hydration_items, push_child, child_under, hydration_children, ids_of,
}

-- `item` lies in the list with this id under this parent.
abbrev pub has_child : List RemoteItem → Text → Text → Bool
has_child items p c = any (λ item. item.remote_id == c && item.parent_remote_id == some p) items

abbrev pub IsHydrationItem : RemoteItem → Type 0
IsHydrationItem item =
    (is_blank item.remote_id ≡ false) × (is_empty item.name ≡ false) × (item.trashed ≡ false)

abbrev AreFresh : List Text → List RemoteItem → Type 0
AreFresh seen [] = Unit
AreFresh seen (item ∷ items) = (contains seen item.remote_id ≡ false) × AreFresh seen items

AreFresh-cons :
    (x : Text) (seen : List Text) (items : List RemoteItem)
    → AreFresh (x ∷ seen) items ↔ ((contains (ids_of items) x ≡ false) × AreFresh seen items)
AreFresh-cons x seen [] = (λ h. (refl, tt), λ h. tt)
AreFresh-cons x seen (item ∷ items) =
    let (apart, joined) = AreFresh-cons x seen items in
    (λ h. ground (arith, apart h.1), λ h. ground (arith, joined))

AreFresh-nil : (items : List RemoteItem) → AreFresh [] items
AreFresh-nil [] = tt
AreFresh-nil (item ∷ items) = (refl, AreFresh-nil items)

check_hydration_items_seen :
    (seen : List Text) (items : List RemoteItem)
    → (check_hydration_items seen items ≡ ok tt)
      ↔ (All IsHydrationItem items × IsNodup (ids_of items) × AreFresh seen items)
unfolding check_hydration_items
check_hydration_items_seen seen [] = (λ h. (tt, tt, tt), λ h. refl)
check_hydration_items_seen seen (item ∷ items) =
    let (sound, complete) = check_hydration_items_seen (item.remote_id ∷ seen) items in
    let (apart, joined) = AreFresh-cons item.remote_id seen items in
    (λ h. ground (arith, sound, apart), λ h. ground (arith, complete, joined))

pub check_hydration_items_iff :
    (items : List RemoteItem)
    → (check_hydration_items [] items ≡ ok tt)
      ↔ (All IsHydrationItem items × IsNodup (ids_of items))
check_hydration_items_iff items =
    let (sound, complete) = check_hydration_items_seen [] items in
    (λ h. let (a, u, _) = sound h in (a, u), λ h. complete (h.0, h.1, AreFresh-nil items))

pub check_hydration_root_iff :
    (root first : RemoteItem) (items : List RemoteItem)
    → (check_hydration_root root (first ∷ items) ≡ ok tt)
      ↔ ((first ≡ root) × (root.kind ≡ folder) × (root.trashed ≡ false))
unfolding check_hydration_root
check_hydration_root_iff root first items = (λ h. ground arith, λ h. ground arith)

-- The buckets list exactly the children of the items.
is_child-push_child :
    (p c q x : Text) (children : Buckets)
    → is_child (push_child p c children) q x ≡ (is_child children q x || (p == q && c == x))
unfolding push_child bucket
is_child-push_child p c q x children = ground (
  arith,
  lookup-insert p q (bucket p children ++ c ∷ []) children,
  contains-append (bucket p children) (c ∷ []) x,
)

-- Every parent is one of the ids.
abbrev pub HasParents : List Text → List RemoteItem → Type 0
HasParents ids [] = Unit
HasParents ids (item ∷ items) =
    ((p : Text) × (item.parent_remote_id ≡ some p) × (contains ids p ≡ true)) × HasParents ids items

child_under-some :
    (parent : Option Text) (ids : List Text) (child : Text) (children : Buckets) {all : Buckets}
    → child_under parent ids child children ≡ some all
    → (p : Text) × (parent ≡ some p) × (contains ids p ≡ true) × (all ≡ push_child p child children)
child_under-some none ids child children e = cc
child_under-some (some p) ids child children e = (p, refl, ground arith, ground arith)

pub hydration_children_lem :
    (ids : List Text) (items : List RemoteItem) (children : Buckets) {final : Buckets}
    → hydration_children ids items children ≡ some final
    → HasParents ids items
      × ((q x : Text) → is_child final q x ≡ (is_child children q x || has_child items q x))
unfolding hydration_children
hydration_children_lem ids [] children {final} e = (tt, λ q x. ground arith)
hydration_children_lem ids (item ∷ items) children {final} e =
    elim (Option-cases (child_under item.parent_remote_id ids item.remote_id children)) [
      | inl f ↦ ground (arith, f)
      | inr (next, f) ↦
          let (p, g, m, n) = child_under-some item.parent_remote_id ids item.remote_id children f in
          let (parents, list) =
            hydration_children_lem ids items next {final = final} (ground (arith, f)) in
          (
            ((p, g, m), parents),
            λ q x.
                ground (arith, n, g, list q x, is_child-push_child p item.remote_id q x children),
          )
    ]

pub hydration_children_total :
    (ids : List Text) (items : List RemoteItem) (children : Buckets)
    → HasParents ids items
    → (all : Buckets) × (hydration_children ids items children ≡ some all)
unfolding hydration_children
hydration_children_total ids [] children h = (children, refl)
hydration_children_total ids (item ∷ items) children ((p, e, m), h) =
    let (all, f) = hydration_children_total ids items (push_child p item.remote_id children) h in
    (all, ground (arith, e, f))

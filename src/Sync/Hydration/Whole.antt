-- ===== src/Sync/Hydration/Whole.antt =====
-- What `validate_hydration` accepts.
use mathlib.Core.Path.{subst}
use nubisync.Base.{
  All, IsNodup, List, Text, [], all, ap, arith, contains, false, int_eq, length, lookup, nat_eq, ok,
  option_eq, refl, some, suc, text_eq, true, ◌↔◌, ◌∷◌, ◌≡◌, ==_refl, Bool-cases, IsSubset,
  Option-cases, inl, inr, length-le_of_subset, subset_of_length-le, >>-eq-ok, sym,
}
use nubisync.Core.Remote.{RemoteItem, folder}
use nubisync.Sync.Projection.{Buckets, bucket}
use nubisync.Sync.Projection.Index.{is_child}
use nubisync.Sync.Projection.Delete.{Below, self, under}
use nubisync.Sync.Projection.Walk.{
  reach-IsNodup, reach_sound, reach_complete, reach_ends, reach_keeps,
}
use nubisync.Sync.Hydration.{
  ids_of, hydration_children, hydration_reached, counted, check_hydration_root,
  check_hydration_items, check_hydration_complete, validate_hydration,
}
use nubisync.Sync.Hydration.Parts.{
  has_child, IsHydrationItem, HasParents, check_hydration_items_iff, check_hydration_root_iff,
  hydration_children_lem, hydration_children_total,
}

-- `x` is the top, or its chain of parents in the items leads there.
pub data Within (items : List RemoteItem) (top : Text) : Text → Type 0 where
  top_itself : Within items top top
  child_of : {p c : Text} → Within items top p → has_child items p c ≡ true → Within items top c

-- A folder and its items, whole: valid items, each once, that all hang under the folder.
pub record IsWholeSubtree (root first : RemoteItem) (items : List RemoteItem) : Type 0 where
  pub starts_with_root : first ≡ root
  pub root_folder : root.kind ≡ folder
  pub root_live : root.trashed ≡ false
  pub valid_items : All IsHydrationItem (first ∷ items)
  pub distinct : IsNodup (ids_of (first ∷ items))
  pub parents_inside : HasParents (ids_of (first ∷ items)) items
  pub hang_under : (x : Text) → contains (ids_of items) x ≡ true → Within items root.remote_id x

contains-has_child :
    (items : List RemoteItem) (p c : Text)
    → has_child items p c ≡ true
    → contains (ids_of items) c ≡ true
contains-has_child [] p c h = h
contains-has_child (item ∷ items) p c h = ground (arith, contains-has_child items p c)

pub length-ids_of : (items : List RemoteItem) → length (ids_of items) ≡ length items
length-ids_of [] = refl
length-ids_of (item ∷ items) = ap suc (length-ids_of items)

module _ (first : RemoteItem) (items : List RemoteItem)
    (distinct : IsNodup (ids_of (first ∷ items))) (children : Buckets)
    (e : hydration_children (ids_of (first ∷ items)) items [] ≡ some children) where
  root : Text
  root = first.remote_id

  listed : (q x : Text) → is_child children q x ≡ has_child items q x
  unfolding bucket
  listed q x =
      unfold lookup in
      ground (arith, (hydration_children_lem (ids_of (first ∷ items)) items [] e).1 q x)

  Within-of_Below : (x : Text) → Below children root x → Within items root x
  Within-of_Below x self = top_itself
  Within-of_Below x (under {p = p} b m) =
      child_of (Within-of_Below _ b) (ground (arith, listed p x))

  Below-of_Within : (x : Text) → Within items root x → Below children root x
  Below-of_Within x top_itself = self
  Below-of_Within x (child_of {p = p} b m) =
      under (Below-of_Within _ b) (ground (arith, listed p x))

  walk_ends : (all : List Text) × (hydration_reached root (first ∷ items) children ≡ some all)
  unfolding root
  walk_ends =
      reach_ends children (ids_of (first ∷ items))
        (λ q c m. ground (arith, listed q c, contains-has_child items q c))
        (suc (length (first ∷ items))) (root ∷ []) (root ∷ []) (refl, tt) (λ x m. ground arith)
        (omega (arith, length-ids_of items))

  module _ (all : List Text) (w : hydration_reached root (first ∷ items) children ≡ some all) where
    reached_iff : (x : Text) → (contains all x ≡ true) ↔ Below children root x
    reached_iff x = (
      reach_sound children root (Below children root) (λ q c b m. under b m)
          (suc (length (first ∷ items))) (root ∷ []) (root ∷ []) w only_root only_root x,
      reached x,
    )
      where
        only_root : (y : Text) → contains (root ∷ []) y ≡ true → Below children root y
        only_root y m = let same : root ≡ y = ground arith in rw (← same) self

        reached : (y : Text) → Below children root y → contains all y ≡ true
        reached y self =
            reach_keeps children (suc (length (first ∷ items))) (root ∷ []) (root ∷ []) w y
              (ground (arith, ==_refl y))
        reached y (under b m) =
            reach_complete children root (suc (length (first ∷ items))) (root ∷ []) (root ∷ []) w
              (λ z k. inl (ground arith)) _ y b m

    all_known : (x : Text) → contains all x ≡ true → contains (ids_of (first ∷ items)) x ≡ true
    unfolding root
    all_known x m = known x ((reached_iff x).0 m)
      where
        known :
            (y : Text)
            → Below children first.remote_id y
            → contains (ids_of (first ∷ items)) y ≡ true
        known y self = ground (arith, ==_refl y)
        known y (under {p = p} b k) = ground (arith, listed p y, contains-has_child items p y)

    counted_iff :
        (counted (some all) (first ∷ items) ≡ ok tt)
        ↔ ((x : Text) → contains (ids_of items) x ≡ true → Within items root x)
    counted_iff = (
      λ h x m. Within-of_Below x (
          (reached_iff x).0 (
            subset_of_length-le all (ids_of (first ∷ items)) once all_known
              (ground (arith, length-ids_of items)) x (ground arith))),
      λ h. ground (
        arith,
        length-ids_of items,
        length-le_of_subset all (ids_of (first ∷ items)) once all_known,
        length-le_of_subset (ids_of (first ∷ items)) all distinct (covers h),
      ),
    )
      where
        once : IsNodup all
        once =
            reach-IsNodup children (suc (length (first ∷ items))) (root ∷ []) (root ∷ []) w
              (refl, tt)

        covers :
            ((x : Text) → contains (ids_of items) x ≡ true → Within items root x)
            → IsSubset (ids_of (first ∷ items)) all
        covers h x m = elim (Bool-cases (contains (ids_of items) x)) [
          | inl inside ↦ (reached_iff x).1 (Below-of_Within x (h x inside))
          | inr top ↦
              (reached_iff x).1
                (let same : root ≡ x = unfold root in ground arith in rw (← same) self)
        ]

module _ (first : RemoteItem) (items : List RemoteItem)
    (distinct : IsNodup (ids_of (first ∷ items))) where
  check_hydration_complete_iff :
      (check_hydration_complete first.remote_id (first ∷ items) ≡ ok tt) ↔ (
        HasParents (ids_of (first ∷ items)) items
        × ((x : Text) → contains (ids_of items) x ≡ true → Within items first.remote_id x))
  unfolding check_hydration_complete root
  check_hydration_complete_iff = (
    λ h. elim (Option-cases (hydration_children (ids_of (first ∷ items)) items [])) [
      | inl f ↦ ground (arith, f)
      | inr (children, f) ↦
          let (all, w) = walk_ends first items distinct children f in
          (
            (hydration_children_lem (ids_of (first ∷ items)) items [] f).0,
            (counted_iff first items distinct children f all w).0 (ground (arith, f, w)),
          )
    ],
    λ (parents, hang).
        let (children, f) = hydration_children_total (ids_of (first ∷ items)) items [] parents in
        let (all, w) = walk_ends first items distinct children f in
        ground (arith, f, w, (counted_iff first items distinct children f all w).1 hang),
  )

-- A hydration is accepted exactly when it is the whole of the expected folder: the folder itself
-- first, live items with an id and a name, no id twice, and every item under the folder by a
-- chain of parents inside the hydration.
pub validate_hydration_iff :
    (expected first : RemoteItem) (items : List RemoteItem)
    → (validate_hydration expected (first ∷ items) ≡ ok tt) ↔ IsWholeSubtree expected first items
unfolding validate_hydration
validate_hydration_iff expected first items =
    let (first_sound, first_ok) = check_hydration_root_iff expected first items in
    let (each_sound, each_ok) = check_hydration_items_iff (first ∷ items) in
    (
      λ h.
          let (a, h') = >>-eq-ok (check_hydration_root expected (first ∷ items)) _ h in
          let (b, c) = >>-eq-ok (check_hydration_items [] (first ∷ items)) _ h' in
          let (same, is_folder, live) = first_sound a in
          let (valid, distinct) = each_sound b in
          let id : first.remote_id ≡ expected.remote_id =
            ap (λ (i : RemoteItem). i.remote_id) same in
          let (parents, hang) =
            (check_hydration_complete_iff first items distinct).0
              (subst (λ z. check_hydration_complete z (first ∷ items) ≡ ok tt) (sym id) c) in
          record {
            starts_with_root = same;
            root_folder = is_folder;
            root_live = live;
            valid_items = valid;
            distinct = distinct;
            parents_inside = parents;
            hang_under = λ x m. subst (λ z. Within items z x) id (hang x m);
          },
      λ w.
          let id : first.remote_id ≡ expected.remote_id =
            ap (λ (i : RemoteItem). i.remote_id) w.starts_with_root in
          let a = first_ok (w.starts_with_root, w.root_folder, w.root_live) in
          let b = each_ok (w.valid_items, w.distinct) in
          let c =
            (check_hydration_complete_iff first items w.distinct).1 (
              w.parents_inside,
              λ x m. subst (λ z. Within items z x) (sym id) (w.hang_under x m),
            ) in
          rw (a, b) (subst (λ z. check_hydration_complete z (first ∷ items) ≡ ok tt) id c),
    )

-- ===== src/Sync/Paths/Built.antt =====
-- What `build_remote_expected_paths` returns.
use nubisync.Base.{
  All, All-sort_by, Among, Dict, IsSubset, List, Text, [], arith, inl, inr, int_eq, length, lookup,
  nat_eq, ok, option_eq, refl, some, sort_by, suc, text_eq, ◌∷◌, ◌≡◌, >>=-eq-ok, Option, ap, err,
  none, subset_of_length-le, ℕ, ◌++◌,
}
use nubisync.Core.Remote.{RemoteItem, RemoteItemKind}
use nubisync.Sync.Hydration.{ids_of}
use nubisync.Sync.Hydration.Whole.{length-ids_of}
use nubisync.Sync.Local.{Planned}
use nubisync.Sync.Paths.{
  RemoteExpectedPath, siblings_of, top_level, Grouping, no_grouping, Expansion, no_expansion,
  compare_siblings, index_remote_items, group_remote_items, single_external, expand_all, finish,
  build_remote_expected_paths,
}
use nubisync.Sync.Paths.Grouped.{group_remote_items-AreGrouped}
use nubisync.Sync.Paths.Layout.{AreEntries, IsLayout, expected_ids, length-expected_ids}
use nubisync.Sync.Paths.Expand.{IsExpansion, AreQueued, AreChildren, expand-IsExpansion}
use nubisync.Sync.Paths.Ends.{expand_ends, contains-Among}

-- Every item of a list is among its items.
All-Among :
    (items more : List RemoteItem)
    → ((i : RemoteItem) → Among i items → Among i more)
    → All (λ i. Among i more) items
All-Among [] more h = tt
All-Among (i ∷ items) more h = (h i (inl refl), All-Among items more (λ j m. h j (inr m)))

module _ (items : List RemoteItem) where
  grouped_children :
      (kinds : Dict Text RemoteItemKind) {g : Grouping}
      → group_remote_items kinds items no_grouping ≡ ok g
      → (root : Text) → AreChildren items root g.children_by_parent
  grouped_children kinds e root =
      group_remote_items-AreGrouped (λ i. Among i items) kinds items no_grouping e
        (All-Among items items (λ i m. m)) (λ q. unfold siblings_of lookup in tt)

  top_level-AreQueued :
      (root : Text) (children : List RemoteItem)
      → All (λ i. Among i items × (i.parent_remote_id ≡ some root)) children
      → AreQueued items root [] (top_level children)
  top_level-AreQueued root [] h = tt
  top_level-AreQueued root (i ∷ children) ((m, e), h) =
      ((m, inl (e, refl)), top_level-AreQueued root children h)

  module _ (kinds : Dict Text RemoteItemKind) (g : Grouping)
      (grouped : group_remote_items kinds items no_grouping ≡ ok g) (root : Text) where
    start_queued :
        AreQueued items root []
          (top_level (sort_by compare_siblings (siblings_of root g.children_by_parent)))
    start_queued = top_level-AreQueued root _ (
        All-sort_by compare_siblings
          (λ (i : RemoteItem). Among i items × (i.parent_remote_id ≡ some root))
          (siblings_of root g.children_by_parent) (grouped_children kinds grouped root root))

    expand_all_ends : (r : Planned Expansion) × (expand_all items g root ≡ some r)
    unfolding expand_all
    expand_all_ends =
        expand_ends items root (suc (length items)) g.children_by_parent _ no_expansion
          (grouped_children kinds grouped root) start_queued tt (λ a m. cc) (omega arith)

    expand_all-IsExpansion :
        (x : Expansion) → expand_all items g root ≡ some (ok x) → IsExpansion items root x
    unfolding expand_all
    expand_all-IsExpansion x e =
        expand-IsExpansion items root (suc (length items)) g.children_by_parent _ no_expansion
          (grouped_children kinds grouped root) e start_queued
          (record {
            once = tt;
            same_ids = λ a. refl;
            same_paths = λ p. refl;
            counted = refl;
            laid_out = tt;
            safe = tt;
            paths_once = tt;
            ids_once = tt;
          })

pub entries_known :
    (items : List RemoteItem) (root : Text) (before es : List RemoteExpectedPath)
    → AreEntries items root before es
    → IsSubset (expected_ids es) (ids_of items)
entries_known items root before [] h a m = cc
entries_known items root before (e ∷ es) ((item, among, same, _), rest) a m =
    let id : e.remote_id ≡ item.remote_id = ap (λ (r : RemoteExpectedPath). r.remote_id) same in
    ground (
      arith,
      contains-Among item items among,
      entries_known items root (before ++ e ∷ []) es rest a,
    )

IsExpansion-IsLayout :
    (items : List RemoteItem) (root : Text) (x : Expansion)
    → IsExpansion items root x
    → length x.visited ≡ length items
    → IsLayout items root x.expected_paths
IsExpansion-IsLayout items root x h full = record {
  entries = h.laid_out;
  safe_paths = h.safe;
  distinct_paths = h.paths_once;
  distinct_ids = h.ids_once;
  one_for_each = omega (arith, h.counted);
  all_items =
      subset_of_length-le (expected_ids x.expected_paths) (ids_of items) h.ids_once
        (entries_known items root [] x.expected_paths h.laid_out)
        (omega (arith, h.counted, length-ids_of items, length-expected_ids x.expected_paths));
}

finish-eq-ok :
    (n : ℕ) (r : Option (Planned Expansion)) {es : List RemoteExpectedPath}
    → finish n r ≡ ok es
    → (x : Expansion) × (r ≡ some (ok x)) × (length x.visited ≡ n) × (es ≡ x.expected_paths)
finish-eq-ok n none e = cc
finish-eq-ok n (some (err _)) e = cc
finish-eq-ok n (some (ok x)) e = (x, refl, ground arith, ground arith)

-- The expected paths of a catalog are its layout under one root: an entry for each item with its
-- kind and size, at distinct safe paths, each at its name or in the directory of its parent, and
-- every directory before what lies in it.
pub build_remote_expected_paths_lem :
    (items : List RemoteItem) (es : List RemoteExpectedPath)
    → build_remote_expected_paths items ≡ ok es
    → (root : Text) × IsLayout items root es
unfolding build_remote_expected_paths
build_remote_expected_paths_lem [] es e =
    let same : [] ≡ es = ground arith in
    (
      [],
      rw (← same) (record {
        entries = tt;
        safe_paths = tt;
        distinct_paths = tt;
        distinct_ids = tt;
        one_for_each = refl;
        all_items = λ a m. m;
      }),
    )
build_remote_expected_paths_lem (item ∷ rest) es e =
    let items = item ∷ rest in
    let (kinds, _, e₁) = >>=-eq-ok (index_remote_items [] [] items) _ e in
    let (g, grouped, e₂) = >>=-eq-ok (group_remote_items kinds items no_grouping) _ e₁ in
    let (root, _, e₃) = >>=-eq-ok (single_external g.external_parent_ids) _ e₂ in
    let (x, ran, full, same) = finish-eq-ok (length items) (expand_all items g root) e₃ in
    (
      root,
      rw same (
          IsExpansion-IsLayout items root x
            (expand_all-IsExpansion items kinds g grouped root x ran) full),
    )

-- The walk of a grouped catalog ends with a result: the fuel, one round more than there are items,
-- never runs out.
expand_all_returns :
    (items : List RemoteItem) (kinds : Dict Text RemoteItemKind) (g : Grouping) (root : Text)
    → group_remote_items kinds items no_grouping ≡ ok g
    → (r : Planned Expansion) × (expand_all items g root ≡ some r)
expand_all_returns items kinds g root grouped = expand_all_ends items kinds g grouped root

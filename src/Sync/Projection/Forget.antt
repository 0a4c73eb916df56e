-- ===== src/Sync/Projection/Forget.antt =====
-- The loop of `delete_subtree` over its delete order.
use nubisync.Base.{
  IsNodup, List, Option, Option-cases, Text, [], arith, contains, erase, erase-IsNodup, false,
  if◌then◌else◌, inl, inr, int_eq, keys, lookup, lookup-erase, nat_eq, none, option_eq, refl, some,
  text_eq, true, ℕ, ◌&&◌, ◌==◌, ◌||◌, ◌∷◌, ◌≡◌,
}
use nubisync.Sync.Projection.{
  RootCatalogProjection, Buckets, bucket, collect_subtree, forget_parent, delete_one, delete_all,
  delete_subtree,
}
use nubisync.Sync.Projection.Index.{
  is_child, is_child-remove_child, remove_child-IsNodup, IsIndexed,
}
use nubisync.Sync.Projection.Delete.{Below, collect_iff_Below, collect-closed}

-- What each bucket lists has that bucket's parent. It holds between the rounds, when a parent may
-- have lost its bucket before its children are gone.
abbrev IsListed : RootCatalogProjection → Type 0
IsListed p =
    (q c : Text) → is_child p.children_by_parent q c ≡ true → lookup c p.parents ≡ some (some q)

parent-delete_one :
    (p : RootCatalogProjection) (current x : Text)
    → lookup x (delete_one p current).parents ≡ (if current == x then none else lookup x p.parents)
unfolding delete_one
parent-delete_one p current x = lookup-erase current x p.parents

is_child-erase :
    (current q c : Text) (children : Buckets)
    → is_child (erase current children) q c
      ≡ (if current == q then false else is_child children q c)
unfolding bucket
is_child-erase current q c children = ground (arith, lookup-erase current q children)

is_child-forget_parent :
    (old : Option (Option Text)) (c q x : Text) (children : Buckets)
    → is_child (forget_parent old c children) q x
      ≡ (if old == some (some q) && c == x then false else is_child children q x)
is_child-forget_parent none c q x children = ground arith
is_child-forget_parent (some none) c q x children = ground arith
is_child-forget_parent (some (some old)) c q x children =
    ground (arith, is_child-remove_child old c q x children)

is_child-delete_one :
    (p : RootCatalogProjection) (current q c : Text)
    → IsListed p
    → is_child (delete_one p current).children_by_parent q c
      ≡ (if current == q || current == c then false else is_child p.children_by_parent q c)
unfolding delete_one
is_child-delete_one p current q c listed = ground (
  arith,
  is_child-forget_parent (lookup current p.parents) current q c
      (erase current p.children_by_parent),
  is_child-erase current q c p.children_by_parent,
  listed q c,
)

module _ (p : RootCatalogProjection) (listed : IsListed p) where
  -- After the loop exactly the ids of the order are gone, as items, as parents and as children.
  delete_all_lem :
      (order : List Text)
      → ((x : Text)
          → lookup x (delete_all order p).parents
            ≡ (if contains order x then none else lookup x p.parents))
        × ((q c : Text)
            → is_child (delete_all order p).children_by_parent q c ≡ (
                if contains order q || contains order c
                then false
                else is_child p.children_by_parent q c))
  unfolding delete_all
  delete_all_lem [] = (λ x. refl, λ q c. refl)
  delete_all_lem (current ∷ order) =
      let (gone, cut) = delete_all_lem order in
      let rest = delete_all order p in
      (
        λ x. ground (arith, parent-delete_one rest current x, gone x),
        λ q c. ground (
          arith,
          is_child-delete_one rest current q c
              (λ a b m. ground (arith, cut a b, gone b, listed a b)),
          cut q c,
        ),
      )

erase-bucket-IsNodup :
    (current q : Text) (children : Buckets)
    → IsNodup (bucket q children)
    → IsNodup (bucket q (erase current children))
unfolding bucket
erase-bucket-IsNodup current q children u = ground (arith, lookup-erase current q children)

forget_parent-IsNodup :
    (old : Option (Option Text)) (c q : Text) (children : Buckets)
    → IsNodup (bucket q children)
    → IsNodup (bucket q (forget_parent old c children))
forget_parent-IsNodup (some (some old)) c q children u = remove_child-IsNodup q children u old c
forget_parent-IsNodup _ c q children u = u

delete_all-IsNodup :
    (order : List Text) (p : RootCatalogProjection)
    → IsIndexed p
    → IsNodup (keys (delete_all order p).parents)
      × ((q : Text) → IsNodup (bucket q (delete_all order p).children_by_parent))
unfolding delete_all delete_one
delete_all-IsNodup [] p h = (h.one_entry, h.no_repeats)
delete_all-IsNodup (current ∷ order) p h =
    let (one, each) = delete_all-IsNodup order p h in
    let rest = delete_all order p in
    (
      erase-IsNodup current rest.parents one,
      λ q.
          forget_parent-IsNodup (lookup current rest.parents) current q
            (erase current rest.children_by_parent)
            (erase-bucket-IsNodup current q rest.children_by_parent (each q)),
    )

-- What `delete_subtree` returns, once the walk has ended.
delete_subtree-step :
    (fuel : ℕ) (id : Text) (p : RootCatalogProjection) {p' : RootCatalogProjection}
    → delete_subtree fuel id p ≡ some p'
    → (order : List Text) × (collect_subtree fuel p.children_by_parent (id ∷ []) ≡ some order)
      × (p' ≡ delete_all order p)
unfolding delete_subtree
delete_subtree-step fuel id p e =
    elim (Option-cases (collect_subtree fuel p.children_by_parent (id ∷ []))) [
      | inl f ↦ ground (arith, f)
      | inr (order, f) ↦ (order, f, ground (arith, f))
    ]

module _ (fuel : ℕ) (id : Text) (p : RootCatalogProjection) {p' : RootCatalogProjection}
    (h : IsIndexed p) (e : delete_subtree fuel id p ≡ some p') where
  IsListed-of_index : IsListed p
  IsListed-of_index q c m = ground (arith, h.inverse q c)

  pub parents-delete_subtree :
      (x : Text)
      → (Below p.children_by_parent id x → lookup x p'.parents ≡ none)
        × (¬ Below p.children_by_parent id x → lookup x p'.parents ≡ lookup x p.parents)
  parents-delete_subtree x =
      let (order, f, g) = delete_subtree-step fuel id p e in
      let (sound, complete) = collect_iff_Below p.children_by_parent fuel id f x in
      let (gone, cut) = delete_all_lem p IsListed-of_index order in
      (
        λ b. rw g (ground (arith, gone x, complete b)),
        λ n. rw g (ground (arith, gone x, λ (m : contains order x ≡ true). n (sound m))),
      )

  -- Where the buckets are the inverse of the parent map and `delete_subtree` returns, the catalog has
  -- lost the item and all that lay under it.
  pub delete_subtree_removes :
      (x : Text) → Below p.children_by_parent id x → lookup x p'.parents ≡ none
  delete_subtree_removes x = (parents-delete_subtree x).0

  -- Where the buckets are the inverse of the parent map and `delete_subtree` returns, an item that is
  -- not the deleted one and did not lie under it is in the catalog exactly if it was, and with the
  -- parent that it had.
  pub delete_subtree_keeps :
      (x : Text) → ¬ Below p.children_by_parent id x → lookup x p'.parents ≡ lookup x p.parents
  delete_subtree_keeps x = (parents-delete_subtree x).1

  -- Where the buckets are the inverse of the parent map and `delete_subtree` returns, they still are.
  pub delete_subtree-IsIndexed : IsIndexed p'
  delete_subtree-IsIndexed =
      let (order, f, g) = delete_subtree-step fuel id p e in
      let (gone, cut) = delete_all_lem p IsListed-of_index order in
      let (one, each) = delete_all-IsNodup order p h in
      rw g (record {
        inverse = λ q c. ground (
          arith,
          cut q c,
          gone c,
          h.inverse q c,
          collect-closed p.children_by_parent fuel (id ∷ []) order f q c,
        );
        one_entry = one;
        no_repeats = each;
      })

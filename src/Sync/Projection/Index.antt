-- ===== src/Sync/Projection/Index.antt =====
-- The buckets are the inverse of the parent map, and `apply_upsert` keeps them so.
use nubisync.Base.{
  Bool, IsNodup, List, Option, Option-cases, Text, [], arith, contains, contains-remove, false,
  if◌then◌else◌, inl, inr, int_eq, keys, lookup, lookup-erase, lookup-insert, nat_eq, none,
  option_eq, remove, some, text_eq, true, ◌&&◌, ◌==◌, ◌∷◌, ◌≡◌, insert-IsNodup, remove-IsNodup,
}
use nubisync.Core.Remote.{RemoteItem}
use nubisync.Sync.Projection.{
  RootCatalogProjection, Buckets, bucket, set_insert, put_bucket, remove_child, add_child, detach,
  attach, apply_upsert,
}

bucket-put_bucket :
    (p q : Text) (xs : List Text) (children : Buckets)
    → bucket q (put_bucket p xs children) ≡ (if p == q then xs else bucket q children)
unfolding bucket
bucket-put_bucket p q [] children = ground (arith, lookup-erase p q children)
bucket-put_bucket p q (x ∷ xs) children = ground (arith, lookup-insert p q (x ∷ xs) children)

bucket_of_none : (p : Text) (children : Buckets) → lookup p children ≡ none → bucket p children ≡ []
unfolding bucket
bucket_of_none p children h = ground arith

bucket_of_some :
    (p : Text) (xs : List Text) (children : Buckets)
    → lookup p children ≡ some xs
    → bucket p children ≡ xs
unfolding bucket
bucket_of_some p xs children h = ground arith

pub bucket-remove_child :
    (p c q : Text) (children : Buckets)
    → bucket q (remove_child p c children)
      ≡ (if p == q then remove c (bucket q children) else bucket q children)
unfolding remove_child remove
bucket-remove_child p c q children = elim (Option-cases (lookup p children)) [
  | inl e ↦ ground (arith, e, bucket_of_none p children e)
  | inr (xs, e) ↦
      ground
        (arith, e, bucket_of_some p xs children e, bucket-put_bucket p q (remove c xs) children)
]

pub bucket-add_child :
    (p c q : Text) (children : Buckets)
    → bucket q (add_child p c children)
      ≡ (if p == q then set_insert c (bucket q children) else bucket q children)
unfolding bucket add_child
bucket-add_child p c q children =
    ground (arith, lookup-insert p q (set_insert c (bucket p children)) children)

-- `c` is listed under `p`.
abbrev pub is_child : Buckets → Text → Text → Bool
is_child children p c = contains (bucket p children) c

pub is_child-remove_child :
    (p c q x : Text) (children : Buckets)
    → is_child (remove_child p c children) q x
      ≡ (if p == q && c == x then false else is_child children q x)
is_child-remove_child p c q x children =
    ground (arith, bucket-remove_child p c q children, contains-remove c x (bucket q children))

pub is_child-add_child :
    (p c q x : Text) (children : Buckets)
    → is_child (add_child p c children) q x
      ≡ (if p == q && c == x then true else is_child children q x)
is_child-add_child p c q x children = ground (arith, bucket-add_child p c q children)

-- The bucket of `p` lists `c` exactly when the parent map says that `p` is the parent of `c`. Each
-- item has one entry, and each bucket lists a child once.
pub record IsIndexed (p : RootCatalogProjection) : Type 0 where
  pub inverse :
      (q c : Text) → is_child p.children_by_parent q c ≡ (lookup c p.parents == some (some q))
  pub one_entry : IsNodup (keys p.parents)
  pub no_repeats : (q : Text) → IsNodup (bucket q p.children_by_parent)

-- After an upsert the item has its new parent, and every other item the parent that it had.
pub parent-apply_upsert :
    (item : RemoteItem) (p : RootCatalogProjection) (x : Text)
    → lookup x (apply_upsert item p).parents
      ≡ (if item.remote_id == x then some item.parent_remote_id else lookup x p.parents)
unfolding apply_upsert
parent-apply_upsert item p x = lookup-insert item.remote_id x item.parent_remote_id p.parents

is_child-attach :
    (parent : Option Text) (c q x : Text) (children : Buckets)
    → is_child (attach parent c children) q x
      ≡ (if parent == some q && c == x then true else is_child children q x)
is_child-attach none c q x children = ground arith
is_child-attach (some parent) c q x children =
    ground (arith, is_child-add_child parent c q x children)

is_child-detach :
    (old : Option (Option Text)) (c q x : Text) (children : Buckets)
    → is_child (detach old c children) q x
      ≡ (if old == some (some q) && c == x then false else is_child children q x)
is_child-detach none c q x children = ground arith
is_child-detach (some none) c q x children = ground arith
is_child-detach (some (some old)) c q x children =
    ground (arith, is_child-remove_child old c q x children)

module _ (q : Text) (children : Buckets) (u : IsNodup (bucket q children)) where
  pub remove_child-IsNodup : (p c : Text) → IsNodup (bucket q (remove_child p c children))
  remove_child-IsNodup p c =
      ground (arith, bucket-remove_child p c q children, remove-IsNodup c (bucket q children) u)

  add_child-IsNodup : (p c : Text) → IsNodup (bucket q (add_child p c children))
  add_child-IsNodup p c = ground (arith, bucket-add_child p c q children)

  detach-IsNodup :
      (old : Option (Option Text)) (c : Text) → IsNodup (bucket q (detach old c children))
  detach-IsNodup (some (some old)) c = remove_child-IsNodup old c
  detach-IsNodup _ c = u

  attach-IsNodup : (parent : Option Text) (c : Text) → IsNodup (bucket q (attach parent c children))
  attach-IsNodup none c = u
  attach-IsNodup (some parent) c = add_child-IsNodup parent c

-- An upsert keeps the buckets the inverse of the parent map: the item leaves its old parent's
-- bucket and joins that of its new parent.
pub apply_upsert-IsIndexed :
    (item : RemoteItem) (p : RootCatalogProjection) → IsIndexed p → IsIndexed (apply_upsert item p)
unfolding apply_upsert
apply_upsert-IsIndexed item p h = record {
  inverse = λ q c. ground (
    arith,
    is_child-attach parent id q c (detach old id p.children_by_parent),
    is_child-detach old id q c p.children_by_parent,
    lookup-insert id c parent p.parents,
    h.inverse q c,
  );
  one_entry = insert-IsNodup id parent p.parents h.one_entry;
  no_repeats = λ q.
      attach-IsNodup q (detach old id p.children_by_parent)
        (detach-IsNodup q p.children_by_parent (h.no_repeats q) old id) parent id;
}
  where
    id : Text
    id = item.remote_id

    parent : Option Text
    parent = item.parent_remote_id

    old : Option (Option Text)
    old = lookup id p.parents

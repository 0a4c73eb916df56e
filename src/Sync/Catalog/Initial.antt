-- ===== src/Sync/Catalog/Initial.antt =====
-- What `RootCatalogProjection::new` builds.
use nubisync.Base.{
  List, Option, Text, [], contains_key, if◌then◌else◌, int_eq, lookup, nat_eq, none, ok, option_eq,
  some, text_eq, true, ◌==◌, ◌∷◌, ◌≡◌, >>-eq-ok, >>=-eq-ok, arith, false, is_blank, not, refl,
  reject_if, ◌∙◌,
}
use nubisync.Core.Remote.{RemoteItem}
use nubisync.Sync.Projection.{RootCatalogProjection, apply_upsert, bucket, is_complete}
use nubisync.Sync.Projection.Index.{IsIndexed, apply_upsert-IsIndexed, parent-apply_upsert}
use nubisync.Sync.Projection.Complete.{HangsUnderRoot, is_complete_iff}
use nubisync.Sync.Catalog.{add_initial, empty_projection, new_projection}

-- The parent that the items give for an id; `none` if no item has it.
abbrev pub parent_in : List RemoteItem → Text → Option (Option Text)
parent_in [] x = none
parent_in (item ∷ items) x =
    if item.remote_id == x then some item.parent_remote_id else parent_in items x

abbrev or_else : Option (Option Text) → Option (Option Text) → Option (Option Text)
or_else none b = b
or_else (some a) b = some a

add_initial_lem :
    (items : List RemoteItem) (p : RootCatalogProjection) {p' : RootCatalogProjection}
    → add_initial items p ≡ ok p'
    → IsIndexed p
    → IsIndexed p'
      × (p'.root_remote_id ≡ p.root_remote_id)
      × ((x : Text) → lookup x p'.parents ≡ or_else (lookup x p.parents) (parent_in items x))
unfolding add_initial contains_key
add_initial_lem [] p {p'} e h =
    let same : p ≡ p' = ground arith in rw (← same) (h, refl, λ x. ground arith)
add_initial_lem (item ∷ items) p {p'} e h =
    let next = apply_upsert item p in
    let added : add_initial items next ≡ ok p' = ground arith in
    let fresh : contains_key item.remote_id p.parents ≡ false = ground arith in
    let (index, root, entries) =
      add_initial_lem items next added (apply_upsert-IsIndexed item p h) in
    (
      index,
      root ∙ root-apply_upsert item p,
      λ x. ground (arith, entries x, parent-apply_upsert item p x, fresh),
    )
  where
    root-apply_upsert :
        (i : RemoteItem) (r : RootCatalogProjection)
        → (apply_upsert i r).root_remote_id ≡ r.root_remote_id
    root-apply_upsert i r = unfold apply_upsert in refl

empty-IsIndexed : (root : Text) → IsIndexed (empty_projection root)
unfolding bucket lookup
empty-IsIndexed root = record {
  inverse = λ q c. ground arith;
  one_entry = tt;
  no_repeats = λ q. tt;
}

-- A new projection holds exactly the given items, each under the parent that it names; its buckets
-- are the inverse of the parent map, and every item hangs under the root.
pub new_projection_holds :
    (root : Text) (items : List RemoteItem) (p : RootCatalogProjection)
    → new_projection root items ≡ ok p
    → (p.root_remote_id ≡ root)
      × ((x : Text) → lookup x p.parents ≡ parent_in items x)
      × IsIndexed p
      × ((x : Text) → contains_key x p.parents ≡ true → HangsUnderRoot p x)
unfolding new_projection
new_projection_holds root items p e =
    let (_, added) = >>-eq-ok (reject_if (is_blank root) _) _ e in
    let (q, built, checked) = >>=-eq-ok (add_initial items (empty_projection root)) _ added in
    let (done, same) = >>-eq-ok (reject_if (not (is_complete q)) _) (ok q) checked in
    let (index, top, entries) =
      add_initial_lem items (empty_projection root) built (empty-IsIndexed root) in
    let eq : q ≡ p = ground arith in
    rw (← eq)
      (top, λ x. unfold lookup in entries x, index, (is_complete_iff q index).0 (ground arith))

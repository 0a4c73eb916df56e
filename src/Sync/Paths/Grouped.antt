-- ===== src/Sync/Paths/Grouped.antt =====
-- What the first two loops of `build_remote_expected_paths` establish.
use nubisync.Base.{
  All, Dict, List, Text, [], ok, some, ◌∷◌, ◌≡◌, >>-eq-ok, >>=-eq-ok, All-snoc, Bool-cases, Option,
  ap, arith, inl, inr, insert, int_eq, lookup-insert, nat_eq, none, ok_or, option_eq, reject_if,
  text_eq, ◌++◌, ◌==◌, ◌∙◌, if◌then◌else◌,
}
use nubisync.Core.Remote.{RemoteItemKind, RemoteItem}
use nubisync.Sync.Local.{validate_safe_remote_name}
use nubisync.Sync.Local.Safe.{IsSafeName, validate_safe_remote_name_iff}
use nubisync.Sync.Paths.{
  Siblings, siblings_of, Grouping, index_remote_items, group_under, group_remote_items,
}

index_remote_items_lem :
    (seen : List Text) (kinds : Dict Text RemoteItemKind) (items : List RemoteItem)
    {out : Dict Text RemoteItemKind}
    → index_remote_items seen kinds items ≡ ok out
    → All (λ item. IsSafeName item.name) items
unfolding index_remote_items
index_remote_items_lem seen kinds [] e = tt
index_remote_items_lem seen kinds (item ∷ items) e =
    let (_, e₁) = >>-eq-ok (reject_if _ _) _ e in
    let (named, e₂) = >>-eq-ok (validate_safe_remote_name item.name) _ e₁ in
    let (_, e₃) = >>-eq-ok (reject_if _ _) _ e₂ in
    (
      (validate_safe_remote_name_iff item.name).0 named,
      index_remote_items_lem (item.remote_id ∷ seen) (insert item.remote_id item.kind kinds) items
          e₃,
    )

-- The items of each bucket satisfy `P`, and name the bucket's key as their parent.
abbrev AreGrouped {κ} : (RemoteItem → Type κ) → Siblings → Type κ
AreGrouped P children =
    (q : Text) → All (λ item. P item × (item.parent_remote_id ≡ some q)) (siblings_of q children)

ok_or-eq-ok : {E A : Type 0} (o : Option A) (e : E) {a : A} → ok_or o e ≡ ok a → o ≡ some a
ok_or-eq-ok none e h = cc
ok_or-eq-ok (some a) e h = ground arith

siblings_of-insert :
    (p q : Text) (xs : List RemoteItem) (children : Siblings)
    → siblings_of q (insert p xs children) ≡ (if p == q then xs else siblings_of q children)
unfolding siblings_of
siblings_of-insert p q xs children = ground (arith, lookup-insert p q xs children)

children-group_under :
    (kinds : Dict Text RemoteItemKind) (parent : Text) (item : RemoteItem) (g : Grouping)
    {g' : Grouping}
    → group_under kinds parent item g ≡ ok g'
    → g'.children_by_parent
      ≡ insert parent (siblings_of parent g.children_by_parent ++ item ∷ []) g.children_by_parent
unfolding group_under
children-group_under kinds parent item g e = ground arith

module _ {κ} (P : RemoteItem → Type κ) where
  group_under-AreGrouped :
      (kinds : Dict Text RemoteItemKind) (parent : Text) (item : RemoteItem) (g : Grouping)
      {g' : Grouping}
      → group_under kinds parent item g ≡ ok g'
      → P item
      → item.parent_remote_id ≡ some parent
      → AreGrouped P g.children_by_parent
      → AreGrouped P g'.children_by_parent
  group_under-AreGrouped kinds parent item g {g'} e p named h q =
      rw (children-group_under kinds parent item g e) (elim (Bool-cases (parent == q)) [
        | inl here ↦
            let same : parent ≡ q = ground arith in
            rw (siblings_of-insert, here)
              (All-snoc (λ i. P i × (i.parent_remote_id ≡ some q))
                (siblings_of parent g.children_by_parent) item (rw same (h q))
                (p, named ∙ ap some same))
        | inr there ↦ rw (siblings_of-insert, there) (h q)
      ])

  pub group_remote_items-AreGrouped :
      (kinds : Dict Text RemoteItemKind) (items : List RemoteItem) (g : Grouping) {g' : Grouping}
      → group_remote_items kinds items g ≡ ok g'
      → All P items
      → AreGrouped P g.children_by_parent
      → AreGrouped P g'.children_by_parent
  unfolding group_remote_items
  group_remote_items-AreGrouped kinds [] g {g'} e a h =
      let same : g ≡ g' = ground arith in rw (← same) h
  group_remote_items-AreGrouped kinds (item ∷ items) g {g'} e a h =
      let (parent, named, e₁) = >>=-eq-ok (ok_or item.parent_remote_id _) _ e in
      let (next, grouped, e₂) = >>=-eq-ok (group_under kinds parent item g) _ e₁ in
      group_remote_items-AreGrouped kinds items next e₂ a.1 (
        group_under-AreGrouped kinds parent item g grouped a.0
          (ok_or-eq-ok item.parent_remote_id _ named) h)

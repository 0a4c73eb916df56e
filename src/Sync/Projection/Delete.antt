-- ===== src/Sync/Projection/Delete.antt =====
-- What `delete_subtree` removes.
use mathlib.Core.Path.{subst}
use nubisync.Base.{
  IsSubset, List, Option-cases, Text, [], inl, inr, int_eq, nat_eq, option_eq, some, suc, text_eq,
  true, zero, ℕ, ◌++◌, ◌∷◌, ◌≡◌, ==_refl, Bool-cases, arith, contains, contains-append, ◌==◌, ◌↔◌,
}
use nubisync.Sync.Projection.{Buckets, bucket, collect_subtree}
use nubisync.Sync.Projection.Index.{is_child}

-- `x` is `top`, or lies under it.
pub data Below (children : Buckets) (top : Text) : Text → Type 0 where
  self : Below children top top
  under : {p c : Text} → Below children top p → is_child children p c ≡ true → Below children top c

module _ (children : Buckets) where
  collect-step :
      (fuel : ℕ) (x : Text) (queue : List Text) {order : List Text}
      → collect_subtree (suc fuel) children (x ∷ queue) ≡ some order
      → (rest : List Text) × (collect_subtree fuel children (queue ++ bucket x children)
          ≡ some rest)
        × (order ≡ x ∷ rest)
  unfolding collect_subtree
  collect-step fuel x queue e =
      elim (Option-cases (collect_subtree fuel children (queue ++ bucket x children))) [
        | inl f ↦ ground (arith, f)
        | inr (rest, f) ↦ (rest, f, ground (arith, f))
      ]

  -- All that the queue lists is in the order.
  collect-queue :
      (fuel : ℕ) (queue order : List Text)
      → collect_subtree fuel children queue ≡ some order
      → IsSubset queue order
  unfolding collect_subtree
  collect-queue fuel [] order e a m = cc
  collect-queue zero (x ∷ queue) order e a m = cc
  collect-queue (suc fuel) (x ∷ queue) order e a m =
      let (rest, f, g) = collect-step fuel x queue e in
      ground (
        arith,
        g,
        collect-queue fuel (queue ++ bucket x children) rest f a,
        contains-append queue (bucket x children) a,
      )

  -- The order is closed under children.
  pub collect-closed :
      (fuel : ℕ) (queue order : List Text)
      → collect_subtree fuel children queue ≡ some order
      → (p c : Text) → contains order p ≡ true
      → is_child children p c ≡ true
      → contains order c ≡ true
  unfolding collect_subtree
  collect-closed fuel [] order e p c m k = ground arith
  collect-closed zero (x ∷ queue) order e p c m k = cc
  collect-closed (suc fuel) (x ∷ queue) order e p c m k =
      let (rest, f, g) = collect-step fuel x queue e in
      ground (
        arith,
        g,
        collect-closed fuel (queue ++ bucket x children) rest f p c,
        collect-queue fuel (queue ++ bucket x children) rest f c,
        contains-append queue (bucket x children) c,
      )

  -- What is in the order lies under the queue.
  collect-Below :
      (top : Text) (fuel : ℕ) (queue order : List Text)
      → ((a : Text) → contains queue a ≡ true → Below children top a)
      → collect_subtree fuel children queue ≡ some order
      → (a : Text) → contains order a ≡ true
      → Below children top a
  unfolding collect_subtree
  collect-Below top fuel [] order b e a m = absurd (ground arith)
  collect-Below top zero (x ∷ queue) order b e a m = cc
  collect-Below top (suc fuel) (x ∷ queue) order b e a m =
      let (rest, f, g) = collect-step fuel x queue e in
      elim (Bool-cases (x == a)) [
        | inl here ↦ b a (ground arith)
        | inr there ↦
            collect-Below top fuel (queue ++ bucket x children) rest
              (λ c k. elim (Bool-cases (contains queue c)) [
                | inl q ↦ b c (ground arith)
                | inr new ↦
                    under (b x (ground (arith, ==_refl x)))
                      (ground (arith, contains-append queue (bucket x children) c))
              ])
              f a (ground (arith, g))
      ]

  -- The order holds exactly the item and all that lies under it.
  pub collect_iff_Below :
      (fuel : ℕ) (top : Text) {order : List Text}
      → collect_subtree fuel children (top ∷ []) ≡ some order
      → (a : Text) → (contains order a ≡ true) ↔ Below children top a
  collect_iff_Below fuel top {order} e a = (
    collect-Below top fuel (top ∷ []) order
        (λ c m. let same : top ≡ c = ground arith in subst (λ z. Below children top z) same self) e
        a,
    covers a,
  )
    where
      covers : (c : Text) → Below children top c → contains order c ≡ true
      covers c self = collect-queue fuel (top ∷ []) order e c (ground (arith, ==_refl c))
      covers c (under b k) = collect-closed fuel (top ∷ []) order e _ c (covers _ b) k

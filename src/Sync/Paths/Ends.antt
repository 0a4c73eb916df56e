-- ===== src/Sync/Paths/Ends.antt =====
-- The loop over the queue in `build_remote_expected_paths` ends within the fuel.
use nubisync.Base.{
  ==_refl, Among, IsNodup, IsSubset, List, Result-cases, Text, [], ap, arith, contains, err, inl,
  inr, int_eq, length, length-le_of_subset, nat_eq, ok, option_eq, refl, some, suc, text_eq, true,
  zero, ℕ, ◌++◌, ◌+◌, ◌<◌, ◌∷◌, ◌≡◌,
}
use nubisync.Core.Remote.{RemoteItem}
use nubisync.Sync.Hydration.{ids_of}
use nubisync.Sync.Hydration.Whole.{length-ids_of}
use nubisync.Sync.Local.{Planned}
use nubisync.Sync.Paths.{Siblings, Queue, Expansion, record_path, expand_item, expand}
use nubisync.Sync.Paths.Expand.{AreQueued, AreChildren, expand_item-eq-ok, AreQueued-step}

pub contains-Among :
    (item : RemoteItem) (items : List RemoteItem)
    → Among item items
    → contains (ids_of items) item.remote_id ≡ true
contains-Among item [] m = absurd m
contains-Among item (i ∷ items) (inl e) =
    let id : i.remote_id ≡ item.remote_id = ap (λ (j : RemoteItem). j.remote_id) e in
    rw id (ground (arith, ==_refl item.remote_id))
contains-Among item (i ∷ items) (inr m) = ground (arith, contains-Among item items m)

module _ (items : List RemoteItem) (root : Text) where
  pub expand_ends :
      (fuel : ℕ) (children : Siblings) (queue : Queue) (x : Expansion)
      → AreChildren items root children
      → AreQueued items root x.expected_paths queue
      → IsNodup x.visited
      → IsSubset x.visited (ids_of items)
      → length items < fuel + length x.visited
      → (r : Planned Expansion) × (expand fuel children queue x ≡ some r)
  unfolding expand
  expand_ends fuel children [] x a q u s h = (ok x, refl)
  expand_ends zero children (_ ∷ queue) x a q u s h =
      absurd (omega (arith, length-le_of_subset x.visited (ids_of items) u s, length-ids_of items))
  expand_ends (suc fuel) children ((item, path) ∷ queue) x a ((m, placed), rest) u s h =
      elim (Result-cases (expand_item children item path x)) [
        | inr (e, f) ↦ (err e, ground (arith, f))
        | inl (queued, f) ↦
            let (safe, fresh, new, below) = expand_item-eq-ok items root children item path x f in
            let (r, g) =
              expand_ends fuel children (queue ++ queued) (record_path item path x) a
                (AreQueued-step items root item path x children queue a rest below) (fresh, u)
                (λ b k. ground (arith, s b, contains-Among item items m)) (omega arith) in
            (r, ground (arith, f, g))
      ]

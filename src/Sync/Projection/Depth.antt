-- ===== src/Sync/Projection/Depth.antt =====
-- The walk of `delete_subtree` ends on a forest: a bound on its rounds.
use nubisync.Base.{
  ==_refl, List, Text, [], ap, arith, contains, int_eq, nat_eq, option_eq, refl, some, suc, text_eq,
  true, zero, ℕ, ◌++◌, ◌+◌, ◌<◌, ◌∷◌, ◌≡◌, ◌≤◌, Bool-cases, contains-append, inl, inr,
}
use nubisync.Sync.Projection.{
  RootCatalogProjection, Buckets, bucket, collect_subtree, delete_all, delete_subtree,
}
use nubisync.Sync.Projection.Index.{is_child}

-- A height that falls from a parent to each of its children: there is no cycle.
abbrev pub IsRanked : Buckets → (Text → ℕ) → Type 0
IsRanked children rank = (p c : Text) → is_child children p c ≡ true → rank c < rank p

unfoldable pub sum_over : (Text → ℕ) → List Text → ℕ
sum_over f [] = 0
sum_over f (x ∷ xs) = f x + sum_over f xs

sum_over-append :
    (f : Text → ℕ) (xs ys : List Text) → sum_over f (xs ++ ys) ≡ sum_over f xs + sum_over f ys
unfolding sum_over
sum_over-append f [] ys = omega arith
sum_over-append f (x ∷ xs) ys = omega (arith, sum_over-append f xs ys)

sum_over-congr :
    (f g : Text → ℕ) (xs : List Text)
    → ((y : Text) → contains xs y ≡ true → f y ≡ g y)
    → sum_over f xs ≡ sum_over g xs
unfolding sum_over
sum_over-congr f g [] h = refl
sum_over-congr f g (x ∷ xs) h =
    omega
      (arith, h x (ground (arith, ==_refl x)), sum_over-congr f g xs (λ y m. h y (ground arith)))

-- The rounds that one item takes with all below it, down to a depth.
unfoldable pub rounds : ℕ → Buckets → Text → ℕ
rounds zero children x = 0
rounds (suc depth) children x = suc (sum_over (rounds depth children) (bucket x children))

module _ (children : Buckets) (rank : Text → ℕ) (ranked : IsRanked children rank) where
  rounds-stable :
      (n m : ℕ) (x : Text) → rank x < n → rank x < m → rounds n children x ≡ rounds m children x
  unfolding rounds
  rounds-stable zero m x h k = elim h [ ]
  rounds-stable (suc n) zero x h k = elim k [ ]
  rounds-stable (suc n) (suc m) x h k = ap suc (
      sum_over-congr (rounds n children) (rounds m children) (bucket x children) (λ y c.
        let lower : rank y < rank x = ranked x y c in
        rounds-stable n m y (omega arith) (omega arith)))

  -- One round leaves one round less for the queue.
  rounds_of_queue :
      (n : ℕ) (x : Text) (queue : List Text)
      → rank x < suc n
      → sum_over (rounds (suc n) children) (x ∷ queue)
        ≡ suc (sum_over (rounds (suc n) children) (queue ++ bucket x children))
  unfolding rounds sum_over
  rounds_of_queue n x queue h = omega (
    arith,
    sum_over-append (rounds (suc n) children) queue (bucket x children),
    sum_over-congr (rounds n children) (rounds (suc n) children) (bucket x children) (λ y c.
        let lower : rank y < rank x = ranked x y c in
        rounds-stable n (suc n) y (omega arith) (omega arith)),
  )

  queue_low :
      (n : ℕ) (x : Text) (queue : List Text)
      → ((y : Text) → contains (x ∷ queue) y ≡ true → rank y < n)
      → (y : Text) → contains (queue ++ bucket x children) y ≡ true
      → rank y < n
  queue_low n x queue low y m = elim (Bool-cases (contains queue y)) [
    | inl old ↦ low y (ground arith)
    | inr new ↦
        let lower : rank y < rank x =
          ranked x y (ground (arith, contains-append queue (bucket x children) y)) in
        let top : rank x < n = low x (ground (arith, ==_refl x)) in omega arith
  ]

  collect_ends :
      (fuel n : ℕ) (queue : List Text)
      → ((x : Text) → contains queue x ≡ true → rank x < n)
      → sum_over (rounds n children) queue ≤ fuel
      → (order : List Text) × (collect_subtree fuel children queue ≡ some order)
  unfolding collect_subtree
  collect_ends fuel n [] low h = ([], refl)
  collect_ends fuel zero (x ∷ queue) low h = absurd (elim (low x (ground (arith, ==_refl x))) [ ])
  collect_ends zero (suc n) (x ∷ queue) low h =
      absurd (omega (arith, rounds_of_queue n x queue (low x (ground (arith, ==_refl x)))))
  collect_ends (suc fuel) (suc n) (x ∷ queue) low h =
      let spent = rounds_of_queue n x queue (low x (ground (arith, ==_refl x))) in
      let (order, e) =
        collect_ends fuel (suc n) (queue ++ bucket x children) (queue_low (suc n) x queue low)
          (omega (arith, spent)) in
      (x ∷ order, ground (arith, e))

-- Where no item lies below itself, `delete_subtree` returns a catalog: as many rounds as there are
-- ways down from the item are enough.
pub delete_subtree_returns :
    (p : RootCatalogProjection) (rank : Text → ℕ)
    → IsRanked p.children_by_parent rank
    → (id : Text) (fuel : ℕ) → rounds (suc (rank id)) p.children_by_parent id ≤ fuel
    → (p' : RootCatalogProjection) × (delete_subtree fuel id p ≡ some p')
unfolding delete_subtree
delete_subtree_returns p rank ranked id fuel h =
    let (order, e) =
      collect_ends p.children_by_parent rank ranked fuel (suc (rank id)) (id ∷ [])
        (λ x m. let same : id ≡ x = ground arith in rw same (omega arith))
        (unfold sum_over in omega arith) in
    (delete_all order p, ground (arith, e))

-- ===== src/Sync/Projection/Walk.antt =====
-- The breadth-first walk: what it reaches, and that its fuel is enough.
use nubisync.Base.{
  ==_refl, Bool-cases, IsNodup, IsSubset, List, Text, [], arith, contains, contains-append, inl,
  inr, int_eq, length, length-append, length-le_of_subset, nat_eq, not, option_eq, refl, some, suc,
  text_eq, true, zero, ℕ, ◌&&◌, ◌++◌, ◌+◌, ◌==◌, ◌||◌, ◌∷◌, ◌≡◌, ◌≤◌, ◌⊎◌,
}
use nubisync.Sync.Projection.{Buckets, bucket, visit_children, reach}
use nubisync.Sync.Projection.Index.{is_child}
use nubisync.Sync.Projection.Delete.{Below, self, under}

abbrev queue_of : List Text → List Text → List Text → List Text
queue_of children queue reached = (visit_children children queue reached).0

abbrev reached_of : List Text → List Text → List Text → List Text
reached_of children queue reached = (visit_children children queue reached).1

contains-reached_of :
    (children queue reached : List Text) (x : Text)
    → contains (reached_of children queue reached) x ≡ (contains reached x || contains children x)
unfolding visit_children
contains-reached_of [] queue reached x = ground arith
contains-reached_of (c ∷ children) queue reached x = ground (
  arith,
  contains-reached_of children queue reached x,
  contains-reached_of children (queue ++ c ∷ []) (c ∷ reached) x,
)

contains-queue_of :
    (children queue reached : List Text) (x : Text)
    → contains (queue_of children queue reached) x
      ≡ (contains queue x || (contains children x && not (contains reached x)))
unfolding visit_children
contains-queue_of [] queue reached x = ground arith
contains-queue_of (c ∷ children) queue reached x = ground (
  arith,
  contains-queue_of children queue reached x,
  contains-queue_of children (queue ++ c ∷ []) (c ∷ reached) x,
  contains-append queue (c ∷ []) x,
)

reached_of-IsNodup :
    (children queue reached : List Text)
    → IsNodup reached
    → IsNodup (reached_of children queue reached)
unfolding visit_children
reached_of-IsNodup [] queue reached u = u
reached_of-IsNodup (c ∷ children) queue reached u = ground (
  arith,
  reached_of-IsNodup children queue reached u,
  reached_of-IsNodup children (queue ++ c ∷ []) (c ∷ reached),
)

-- An id joins the set whenever it joins the queue.
length-queue_of :
    (children queue reached : List Text)
    → length (queue_of children queue reached) + length reached
      ≡ length queue + length (reached_of children queue reached)
unfolding visit_children
length-queue_of [] queue reached = omega arith
length-queue_of (c ∷ children) queue reached = ground (
  arith,
  length-queue_of children queue reached,
  length-queue_of children (queue ++ c ∷ []) (c ∷ reached),
  length-append queue (c ∷ []),
)

module _ (children : Buckets) where
  pub reach-IsNodup :
      (fuel : ℕ) (queue reached : List Text) {all : List Text}
      → reach fuel children queue reached ≡ some all
      → IsNodup reached
      → IsNodup all
  unfolding reach
  reach-IsNodup fuel [] reached e u = ground arith
  reach-IsNodup zero (p ∷ queue) reached e u = cc
  reach-IsNodup (suc fuel) (p ∷ queue) reached e u =
      reach-IsNodup fuel (queue_of (bucket p children) queue reached)
        (reached_of (bucket p children) queue reached) e
        (reached_of-IsNodup (bucket p children) queue reached u)

  pub reach_keeps :
      (fuel : ℕ) (queue reached : List Text) {all : List Text}
      → reach fuel children queue reached ≡ some all
      → IsSubset reached all
  unfolding reach
  reach_keeps fuel [] reached e x m = ground arith
  reach_keeps zero (p ∷ queue) reached e x m = cc
  reach_keeps (suc fuel) (p ∷ queue) reached e x m =
      reach_keeps fuel (queue_of (bucket p children) queue reached)
        (reached_of (bucket p children) queue reached) e x
        (ground (arith, contains-reached_of (bucket p children) queue reached x))

  -- A property of what is there and of every child of what lies under the top holds of all.
  pub reach_sound {κ} :
      (top : Text) (P : Text → Type κ)
      → ((q c : Text) → Below children top q → is_child children q c ≡ true → P c)
      → (fuel : ℕ) (queue reached : List Text) {all : List Text}
      → reach fuel children queue reached ≡ some all
      → ((x : Text) → contains queue x ≡ true → Below children top x)
      → ((x : Text) → contains reached x ≡ true → P x)
      → (x : Text) → contains all x ≡ true
      → P x
  unfolding reach
  reach_sound top P step fuel [] reached e b h x m = h x (ground arith)
  reach_sound top P step zero (p ∷ queue) reached e b h x m = cc
  reach_sound top P step (suc fuel) (p ∷ queue) reached e b h x m =
      reach_sound top P step fuel (queue_of (bucket p children) queue reached)
        (reached_of (bucket p children) queue reached) e
        (λ y k. elim (Bool-cases (contains queue y)) [
          | inl old ↦ b y (ground arith)
          | inr new ↦
              under (b p (ground (arith, ==_refl p)))
                (ground (arith, contains-queue_of (bucket p children) queue reached y))
        ])
        (λ y k. elim (Bool-cases (contains reached y)) [
          | inl old ↦ h y old
          | inr new ↦
              step p y (b p (ground (arith, ==_refl p)))
                (ground (arith, contains-reached_of (bucket p children) queue reached y))
        ])
        x m

  -- In each round an id of the set waits in the queue, or its children are all in the set.
  abbrev IsSettled : Text → List Text → List Text → Type 0
  IsSettled top queue reached =
      (p : Text)
      → contains (top ∷ reached) p ≡ true
      → (contains queue p ≡ true)
        ⊎ ((c : Text) → is_child children p c ≡ true → contains reached c ≡ true)

  IsSettled-step :
      (top p : Text) (queue reached : List Text)
      → IsSettled top (p ∷ queue) reached
      → IsSettled top
          (queue_of (bucket p children) queue reached)
          (reached_of (bucket p children) queue reached)
  IsSettled-step top p queue reached s x m = elim (Bool-cases (p == x)) [
    | inl here ↦
        let same : p ≡ x = ground arith in
        inr (λ c k. ground (arith, contains-reached_of (bucket p children) queue reached c))
    | inr there ↦ elim (Bool-cases (contains (top ∷ reached) x)) [
      | inr new ↦ inl (
          ground (
            arith,
            contains-queue_of (bucket p children) queue reached x,
            contains-reached_of (bucket p children) queue reached x,
          ))
      | inl old ↦ elim (s x old) [
        | inl waits ↦ inl (ground (arith, contains-queue_of (bucket p children) queue reached x))
        | inr done ↦ inr (λ c k.
            ground (arith, done c k, contains-reached_of (bucket p children) queue reached c))
      ]
    ]
  ]

  reach-IsSettled :
      (top : Text) (fuel : ℕ) (queue reached : List Text) {all : List Text}
      → reach fuel children queue reached ≡ some all
      → IsSettled top queue reached
      → IsSettled top [] all
  unfolding reach
  reach-IsSettled top fuel [] reached {all} e s =
      let same : reached ≡ all = ground arith in rw (← same) s
  reach-IsSettled top zero (p ∷ queue) reached e s = cc
  reach-IsSettled top (suc fuel) (p ∷ queue) reached e s =
      reach-IsSettled top fuel (queue_of (bucket p children) queue reached)
        (reached_of (bucket p children) queue reached) e (IsSettled-step top p queue reached s)

  -- Every child of what lies under the top is reached.
  pub reach_complete :
      (top : Text) (fuel : ℕ) (queue reached : List Text) {all : List Text}
      → reach fuel children queue reached ≡ some all
      → IsSettled top queue reached
      → (q c : Text) → Below children top q
      → is_child children q c ≡ true
      → contains all c ≡ true
  reach_complete top fuel queue reached {all} e s q c b k = closed q c (inside q b) k
    where
      closed :
          (x y : Text)
          → contains (top ∷ all) x ≡ true
          → is_child children x y ≡ true
          → contains all y ≡ true
      closed x y m j = elim (reach-IsSettled top fuel queue reached e s x m) [
        | inl never ↦ cc
        | inr done ↦ done y j
      ]

      inside : (x : Text) → Below children top x → contains (top ∷ all) x ≡ true
      inside x self = ground (arith, ==_refl x)
      inside x (under b' j) = ground (arith, closed _ x (inside _ b') j)

  -- A round takes one id off the queue and adds to the queue what it adds to the set, so the walk
  -- ends within as many rounds as ids are queued or not reached yet.
  pub reach_ends :
      (ids : List Text)
      → ((q c : Text) → is_child children q c ≡ true → contains ids c ≡ true)
      → (fuel : ℕ) (queue reached : List Text) → IsNodup reached
      → IsSubset reached ids
      → length queue + length ids ≤ fuel + length reached
      → (all : List Text) × (reach fuel children queue reached ≡ some all)
  unfolding reach
  reach_ends ids known fuel [] reached u s h = (reached, refl)
  reach_ends ids known zero (p ∷ queue) reached u s h =
      absurd (omega (arith, length-le_of_subset reached ids u s))
  reach_ends ids known (suc fuel) (p ∷ queue) reached u s h =
      reach_ends ids known fuel (queue_of (bucket p children) queue reached)
        (reached_of (bucket p children) queue reached)
        (reached_of-IsNodup (bucket p children) queue reached u)
        (λ x m.
          ground (arith, contains-reached_of (bucket p children) queue reached x, s x, known p x))
        (omega (arith, length-queue_of (bucket p children) queue reached))

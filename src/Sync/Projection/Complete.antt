-- ===== src/Sync/Projection/Complete.antt =====
-- What `is_complete` decides.
use nubisync.Base.{
  Bool-cases, Dict, List, Option, Text, [], all, arith, contains, contains-keys, contains_key,
  false, inl, inr, int_eq, keys, length, length-keys, length-le_of_subset, nat_eq, option_eq, refl,
  some, subset_of_length-le, suc, text_eq, true, ◌<◌, ◌==◌, ◌↔◌, ◌∷◌, ◌≡◌,
}
use nubisync.Sync.Projection.{RootCatalogProjection, reach, no_entries, is_complete}
use nubisync.Sync.Projection.Index.{is_child, IsIndexed}
use nubisync.Sync.Projection.Delete.{Below, self}
use nubisync.Sync.Projection.Walk.{reach-IsNodup, reach_sound, reach_complete, reach_ends}

-- The item hangs under the root, by a chain of parents that are all in the catalog.
abbrev pub HangsUnderRoot : RootCatalogProjection → Text → Type 0
HangsUnderRoot p x =
    (q : Text) × Below p.children_by_parent p.root_remote_id q
    × (is_child p.children_by_parent q x ≡ true)

length_of_no_entries {ℓ} : {A : Type ℓ} (xs : List A) → no_entries xs ≡ false → 0 < length xs
length_of_no_entries [] h = cc
length_of_no_entries (x ∷ xs) h = omega arith

absent_of_no_entries :
    (d : Dict Text (Option Text)) (x : Text) → no_entries d ≡ true → contains (keys d) x ≡ false
absent_of_no_entries [] x h = refl
absent_of_no_entries (_ ∷ d) x h = cc

module _ (p : RootCatalogProjection) (h : IsIndexed p) where
  -- The walk from the root ends within the fuel.
  walk_ends :
      (all : List Text) × (reach
          (suc (length p.parents))
          p.children_by_parent
          (p.root_remote_id ∷ [])
          []
        ≡ some all)
  walk_ends =
      reach_ends p.children_by_parent (keys p.parents)
        (λ q c m. ground (arith, h.inverse q c, contains-keys c p.parents)) (suc (length p.parents))
        (p.root_remote_id ∷ []) [] tt (λ x m. cc) (omega (arith, length-keys p.parents))

  module _ (all : List Text)
      (e : reach (suc (length p.parents)) p.children_by_parent (p.root_remote_id ∷ []) []
        ≡ some all) where
    reached_hangs : (x : Text) → contains all x ≡ true → HangsUnderRoot p x
    reached_hangs x m =
        reach_sound p.children_by_parent p.root_remote_id (HangsUnderRoot p) (λ q c b k. (q, b, k))
          (suc (length p.parents)) (p.root_remote_id ∷ []) [] e
          (λ y k. let same : p.root_remote_id ≡ y = ground arith in rw (← same) self) (λ y k. cc) x
          m

    hanging_reached : (x : Text) → HangsUnderRoot p x → contains all x ≡ true
    hanging_reached x (q, b, k) =
        reach_complete p.children_by_parent p.root_remote_id (suc (length p.parents))
          (p.root_remote_id ∷ []) [] e (λ y m. inl (ground arith)) q x b k

    reached_known : (x : Text) → contains all x ≡ true → contains (keys p.parents) x ≡ true
    reached_known x m =
        let (q, b, k) = reached_hangs x m in
        ground (arith, h.inverse q x, contains-keys x p.parents)

    is_complete-step :
        no_entries p.parents ≡ false → is_complete p ≡ (length all == length p.parents)
    unfolding is_complete
    is_complete-step f = ground (arith, e)

    complete_sound :
        length all ≡ length p.parents
        → (x : Text) → contains_key x p.parents ≡ true
        → HangsUnderRoot p x
    complete_sound same x known = reached_hangs x (
        subset_of_length-le all (keys p.parents)
          (reach-IsNodup p.children_by_parent (suc (length p.parents)) (p.root_remote_id ∷ []) [] e
            tt)
          reached_known (omega (arith, length-keys p.parents)) x
          (unfold contains_key in ground (arith, contains-keys x p.parents)))

    complete_counts :
        ((x : Text) → contains_key x p.parents ≡ true → HangsUnderRoot p x)
        → length all ≡ length p.parents
    complete_counts every = omega (
      arith,
      length-keys p.parents,
      length-le_of_subset all (keys p.parents)
          (reach-IsNodup p.children_by_parent (suc (length p.parents)) (p.root_remote_id ∷ []) [] e
            tt)
          reached_known,
      length-le_of_subset (keys p.parents) all h.one_entry (λ x m.
          hanging_reached x
            (every x (unfold contains_key in ground (arith, contains-keys x p.parents)))),
    )

  -- Where the buckets are the inverse of the parent map, `is_complete` holds exactly when every item
  -- of the catalog hangs under the root, by parents that are in the catalog.
  pub is_complete_iff :
      (is_complete p ≡ true) ↔ ((x : Text) → contains_key x p.parents ≡ true → HangsUnderRoot p x)
  is_complete_iff = elim (Bool-cases (no_entries p.parents)) [
    | inl empty ↦ (
      λ _ x known. absurd (
          unfold contains_key in
          ground (arith, contains-keys x p.parents, absent_of_no_entries p.parents x empty)),
      λ _. unfold is_complete in ground arith,
    )
    | inr full ↦
        let (all, e) = walk_ends in
        (
          λ c. complete_sound all e (ground (arith, is_complete-step all e full)),
          λ every. ground (arith, is_complete-step all e full, complete_counts all e every),
        )
  ]

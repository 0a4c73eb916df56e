-- ===== src/Storage/Subtree/Closed.antt =====
-- The query `subtree` of crates/nubisync-storage/src/lib.rs against the items that hang under an id.
use nubisync.Base.{
  Bool, Dict, IsNodup, List, Option, Text, ℕ, [], ◌∷◌, ◌≡◌, ◌↔◌, ◌≤◌, ◌||◌, ◌&&◌, ◌==◌, arith,
  contains, false, inl, inr, keys, length, lookup, none, option_eq, some, suc, text_eq, true, zero,
  Option-cases, ==→≡, Bool-cases, int_eq, nat_eq, refl,
}
use mathlib.Core.Path.{subst}
use nubisync.Storage.Tables.{ItemRow}
use nubisync.Storage.Subtree.{take_child, grow_subtree, subtree, is_child}
use nubisync.Sync.Catalog.Mutations.{Stored, InSubtree, itself, child}

abbrev pub parent_entry : Option ItemRow → Option (Option Text)
parent_entry none = none
parent_entry (some row) = some row.parent_remote_id

-- The stored catalog, as the parent entry of each id.
abbrev pub stored_items : Dict Text ItemRow → Stored
stored_items items = λ x. parent_entry (lookup x items)

has_row : Dict Text ItemRow → Text → Text → Bool
has_row [] c p = false
has_row ((id, row) ∷ rows) c p = (id == c && row.parent_remote_id == some p) || has_row rows c p

has_row-fresh :
    (items : Dict Text ItemRow) (c p : Text)
    → has_row items c p ≡ true
    → contains (keys items) c ≡ true
unfolding has_row
has_row-fresh [] c p h = ground arith
has_row-fresh ((id, row) ∷ rows) c p h = ground (arith, has_row-fresh rows c p)

stored-has_row :
    (items : Dict Text ItemRow) (c p : Text)
    → IsNodup (keys items)
    → (stored_items items c ≡ some (some p)) ↔ (has_row items c p ≡ true)
unfolding lookup has_row
stored-has_row [] c p u = (λ e. ground arith, λ e. ground arith)
stored-has_row ((id, row) ∷ rows) c p (fresh, u) =
    let later = stored-has_row rows c p u in
    (λ e. ground (arith, later.0), λ e. ground (arith, later.1, has_row-fresh rows c p))

-- No row is left to take: none of them has its parent among the ids.
take_child-none :
    (found : List Text) (rows : Dict Text ItemRow) (c p : Text)
    → take_child found rows ≡ none
    → has_row rows c p ≡ true
    → contains found p ≡ false
unfolding take_child has_row
take_child-none found [] c p e h = ground arith
take_child-none found ((id, row) ∷ rows) c p e h = ground (arith, take_child-none found rows c p)

-- The row that is taken, and those that are left.
record Taken (found : List Text) (rows : Dict Text ItemRow) (id : Text) (rest : Dict Text ItemRow)
    : Type 0 where
  fewer : length rows ≡ suc (length rest)
  linked : (q : Text) × (contains found q ≡ true) × (has_row rows id q ≡ true)
  within : (c p : Text) → has_row rest c p ≡ true → has_row rows c p ≡ true
  others : (c p : Text) → has_row rows c p ≡ true → (id == c || has_row rest c p) ≡ true

is_child-parent :
    (found : List Text) (parent : Option Text)
    → is_child found parent ≡ true
    → (q : Text) × (contains found q ≡ true) × (parent ≡ some q)
is_child-parent found none e = ground arith
is_child-parent found (some q) e = (q, e, refl)

first-Taken :
    (found : List Text) (id : Text) (row : ItemRow) (rows : Dict Text ItemRow)
    → is_child found row.parent_remote_id ≡ true
    → Taken found ((id, row) ∷ rows) id rows
unfolding has_row
first-Taken found id row rows e =
    let (q, among, link) = is_child-parent found row.parent_remote_id e in
    record {
      fewer = refl;
      linked = (q, among, ground arith);
      within = λ c p h. ground arith;
      others = λ c p h. ground arith;
    }

later-Taken :
    (found : List Text) (x : Text) (row : ItemRow) (rows : Dict Text ItemRow) (id : Text)
    (rest : Dict Text ItemRow)
    → Taken found rows id rest
    → Taken found ((x, row) ∷ rows) id ((x, row) ∷ rest)
unfolding has_row
later-Taken found x row rows id rest t =
    let (q, among, link) = t.linked in
    record {
      fewer = omega (arith, t.fewer);
      linked = (q, among, ground arith);
      within = λ c p h. ground (arith, t.within c p);
      others = λ c p h. ground (arith, t.others c p);
    }

take_child-Taken :
    (found : List Text) (rows : Dict Text ItemRow) {id : Text} {rest : Dict Text ItemRow}
    → take_child found rows ≡ some (id, rest)
    → Taken found rows id rest
unfolding take_child
take_child-Taken found [] e = ground arith
take_child-Taken found ((x, row) ∷ rows) {id} {rest} e =
    elim (Bool-cases (is_child found row.parent_remote_id)) [
      | inl here ↦
          let same : (x ≡ id) × (rows ≡ rest) = ground arith in
          subst (λ i. Taken found ((x, row) ∷ rows) i rest) same.0
            (subst (Taken found ((x, row) ∷ rows) x) same.1 (first-Taken found x row rows here))
      | inr away ↦ elim (Option-cases (take_child found rows)) [
        | inl nothing ↦ ground arith
        | inr ((i, r), taken) ↦
            let same : (i ≡ id) × ((x, row) ∷ r ≡ rest) = ground arith in
            subst (λ i. Taken found ((x, row) ∷ rows) i rest) same.0
              (subst (Taken found ((x, row) ∷ rows) i) same.1
                (later-Taken found x row rows i r (take_child-Taken found rows taken)))
      ]
    ]

pub grow_subtree-keeps :
    (fuel : ℕ) (found : List Text) (rows : Dict Text ItemRow) (x : Text)
    → contains found x ≡ true
    → contains (grow_subtree fuel found rows) x ≡ true
unfolding grow_subtree
grow_subtree-keeps zero found rows x h = h
grow_subtree-keeps (suc fuel) found rows x h = elim (Option-cases (take_child found rows)) [
  | inl e ↦ rw (e, grow_subtree) h
  | inr ((id, rest), e) ↦
      rw (e, grow_subtree) (grow_subtree-keeps fuel (id ∷ found) rest x (ground arith))
]

grow_subtree-closed :
    (fuel : ℕ) (found : List Text) (rows : Dict Text ItemRow) (c p : Text)
    → length rows ≤ fuel
    → (contains found c || has_row rows c p) ≡ true
    → contains (grow_subtree fuel found rows) p ≡ true
    → contains (grow_subtree fuel found rows) c ≡ true
unfolding grow_subtree has_row
grow_subtree-closed zero found [] c p le covered = λ h. ground arith
grow_subtree-closed zero found (_ ∷ _) c p le covered = absurd (omega (arith, le))
grow_subtree-closed (suc fuel) found rows c p le covered =
    elim (Option-cases (take_child found rows)) [
      | inl e ↦ rw (e, grow_subtree) (λ h. ground (arith, take_child-none found rows c p e))
      | inr ((id, rest), e) ↦
          let taken = take_child-Taken found rows e in
          rw (e, grow_subtree)
            (grow_subtree-closed fuel (id ∷ found) rest c p (omega (arith, le, taken.fewer))
              (ground (arith, taken.others c p)))
    ]

grow_subtree_sound :
    (s : Stored) (top : Text) (fuel : ℕ) (found : List Text) (rows : Dict Text ItemRow)
    → ((x : Text) → contains found x ≡ true → InSubtree s top x)
    → ((c p : Text) → has_row rows c p ≡ true → s c ≡ some (some p))
    → (x : Text) → contains (grow_subtree fuel found rows) x ≡ true
    → InSubtree s top x
unfolding grow_subtree
grow_subtree_sound s top zero found rows in_found entry x = in_found x
grow_subtree_sound s top (suc fuel) found rows in_found entry x =
    elim (Option-cases (take_child found rows)) [
      | inl e ↦ rw (e, grow_subtree) (in_found x)
      | inr ((id, rest), e) ↦
          let taken = take_child-Taken found rows e in
          let (q, among, link) = taken.linked in
          let next : InSubtree s top id = child (in_found q among) (entry id q link) in
          rw (e, grow_subtree)
            (grow_subtree_sound s top fuel (id ∷ found) rest (extend next)
              (λ c p r. entry c p (taken.within c p r)) x)
    ]
  where
    extend :
        {id : Text}
        → InSubtree s top id
        → (y : Text) → contains (id ∷ found) y ≡ true
        → InSubtree s top y
    extend {id} next y h = elim (Bool-cases (id == y)) [
      | inl e ↦ subst (InSubtree s top) (==→≡ id y e) next
      | inr n ↦ in_found y (ground arith)
    ]

-- The query finds the id and the items below it.
pub subtree_iff :
    (top : Text) (items : Dict Text ItemRow) (x : Text)
    → IsNodup (keys items)
    → (contains (subtree top items) x ≡ true) ↔ InSubtree (stored_items items) top x
unfolding subtree
subtree_iff top items x u = (
  grow_subtree_sound (stored_items items) top (length items) (top ∷ []) items (λ y h. only_top y h)
      (λ c p r. (stored-has_row items c p u).1 r) x,
  found x,
)
  where
    only_top : (y : Text) → contains (top ∷ []) y ≡ true → InSubtree (stored_items items) top y
    only_top y h = subst (InSubtree (stored_items items) top) (==→≡ top y (ground arith)) itself

    found :
        (y : Text)
        → InSubtree (stored_items items) top y
        → contains (grow_subtree (length items) (top ∷ []) items) y ≡ true
    found y itself = grow_subtree-keeps (length items) (top ∷ []) items top (ground arith)
    found y (child {p = q} b e) =
        grow_subtree-closed (length items) (top ∷ []) items y q (omega arith)
          (ground (arith, (stored-has_row items y q u).0 e)) (found q b)

-- ===== src/Storage/Local/Journal.antt =====
-- What a reconciliation leaves in the journal of local changes of crates/nubisync-storage/src/lib.rs.
use nubisync.Base.{
  Text, List, Option, Bool, [], ◌∷◌, ◌≡◌, ◌∙◌, ap, refl, ℕ, none, some, true, false, lookup, arith,
  inl, inr, Bool-cases, ==→≡, text_eq, nat_eq, option_eq, int_eq, ◌==◌, ◌&&◌, if◌then◌else◌,
  ==_refl, >>-eq-ok, insert, lookup-insert, ok, ok-injective, reject_if, sym, ℤ,
}
use mathlib.Core.Path.{subst}
use nubisync.Storage.LocalEvent.{LocalChangeEventInput}
use nubisync.Storage.Local.{
  Journal, JournalRow, is_pending, supersede, journal_key_eq, Baseline, insert_events, journal_row,
}

-- The change that is pending in a row.
abbrev pub pending_change : Text → Option JournalRow → Option LocalChangeEventInput
pending_change path none = none
pending_change path (some row) =
    if is_pending row.status
    then some (record {
      relative_path = path;
      kind = row.event_kind;
      baseline_kind = row.baseline_kind;
      current_kind = row.current_kind;
    })
    else none

abbrev pub or_change :
    Option LocalChangeEventInput → Option LocalChangeEventInput → Option LocalChangeEventInput
or_change none other = other
or_change (some event) other = some event

-- The last change of the path.
abbrev pub last_change : Text → List LocalChangeEventInput → Option LocalChangeEventInput
last_change path [] = none
last_change path (event ∷ events) =
    or_change (last_change path events) (if event.relative_path == path then some event else none)

or_change_assoc :
    (a b c : Option LocalChangeEventInput)
    → or_change a (or_change b c) ≡ or_change (or_change a b) c
or_change_assoc none b c = refl
or_change_assoc (some a) b c = refl

pub or_change-none : (a : Option LocalChangeEventInput) → or_change a none ≡ a
or_change-none none = refl
or_change-none (some a) = refl

pending_change-none :
    (path : Text) (row : JournalRow)
    → is_pending row.status ≡ false
    → pending_change path (some row) ≡ none
pending_change-none path row h = rw h refl

-- Nothing of the generation is pending after it is superseded.
pub pending-supersede :
    (test : ℕ × Text → Bool) (key : ℕ × Text) (path : Text) (rows : Journal)
    → test key ≡ true
    → pending_change path (lookup key (supersede test rows)) ≡ none
unfolding lookup supersede
pending-supersede test key path [] h = refl
pending-supersede test key path ((k, row) ∷ rows) h =
    let rest = pending-supersede test key path rows h in
    elim (Bool-cases (k == key)) [
      | inl same ↦
          let t : test k ≡ true = ap test (==→≡ k key same) ∙ h in
          elim (Bool-cases (is_pending row.status)) [
            | inl p ↦ rw (p, t, same) refl
            | inr n ↦ rw (n, same, n) refl
          ]
      | inr other ↦ elim (Bool-cases (is_pending row.status && test k)) [
        | inl p ↦ rw (p, other) rest
        | inr n ↦ rw (n, other) rest
      ]
    ]

pub lookup-supersede_other :
    (test : ℕ × Text → Bool) (key : ℕ × Text) (rows : Journal)
    → test key ≡ false
    → lookup key (supersede test rows) ≡ lookup key rows
unfolding lookup supersede
lookup-supersede_other test key [] h = refl
lookup-supersede_other test key ((k, row) ∷ rows) h =
    let rest = lookup-supersede_other test key rows h in
    elim (Bool-cases (k == key)) [
      | inl same ↦
          let t : test k ≡ false = ap test (==→≡ k key same) ∙ h in
          elim (Bool-cases (is_pending row.status)) [
            | inl p ↦ rw (p, t, same) refl
            | inr n ↦ rw (n, same) refl
          ]
      | inr other ↦ elim (Bool-cases (is_pending row.status && test k)) [
        | inl p ↦ rw (p, other) rest
        | inr n ↦ rw (n, other) rest
      ]
    ]

abbrev same_key : ℕ × Text → ℕ × Text → Bool
same_key a b = a == b

same_key-path : (g : ℕ) (p x : Text) → (p == x) ≡ false → same_key (g, p) (g, x) ≡ false
same_key-path g p x h = elim (Bool-cases (same_key (g, p) (g, x))) [
  | inl same ↦
      let paths : p ≡ x = ap (λ (k : ℕ × Text). k.1) (==→≡ (g, p) (g, x) same) in
      ground (arith, paths, h)
  | inr other ↦ other
]

same_key-generation : (g h : ℕ) (p x : Text) → (g == h) ≡ false → same_key (g, p) (h, x) ≡ false
same_key-generation g h p x n = elim (Bool-cases (same_key (g, p) (h, x))) [
  | inl same ↦
      let generations : g ≡ h = ap (λ (k : ℕ × Text). k.0) (==→≡ (g, p) (h, x) same) in
      ground (arith, generations, n)
  | inr other ↦ other
]

same_key_refl : (g : ℕ) (p x : Text) → (p == x) ≡ true → same_key (g, p) (g, x) ≡ true
same_key_refl g p x h =
    subst (λ y. same_key (g, p) (g, y) ≡ true) (==→≡ p x h) (==_refl {A = ℕ × Text} (g, p))

pending-insert :
    (baseline : Baseline) (at : ℤ) (event : LocalChangeEventInput) (rows : Journal) (x : Text)
    → pending_change x (
        lookup
          (baseline.generation, x)
          (insert (baseline.generation, event.relative_path) (journal_row baseline at event) rows))
      ≡ or_change
          (if event.relative_path == x then some event else none)
          (pending_change x (lookup (baseline.generation, x) rows))
pending-insert baseline at event rows x =
    let g = baseline.generation in
    let found =
      ap (pending_change x)
        (lookup-insert (g, event.relative_path) (g, x) (journal_row baseline at event) rows) in
    elim (Bool-cases (event.relative_path == x)) [
      | inl same ↦
          let here = same_key_refl g event.relative_path x same in
          found
          ∙ rw (here, same)
              (ap (λ path. some (record event { relative_path = path }))
                (sym (==→≡ event.relative_path x same)))
      | inr other ↦
          let away = same_key-path g event.relative_path x other in found ∙ rw (away, other) refl
    ]

pub pending-insert_events :
    (baseline : Baseline) (at : ℤ) (events : List LocalChangeEventInput) (rows : Journal)
    {final : Journal} (x : Text)
    → insert_events baseline at events rows ≡ ok final
    → pending_change x (lookup (baseline.generation, x) final)
      ≡ or_change (last_change x events) (pending_change x (lookup (baseline.generation, x) rows))
unfolding insert_events
pending-insert_events baseline at [] rows x e =
    ap (λ d. pending_change x (lookup (baseline.generation, x) d)) (sym (ok-injective e))
pending-insert_events baseline at (event ∷ events) rows x e =
    let (_, rest) = >>-eq-ok (reject_if (baseline.generation == 0) _) _ e in
    pending-insert_events baseline at events _ x rest
    ∙ ap (or_change (last_change x events)) (pending-insert baseline at event rows x)
    ∙ or_change_assoc (last_change x events) _ _

pub lookup-insert_events_other :
    (baseline : Baseline) (at : ℤ) (events : List LocalChangeEventInput) (rows : Journal)
    {final : Journal} (h : ℕ) (x : Text)
    → (baseline.generation == h) ≡ false
    → insert_events baseline at events rows ≡ ok final
    → lookup (h, x) final ≡ lookup (h, x) rows
unfolding insert_events
lookup-insert_events_other baseline at [] rows h x n e = ap (lookup (h, x)) (sym (ok-injective e))
lookup-insert_events_other baseline at (event ∷ events) rows h x n e =
    let (_, rest) = >>-eq-ok (reject_if (baseline.generation == 0) _) _ e in
    let g = baseline.generation in
    let away = same_key-generation g h event.relative_path x n in
    lookup-insert_events_other baseline at events _ h x n rest
    ∙ lookup-insert (g, event.relative_path) (h, x) (journal_row baseline at event) rows
    ∙ rw away refl

-- ===== src/Storage/Intents/Runs.antt =====
-- Any run of the transitions of crates/nubisync-storage/src/lib.rs on the intents, whatever else is
-- stored when each of them is called.
use nubisync.Base.{
  [], ◌∷◌, some, sym, ◌∙◌, ap, Option, lookup, lookup-insert, ==→≡, Bool-cases, ◌==◌, int_eq, List,
  arith, inl, inr, nat_eq, option_eq, refl, text_eq, true, ℤ, ◌≡◌, ◌≤◌, ◌⊎◌,
}
use mathlib.Core.Path.{subst}
use nubisync.Storage.Intents.Calls.{Call, outcome, id_of, outcome-IsStep}
use nubisync.Storage.Intents.Graph.{IsConsistent, Moves-IsConsistent, Moves-forward, is_open}
use nubisync.Storage.Intents.{Intents, IntentRow}
use nubisync.Storage.Intents.Begin.{WriteTables}
use nubisync.Storage.Intents.Steps.{IsStep}

-- The intents after a run, with what else is stored at each call.
unfoldable pub run : List (Call × WriteTables) → Intents → Intents
unfolding outcome
run [] intents = intents
run ((c, t) ∷ calls) intents = run calls (outcome c (record t { intents = intents })).1

abbrev pub AreConsistent : Intents → Type 0
AreConsistent intents = (id : ℤ) (row : IntentRow) → lookup id intents ≡ some row → IsConsistent row

-- What a run keeps of an intent: it is still there, for the same operation, at the same or a later
-- generation, and unchanged if it had come to an end.
pub record Continues (row : IntentRow) (found : Option IntentRow) : Type 0 where
  pub later : IntentRow
  pub there : found ≡ some later
  pub forward : row.execution_generation ≤ later.execution_generation
  pub same_operation : later.operation_kind ≡ row.operation_kind
  pub final : (is_open row.status ≡ true) ⊎ (later ≡ row)

IsStep-Continues :
    (id : ℤ) (intents intents' : Intents) (x : ℤ) (row : IntentRow)
    → IsStep id intents intents'
    → lookup x intents ≡ some row
    → Continues row (lookup x intents')
IsStep-Continues id intents intents' x row s e = elim (Bool-cases (id == x)) [
  | inl same ↦
      let row_eq : s.row ≡ row = ground (arith, s.found, ==→≡ id x same) in
      let (still, forward, operation) = Moves-forward s.edge in
      record {
        later = s.next;
        there = ap (lookup x) s.result ∙ ground (arith, lookup-insert id x s.next intents);
        forward = subst (λ r. r.execution_generation ≤ s.next.execution_generation) row_eq forward;
        same_operation = operation ∙ ap (λ (r : IntentRow). r.operation_kind) row_eq;
        final = inl (subst (λ r. is_open r.status ≡ true) row_eq still);
      }
  | inr other ↦ record {
    later = row;
    there = ap (lookup x) s.result ∙ ground (arith, lookup-insert id x s.next intents, e);
    forward = omega arith;
    same_operation = refl;
    final = inr refl;
  }
]

unchanged-Continues :
    (row : IntentRow) (found : Option IntentRow) → found ≡ some row → Continues row found
unchanged-Continues row found e = record {
  later = row;
  there = e;
  forward = omega arith;
  same_operation = refl;
  final = inr refl;
}

IsStep-AreConsistent :
    (id : ℤ) (intents intents' : Intents)
    → IsStep id intents intents'
    → AreConsistent intents
    → AreConsistent intents'
IsStep-AreConsistent id intents intents' s h x row e = elim (Bool-cases (id == x)) [
  | inl same ↦
      let next_eq : s.next ≡ row =
        ground (arith, sym s.result, lookup-insert id x s.next intents, e) in
      subst IsConsistent next_eq (Moves-IsConsistent s.edge (h id s.row s.found))
  | inr other ↦ h x row (ground (arith, sym s.result, lookup-insert id x s.next intents, e))
]

Continues-trans :
    {row : IntentRow} {found last : Option IntentRow}
    → (c : Continues row found) → Continues c.later last
    → Continues row last
Continues-trans c d = record {
  later = d.later;
  there = d.there;
  forward = omega (arith, c.forward, d.forward);
  same_operation = d.same_operation ∙ c.same_operation;
  final = elim c.final [
    | inl o ↦ inl o
    | inr e ↦ elim d.final [
      | inl o ↦ inl (subst (λ r. is_open r.status ≡ true) e o)
      | inr f ↦ inr (f ∙ e)
    ]
  ];
}

-- After any run of the transitions, an intent that was there is still there, for the same operation,
-- at the same or a later generation; one that was confirmed, has failed or was superseded is
-- unchanged.
pub run-Continues :
    (calls : List (Call × WriteTables)) (intents : Intents) (id : ℤ) (row : IntentRow)
    → lookup id intents ≡ some row
    → Continues row (lookup id (run calls intents))
unfolding run
run-Continues [] intents id row e = unchanged-Continues row _ e
run-Continues ((c, t) ∷ calls) intents id row e =
    let now = record t { intents = intents } in
    let next = (outcome c now).1 in
    let first = one_call in
    Continues-trans first (run-Continues calls next id first.later first.there)
  where
    one_call : Continues row (lookup id (outcome c (record t { intents = intents })).1)
    one_call = elim (outcome-IsStep c (record t { intents = intents })) [
      | inl same ↦ unchanged-Continues row _ (ap (lookup id) same ∙ e)
      | inr s ↦ IsStep-Continues (id_of c) intents _ id row s e
    ]

-- Any run of the transitions keeps all intents consistent.
pub run-AreConsistent :
    (calls : List (Call × WriteTables)) (intents : Intents)
    → AreConsistent intents
    → AreConsistent (run calls intents)
unfolding run
run-AreConsistent [] intents h = h
run-AreConsistent ((c, t) ∷ calls) intents h = run-AreConsistent calls _ one_call
  where
    one_call : AreConsistent (outcome c (record t { intents = intents })).1
    one_call = elim (outcome-IsStep c (record t { intents = intents })) [
      | inl same ↦ subst AreConsistent (sym same) h
      | inr s ↦ IsStep-AreConsistent (id_of c) intents _ s h
    ]

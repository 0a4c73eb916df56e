-- ===== src/Sync/Materialize/Ready.antt =====
-- What `ready_for_directory_phase` promises.
use mathlib.Core.Path.{subst}
use nubisync.Base.{
  ==_refl, All, Bool, List, Option, Text, [], arith, contains, count_if, false, int_eq, is_some,
  lookup, nat_eq, none, ok, option_eq, refl, some, text_eq, true, ◌↔◌, ◌∷◌, ◌≡◌, ◌≤◌, contains-keys,
  keys, sym,
}
use nubisync.Core.Remote.{RemoteItemKind, file, folder, RemoteItem, kind_eq}
use nubisync.Sync.Local.{LocalTreeEntryKind, LocalTreeEntry, local_kind_eq}
use nubisync.Sync.Paths.{RemoteExpectedPath, build_remote_expected_paths}
use nubisync.Sync.Paths.Layout.{expected_names}
use nubisync.Sync.Materialize.{
  Locals, index_local_entries, ReceiveOnlyMaterializationPlan, Tally, tally_one, tally, no_tally,
  is_local_only, plan_receive_only_materialization, ready_for_directory_phase,
}
use nubisync.Sync.Materialize.Locals.{local_kind_at, lookup-index_local_entries}
use nubisync.Sync.Materialize.Counts.{plan-Made}

-- What stands at an entry's path, if anything, is of the entry's kind.
abbrev pub Fits : RemoteItemKind → Option LocalTreeEntryKind → Type 0
Fits kind none = Unit
Fits file (some k) = k ≡ LocalTreeEntryKind.file
Fits folder (some k) = k ≡ LocalTreeEntryKind.directory

abbrev AllFit : Locals → List RemoteExpectedPath → Type 0
AllFit d [] = Unit
AllFit d (e ∷ es) = Fits e.kind (lookup e.relative_path d) × AllFit d es

tally_mono :
    (d : Locals) (es : List RemoteExpectedPath) (t : Tally)
    → t.type_conflicts ≤ (tally d es t).type_conflicts
unfolding tally
tally_mono d [] t = omega arith
tally_mono d (e ∷ es) t =
    ground (arith, tally_mono d es (tally_one e.kind (lookup e.relative_path d) t))

tally_one-Fits :
    (kind : RemoteItemKind) (found : Option LocalTreeEntryKind) (t : Tally)
    → ((tally_one kind found t).type_conflicts ≡ t.type_conflicts) ↔ Fits kind found
tally_one-Fits file none t = (λ h. tt, λ h. refl)
tally_one-Fits folder none t = (λ h. tt, λ h. refl)
tally_one-Fits file (some LocalTreeEntryKind.file) t = (λ h. refl, λ h. refl)
tally_one-Fits file (some LocalTreeEntryKind.directory) t = (λ h. absurd (omega arith), λ h. cc)
tally_one-Fits folder (some LocalTreeEntryKind.file) t = (λ h. absurd (omega arith), λ h. cc)
tally_one-Fits folder (some LocalTreeEntryKind.directory) t = (λ h. refl, λ h. refl)

tally_one_mono :
    (kind : RemoteItemKind) (found : Option LocalTreeEntryKind) (t : Tally)
    → t.type_conflicts ≤ (tally_one kind found t).type_conflicts
tally_one_mono kind found t = ground arith

tally-AllFit :
    (d : Locals) (es : List RemoteExpectedPath) (t : Tally)
    → ((tally d es t).type_conflicts ≡ t.type_conflicts) ↔ AllFit d es
unfolding tally
tally-AllFit d [] t = (λ h. tt, λ h. refl)
tally-AllFit d (e ∷ es) t =
    let found = lookup e.relative_path d in
    let next = tally_one e.kind found t in
    let (sound, complete) = tally-AllFit d es next in
    let (fit, same) = tally_one-Fits e.kind found t in
    (
      λ h. (
        fit (omega (arith, tally_mono d es next, tally_one_mono e.kind found t)),
        sound (omega (arith, tally_mono d es next, tally_one_mono e.kind found t)),
      ),
      λ h. omega (arith, complete h.1, same h.0),
    )

none_counted :
    (p : Text → Bool) (xs : List Text)
    → (count_if p xs ≡ 0) ↔ ((x : Text) → contains xs x ≡ true → p x ≡ false)
unfolding count_if
none_counted p [] = (λ h x m. cc, λ h. refl)
none_counted p (x ∷ xs) =
    let (sound, complete) = none_counted p xs in
    (
      λ h y m. ground (arith, sound, λ (z : count_if p xs ≡ 0). sound z y),
      λ h. ground (arith, h x, ==_refl x, complete (λ y m. h y (ground arith))),
    )

abbrev FitAt : List LocalTreeEntry → RemoteExpectedPath → Type 0
FitAt entries e = Fits e.kind (local_kind_at entries e.relative_path)

AllFit-All :
    (entries : List LocalTreeEntry) (d : Locals)
    → index_local_entries [] entries ≡ ok d
    → (es : List RemoteExpectedPath) → AllFit d es ↔ All (FitAt entries) es
AllFit-All entries d indexed [] = (λ h. tt, λ h. tt)
AllFit-All entries d indexed (e ∷ es) =
    let (there, back) = AllFit-All entries d indexed es in
    let same = lookup-index_local_entries entries indexed e.relative_path in
    (
      λ h. (subst (Fits e.kind) same h.0, there h.1),
      λ h. (subst (Fits e.kind) (sym same) h.0, back h.1),
    )

-- A plan is ready for the directory phase exactly when every local path is an expected one, and
-- what stands at the path of an expected entry is of that entry's kind.
pub ready_for_directory_phase_iff :
    (items : List RemoteItem) (entries : List LocalTreeEntry) (m : ReceiveOnlyMaterializationPlan)
    (es : List RemoteExpectedPath)
    → plan_receive_only_materialization items entries ≡ ok m
    → build_remote_expected_paths items ≡ ok es
    → (ready_for_directory_phase m ≡ true) ↔ (
        All (λ e. Fits e.kind (local_kind_at entries e.relative_path)) es
        × ((path : Text)
            → is_some (local_kind_at entries path) ≡ true
            → contains (expected_names es) path ≡ true))
unfolding ready_for_directory_phase
ready_for_directory_phase_iff items entries m es e built =
    let made = plan-Made items entries m e in
    let locals = made.locals in
    let same : made.expected ≡ es = ground (arith, made.built, built) in
    let conflicts : m.type_conflicts ≡ (tally locals es no_tally).type_conflicts =
      rw (← same) (ground (arith, made.result)) in
    let extra : m.local_only_entries ≡ count_if (is_local_only es) (keys locals) =
      rw (← same) (ground (arith, made.result)) in
    let (fit, fitting) = tally-AllFit locals es no_tally in
    let (every, each) = AllFit-All entries locals made.indexed es in
    let (known, none_left) = none_counted (is_local_only es) (keys locals) in
    let listed = λ (p : Text). lookup-index_local_entries entries made.indexed p in
    (
      λ h. (
        every (fit (ground (arith, conflicts))),
        λ path m.
            ground
              (arith, known (ground (arith, extra)) path, contains-keys path locals, listed path),
      ),
      λ h. ground (
        arith,
        conflicts,
        extra,
        fitting (each h.0),
        none_left (λ path m. ground (arith, h.1 path, contains-keys path locals, listed path)),
      ),
    )

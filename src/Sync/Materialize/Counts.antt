-- ===== src/Sync/Materialize/Counts.antt =====
-- What the numbers of a materialization plan count, and that the target lists agree with them.
use nubisync.Base.{
  List, [], arith, count_if, int_eq, length, lookup, nat_eq, ok, option_eq, text_eq, ℕ, ◌+◌, ◌∷◌,
  ◌≡◌, >>=-eq-ok, keys,
}
use nubisync.Core.Remote.{file, folder, RemoteItem, kind_eq}
use nubisync.Sync.Local.{LocalTreeEntry, local_kind_eq}
use nubisync.Sync.Paths.{RemoteExpectedPath, build_remote_expected_paths}
use nubisync.Sync.Paths.Built.{build_remote_expected_paths_lem}
use nubisync.Sync.Materialize.{
  Locals, index_local_entries, ReceiveOnlyMaterializationPlan, Tally, tally_one, tally, no_tally,
  has_kind, is_local_only, plan_receive_only_materialization, targets, is_missing, is_existing_file,
  plan_receive_only_missing_directory_targets, plan_receive_only_missing_file_targets,
  plan_receive_only_existing_file_targets, directory_target, file_target,
  ReceiveOnlyDirectoryTarget, ReceiveOnlyFileTarget,
}
use nubisync.Sync.Materialize.Locals.{
  lookup-index_local_entries, contains-local_paths, index-IsNodup, contains-local_files,
}

abbrev classified : Tally → ℕ
classified t =
    t.missing_directories + t.missing_files + t.matching_directories + t.existing_files_unverified
    + t.type_conflicts

classified-tally :
    (d : Locals) (es : List RemoteExpectedPath) (t : Tally)
    → classified (tally d es t) ≡ classified t + length es
unfolding tally
classified-tally d [] t = omega arith
classified-tally d (e ∷ es) t =
    ground (arith, classified-tally d es (tally_one e.kind (lookup e.relative_path d) t))

kinds_partition :
    (es : List RemoteExpectedPath)
    → count_if (has_kind folder) es + count_if (has_kind file) es ≡ length es
unfolding count_if
kinds_partition [] = omega arith
kinds_partition (e ∷ es) = ground (arith, kinds_partition es)

module _ (entries : List LocalTreeEntry) (d : Locals)
    (indexed : index_local_entries [] entries ≡ ok d) where
  missing_directories_tally :
      (es : List RemoteExpectedPath) (t : Tally)
      → (tally d es t).missing_directories
        ≡ t.missing_directories + length (targets (is_missing folder entries) directory_target es)
  unfolding tally targets
  missing_directories_tally [] t = omega arith
  missing_directories_tally (e ∷ es) t = ground (
    arith,
    missing_directories_tally es (tally_one e.kind (lookup e.relative_path d) t),
    contains-local_paths entries e.relative_path,
    lookup-index_local_entries entries indexed e.relative_path,
  )

  missing_files_tally :
      (es : List RemoteExpectedPath) (t : Tally)
      → (tally d es t).missing_files
        ≡ t.missing_files + length (targets (is_missing file entries) file_target es)
  unfolding tally targets
  missing_files_tally [] t = omega arith
  missing_files_tally (e ∷ es) t = ground (
    arith,
    missing_files_tally es (tally_one e.kind (lookup e.relative_path d) t),
    contains-local_paths entries e.relative_path,
    lookup-index_local_entries entries indexed e.relative_path,
  )

  existing_files_tally :
      (es : List RemoteExpectedPath) (t : Tally)
      → (tally d es t).existing_files_unverified
        ≡ t.existing_files_unverified + length (targets (is_existing_file entries) file_target es)
  unfolding tally targets
  existing_files_tally [] t = omega arith
  existing_files_tally (e ∷ es) t = ground (
    arith,
    existing_files_tally es (tally_one e.kind (lookup e.relative_path d) t),
    contains-local_files entries e.relative_path (index-IsNodup entries indexed),
    lookup-index_local_entries entries indexed e.relative_path,
  )

-- The parts of a plan that was made.
pub record Made (items : List RemoteItem) (entries : List LocalTreeEntry)
    (m : ReceiveOnlyMaterializationPlan) : Type 0 where
  pub expected : List RemoteExpectedPath
  pub built : build_remote_expected_paths items ≡ ok expected
  pub locals : Locals
  pub indexed : index_local_entries [] entries ≡ ok locals
  pub result : m ≡ record {
    remote_items = length items;
    remote_directories = count_if (has_kind folder) expected;
    remote_files = count_if (has_kind file) expected;
    local_entries = length entries;
    missing_directories = (tally locals expected no_tally).missing_directories;
    missing_files = (tally locals expected no_tally).missing_files;
    matching_directories = (tally locals expected no_tally).matching_directories;
    existing_files_unverified = (tally locals expected no_tally).existing_files_unverified;
    local_only_entries = count_if (is_local_only expected) (keys locals);
    type_conflicts = (tally locals expected no_tally).type_conflicts;
  }

pub plan-Made :
    (items : List RemoteItem) (entries : List LocalTreeEntry) (m : ReceiveOnlyMaterializationPlan)
    → plan_receive_only_materialization items entries ≡ ok m
    → Made items entries m
unfolding plan_receive_only_materialization
plan-Made items entries m e =
    let (expected, built, e₁) = >>=-eq-ok (build_remote_expected_paths items) _ e in
    let (locals, indexed, e₂) = >>=-eq-ok (index_local_entries [] entries) _ e₁ in
    record {
      expected = expected;
      built = built;
      locals = locals;
      indexed = indexed;
      result = ground (arith, e₂);
    }

-- A plan counts every remote item once: as a directory or a file, and as missing, matching,
-- existing or in conflict.
pub materialization_partition :
    (items : List RemoteItem) (entries : List LocalTreeEntry) (m : ReceiveOnlyMaterializationPlan)
    → plan_receive_only_materialization items entries ≡ ok m
    → (m.remote_items ≡ length items)
      × (m.remote_directories + m.remote_files ≡ m.remote_items)
      × (m.missing_directories + m.missing_files + m.matching_directories
            + m.existing_files_unverified + m.type_conflicts
          ≡ m.remote_items)
materialization_partition items entries m e =
    let made = plan-Made items entries m e in
    let layout = build_remote_expected_paths_lem items made.expected made.built in
    ground (
      arith,
      made.result,
      layout.1.one_for_each,
      kinds_partition made.expected,
      classified-tally made.locals made.expected no_tally,
    )

-- Where there is a plan there are the three target lists, and they have as many targets as the
-- plan counts missing directories, missing files and existing files.
targets_agree :
    (items : List RemoteItem) (entries : List LocalTreeEntry) (m : ReceiveOnlyMaterializationPlan)
    → plan_receive_only_materialization items entries ≡ ok m
    → ((ds : List ReceiveOnlyDirectoryTarget) × (plan_receive_only_missing_directory_targets items
            entries
          ≡ ok ds)
        × (length ds ≡ m.missing_directories))
      × ((fs : List ReceiveOnlyFileTarget) × (plan_receive_only_missing_file_targets items entries
            ≡ ok fs)
          × (length fs ≡ m.missing_files))
      × ((fs : List ReceiveOnlyFileTarget) × (plan_receive_only_existing_file_targets items entries
            ≡ ok fs)
          × (length fs ≡ m.existing_files_unverified))
unfolding plan_receive_only_missing_directory_targets plan_receive_only_missing_file_targets
    plan_receive_only_existing_file_targets
targets_agree items entries m e =
    let made = plan-Made items entries m e in
    let es = made.expected in
    (
      (
        targets (is_missing folder entries) directory_target es,
        rw (e, made.built),
        ground (
          arith,
          made.result,
          missing_directories_tally entries made.locals made.indexed es no_tally,
        ),
      ),
      (
        targets (is_missing file entries) file_target es,
        rw (e, made.built),
        ground
            (arith, made.result, missing_files_tally entries made.locals made.indexed es no_tally),
      ),
      (
        targets (is_existing_file entries) file_target es,
        rw (e, made.built),
        ground
            (arith, made.result, existing_files_tally entries made.locals made.indexed es no_tally),
      ),
    )

-- ===== src/Tests/Materialize.antt =====
-- The expected paths and the materialization plan of crates/nubisync-sync/src/lib.rs, run.
use nubisync.Base.{
  compare_text, contains_key, count_if, insert, insert_sorted, int_eq, is_blank, is_whitespace,
  lookup, nat_eq, option_eq, sort_by, split, text_eq, text_pair_eq, All, Dict, List, Text, [],
  codes, contains, is_some, length, none, ok, refl, some, true, ◌+◌, ◌↔◌, ◌∷◌, ◌≡◌,
}
use nubisync.Tests.{root_id, docs_id, notes_id, song_id, docs, notes, song, catalog}
use nubisync.Core.Remote.{RemoteItemKind, file, folder, kind_eq}
use nubisync.Sync.Local.{
  LocalTreeEntryKind, LocalTreeEntry, validate_safe_remote_name, validate_safe_relative_path,
  local_kind_eq,
}
use nubisync.Sync.Paths.{
  RemoteExpectedPath, build_remote_expected_paths, Grouping, no_grouping, group_remote_items,
  expand_all, compare_siblings, expand, expand_item, group_under, index_remote_items,
  queue_children, siblings_of, single_external,
}
use nubisync.Sync.Paths.Layout.{IsLayout, expected_names}
use nubisync.Sync.Paths.Built.{build_remote_expected_paths_lem}
use nubisync.Sync.Materialize.{
  ReceiveOnlyMaterializationPlan, plan_receive_only_materialization, ready_for_directory_phase,
  index_local_entries, tally,
}
use nubisync.Sync.Materialize.Locals.{local_kind_at}
use nubisync.Sync.Materialize.Counts.{materialization_partition}
use nubisync.Sync.Materialize.Ready.{Fits, ready_for_directory_phase_iff}

abbrev expected : List RemoteExpectedPath
expected =
    record { relative_path = codes "docs"; kind = folder; remote_id = docs_id; size_bytes = none }
    ∷ record { relative_path = codes "song"; kind = file; remote_id = song_id; size_bytes = some 7 }
    ∷ record {
      relative_path = codes "docs/notes";
      kind = file;
      remote_id = notes_id;
      size_bytes = some 5;
    }
    ∷ []

built : build_remote_expected_paths catalog ≡ ok expected
unfolding int_eq insert lookup insert_sorted sort_by compare_text is_blank is_whitespace split
    text_eq text_pair_eq nat_eq option_eq local_kind_eq validate_safe_relative_path
    validate_safe_remote_name build_remote_expected_paths compare_siblings expand expand_all
    expand_item group_remote_items group_under index_remote_items queue_children siblings_of
    single_external
built = refl

build_remote_expected_paths_lem_example : (root : Text) × IsLayout catalog root expected
build_remote_expected_paths_lem_example = build_remote_expected_paths_lem catalog expected built

abbrev kinds : Dict Text RemoteItemKind
kinds = (docs_id, folder) ∷ (notes_id, file) ∷ (song_id, file) ∷ []

abbrev grouping : Grouping
grouping = record {
  external_parent_ids = root_id ∷ [];
  children_by_parent = (root_id, docs ∷ song ∷ []) ∷ (docs_id, notes ∷ []) ∷ [];
  sibling_names = (root_id, codes "song") ∷ (docs_id, codes "notes") ∷ (root_id, codes "docs") ∷ [];
}

grouped : group_remote_items kinds catalog no_grouping ≡ ok grouping
unfolding int_eq insert lookup text_eq text_pair_eq nat_eq option_eq group_remote_items group_under
    siblings_of
grouped = refl

abbrev entries : List LocalTreeEntry
entries =
    record { relative_path = codes "docs"; kind = LocalTreeEntryKind.directory }
    ∷ record { relative_path = codes "song"; kind = LocalTreeEntryKind.directory }
    ∷ record { relative_path = codes "mine"; kind = LocalTreeEntryKind.file }
    ∷ []

abbrev wanted : ReceiveOnlyMaterializationPlan
wanted = record {
  remote_items = 3;
  remote_directories = 1;
  remote_files = 2;
  local_entries = 3;
  missing_directories = 0;
  missing_files = 1;
  matching_directories = 1;
  existing_files_unverified = 0;
  local_only_entries = 1;
  type_conflicts = 1;
}

is_wanted : plan_receive_only_materialization catalog entries ≡ ok wanted
unfolding int_eq count_if contains_key insert lookup insert_sorted sort_by compare_text is_blank
    is_whitespace split text_eq text_pair_eq nat_eq option_eq kind_eq local_kind_eq
    validate_safe_relative_path validate_safe_remote_name index_local_entries
    plan_receive_only_materialization tally build_remote_expected_paths compare_siblings expand
    expand_all expand_item group_remote_items group_under index_remote_items queue_children
    siblings_of single_external
is_wanted = refl

materialization_partition_example :
    (wanted.remote_items ≡ length catalog)
    × (wanted.remote_directories + wanted.remote_files ≡ wanted.remote_items)
    × (wanted.missing_directories + wanted.missing_files + wanted.matching_directories
          + wanted.existing_files_unverified + wanted.type_conflicts
        ≡ wanted.remote_items)
materialization_partition_example = materialization_partition catalog entries wanted is_wanted

ready_for_directory_phase_iff_example : (ready_for_directory_phase wanted ≡ true) ↔ (
    All (λ e. Fits e.kind (local_kind_at entries e.relative_path)) expected
    × ((path : Text)
        → is_some (local_kind_at entries path) ≡ true
        → contains (expected_names expected) path ≡ true))
ready_for_directory_phase_iff_example =
    ready_for_directory_phase_iff catalog entries wanted expected is_wanted built

notes_safe : validate_safe_remote_name (codes "notes") ≡ ok tt
unfolding int_eq text_eq nat_eq option_eq local_kind_eq validate_safe_remote_name
notes_safe = refl

docs_safe : validate_safe_relative_path (codes "docs") ≡ ok tt
unfolding int_eq split text_eq text_pair_eq nat_eq option_eq local_kind_eq
    validate_safe_relative_path
docs_safe = refl

-- ===== src/Sync/Materialize.antt =====
-- The materialization plan and its target lists, of crates/nubisync-sync/src/lib.rs: what the remote
-- catalog asks of the local tree.
use nubisync.Base.{
  Bool, Dict, List, Option, Text, [], contains, contains_key, count_if, if◌then◌else◌, insert,
  int_eq, keys, length, lookup, nat_eq, none, not, ok, option_eq, reject_if, some, text_eq, ℕ, ◌&&◌,
  ◌+◌, ◌==◌, ◌>>=◌, ◌>>◌, ◌∷◌,
}
pub mod Locals
pub mod Counts
pub mod Ready
use nubisync.Core.Remote.{RemoteItemKind, file, folder, RemoteItem, kind_eq}
use nubisync.Sync.Local.{
  LocalTreeEntryKind, LocalTreeEntry, Planned, duplicate_local_path, validate_safe_relative_path,
  local_kind_eq,
}
use nubisync.Sync.Paths.{RemoteExpectedPath, build_remote_expected_paths}
use nubisync.Sync.Paths.Layout.{expected_names}

abbrev pub Locals : Type 0
Locals = Dict Text LocalTreeEntryKind

-- The loop that fills `local_by_path`.
unfoldable pub index_local_entries : Locals → List LocalTreeEntry → Planned Locals
index_local_entries local_by_path [] = ok local_by_path
index_local_entries local_by_path (entry ∷ entries) =
    let rest = index_local_entries (insert entry.relative_path entry.kind local_by_path) entries in
    do
      validate_safe_relative_path entry.relative_path
      reject_if (contains_key entry.relative_path local_by_path) duplicate_local_path
      rest

pub record ReceiveOnlyMaterializationPlan : Type 0 where
  pub remote_items : ℕ
  pub remote_directories : ℕ
  pub remote_files : ℕ
  pub local_entries : ℕ
  pub missing_directories : ℕ
  pub missing_files : ℕ
  pub matching_directories : ℕ
  pub existing_files_unverified : ℕ
  pub local_only_entries : ℕ
  pub type_conflicts : ℕ

unfoldable pub ready_for_directory_phase : ReceiveOnlyMaterializationPlan → Bool
ready_for_directory_phase plan = plan.type_conflicts == 0 && plan.local_only_entries == 0

-- The five counters of the loop over the expected paths.
pub record Tally : Type 0 where
  pub missing_directories : ℕ
  pub missing_files : ℕ
  pub matching_directories : ℕ
  pub existing_files_unverified : ℕ
  pub type_conflicts : ℕ

abbrev pub tally_one : RemoteItemKind → Option LocalTreeEntryKind → Tally → Tally
tally_one folder none t = record t { missing_directories = t.missing_directories + 1 }
tally_one file none t = record t { missing_files = t.missing_files + 1 }
tally_one folder (some LocalTreeEntryKind.directory) t = record t {
  matching_directories = t.matching_directories + 1;
}
tally_one file (some LocalTreeEntryKind.file) t = record t {
  existing_files_unverified = t.existing_files_unverified + 1;
}
tally_one folder (some LocalTreeEntryKind.file) t = record t {
  type_conflicts = t.type_conflicts + 1;
}
tally_one file (some LocalTreeEntryKind.directory) t = record t {
  type_conflicts = t.type_conflicts + 1;
}

unfoldable pub tally : Locals → List RemoteExpectedPath → Tally → Tally
tally local_by_path [] t = t
tally local_by_path (e ∷ es) t =
    tally local_by_path es (tally_one e.kind (lookup e.relative_path local_by_path) t)

abbrev pub no_tally : Tally
no_tally = record {
  missing_directories = 0;
  missing_files = 0;
  matching_directories = 0;
  existing_files_unverified = 0;
  type_conflicts = 0;
}

abbrev pub has_kind : RemoteItemKind → RemoteExpectedPath → Bool
has_kind kind e = e.kind == kind

abbrev pub is_local_only : List RemoteExpectedPath → Text → Bool
is_local_only expected path = not (contains (expected_names expected) path)

unfoldable pub plan_receive_only_materialization :
    List RemoteItem → List LocalTreeEntry → Planned ReceiveOnlyMaterializationPlan
plan_receive_only_materialization remote_items local_entries = do
  expected ← build_remote_expected_paths remote_items
  local_by_path ← index_local_entries [] local_entries
  let t = tally local_by_path expected no_tally
  ok (record {
    remote_items = length remote_items;
    remote_directories = count_if (has_kind folder) expected;
    remote_files = count_if (has_kind file) expected;
    local_entries = length local_entries;
    missing_directories = t.missing_directories;
    missing_files = t.missing_files;
    matching_directories = t.matching_directories;
    existing_files_unverified = t.existing_files_unverified;
    local_only_entries = count_if (is_local_only expected) (keys local_by_path);
    type_conflicts = t.type_conflicts;
  })

pub record ReceiveOnlyDirectoryTarget : Type 0 where
  pub remote_id : Text
  pub relative_path : Text

pub record ReceiveOnlyFileTarget : Type 0 where
  pub remote_id : Text
  pub relative_path : Text
  pub size_bytes : Option ℕ

abbrev pub directory_target : RemoteExpectedPath → ReceiveOnlyDirectoryTarget
directory_target e = record { remote_id = e.remote_id; relative_path = e.relative_path }

abbrev pub file_target : RemoteExpectedPath → ReceiveOnlyFileTarget
file_target e = record {
  remote_id = e.remote_id;
  relative_path = e.relative_path;
  size_bytes = e.size_bytes;
}

-- `.into_iter().filter_map(|e| p(e).then_some(f(e))).collect()`
unfoldable pub targets :
    {A : Type 0}
    → (RemoteExpectedPath → Bool)
    → (RemoteExpectedPath → A)
    → List RemoteExpectedPath
    → List A
targets p f [] = []
targets p f (e ∷ es) = let rest = targets p f es in if p e then f e ∷ rest else rest

abbrev pub local_paths : List LocalTreeEntry → List Text
local_paths [] = []
local_paths (entry ∷ entries) = entry.relative_path ∷ local_paths entries

-- The paths of the entries that are files.
abbrev pub local_files : List LocalTreeEntry → List Text
local_files [] = []
local_files (entry ∷ entries) =
    if entry.kind == LocalTreeEntryKind.file
    then entry.relative_path ∷ local_files entries
    else local_files entries

unfoldable pub plan_receive_only_directory_targets :
    List RemoteItem → Planned (List ReceiveOnlyDirectoryTarget)
plan_receive_only_directory_targets remote_items = do
  expected ← build_remote_expected_paths remote_items
  ok (targets (has_kind folder) directory_target expected)

abbrev pub is_missing : RemoteItemKind → List LocalTreeEntry → RemoteExpectedPath → Bool
is_missing kind local_entries e =
    has_kind kind e && not (contains (local_paths local_entries) e.relative_path)

abbrev pub is_existing_file : List LocalTreeEntry → RemoteExpectedPath → Bool
is_existing_file local_entries e =
    has_kind file e && contains (local_files local_entries) e.relative_path

unfoldable pub plan_receive_only_missing_directory_targets :
    List RemoteItem → List LocalTreeEntry → Planned (List ReceiveOnlyDirectoryTarget)
plan_receive_only_missing_directory_targets remote_items local_entries = do
  _ ← plan_receive_only_materialization remote_items local_entries
  expected ← build_remote_expected_paths remote_items
  ok (targets (is_missing folder local_entries) directory_target expected)

unfoldable pub plan_receive_only_missing_file_targets :
    List RemoteItem → List LocalTreeEntry → Planned (List ReceiveOnlyFileTarget)
plan_receive_only_missing_file_targets remote_items local_entries = do
  _ ← plan_receive_only_materialization remote_items local_entries
  expected ← build_remote_expected_paths remote_items
  ok (targets (is_missing file local_entries) file_target expected)

unfoldable pub plan_receive_only_existing_file_targets :
    List RemoteItem → List LocalTreeEntry → Planned (List ReceiveOnlyFileTarget)
plan_receive_only_existing_file_targets remote_items local_entries = do
  _ ← plan_receive_only_materialization remote_items local_entries
  expected ← build_remote_expected_paths remote_items
  ok (targets (is_existing_file local_entries) file_target expected)

-- ===== src/Tests/Converge.antt =====
-- The convergence planner of crates/nubisync-sync/src/convergence.rs, run.
use nubisync.Sync.Paths.Layout.{IsLayout}
use nubisync.Sync.Paths.{
  RemoteExpectedPath, build_remote_expected_paths, compare_siblings, expand, expand_all,
  expand_item, group_remote_items, group_under, index_remote_items, queue_children, siblings_of,
  single_external,
}
use nubisync.Sync.Materialize.{index_local_entries, plan_receive_only_materialization, tally}
use nubisync.Sync.Converge.Decide.{
  decide_entry, decide_expected, local_directory_is_empty, local_kind_for_remote,
  receipt_is_settled,
}
use nubisync.Core.Remote.{kind_eq}
use nubisync.Sync.Converge.Drafts.{
  ReceiveOnlyConvergenceActionKind, verify_existing_file, materialize_missing_file,
  revalidate_stale_file_deletion, blocked, action_kind_eq, set_action,
}
use nubisync.Sync.Converge.Index.{make_context, index_expected, index_locals, index_receipts}
use nubisync.Sync.Converge.Carried.{Covers}
use nubisync.Sync.Converge.Sound.{HasReasonFor, plan_receive_only_convergence_justifies}
use nubisync.Sync.Converge.Converged.{IsConverged, plan_without_actions-IsConverged}
use nubisync.Sync.Converge.Order.{IsOrdered, plan_receive_only_convergence-IsOrdered}
use nubisync.Sync.Converge.Bounds.{total, plan_receive_only_convergence_bounds}
use nubisync.Sync.Converge.Plan.{
  plan_receive_only_convergence, ReceiveOnlyConvergencePlan, is_blocked, action_priority,
  add_action, compare_actions, count_actions, draft_actions, draft_entries, draft_entry,
  draft_expected, draft_receipt, draft_receipts, path_depth, sorted_actions, uncounted_plan,
}
use nubisync.Base.{
  List, [], codes, ◌∷◌, All, count_if, int_eq, length, ltb, nat_eq, none, ok, option_eq, refl, some,
  text_eq, ◌==◌, ◌≡◌, ◌≤◌, compare_text, contains_key, insert, insert_sorted, is_blank,
  is_whitespace, lookup, sort_by, split, text_pair_eq, Text,
}
use nubisync.Tests.{catalog}
use nubisync.Sync.Local.{
  LocalTreeEntryKind, LocalTreeEntry, local_kind_eq, validate_safe_relative_path,
  validate_safe_remote_name,
}
use nubisync.Sync.Converge.Receipts.{current, stale, ReceiveOnlyOwnershipReceipt}

-- A file that was written under a receipt and is gone from the catalog, in a folder that is.
abbrev local_entries : List LocalTreeEntry
local_entries =
    record { relative_path = codes "docs"; kind = LocalTreeEntryKind.directory }
    ∷ record { relative_path = codes "old"; kind = LocalTreeEntryKind.directory }
    ∷ record { relative_path = codes "old/a"; kind = LocalTreeEntryKind.file }
    ∷ record { relative_path = codes "mine"; kind = LocalTreeEntryKind.file }
    ∷ record { relative_path = codes "song"; kind = LocalTreeEntryKind.file }
    ∷ []

abbrev receipts : List ReceiveOnlyOwnershipReceipt
receipts =
    record {
      remote_id = codes "8";
      relative_path = codes "old/a";
      kind = LocalTreeEntryKind.file;
      state = stale;
    }
    ∷ record {
      remote_id = codes "9";
      relative_path = codes "old";
      kind = LocalTreeEntryKind.directory;
      state = stale;
    }
    ∷ []

abbrev converge_plan : ReceiveOnlyConvergencePlan
converge_plan = record {
  actions =
      record {
        kind = verify_existing_file;
        remote_id = some (codes "3");
        relative_path = codes "song";
        depth = 1;
      }
      ∷ record {
        kind = materialize_missing_file;
        remote_id = some (codes "2");
        relative_path = codes "docs/notes";
        depth = 2;
      }
      ∷ record {
        kind = revalidate_stale_file_deletion;
        remote_id = some (codes "8");
        relative_path = codes "old/a";
        depth = 2;
      }
      ∷ record { kind = blocked; remote_id = none; relative_path = codes "mine"; depth = 1 }
      ∷ record {
        kind = blocked;
        remote_id = some (codes "9");
        relative_path = codes "old";
        depth = 1;
      }
      ∷ [];
  remote_items = 3;
  local_entries = 5;
  receipt_count = 2;
  create_directories = 0;
  materialize_missing_files = 1;
  verify_existing_files = 1;
  revalidate_stale_file_replacements = 0;
  revalidate_stale_file_deletions = 1;
  delete_owned_empty_directories = 0;
  blocked_actions = 2;
  current_owned_files = 0;
  current_owned_directories = 0;
  unowned_matching_directories = 1;
}

converge_planned :
    plan_receive_only_convergence catalog local_entries receipts 10 ≡ ok converge_plan
unfolding int_eq count_if contains_key insert lookup insert_sorted sort_by compare_text is_blank
    is_whitespace split text_eq text_pair_eq nat_eq option_eq kind_eq decide_entry decide_expected
    local_directory_is_empty local_kind_for_remote receipt_is_settled action_kind_eq set_action
    index_expected index_locals index_receipts make_context action_priority add_action
    compare_actions count_actions draft_actions draft_entries draft_entry draft_expected
    draft_receipt draft_receipts path_depth plan_receive_only_convergence sorted_actions
    uncounted_plan local_kind_eq validate_safe_relative_path validate_safe_remote_name
    index_local_entries plan_receive_only_materialization tally build_remote_expected_paths
    compare_siblings expand expand_all expand_item group_remote_items group_under index_remote_items
    queue_children siblings_of single_external
converge_planned = refl

plan_receive_only_convergence_justifies_example :
    (root : Text) × (es : List RemoteExpectedPath) × IsLayout catalog root es
    × All (HasReasonFor catalog es local_entries receipts) converge_plan.actions
    × Covers catalog es local_entries receipts converge_plan.actions
plan_receive_only_convergence_justifies_example =
    plan_receive_only_convergence_justifies catalog local_entries receipts 10 converge_planned

plan_receive_only_convergence-IsOrdered_example : IsOrdered converge_plan.actions
plan_receive_only_convergence-IsOrdered_example =
    plan_receive_only_convergence-IsOrdered catalog local_entries receipts 10 converge_planned

plan_receive_only_convergence_bounds_example :
    (length converge_plan.actions ≤ 10)
    × (total converge_plan ≡ length converge_plan.actions)
    × (is_blocked converge_plan
        ≡ ltb 0 (
            count_if
              (λ a. a.kind == ReceiveOnlyConvergenceActionKind.blocked)
              converge_plan.actions))
plan_receive_only_convergence_bounds_example =
    plan_receive_only_convergence_bounds catalog local_entries receipts 10 converge_planned

-- The local tree of the catalog, with a receipt for one of its files.
abbrev same_entries : List LocalTreeEntry
same_entries =
    record { relative_path = codes "docs"; kind = LocalTreeEntryKind.directory }
    ∷ record { relative_path = codes "docs/notes"; kind = LocalTreeEntryKind.file }
    ∷ record { relative_path = codes "song"; kind = LocalTreeEntryKind.file }
    ∷ []

abbrev current_receipts : List ReceiveOnlyOwnershipReceipt
current_receipts =
    record {
      remote_id = codes "2";
      relative_path = codes "docs/notes";
      kind = LocalTreeEntryKind.file;
      state = current;
    }
    ∷ record {
      remote_id = codes "3";
      relative_path = codes "song";
      kind = LocalTreeEntryKind.file;
      state = current;
    }
    ∷ []

abbrev idle_plan : ReceiveOnlyConvergencePlan
idle_plan = record {
  actions = [];
  remote_items = 3;
  local_entries = 3;
  receipt_count = 2;
  create_directories = 0;
  materialize_missing_files = 0;
  verify_existing_files = 0;
  revalidate_stale_file_replacements = 0;
  revalidate_stale_file_deletions = 0;
  delete_owned_empty_directories = 0;
  blocked_actions = 0;
  current_owned_files = 2;
  current_owned_directories = 0;
  unowned_matching_directories = 1;
}

idle_planned : plan_receive_only_convergence catalog same_entries current_receipts 10 ≡ ok idle_plan
unfolding int_eq count_if contains_key insert lookup insert_sorted sort_by compare_text is_blank
    is_whitespace split text_eq text_pair_eq nat_eq option_eq kind_eq decide_entry decide_expected
    local_directory_is_empty local_kind_for_remote receipt_is_settled action_kind_eq set_action
    index_expected index_locals index_receipts make_context action_priority add_action
    compare_actions count_actions draft_actions draft_entries draft_entry draft_expected
    draft_receipt draft_receipts path_depth plan_receive_only_convergence sorted_actions
    uncounted_plan local_kind_eq validate_safe_relative_path validate_safe_remote_name
    index_local_entries plan_receive_only_materialization tally build_remote_expected_paths
    compare_siblings expand expand_all expand_item group_remote_items group_under index_remote_items
    queue_children siblings_of single_external
idle_planned = refl

plan_without_actions-IsConverged_example :
    (root : Text) × (es : List RemoteExpectedPath) × IsLayout catalog root es
    × IsConverged es same_entries current_receipts
plan_without_actions-IsConverged_example =
    plan_without_actions-IsConverged catalog same_entries current_receipts 10 idle_planned refl

-- ===== src/Sync/Converge/Plan.antt =====
-- `plan_receive_only_convergence` of crates/nubisync-sync/src/convergence.rs: the three loops over
-- the indexes, the sorted actions and their counts.
use nubisync.Base.{
  Bool, List, Option, Ordering, Text, [], compare, compare_text, contains, if◌then◌else◌, int_eq,
  length, map, nat_eq, not, ok, option_eq, some, sort_by, split, text_eq, then_with, ℕ, ◌&&◌, ◌+◌,
  ◌==◌, ◌>>=◌, ◌∷◌,
}
use nubisync.Core.Path.{slash}
use nubisync.Core.Remote.{RemoteItem}
use nubisync.Sync.Local.{LocalTreeEntry}
use nubisync.Sync.Paths.{RemoteExpectedPath}
use nubisync.Sync.Paths.Layout.{expected_names}
use nubisync.Sync.Converge.Receipts.{ReceiveOnlyOwnershipReceipt, Converged}
use nubisync.Sync.Converge.Drafts.{
  ReceiveOnlyConvergenceActionKind, create_directory, materialize_missing_file,
  verify_existing_file, revalidate_stale_file_replacement, revalidate_stale_file_deletion,
  delete_owned_empty_directory, blocked, action_kind_eq, ActionDraft, Drafts, set_action,
}
use nubisync.Sync.Converge.Index.{Context, make_context}
use nubisync.Sync.Converge.Decide.{
  Decision, act, current_owned_file, current_owned_directory, unowned_matching_directory,
  decide_expected, decide_entry, receipt_is_settled,
}

pub record Drafting : Type 0 where
  pub drafts : Drafts
  pub current_owned_files : ℕ
  pub current_owned_directories : ℕ
  pub unowned_matching_directories : ℕ

unfoldable pub add_action :
    Drafting → ReceiveOnlyConvergenceActionKind → Option Text → Text → ℕ → Converged Drafting
add_action s kind remote_id relative_path max_actions = do
  drafts ←
      set_action s.drafts
        (record { kind = kind; remote_id = remote_id; relative_path = relative_path }) max_actions
  ok (record s { drafts = drafts })

abbrev pub carry_out : Decision → Drafting → RemoteExpectedPath → ℕ → Converged Drafting
carry_out (act kind) s e max_actions =
    add_action s kind (some e.remote_id) e.relative_path max_actions
carry_out current_owned_file s e max_actions =
    ok (record s { current_owned_files = s.current_owned_files + 1 })
carry_out current_owned_directory s e max_actions =
    ok (record s { current_owned_directories = s.current_owned_directories + 1 })
carry_out unowned_matching_directory s e max_actions =
    ok (record s { unowned_matching_directories = s.unowned_matching_directories + 1 })

unfoldable pub draft_expected : Context → List RemoteExpectedPath → Drafting → Converged Drafting
draft_expected c [] s = ok s
draft_expected c (e ∷ es) s = do
  s' ←
      carry_out (decide_expected c.local_by_path c.receipt_by_remote_id c.receipt_by_path e) s e
        c.max_actions
  draft_expected c es s'

-- The body of the loop over the local entries.
unfoldable pub draft_entry : Context → LocalTreeEntry → Drafting → Converged Drafting
draft_entry c entry s =
    if contains (expected_names c.expected_paths) entry.relative_path
    then ok s
    else (let (kind, remote_id) =
          decide_entry c.receipt_by_path c.expected_by_remote_id c.local_entries entry in
        add_action s kind remote_id entry.relative_path c.max_actions)

unfoldable pub draft_entries : Context → List LocalTreeEntry → Drafting → Converged Drafting
draft_entries c [] s = ok s
draft_entries c (entry ∷ entries) s = do s' ← draft_entry c entry s; draft_entries c entries s'

unfoldable pub draft_receipt : Context → ReceiveOnlyOwnershipReceipt → Drafting → Converged Drafting
draft_receipt c receipt s =
    if receipt_is_settled c.local_by_path c.expected_by_remote_id receipt
    then ok s
    else add_action s blocked (some receipt.remote_id) receipt.relative_path c.max_actions

unfoldable pub draft_receipts :
    Context → List ReceiveOnlyOwnershipReceipt → Drafting → Converged Drafting
draft_receipts c [] s = ok s
draft_receipts c (receipt ∷ receipts) s = do
  s' ← draft_receipt c receipt s
  draft_receipts c receipts s'

pub record ReceiveOnlyConvergenceAction : Type 0 where
  pub kind : ReceiveOnlyConvergenceActionKind
  pub remote_id : Option Text
  pub relative_path : Text
  pub depth : ℕ

-- `path.split('/').count()`
unfoldable pub path_depth : Text → ℕ
path_depth path = length (split slash path)

unfoldable pub action_priority : ReceiveOnlyConvergenceActionKind → ℕ
action_priority create_directory = 0
action_priority materialize_missing_file = 1
action_priority verify_existing_file = 1
action_priority revalidate_stale_file_replacement = 1
action_priority revalidate_stale_file_deletion = 2
action_priority delete_owned_empty_directory = 3
action_priority blocked = 4

abbrev pub is_directory_deletion : ReceiveOnlyConvergenceActionKind → Bool
is_directory_deletion kind = kind == delete_owned_empty_directory

-- The comparison that the actions are sorted by.
unfoldable pub compare_actions :
    ReceiveOnlyConvergenceAction → ReceiveOnlyConvergenceAction → Ordering
compare_actions left right =
    then_with (compare (action_priority left.kind) (action_priority right.kind)) (
      then_with
        (if is_directory_deletion left.kind && is_directory_deletion right.kind
          then compare right.depth left.depth
          else compare left.depth right.depth)
        (compare_text left.relative_path right.relative_path))

abbrev pub action_of : Text × ActionDraft → ReceiveOnlyConvergenceAction
action_of (_, draft) = record {
  kind = draft.kind;
  remote_id = draft.remote_id;
  relative_path = draft.relative_path;
  depth = path_depth draft.relative_path;
}

-- A `BTreeMap` yields its values in the order of their keys.
abbrev pub by_key : Text × ActionDraft → Text × ActionDraft → Ordering
by_key (j, _) (k, _) = compare_text j k

unfoldable pub sorted_actions : Drafts → List ReceiveOnlyConvergenceAction
sorted_actions drafts = sort_by compare_actions (map action_of (sort_by by_key drafts))

pub record ReceiveOnlyConvergencePlan : Type 0 where
  pub actions : List ReceiveOnlyConvergenceAction
  pub remote_items : ℕ
  pub local_entries : ℕ
  pub receipt_count : ℕ
  pub create_directories : ℕ
  pub materialize_missing_files : ℕ
  pub verify_existing_files : ℕ
  pub revalidate_stale_file_replacements : ℕ
  pub revalidate_stale_file_deletions : ℕ
  pub delete_owned_empty_directories : ℕ
  pub blocked_actions : ℕ
  pub current_owned_files : ℕ
  pub current_owned_directories : ℕ
  pub unowned_matching_directories : ℕ

unfoldable pub is_blocked : ReceiveOnlyConvergencePlan → Bool
is_blocked plan = not (plan.blocked_actions == 0)

-- The loop that counts the actions.
abbrev pub count_action :
    ReceiveOnlyConvergenceActionKind → ReceiveOnlyConvergencePlan → ReceiveOnlyConvergencePlan
count_action create_directory p = record p { create_directories = p.create_directories + 1 }
count_action materialize_missing_file p = record p {
  materialize_missing_files = p.materialize_missing_files + 1;
}
count_action verify_existing_file p = record p {
  verify_existing_files = p.verify_existing_files + 1;
}
count_action revalidate_stale_file_replacement p = record p {
  revalidate_stale_file_replacements = p.revalidate_stale_file_replacements + 1;
}
count_action revalidate_stale_file_deletion p = record p {
  revalidate_stale_file_deletions = p.revalidate_stale_file_deletions + 1;
}
count_action delete_owned_empty_directory p = record p {
  delete_owned_empty_directories = p.delete_owned_empty_directories + 1;
}
count_action blocked p = record p { blocked_actions = p.blocked_actions + 1 }

unfoldable pub count_actions :
    List ReceiveOnlyConvergenceAction → ReceiveOnlyConvergencePlan → ReceiveOnlyConvergencePlan
count_actions [] p = p
count_actions (a ∷ actions) p = count_actions actions (count_action a.kind p)

abbrev pub no_drafting : Drafting
no_drafting = record {
  drafts = [];
  current_owned_files = 0;
  current_owned_directories = 0;
  unowned_matching_directories = 0;
}

-- The plan that the counting loop starts from.
unfoldable pub uncounted_plan : ℕ → ℕ → ℕ → Drafting → ReceiveOnlyConvergencePlan
uncounted_plan remote_items local_entries receipt_count s = record {
  actions = sorted_actions s.drafts;
  remote_items = remote_items;
  local_entries = local_entries;
  receipt_count = receipt_count;
  create_directories = 0;
  materialize_missing_files = 0;
  verify_existing_files = 0;
  revalidate_stale_file_replacements = 0;
  revalidate_stale_file_deletions = 0;
  delete_owned_empty_directories = 0;
  blocked_actions = 0;
  current_owned_files = s.current_owned_files;
  current_owned_directories = s.current_owned_directories;
  unowned_matching_directories = s.unowned_matching_directories;
}

-- The three loops, one after the other.
unfoldable pub draft_actions : Context → List ReceiveOnlyOwnershipReceipt → Converged Drafting
draft_actions c receipts = do
  s ← draft_expected c c.expected_paths no_drafting
  t ← draft_entries c c.local_entries s
  draft_receipts c receipts t

unfoldable pub plan_receive_only_convergence :
    List RemoteItem
    → List LocalTreeEntry
    → List ReceiveOnlyOwnershipReceipt
    → ℕ
    → Converged ReceiveOnlyConvergencePlan
plan_receive_only_convergence remote_items local_entries receipts max_actions = do
  c ← make_context remote_items local_entries receipts max_actions
  s ← draft_actions c receipts
  let p = uncounted_plan (length remote_items) (length local_entries) (length receipts) s
  ok (count_actions p.actions p)

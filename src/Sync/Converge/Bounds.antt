-- ===== src/Sync/Converge/Bounds.antt =====
-- The bound on the actions of a plan of crates/nubisync-sync/src/convergence.rs, and their counts.
use nubisync.Base.{
  >>=-eq-ok, List, Option, Option-cases, Text, [], arith, inl, inr, insert, int_eq, length,
  length-sort_by, lookup, map, nat_eq, ok, option_eq, refl, some, sort_by, text_eq, ℕ, ◌+◌, ◌∷◌,
  ◌≡◌, ◌≤◌, count_if, ltb, ◌==◌,
}
use nubisync.Core.Remote.{RemoteItem}
use nubisync.Sync.Local.{LocalTreeEntry}
use nubisync.Sync.Paths.{RemoteExpectedPath}
use nubisync.Sync.Converge.Receipts.{ReceiveOnlyOwnershipReceipt}
use nubisync.Sync.Converge.Drafts.{
  ReceiveOnlyConvergenceActionKind, ActionDraft, Drafts, set_action, block, action_kind_eq,
}
use nubisync.Sync.Converge.Decide.{
  Decision, act, current_owned_file, current_owned_directory, unowned_matching_directory,
  decide_expected, decide_entry,
}
use nubisync.Sync.Converge.Index.{Context}
use nubisync.Sync.Converge.Plan.{
  ReceiveOnlyConvergenceAction, ReceiveOnlyConvergencePlan, Drafting, action_of, compare_actions,
  sorted_actions, by_key, draft_actions, add_action, carry_out, draft_expected, draft_entry,
  draft_entries, draft_receipt, draft_receipts, no_drafting, is_blocked, count_action,
  count_actions, uncounted_plan, plan_receive_only_convergence,
}
use nubisync.Sync.Converge.Parts.{plan_parts, max_actions-make_context}

length-insert_existing :
    (k : Text) (v w : ActionDraft) (d : Drafts)
    → lookup k d ≡ some w
    → length (insert k v d) ≡ length d
unfolding lookup insert
length-insert_existing k v w [] h = ground arith
length-insert_existing k v w ((j, x) ∷ d) h = ground (arith, length-insert_existing k v w d)

set_action-le :
    (drafts : Drafts) (candidate : ActionDraft) (max_actions : ℕ) {drafts' : Drafts}
    → set_action drafts candidate max_actions ≡ ok drafts'
    → length drafts ≤ max_actions
    → length drafts' ≤ max_actions
unfolding set_action
set_action-le drafts candidate max_actions h le =
    elim (Option-cases (lookup candidate.relative_path drafts)) [
      | inl absent ↦ ground (arith, absent)
      | inr (existing, there) ↦ ground (
        arith,
        there,
        length-insert_existing candidate.relative_path (block existing) existing drafts there,
      )
    ]

module _ (max_actions : ℕ) where
  add_action-le :
      (s : Drafting) (kind : ReceiveOnlyConvergenceActionKind) (remote_id : Option Text)
      (path : Text) {t : Drafting}
      → add_action s kind remote_id path max_actions ≡ ok t
      → length s.drafts ≤ max_actions
      → length t.drafts ≤ max_actions
  unfolding add_action
  add_action-le s kind remote_id path {t} h le =
      let d : ActionDraft = record { kind = kind; remote_id = remote_id; relative_path = path } in
      let (drafts, f, g) = >>=-eq-ok (set_action s.drafts d max_actions) _ h in
      let same : t.drafts ≡ drafts = ground arith in
      rw same (set_action-le s.drafts d max_actions f le)

  carry_out-le :
      (d : Decision) (s : Drafting) (e : RemoteExpectedPath) {t : Drafting}
      → carry_out d s e max_actions ≡ ok t
      → length s.drafts ≤ max_actions
      → length t.drafts ≤ max_actions
  carry_out-le (act kind) s e h le = add_action-le s kind (some e.remote_id) e.relative_path h le
  carry_out-le current_owned_file s e h le = ground arith
  carry_out-le current_owned_directory s e h le = ground arith
  carry_out-le unowned_matching_directory s e h le = ground arith

module _ (c : Context) where
  draft_expected-le :
      (es : List RemoteExpectedPath) (s : Drafting) {t : Drafting}
      → draft_expected c es s ≡ ok t
      → length s.drafts ≤ c.max_actions
      → length t.drafts ≤ c.max_actions
  unfolding draft_expected
  draft_expected-le [] s h le = ground arith
  draft_expected-le (e ∷ es) s h le =
      let d = decide_expected c.local_by_path c.receipt_by_remote_id c.receipt_by_path e in
      let (t, f, g) = >>=-eq-ok (carry_out d s e c.max_actions) _ h in
      draft_expected-le es t g (carry_out-le c.max_actions d s e f le)

  draft_entry-le :
      (entry : LocalTreeEntry) (s : Drafting) {t : Drafting}
      → draft_entry c entry s ≡ ok t
      → length s.drafts ≤ c.max_actions
      → length t.drafts ≤ c.max_actions
  unfolding draft_entry
  draft_entry-le entry s {t} h le =
      let (kind, remote_id) =
        decide_entry c.receipt_by_path c.expected_by_remote_id c.local_entries entry in
      ground (arith, add_action-le c.max_actions s kind remote_id entry.relative_path {t = t})

  draft_entries-le :
      (entries : List LocalTreeEntry) (s : Drafting) {t : Drafting}
      → draft_entries c entries s ≡ ok t
      → length s.drafts ≤ c.max_actions
      → length t.drafts ≤ c.max_actions
  unfolding draft_entries
  draft_entries-le [] s h le = ground arith
  draft_entries-le (entry ∷ entries) s h le =
      let (t, f, g) = >>=-eq-ok (draft_entry c entry s) _ h in
      draft_entries-le entries t g (draft_entry-le entry s f le)

  draft_receipts-le :
      (receipts : List ReceiveOnlyOwnershipReceipt) (s : Drafting) {t : Drafting}
      → draft_receipts c receipts s ≡ ok t
      → length s.drafts ≤ c.max_actions
      → length t.drafts ≤ c.max_actions
  unfolding draft_receipts draft_receipt
  draft_receipts-le [] s h le = ground arith
  draft_receipts-le (receipt ∷ receipts) s {t} h le =
      let (s', f, g) = >>=-eq-ok (draft_receipt c receipt s) _ h in
      draft_receipts-le receipts s' g (
        ground (
          arith,
          add_action-le c.max_actions s ReceiveOnlyConvergenceActionKind.blocked
              (some receipt.remote_id) receipt.relative_path {t = s'},
        ))

  draft_actions-le :
      (receipts : List ReceiveOnlyOwnershipReceipt) {t : Drafting}
      → draft_actions c receipts ≡ ok t
      → length t.drafts ≤ c.max_actions
  unfolding draft_actions
  draft_actions-le receipts h =
      let (s, f1, f2) = >>=-eq-ok (draft_expected c c.expected_paths no_drafting) _ h in
      let (t, f3, f4) = >>=-eq-ok (draft_entries c c.local_entries s) _ f2 in
      draft_receipts-le receipts t f4 (
        draft_entries-le c.local_entries s f3
          (draft_expected-le c.expected_paths no_drafting f1 (omega arith)))

length-map-action_of : (drafts : Drafts) → length (map action_of drafts) ≡ length drafts
length-map-action_of [] = refl
length-map-action_of (d ∷ drafts) = omega (arith, length-map-action_of drafts)

pub length-sorted_actions : (drafts : Drafts) → length (sorted_actions drafts) ≡ length drafts
unfolding sorted_actions
length-sorted_actions drafts = omega (
  arith,
  length-sort_by compare_actions (map action_of (sort_by by_key drafts)),
  length-map-action_of (sort_by by_key drafts),
  length-sort_by by_key drafts,
)

abbrev pub total : ReceiveOnlyConvergencePlan → ℕ
total p =
    p.create_directories + p.materialize_missing_files + p.verify_existing_files
    + p.revalidate_stale_file_replacements + p.revalidate_stale_file_deletions
    + p.delete_owned_empty_directories + p.blocked_actions

total-count_action :
    (kind : ReceiveOnlyConvergenceActionKind) (p : ReceiveOnlyConvergencePlan)
    → total (count_action kind p) ≡ total p + 1
total-count_action kind p = ground arith

total-count_actions :
    (actions : List ReceiveOnlyConvergenceAction) (p : ReceiveOnlyConvergencePlan)
    → total (count_actions actions p) ≡ total p + length actions
unfolding count_actions
total-count_actions [] p = omega arith
total-count_actions (a ∷ actions) p =
    omega (arith, total-count_actions actions (count_action a.kind p), total-count_action a.kind p)

blocked-count_actions :
    (actions : List ReceiveOnlyConvergenceAction) (p : ReceiveOnlyConvergencePlan)
    → (count_actions actions p).blocked_actions
      ≡ p.blocked_actions
        + count_if (λ a. a.kind == ReceiveOnlyConvergenceActionKind.blocked) actions
unfolding count_actions count_if
blocked-count_actions [] p = omega arith
blocked-count_actions (a ∷ actions) p =
    ground (arith, blocked-count_actions actions (count_action a.kind p))

-- A plan has at most `max_actions` actions, its seven counters add up to their number, and it is
-- blocked exactly when some action is.
pub plan_receive_only_convergence_bounds :
    (remote_items : List RemoteItem) (local_entries : List LocalTreeEntry)
    (receipts : List ReceiveOnlyOwnershipReceipt) (max_actions : ℕ) {p : ReceiveOnlyConvergencePlan}
    → plan_receive_only_convergence remote_items local_entries receipts max_actions ≡ ok p
    → (length p.actions ≤ max_actions)
      × (total p ≡ length p.actions)
      × (is_blocked p
          ≡ ltb 0 (count_if (λ a. a.kind == ReceiveOnlyConvergenceActionKind.blocked) p.actions))
unfolding is_blocked uncounted_plan
plan_receive_only_convergence_bounds remote_items local_entries receipts max_actions {p} h =
    let (c, s, f, g, counted, same) =
      plan_parts remote_items local_entries receipts max_actions h in
    let start = uncounted_plan (length remote_items) (length local_entries) (length receipts) s in
    let limit = max_actions-make_context remote_items local_entries receipts max_actions f in
    let sum : total p ≡ length p.actions =
      ground (arith, total-count_actions (sorted_actions s.drafts) start) in
    (
      ground (arith, draft_actions-le c receipts g, length-sorted_actions s.drafts),
      sum,
      ground (arith, blocked-count_actions (sorted_actions s.drafts) start),
    )

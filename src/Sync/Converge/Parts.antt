-- ===== src/Sync/Converge/Parts.antt =====
-- What a plan of crates/nubisync-sync/src/convergence.rs is made of, when there is one.
use nubisync.Base.{
  >>=-eq-ok, List, [], arith, length, ok, refl, ℕ, ◌∷◌, ◌≡◌, >>-eq-ok, int_eq, map_err, nat_eq,
  option_eq, reject_if, text_eq, ◌==◌,
}
use nubisync.Core.Remote.{RemoteItem}
use nubisync.Sync.Paths.{build_remote_expected_paths}
use nubisync.Sync.Materialize.{plan_receive_only_materialization}
use nubisync.Sync.Local.{LocalTreeEntry}
use nubisync.Sync.Converge.Receipts.{
  materialization, invalid_max_actions, ReceiveOnlyOwnershipReceipt,
}
use nubisync.Sync.Converge.Index.{index_locals, index_receipts, Context, make_context}
use nubisync.Sync.Converge.Plan.{
  ReceiveOnlyConvergenceAction, ReceiveOnlyConvergencePlan, count_action, count_actions, Drafting,
  uncounted_plan, draft_actions, sorted_actions, plan_receive_only_convergence,
}

pub actions-count_actions :
    (actions : List ReceiveOnlyConvergenceAction) (p : ReceiveOnlyConvergencePlan)
    → (count_actions actions p).actions ≡ p.actions
unfolding count_actions
actions-count_actions [] p = refl
actions-count_actions (a ∷ actions) p =
    ground (arith, actions-count_actions actions (count_action a.kind p))

-- The indexes and the drafts that a plan comes from.
pub plan_parts :
    (remote_items : List RemoteItem) (local_entries : List LocalTreeEntry)
    (receipts : List ReceiveOnlyOwnershipReceipt) (max_actions : ℕ) {p : ReceiveOnlyConvergencePlan}
    → plan_receive_only_convergence remote_items local_entries receipts max_actions ≡ ok p
    → (c : Context) × (s : Drafting) × (make_context remote_items local_entries receipts max_actions
        ≡ ok c)
      × (draft_actions c receipts ≡ ok s)
      × (count_actions
            (sorted_actions s.drafts)
            (uncounted_plan (length remote_items) (length local_entries) (length receipts) s)
          ≡ p)
      × (p.actions ≡ sorted_actions s.drafts)
unfolding plan_receive_only_convergence uncounted_plan
plan_parts remote_items local_entries receipts max_actions {p} h =
    let (c, f, g) = >>=-eq-ok (make_context remote_items local_entries receipts max_actions) _ h in
    let (s, k, l) = >>=-eq-ok (draft_actions c receipts) _ g in
    let counted : count_actions (sorted_actions s.drafts)
          (uncounted_plan (length remote_items) (length local_entries) (length receipts) s)
        ≡ p =
      ground arith in
    (
      c,
      s,
      f,
      k,
      counted,
      ground (
        arith,
        counted,
        actions-count_actions (sorted_actions s.drafts)
            (uncounted_plan (length remote_items) (length local_entries) (length receipts) s),
      ),
    )

pub max_actions-make_context :
    (remote_items : List RemoteItem) (local_entries : List LocalTreeEntry)
    (receipts : List ReceiveOnlyOwnershipReceipt) (max_actions : ℕ) {c : Context}
    → make_context remote_items local_entries receipts max_actions ≡ ok c
    → (c.max_actions ≡ max_actions) × (c.local_entries ≡ local_entries)
unfolding make_context
max_actions-make_context remote_items local_entries receipts max_actions {c} h =
    let (_, h1) = >>-eq-ok (reject_if (max_actions == 0) invalid_max_actions) _ h in
    let (_, _, h2) =
      >>=-eq-ok
        (map_err materialization (plan_receive_only_materialization remote_items local_entries)) _
        h1 in
    let (_, _, h3) =
      >>=-eq-ok (map_err materialization (build_remote_expected_paths remote_items)) _ h2 in
    let (_, _, h4) = >>=-eq-ok (index_locals [] local_entries) _ h3 in
    let (_, _, h5) = >>=-eq-ok (index_receipts [] [] receipts) _ h4 in
    (ground (arith, h5), ground (arith, h5))

-- ===== src/Sync/Converge/Sound.antt =====
-- Every action of a plan of crates/nubisync-sync/src/convergence.rs has its reason.
use nubisync.Base.{All, All-sort_by, List, [], map, ok, refl, sort_by, ℕ, ◌∷◌, ◌≡◌, Text, sym}
use mathlib.Core.Path.{subst}
use nubisync.Sync.Converge.Carried.{Covers}
use nubisync.Sync.Converge.Covered.{draft_actions-Covers}
use nubisync.Core.Remote.{RemoteItem}
use nubisync.Sync.Local.{LocalTreeEntry}
use nubisync.Sync.Converge.Receipts.{ReceiveOnlyOwnershipReceipt}
use nubisync.Sync.Converge.Drafts.{ActionDraft, Drafts, blocked}
use nubisync.Sync.Converge.Index.{Context}
use nubisync.Sync.Converge.Plan.{
  ReceiveOnlyConvergenceAction, ReceiveOnlyConvergencePlan, Drafting, action_of, compare_actions,
  sorted_actions, by_key, draft_actions, plan_receive_only_convergence,
}
use nubisync.Sync.Converge.Loops.{AllDrafts, draft_actions-AllDrafts}
use nubisync.Sync.Converge.Justified.{IsJustified, expected_IsJustified, entry-IsJustified_as}
use nubisync.Sync.Converge.Parts.{plan_parts}
use nubisync.Sync.Paths.{RemoteExpectedPath}
use nubisync.Sync.Paths.Layout.{IsLayout}
use nubisync.Sync.Converge.Reads.{Reads, make_context-Reads}
use nubisync.Sync.Converge.Reasons.{HasReason}
use nubisync.Sync.Converge.Reasoned.{IsJustified-HasReason}

abbrev IsJustifiedAction : Context → ReceiveOnlyConvergenceAction → Type 0
IsJustifiedAction c a = IsJustified c a.kind a.remote_id a.relative_path

-- The action has a reason in the catalog, whose layout is `es`, the local tree and the receipts.
abbrev pub HasReasonFor :
    List RemoteItem
    → List RemoteExpectedPath
    → List LocalTreeEntry
    → List ReceiveOnlyOwnershipReceipt
    → ReceiveOnlyConvergenceAction
    → Type 0
HasReasonFor items es entries receipts a =
    HasReason items es entries receipts a.kind a.remote_id a.relative_path

abbrev IsJustifiedDraft : Context → ActionDraft → Type 0
IsJustifiedDraft c d = IsJustified c d.kind d.remote_id d.relative_path

blocked_IsJustified : (c : Context) (d : ActionDraft) → d.kind ≡ blocked → IsJustifiedDraft c d
blocked_IsJustified c d h = rw h tt

All-action_of :
    (c : Context) (drafts : Drafts)
    → All (λ d. IsJustifiedDraft c d.1) drafts
    → All (IsJustifiedAction c) (map action_of drafts)
All-action_of c [] h = tt
All-action_of c (d ∷ drafts) (here, rest) = (here, All-action_of c drafts rest)

All-AllDrafts :
    (c : Context) (drafts : Drafts)
    → AllDrafts (IsJustifiedDraft c) drafts
    → All (λ d. IsJustifiedDraft c d.1) drafts
All-AllDrafts c [] h = tt
All-AllDrafts c (d ∷ drafts) (here, rest) = (here, All-AllDrafts c drafts rest)

sorted_IsJustified :
    (c : Context) (drafts : Drafts)
    → AllDrafts (IsJustifiedDraft c) drafts
    → All (IsJustifiedAction c) (sorted_actions drafts)
unfolding sorted_actions
sorted_IsJustified c drafts h =
    All-sort_by compare_actions (IsJustifiedAction c) (map action_of (sort_by by_key drafts)) (
      All-action_of c (sort_by by_key drafts)
        (All-sort_by by_key (λ d. IsJustifiedDraft c d.1) drafts (All-AllDrafts c drafts h)))

drafts_IsJustified :
    (c : Context) (receipts : List ReceiveOnlyOwnershipReceipt) {s : Drafting}
    → draft_actions c receipts ≡ ok s
    → AllDrafts (IsJustifiedDraft c) s.drafts
drafts_IsJustified c receipts h =
    draft_actions-AllDrafts (IsJustifiedDraft c) (blocked_IsJustified c) c receipts h
      (λ e kind m. expected_IsJustified c e m kind)
      (λ entry m fresh. entry-IsJustified_as c entry m fresh _ _ refl)

All-HasReasonFor :
    (items : List RemoteItem) (entries : List LocalTreeEntry)
    (receipts : List ReceiveOnlyOwnershipReceipt) (c : Context)
    (reads : Reads items entries receipts c) (actions : List ReceiveOnlyConvergenceAction)
    → All (IsJustifiedAction c) actions
    → All (HasReasonFor items c.expected_paths entries receipts) actions
All-HasReasonFor items entries receipts c reads [] h = tt
All-HasReasonFor items entries receipts c reads (a ∷ actions) (here, rest) = (
  IsJustified-HasReason items entries receipts c reads a.kind a.remote_id a.relative_path here,
  All-HasReasonFor items entries receipts c reads actions rest,
)

-- Every action of a plan that is not blocked has its reason in the layout of the catalog, the local
-- entries and the receipts. A directory or a file is created only where an item of its kind
-- belongs and there is no entry. A file is verified only where one belongs and is there, and no
-- receipt is of its item; it is replaced only under a stale receipt of the item for that path. In
-- each of these, the receipts of the item are at the path and of its kind, and those at the path
-- are of the item. An entry is deleted only where nothing belongs, under a stale receipt of its
-- kind for that path whose item is not in the catalog, and a directory only when no entry lies
-- below it. And the plan has every such action: where no receipt is against an item like that, what
-- is missing is created, a file that is there is verified if no receipt is of its item, and
-- replaced if a stale one is; and what may be deleted is deleted.
pub plan_receive_only_convergence_justifies :
    (remote_items : List RemoteItem) (local_entries : List LocalTreeEntry)
    (receipts : List ReceiveOnlyOwnershipReceipt) (max_actions : ℕ) {p : ReceiveOnlyConvergencePlan}
    → plan_receive_only_convergence remote_items local_entries receipts max_actions ≡ ok p
    → (root : Text) × (es : List RemoteExpectedPath) × IsLayout remote_items root es
      × All (HasReasonFor remote_items es local_entries receipts) p.actions
      × Covers remote_items es local_entries receipts p.actions
plan_receive_only_convergence_justifies remote_items local_entries receipts max_actions h =
    let (c, s, f, g, _, same) = plan_parts remote_items local_entries receipts max_actions h in
    let reads = make_context-Reads remote_items local_entries receipts max_actions f in
    (
      reads.root,
      c.expected_paths,
      reads.laid_out,
      rw same (
          All-HasReasonFor remote_items local_entries receipts c reads (sorted_actions s.drafts)
            (sorted_IsJustified c s.drafts (drafts_IsJustified c receipts g))),
      subst (Covers remote_items c.expected_paths local_entries receipts) (sym same)
          (draft_actions-Covers remote_items local_entries receipts c reads g),
    )

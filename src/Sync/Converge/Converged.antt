-- ===== src/Sync/Converge/Converged.antt =====
-- What a plan of crates/nubisync-sync/src/convergence.rs with no actions says of the local tree.
use nubisync.Base.{
  >>=-eq-ok, Option-cases, Text, arith, contains_key, false, inl, inr, int_eq, lookup, nat_eq, ok,
  option_eq, some, text_eq, ℕ, ◌≡◌, Among, List, [], contains, length, refl, true, ◌∷◌, sym,
}
use mathlib.Core.Path.{subst, ◌∙◌}
use nubisync.Core.Remote.{RemoteItem, file}
use nubisync.Sync.Local.{LocalTreeEntry, local_kind_eq}
use nubisync.Sync.Paths.{RemoteExpectedPath}
use nubisync.Sync.Paths.Layout.{IsLayout, expected_names}
use nubisync.Sync.Converge.Receipts.{current, ReceiveOnlyOwnershipReceipt}
use nubisync.Sync.Converge.Drafts.{Drafts, action_kind_eq}
use nubisync.Sync.Converge.Decide.{decide_expected, receipt_is_settled, local_kind_for_remote}
use nubisync.Sync.Converge.Index.{Context}
use nubisync.Sync.Converge.Plan.{
  ReceiveOnlyConvergencePlan, Drafting, draft_actions, draft_expected, draft_entries, no_drafting,
  plan_receive_only_convergence,
}
use nubisync.Sync.Converge.Reads.{Reads, make_context-Reads}
use nubisync.Sync.Converge.Reasons.{IsOfKind}
use nubisync.Sync.Converge.Reasoned.{Among-expected_names, local_kind-IsOfKind}
use nubisync.Sync.Converge.Parts.{plan_parts}
use nubisync.Sync.Converge.Bounds.{length-sorted_actions}
use nubisync.Sync.Converge.Idle.{
  is_act, IsIdle, decided, draft_expected-IsIdle, draft_entries-IsIdle, draft_receipts-IsIdle,
  matching_when_idle,
}

-- The local tree is that of the catalog with the layout, and so are the receipts: what is expected
-- is there, what is there is expected, every receipt is current and that of an expected item at its
-- path, and every expected file has one.
pub record IsConverged (es : List RemoteExpectedPath) (entries : List LocalTreeEntry)
    (receipts : List ReceiveOnlyOwnershipReceipt) : Type 0 where
  pub nothing_missing :
      (e : RemoteExpectedPath)
      → Among e es
      → (entry : LocalTreeEntry) × Among entry entries
        × (entry.relative_path ≡ e.relative_path)
        × IsOfKind e.kind entry.kind
  pub nothing_extra :
      (entry : LocalTreeEntry)
      → Among entry entries
      → (e : RemoteExpectedPath) × Among e es × (e.relative_path ≡ entry.relative_path)
  pub receipts_current :
      (r : ReceiveOnlyOwnershipReceipt)
      → Among r receipts
      → (r.state ≡ current)
        × ((e : RemoteExpectedPath) × Among e es
            × (e.remote_id ≡ r.remote_id)
            × (e.relative_path ≡ r.relative_path)
            × IsOfKind e.kind r.kind)
  pub files_owned :
      (e : RemoteExpectedPath)
      → Among e es
      → e.kind ≡ file
      → (r : ReceiveOnlyOwnershipReceipt) × Among r receipts × (r.remote_id ≡ e.remote_id)

module _ (c : Context) (e : RemoteExpectedPath) (idle : is_act (decided c e) ≡ false) where
  idle_same_id :
      (r : ReceiveOnlyOwnershipReceipt)
      → lookup e.relative_path c.receipt_by_path ≡ some r
      → r.remote_id ≡ e.remote_id
  unfolding decide_expected
  idle_same_id r there = ground (arith, idle, there)

  idle_current :
      (r : ReceiveOnlyOwnershipReceipt)
      → lookup e.remote_id c.receipt_by_remote_id ≡ some r
      → (r.state ≡ current) × (r.kind ≡ local_kind_for_remote e.kind)
  unfolding decide_expected local_kind_for_remote
  idle_current r there = (ground (arith, idle, there), ground (arith, idle, there))

  idle_owned :
      e.kind ≡ file
      → (r : ReceiveOnlyOwnershipReceipt) × (lookup e.remote_id c.receipt_by_remote_id ≡ some r)
  unfolding decide_expected local_kind_for_remote
  idle_owned of_kind = elim (Option-cases (lookup e.remote_id c.receipt_by_remote_id)) [
    | inl absent ↦ ground (arith, idle, absent)
    | inr found ↦ found
  ]

module _ (items : List RemoteItem) (entries : List LocalTreeEntry)
    (receipts : List ReceiveOnlyOwnershipReceipt) (c : Context)
    (reads : Reads items entries receipts c)
    (idle : (e : RemoteExpectedPath)
      → Among e c.expected_paths
      → is_act (decided c e) ≡ false) where
  entry_at :
      (e : RemoteExpectedPath)
      → Among e c.expected_paths
      → (entry : LocalTreeEntry) × Among entry entries
        × (entry.relative_path ≡ e.relative_path)
        × IsOfKind e.kind entry.kind
  entry_at e m =
      let (entry, n, p, q) =
        reads.by_local_path.sound e.relative_path (local_kind_for_remote e.kind)
          (matching_when_idle c e (idle e m)) in
      (entry, n, p, local_kind-IsOfKind e.kind entry.kind q)

  receipt_at :
      (e : RemoteExpectedPath)
      → Among e c.expected_paths
      → (r : ReceiveOnlyOwnershipReceipt) → Among r receipts
      → e.relative_path ≡ r.relative_path
      → (r.state ≡ current) × (e.remote_id ≡ r.remote_id) × IsOfKind e.kind r.kind
  receipt_at e m r n same =
      let at_path : lookup e.relative_path c.receipt_by_path ≡ some r =
        rw same (reads.by_receipt_path.complete r n) in
      let same_id = idle_same_id c e (idle e m) r at_path in
      let by_id : lookup e.remote_id c.receipt_by_remote_id ≡ some r =
        rw (← same_id) (reads.by_receipt_id.complete r n) in
      let (is_current, kind) = idle_current c e (idle e m) r by_id in
      (is_current, sym same_id, local_kind-IsOfKind e.kind r.kind kind)

  owned_lem :
      (e : RemoteExpectedPath)
      → Among e c.expected_paths
      → e.kind ≡ file
      → (r : ReceiveOnlyOwnershipReceipt) × Among r receipts × (r.remote_id ≡ e.remote_id)
  owned_lem e m of_kind =
      let (r, there) = idle_owned c e (idle e m) of_kind in
      let (x, n, p, _) = reads.by_receipt_id.sound e.remote_id r there in (x, n, p)

  module _
      (known : (entry : LocalTreeEntry)
        → Among entry c.local_entries
        → contains (expected_names c.expected_paths) entry.relative_path ≡ true) where
    expected_at :
        (entry : LocalTreeEntry)
        → Among entry entries
        → (e : RemoteExpectedPath) × Among e c.expected_paths
          × (e.relative_path ≡ entry.relative_path)
    expected_at entry m =
        Among-expected_names c.expected_paths entry.relative_path
          (known entry (subst (Among entry) (sym reads.entries_kept) m))

    settled_expected :
        (r : ReceiveOnlyOwnershipReceipt)
        → receipt_is_settled c.local_by_path c.expected_by_remote_id r ≡ true
        → (e : RemoteExpectedPath) × Among e c.expected_paths × (e.relative_path ≡ r.relative_path)
    unfolding receipt_is_settled contains_key
    settled_expected r settled = elim (Option-cases (lookup r.relative_path c.local_by_path)) [
      | inr (kind, there) ↦
          let (entry, m, p, _) = reads.by_local_path.sound r.relative_path kind there in
          let (e, n, q) = expected_at entry m in (e, n, q ∙ p)
      | inl absent ↦ elim (Option-cases (lookup r.remote_id c.expected_by_remote_id)) [
        | inl gone ↦ absurd (ground (arith, absent, gone, settled))
        | inr ((path, kind), there) ↦
            let (e, n, _, same) = reads.by_expected_id.sound r.remote_id (path, kind) there in
            (e, n, ground (arith, absent, there, settled, same))
      ]
    ]

    settled_current :
        (r : ReceiveOnlyOwnershipReceipt)
        → Among r receipts
        → receipt_is_settled c.local_by_path c.expected_by_remote_id r ≡ true
        → (r.state ≡ current)
          × ((e : RemoteExpectedPath) × Among e c.expected_paths
              × (e.remote_id ≡ r.remote_id)
              × (e.relative_path ≡ r.relative_path)
              × IsOfKind e.kind r.kind)
    settled_current r m settled =
        let (e, n, p) = settled_expected r settled in
        let (is_current, id, kind) = receipt_at e n r m p in (is_current, (e, n, id, p, kind))

draft_actions-IsConverged :
    (items : List RemoteItem) (entries : List LocalTreeEntry)
    (receipts : List ReceiveOnlyOwnershipReceipt) (c : Context) {s : Drafting}
    → Reads items entries receipts c
    → draft_actions c receipts ≡ ok s
    → IsIdle s
    → IsConverged c.expected_paths entries receipts
unfolding draft_actions
draft_actions-IsConverged items entries receipts c reads h idle =
    let (s, f1, f2) = >>=-eq-ok (draft_expected c c.expected_paths no_drafting) _ h in
    let (t, f3, f4) = >>=-eq-ok (draft_entries c c.local_entries s) _ f2 in
    let (idle2, settled) = draft_receipts-IsIdle c receipts t f4 idle in
    let (idle1, expected) = draft_entries-IsIdle c c.local_entries s f3 idle2 in
    let (_, matching) = draft_expected-IsIdle c c.expected_paths no_drafting f1 idle1 in
    record {
      nothing_missing = entry_at items entries receipts c reads matching;
      nothing_extra = expected_at items entries receipts c reads matching expected;
      receipts_current =
          λ r m. settled_current items entries receipts c reads matching expected r m (settled r m);
      files_owned = owned_lem items entries receipts c reads matching;
    }

absent_of_empty : (q : Text) (drafts : Drafts) → length drafts ≡ 0 → contains_key q drafts ≡ false
unfolding contains_key lookup
absent_of_empty q [] h = refl
absent_of_empty q (draft ∷ drafts) h = absurd (omega arith)

-- A plan without actions is given only where the layout of the catalog, the local entries and the
-- receipts agree: at every expected path is an entry of its kind, every entry is at an expected
-- path, every receipt is current and is of an expected item, at its path and of its kind, and every
-- expected file has a receipt.
pub plan_without_actions-IsConverged :
    (remote_items : List RemoteItem) (local_entries : List LocalTreeEntry)
    (receipts : List ReceiveOnlyOwnershipReceipt) (max_actions : ℕ) {p : ReceiveOnlyConvergencePlan}
    → plan_receive_only_convergence remote_items local_entries receipts max_actions ≡ ok p
    → length p.actions ≡ 0
    → (root : Text) × (es : List RemoteExpectedPath) × IsLayout remote_items root es
      × IsConverged es local_entries receipts
plan_without_actions-IsConverged remote_items local_entries receipts max_actions h no_actions =
    let (c, s, f, g, _, same) = plan_parts remote_items local_entries receipts max_actions h in
    let reads = make_context-Reads remote_items local_entries receipts max_actions f in
    let none_there : length s.drafts ≡ 0 = ground (arith, length-sorted_actions s.drafts) in
    (
      reads.root,
      c.expected_paths,
      reads.laid_out,
      draft_actions-IsConverged remote_items local_entries receipts c reads g
          (λ q. absent_of_empty q s.drafts none_there),
    )

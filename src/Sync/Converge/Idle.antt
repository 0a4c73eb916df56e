-- ===== src/Sync/Converge/Idle.antt =====
-- What the loops of `plan_receive_only_convergence` of crates/nubisync-sync/src/convergence.rs find
-- when they leave no draft of an action.
use nubisync.Base.{
  >>=-eq-ok, Bool, Option, Option-cases, Text, arith, contains_key, false, inl, inr, int_eq, lookup,
  lookup-insert, nat_eq, ok, option_eq, some, text_eq, ℕ, ◌==◌, ◌||◌, ◌≡◌, Among, List, [],
  contains, refl, true, ◌∷◌,
}
use nubisync.Sync.Local.{LocalTreeEntry, local_kind_eq}
use nubisync.Sync.Paths.{RemoteExpectedPath}
use nubisync.Sync.Paths.Layout.{expected_names}
use nubisync.Sync.Converge.Receipts.{ReceiveOnlyOwnershipReceipt}
use nubisync.Sync.Converge.Drafts.{
  ReceiveOnlyConvergenceActionKind, blocked, ActionDraft, Drafts, set_action, block, action_kind_eq,
}
use nubisync.Sync.Converge.Decide.{
  Decision, act, current_owned_file, current_owned_directory, unowned_matching_directory,
  decide_expected, decide_entry, receipt_is_settled, local_kind_for_remote,
}
use nubisync.Sync.Converge.Index.{Context}
use nubisync.Sync.Converge.Plan.{
  Drafting, add_action, carry_out, draft_expected, draft_entry, draft_entries, draft_receipt,
  draft_receipts,
}

abbrev pub has : Text → Drafting → Bool
has path s = contains_key path s.drafts

contains_key-set_action :
    (drafts : Drafts) (candidate : ActionDraft) (max_actions : ℕ) (q : Text) {drafts' : Drafts}
    → set_action drafts candidate max_actions ≡ ok drafts'
    → contains_key q drafts' ≡ (candidate.relative_path == q || contains_key q drafts)
unfolding set_action contains_key
contains_key-set_action drafts candidate max_actions q h =
    let path = candidate.relative_path in
    elim (Option-cases (lookup path drafts)) [
      | inl absent ↦ ground (arith, absent, lookup-insert path q candidate drafts)
      | inr (existing, there) ↦ ground (arith, there, lookup-insert path q (block existing) drafts)
    ]

module _ (max_actions : ℕ) (q : Text) where
  has-add_action :
      (s : Drafting) (kind : ReceiveOnlyConvergenceActionKind) (remote_id : Option Text)
      (path : Text) {t : Drafting}
      → add_action s kind remote_id path max_actions ≡ ok t
      → has q t ≡ (path == q || has q s)
  unfolding add_action
  has-add_action s kind remote_id path {t} h =
      let d : ActionDraft = record { kind = kind; remote_id = remote_id; relative_path = path } in
      let (drafts, f, g) = >>=-eq-ok (set_action s.drafts d max_actions) _ h in
      let same : t.drafts ≡ drafts = ground arith in
      rw same (contains_key-set_action s.drafts d max_actions q f)

  -- A decision to act leaves a draft at the path, and none of the decisions takes a draft away.
  carry_out-act :
      (kind : ReceiveOnlyConvergenceActionKind) (s : Drafting) (e : RemoteExpectedPath)
      {t : Drafting}
      → carry_out (act kind) s e max_actions ≡ ok t
      → has q t ≡ (e.relative_path == q || has q s)
  carry_out-act kind s e h = has-add_action s kind (some e.remote_id) e.relative_path h

  carry_out-keeps :
      (d : Decision) (s : Drafting) (e : RemoteExpectedPath) {t : Drafting}
      → carry_out d s e max_actions ≡ ok t
      → has q t ≡ false
      → has q s ≡ false
  carry_out-keeps (act kind) s e {t} h none_there = ground (arith, carry_out-act kind s e {t = t} h)
  carry_out-keeps current_owned_file s e h none_there = ground arith
  carry_out-keeps current_owned_directory s e h none_there = ground arith
  carry_out-keeps unowned_matching_directory s e h none_there = ground arith

abbrev pub is_act : Decision → Bool
is_act (act kind) = true
is_act current_owned_file = false
is_act current_owned_directory = false
is_act unowned_matching_directory = false

-- There is no draft.
abbrev pub IsIdle : Drafting → Type 0
IsIdle s = (q : Text) → has q s ≡ false

carry_out_idle :
    (d : Decision) (s : Drafting) (e : RemoteExpectedPath) (max_actions : ℕ) {t : Drafting}
    → carry_out d s e max_actions ≡ ok t
    → has e.relative_path t ≡ false
    → is_act d ≡ false
carry_out_idle (act kind) s e max_actions {t} h idle =
    ground (arith, carry_out-act max_actions e.relative_path kind s e {t = t} h)
carry_out_idle current_owned_file s e max_actions h idle = refl
carry_out_idle current_owned_directory s e max_actions h idle = refl
carry_out_idle unowned_matching_directory s e max_actions h idle = refl

module _ (c : Context) where
  abbrev pub decided : RemoteExpectedPath → Decision
  decided e = decide_expected c.local_by_path c.receipt_by_remote_id c.receipt_by_path e

  -- The local entry that a decision to do nothing rests on.
  pub matching_when_idle :
      (e : RemoteExpectedPath)
      → is_act (decided e) ≡ false
      → lookup e.relative_path c.local_by_path ≡ some (local_kind_for_remote e.kind)
  unfolding decide_expected
  matching_when_idle e idle = ground arith

  pub draft_expected-IsIdle :
      (es : List RemoteExpectedPath) (s : Drafting) {t : Drafting}
      → draft_expected c es s ≡ ok t
      → IsIdle t
      → IsIdle s × ((e : RemoteExpectedPath) → Among e es → is_act (decided e) ≡ false)
  unfolding draft_expected
  draft_expected-IsIdle [] s {t} h idle =
      let same : s ≡ t = ground arith in (rw same idle, λ e m. absurd m)
  draft_expected-IsIdle (e ∷ es) s h idle =
      let (t, f, g) = >>=-eq-ok (carry_out (decided e) s e c.max_actions) _ h in
      let (later, rest) = draft_expected-IsIdle es t g idle in
      let here = carry_out_idle (decided e) s e c.max_actions f (later e.relative_path) in
      (
        λ q. carry_out-keeps c.max_actions q (decided e) s e f (later q),
        λ x m. elim m [ inl p ↦ rw (← p) here | inr n ↦ rest x n ],
      )

  draft_entry-IsIdle :
      (entry : LocalTreeEntry) (s : Drafting) {t : Drafting}
      → draft_entry c entry s ≡ ok t
      → IsIdle t
      → IsIdle s × (contains (expected_names c.expected_paths) entry.relative_path ≡ true)
  unfolding draft_entry
  draft_entry-IsIdle entry s {t} h idle =
      let path = entry.relative_path in
      let (kind, remote_id) =
        decide_entry c.receipt_by_path c.expected_by_remote_id c.local_entries entry in
      (
        λ q. ground (arith, idle q, has-add_action c.max_actions q s kind remote_id path {t = t}),
        ground (arith, idle path, has-add_action c.max_actions path s kind remote_id path {t = t}),
      )

  pub draft_entries-IsIdle :
      (entries : List LocalTreeEntry) (s : Drafting) {t : Drafting}
      → draft_entries c entries s ≡ ok t
      → IsIdle t
      → IsIdle s
        × ((entry : LocalTreeEntry)
            → Among entry entries
            → contains (expected_names c.expected_paths) entry.relative_path ≡ true)
  unfolding draft_entries
  draft_entries-IsIdle [] s {t} h idle =
      let same : s ≡ t = ground arith in (rw same idle, λ e m. absurd m)
  draft_entries-IsIdle (entry ∷ entries) s h idle =
      let (t, f, g) = >>=-eq-ok (draft_entry c entry s) _ h in
      let (later, rest) = draft_entries-IsIdle entries t g idle in
      let (before, here) = draft_entry-IsIdle entry s f later in
      (before, λ x m. elim m [ inl p ↦ rw (← p) here | inr n ↦ rest x n ])

  draft_receipt-IsIdle :
      (receipt : ReceiveOnlyOwnershipReceipt) (s : Drafting) {t : Drafting}
      → draft_receipt c receipt s ≡ ok t
      → IsIdle t
      → IsIdle s × (receipt_is_settled c.local_by_path c.expected_by_remote_id receipt ≡ true)
  unfolding draft_receipt
  draft_receipt-IsIdle receipt s {t} h idle =
      let path = receipt.relative_path in
      let id = some receipt.remote_id in
      (
        λ q. ground (arith, idle q, has-add_action c.max_actions q s blocked id path {t = t}),
        ground (arith, idle path, has-add_action c.max_actions path s blocked id path {t = t}),
      )

  pub draft_receipts-IsIdle :
      (receipts : List ReceiveOnlyOwnershipReceipt) (s : Drafting) {t : Drafting}
      → draft_receipts c receipts s ≡ ok t
      → IsIdle t
      → IsIdle s
        × ((receipt : ReceiveOnlyOwnershipReceipt)
            → Among receipt receipts
            → receipt_is_settled c.local_by_path c.expected_by_remote_id receipt ≡ true)
  unfolding draft_receipts
  draft_receipts-IsIdle [] s {t} h idle =
      let same : s ≡ t = ground arith in (rw same idle, λ e m. absurd m)
  draft_receipts-IsIdle (receipt ∷ receipts) s h idle =
      let (t, f, g) = >>=-eq-ok (draft_receipt c receipt s) _ h in
      let (later, rest) = draft_receipts-IsIdle receipts t g idle in
      let (before, here) = draft_receipt-IsIdle receipt s f later in
      (before, λ x m. elim m [ inl p ↦ rw (← p) here | inr n ↦ rest x n ])

-- ===== src/Sync/Converge/Loops.antt =====
-- A property of drafts goes through the three loops of `plan_receive_only_convergence`.
use mathlib.Core.Path.{subst}
use nubisync.Base.{
  >>=-eq-ok, Among, Bool-cases, List, Option, Option-cases, Text, [], arith, contains, false, inl,
  inr, insert, int_eq, lookup, nat_eq, ok, option_eq, refl, some, text_eq, ℕ, ◌==◌, ◌∷◌, ◌≡◌,
}
use nubisync.Sync.Local.{LocalTreeEntry}
use nubisync.Sync.Paths.{RemoteExpectedPath}
use nubisync.Sync.Paths.Layout.{expected_names}
use nubisync.Sync.Converge.Receipts.{ReceiveOnlyOwnershipReceipt}
use nubisync.Sync.Converge.Drafts.{
  ReceiveOnlyConvergenceActionKind, blocked, ActionDraft, Drafts, block, set_action, action_kind_eq,
}
use nubisync.Sync.Converge.Decide.{
  Decision, act, current_owned_file, current_owned_directory, unowned_matching_directory,
  decide_expected, decide_entry, receipt_is_settled,
}
use nubisync.Sync.Converge.Index.{Context}
use nubisync.Sync.Converge.Plan.{
  Drafting, add_action, carry_out, draft_expected, draft_entry, draft_entries, draft_receipt,
  draft_receipts, draft_actions, no_drafting,
}

abbrev pub draft_of : ReceiveOnlyConvergenceActionKind → Option Text → Text → ActionDraft
draft_of kind remote_id path = record { kind = kind; remote_id = remote_id; relative_path = path }

abbrev pub AllDrafts : (ActionDraft → Type 0) → Drafts → Type 0
AllDrafts P [] = Unit
AllDrafts P ((_, draft) ∷ drafts) = P draft × AllDrafts P drafts

module _ (P : ActionDraft → Type 0) where
  insert-AllDrafts :
      (k : Text) (v : ActionDraft) (drafts : Drafts)
      → P v
      → AllDrafts P drafts
      → AllDrafts P (insert k v drafts)
  unfolding insert
  insert-AllDrafts k v [] p h = (p, tt)
  insert-AllDrafts k v ((j, w) ∷ drafts) p (here, rest) = elim (Bool-cases (j == k)) [
    | inl same ↦ rw same (p, rest)
    | inr differ ↦ rw differ (here, insert-AllDrafts k v drafts p rest)
  ]

  module _ (blocked_ok : (draft : ActionDraft) → draft.kind ≡ blocked → P draft) where
    set_action-AllDrafts :
        (drafts : Drafts) (candidate : ActionDraft) (max_actions : ℕ) {drafts' : Drafts}
        → set_action drafts candidate max_actions ≡ ok drafts'
        → P candidate
        → AllDrafts P drafts
        → AllDrafts P drafts'
    unfolding set_action
    set_action-AllDrafts drafts candidate max_actions {drafts'} e p h =
        let path = candidate.relative_path in
        elim (Option-cases (lookup path drafts)) [
          | inl absent ↦
              let out : insert path candidate drafts ≡ drafts' = ground (arith, absent) in
              subst (AllDrafts P) out (insert-AllDrafts path candidate drafts p h)
          | inr (existing, there) ↦ elim (Bool-cases (existing.kind == candidate.kind)) [
            | inl same ↦
                let out : drafts ≡ drafts' = ground (arith, there) in subst (AllDrafts P) out h
            | inr differ ↦
                let out : insert path (block existing) drafts ≡ drafts' = ground (arith, there) in
                subst (AllDrafts P) out (
                  insert-AllDrafts path (block existing) drafts (blocked_ok (block existing) refl)
                    h)
          ]
        ]

    add_action-AllDrafts :
        (s : Drafting) (kind : ReceiveOnlyConvergenceActionKind) (remote_id : Option Text)
        (path : Text) (max_actions : ℕ) {s' : Drafting}
        → add_action s kind remote_id path max_actions ≡ ok s'
        → P (draft_of kind remote_id path)
        → AllDrafts P s.drafts
        → AllDrafts P s'.drafts
    unfolding add_action
    add_action-AllDrafts s kind remote_id path max_actions {s'} e p h =
        let (drafts, f, g) =
          >>=-eq-ok (set_action s.drafts (draft_of kind remote_id path) max_actions) _ e in
        let out : drafts ≡ s'.drafts = ground arith in
        subst (AllDrafts P) out
          (set_action-AllDrafts s.drafts (draft_of kind remote_id path) max_actions f p h)

    module _ (c : Context) where
      abbrev pub decided : RemoteExpectedPath → Decision
      decided e = decide_expected c.local_by_path c.receipt_by_remote_id c.receipt_by_path e

      carry_out-AllDrafts :
          (d : Decision) (s : Drafting) (e : RemoteExpectedPath) {s' : Drafting}
          → carry_out d s e c.max_actions ≡ ok s'
          → ((kind : ReceiveOnlyConvergenceActionKind)
              → d ≡ act kind
              → P (draft_of kind (some e.remote_id) e.relative_path))
          → AllDrafts P s.drafts
          → AllDrafts P s'.drafts
      carry_out-AllDrafts (act kind) s e f p h =
          add_action-AllDrafts s kind (some e.remote_id) e.relative_path c.max_actions f
            (p kind refl) h
      carry_out-AllDrafts current_owned_file s e {s'} f p h =
          let out : s.drafts ≡ s'.drafts = ground arith in subst (AllDrafts P) out h
      carry_out-AllDrafts current_owned_directory s e {s'} f p h =
          let out : s.drafts ≡ s'.drafts = ground arith in subst (AllDrafts P) out h
      carry_out-AllDrafts unowned_matching_directory s e {s'} f p h =
          let out : s.drafts ≡ s'.drafts = ground arith in subst (AllDrafts P) out h

      draft_expected-AllDrafts :
          (es : List RemoteExpectedPath) (s : Drafting) {s' : Drafting}
          → draft_expected c es s ≡ ok s'
          → ((e : RemoteExpectedPath) (kind : ReceiveOnlyConvergenceActionKind)
              → Among e es
              → decided e ≡ act kind
              → P (draft_of kind (some e.remote_id) e.relative_path))
          → AllDrafts P s.drafts
          → AllDrafts P s'.drafts
      unfolding draft_expected
      draft_expected-AllDrafts [] s {s'} f p h =
          let out : s.drafts ≡ s'.drafts = ground arith in subst (AllDrafts P) out h
      draft_expected-AllDrafts (e ∷ es) s f p h =
          let (t, g, k) = >>=-eq-ok (carry_out (decided e) s e c.max_actions) _ f in
          draft_expected-AllDrafts es t k (λ x kind m. p x kind (inr m))
            (carry_out-AllDrafts (decided e) s e g (λ kind. p e kind (inl refl)) h)

      abbrev pub entry_draft : LocalTreeEntry → ActionDraft
      entry_draft entry =
          let (kind, remote_id) =
            decide_entry c.receipt_by_path c.expected_by_remote_id c.local_entries entry in
          draft_of kind remote_id entry.relative_path

      draft_entry-AllDrafts :
          (entry : LocalTreeEntry) (s : Drafting) {s' : Drafting}
          → draft_entry c entry s ≡ ok s'
          → (contains (expected_names c.expected_paths) entry.relative_path ≡ false
              → P (entry_draft entry))
          → AllDrafts P s.drafts
          → AllDrafts P s'.drafts
      unfolding draft_entry
      draft_entry-AllDrafts entry s {s'} f p h =
          elim (Bool-cases (contains (expected_names c.expected_paths) entry.relative_path)) [
            | inl expected ↦
                let out : s.drafts ≡ s'.drafts = ground (arith, expected) in
                subst (AllDrafts P) out h
            | inr fresh ↦
                let d = entry_draft entry in
                let added : add_action s d.kind d.remote_id entry.relative_path c.max_actions
                    ≡ ok s' =
                  ground (arith, fresh) in
                add_action-AllDrafts s d.kind d.remote_id entry.relative_path c.max_actions added
                  (p fresh) h
          ]

      draft_entries-AllDrafts :
          (entries : List LocalTreeEntry) (s : Drafting) {s' : Drafting}
          → draft_entries c entries s ≡ ok s'
          → ((entry : LocalTreeEntry)
              → Among entry entries
              → contains (expected_names c.expected_paths) entry.relative_path ≡ false
              → P (entry_draft entry))
          → AllDrafts P s.drafts
          → AllDrafts P s'.drafts
      unfolding draft_entries
      draft_entries-AllDrafts [] s {s'} f p h =
          let out : s.drafts ≡ s'.drafts = ground arith in subst (AllDrafts P) out h
      draft_entries-AllDrafts (entry ∷ entries) s f p h =
          let (t, g, k) = >>=-eq-ok (draft_entry c entry s) _ f in
          draft_entries-AllDrafts entries t k (λ x m. p x (inr m))
            (draft_entry-AllDrafts entry s g (p entry (inl refl)) h)

      draft_receipt-AllDrafts :
          (receipt : ReceiveOnlyOwnershipReceipt) (s : Drafting) {s' : Drafting}
          → draft_receipt c receipt s ≡ ok s'
          → AllDrafts P s.drafts
          → AllDrafts P s'.drafts
      unfolding draft_receipt
      draft_receipt-AllDrafts receipt s {s'} f h =
          elim (Bool-cases (receipt_is_settled c.local_by_path c.expected_by_remote_id receipt)) [
            | inl settled ↦
                let out : s.drafts ≡ s'.drafts = ground (arith, settled) in
                subst (AllDrafts P) out h
            | inr open_ ↦
                let added : add_action s blocked (some receipt.remote_id) receipt.relative_path
                      c.max_actions
                    ≡ ok s' =
                  ground (arith, open_) in
                add_action-AllDrafts s blocked (some receipt.remote_id) receipt.relative_path
                  c.max_actions added (blocked_ok _ refl) h
          ]

      draft_receipts-AllDrafts :
          (receipts : List ReceiveOnlyOwnershipReceipt) (s : Drafting) {s' : Drafting}
          → draft_receipts c receipts s ≡ ok s'
          → AllDrafts P s.drafts
          → AllDrafts P s'.drafts
      unfolding draft_receipts
      draft_receipts-AllDrafts [] s {s'} f h =
          let out : s.drafts ≡ s'.drafts = ground arith in subst (AllDrafts P) out h
      draft_receipts-AllDrafts (receipt ∷ receipts) s f h =
          let (t, g, k) = >>=-eq-ok (draft_receipt c receipt s) _ f in
          draft_receipts-AllDrafts receipts t k (draft_receipt-AllDrafts receipt s g h)

      pub draft_actions-AllDrafts :
          (receipts : List ReceiveOnlyOwnershipReceipt) {s : Drafting}
          → draft_actions c receipts ≡ ok s
          → ((e : RemoteExpectedPath) (kind : ReceiveOnlyConvergenceActionKind)
              → Among e c.expected_paths
              → decided e ≡ act kind
              → P (draft_of kind (some e.remote_id) e.relative_path))
          → ((entry : LocalTreeEntry)
              → Among entry c.local_entries
              → contains (expected_names c.expected_paths) entry.relative_path ≡ false
              → P (entry_draft entry))
          → AllDrafts P s.drafts
      unfolding draft_actions
      draft_actions-AllDrafts receipts f p q =
          let (s, f1, f2) = >>=-eq-ok (draft_expected c c.expected_paths no_drafting) _ f in
          let (t, f3, f4) = >>=-eq-ok (draft_entries c c.local_entries s) _ f2 in
          draft_receipts-AllDrafts receipts t f4 (
            draft_entries-AllDrafts c.local_entries s f3 q
              (draft_expected-AllDrafts c.expected_paths no_drafting f1 p tt))

-- ===== src/Sync/Converge/Kept.antt =====
-- The drafts that the loops of `plan_receive_only_convergence` of
-- crates/nubisync-sync/src/convergence.rs make for expected items, and that they stay.
use nubisync.Base.{
  ==_refl, >>=-eq-ok, Among, List, Option, Option-cases, Text, [], arith, contains, false, inl, inr,
  int_eq, lookup, lookup-insert, nat_eq, none, ok, option_eq, some, text_eq, true, ℕ, ◌==◌, ◌∙◌,
  ◌∷◌, ◌≡◌, ==→≡, Bool-cases, IsNodup, ap, refl,
}
use mathlib.Core.Path.{subst}
use nubisync.Sync.Local.{LocalTreeEntry, local_kind_eq}
use nubisync.Sync.Paths.{RemoteExpectedPath}
use nubisync.Sync.Paths.Layout.{expected_names}
use nubisync.Sync.Converge.Receipts.{ReceiveOnlyOwnershipReceipt}
use nubisync.Sync.Converge.Drafts.{
  ReceiveOnlyConvergenceActionKind, blocked, ActionDraft, Drafts, set_action, block, action_kind_eq,
}
use nubisync.Sync.Converge.Decide.{
  Decision, act, current_owned_file, current_owned_directory, unowned_matching_directory,
  decide_entry, receipt_is_settled,
}
use nubisync.Sync.Converge.Index.{Context}
use nubisync.Sync.Converge.Plan.{
  Drafting, draft_actions, add_action, carry_out, draft_expected, draft_entry, draft_entries,
  draft_receipt, draft_receipts, no_drafting,
}
use nubisync.Sync.Converge.Idle.{decided}
use nubisync.Sync.Converge.Reasoned.{contains_names-Among}

abbrev pub draft_for : ReceiveOnlyConvergenceActionKind → Option Text → Text → ActionDraft
draft_for kind remote_id path = record { kind = kind; remote_id = remote_id; relative_path = path }

module _ (max_actions : ℕ) (q : Text) where
  set_action_elsewhere :
      (drafts : Drafts) (candidate : ActionDraft) {drafts' : Drafts}
      → set_action drafts candidate max_actions ≡ ok drafts'
      → (candidate.relative_path == q) ≡ false
      → lookup q drafts' ≡ lookup q drafts
  unfolding set_action
  set_action_elsewhere drafts candidate h differ =
      let path = candidate.relative_path in
      elim (Option-cases (lookup path drafts)) [
        | inl absent ↦ ground (arith, absent, lookup-insert path q candidate drafts)
        | inr (existing, there) ↦
            ground (arith, there, lookup-insert path q (block existing) drafts)
      ]

  set_action_new :
      (drafts : Drafts) (candidate : ActionDraft) {drafts' : Drafts}
      → set_action drafts candidate max_actions ≡ ok drafts'
      → lookup candidate.relative_path drafts ≡ none
      → lookup candidate.relative_path drafts' ≡ some candidate
  unfolding set_action
  set_action_new drafts candidate h absent =
      let path = candidate.relative_path in
      ground (arith, absent, lookup-insert path path candidate drafts, ==_refl path)

  add_action_elsewhere :
      (s : Drafting) (kind : ReceiveOnlyConvergenceActionKind) (remote_id : Option Text)
      (path : Text) {t : Drafting}
      → add_action s kind remote_id path max_actions ≡ ok t
      → (path == q) ≡ false
      → lookup q t.drafts ≡ lookup q s.drafts
  unfolding add_action
  add_action_elsewhere s kind remote_id path {t} h differ =
      let d = draft_for kind remote_id path in
      let (drafts, f, g) = >>=-eq-ok (set_action s.drafts d max_actions) _ h in
      let same : t.drafts ≡ drafts = ground arith in
      rw same (set_action_elsewhere s.drafts d f differ)

  pub add_action_new :
      (s : Drafting) (kind : ReceiveOnlyConvergenceActionKind) (remote_id : Option Text)
      (path : Text) {t : Drafting}
      → add_action s kind remote_id path max_actions ≡ ok t
      → lookup path s.drafts ≡ none
      → lookup path t.drafts ≡ some (draft_for kind remote_id path)
  unfolding add_action
  add_action_new s kind remote_id path {t} h absent =
      let d = draft_for kind remote_id path in
      let (drafts, f, g) = >>=-eq-ok (set_action s.drafts d max_actions) _ h in
      let same : t.drafts ≡ drafts = ground arith in rw same (set_action_new s.drafts d f absent)

  carry_out_elsewhere :
      (d : Decision) (s : Drafting) (e : RemoteExpectedPath) {t : Drafting}
      → carry_out d s e max_actions ≡ ok t
      → (e.relative_path == q) ≡ false
      → lookup q t.drafts ≡ lookup q s.drafts
  carry_out_elsewhere (act kind) s e h differ =
      add_action_elsewhere s kind (some e.remote_id) e.relative_path h differ
  carry_out_elsewhere current_owned_file s e {t} h differ =
      let same : t.drafts ≡ s.drafts = ground arith in rw same
  carry_out_elsewhere current_owned_directory s e {t} h differ =
      let same : t.drafts ≡ s.drafts = ground arith in rw same
  carry_out_elsewhere unowned_matching_directory s e {t} h differ =
      let same : t.drafts ≡ s.drafts = ground arith in rw same

module _ (c : Context) (q : Text) where
  pub draft_expected_elsewhere :
      (es : List RemoteExpectedPath) (s : Drafting) {t : Drafting}
      → draft_expected c es s ≡ ok t
      → contains (expected_names es) q ≡ false
      → lookup q t.drafts ≡ lookup q s.drafts
  unfolding draft_expected
  draft_expected_elsewhere [] s {t} h away =
      let same : t.drafts ≡ s.drafts = ground arith in rw same
  draft_expected_elsewhere (e ∷ es) s h away =
      let (t, f, g) = >>=-eq-ok (carry_out (decided c e) s e c.max_actions) _ h in
      draft_expected_elsewhere es t g (ground arith)
      ∙ carry_out_elsewhere c.max_actions q (decided c e) s e f (ground arith)

  pub draft_entry_elsewhere :
      (entry : LocalTreeEntry) (s : Drafting) {t : Drafting}
      → draft_entry c entry s ≡ ok t
      → (contains (expected_names c.expected_paths) entry.relative_path ≡ false
          → (entry.relative_path == q) ≡ false)
      → lookup q t.drafts ≡ lookup q s.drafts
  unfolding draft_entry
  draft_entry_elsewhere entry s {t} h away =
      let path = entry.relative_path in
      let (kind, remote_id) =
        decide_entry c.receipt_by_path c.expected_by_remote_id c.local_entries entry in
      elim (Bool-cases (contains (expected_names c.expected_paths) path)) [
        | inl known ↦ let same : t.drafts ≡ s.drafts = ground (arith, known) in ap (lookup q) same
        | inr fresh ↦
            let added : add_action s kind remote_id path c.max_actions ≡ ok t =
              ground (arith, fresh) in
            add_action_elsewhere c.max_actions q s kind remote_id path added (away fresh)
      ]

  pub draft_entries_elsewhere :
      (entries : List LocalTreeEntry) (s : Drafting) {t : Drafting}
      → draft_entries c entries s ≡ ok t
      → ((entry : LocalTreeEntry)
          → Among entry entries
          → contains (expected_names c.expected_paths) entry.relative_path ≡ false
          → (entry.relative_path == q) ≡ false)
      → lookup q t.drafts ≡ lookup q s.drafts
  unfolding draft_entries
  draft_entries_elsewhere [] s {t} h away = let same : t.drafts ≡ s.drafts = ground arith in rw same
  draft_entries_elsewhere (entry ∷ entries) s h away =
      let (t, f, g) = >>=-eq-ok (draft_entry c entry s) _ h in
      draft_entries_elsewhere entries t g (λ x m. away x (inr m))
      ∙ draft_entry_elsewhere entry s f (away entry (inl refl))

  draft_receipt_elsewhere :
      (r : ReceiveOnlyOwnershipReceipt) (s : Drafting) {t : Drafting}
      → draft_receipt c r s ≡ ok t
      → (r.relative_path ≡ q → receipt_is_settled c.local_by_path c.expected_by_remote_id r ≡ true)
      → lookup q t.drafts ≡ lookup q s.drafts
  unfolding draft_receipt
  draft_receipt_elsewhere r s {t} h settled =
      let path = r.relative_path in
      elim (Bool-cases (receipt_is_settled c.local_by_path c.expected_by_remote_id r)) [
        | inl done ↦ let same : t.drafts ≡ s.drafts = ground (arith, done) in ap (lookup q) same
        | inr open_ ↦
            let added : add_action s blocked (some r.remote_id) path c.max_actions ≡ ok t =
              ground (arith, open_) in
            elim (Bool-cases (path == q)) [
              | inl here ↦ absurd (ground (arith, settled (==→≡ path q here), open_))
              | inr differ ↦
                  add_action_elsewhere c.max_actions q s blocked (some r.remote_id) path added
                    differ
            ]
      ]

  pub draft_receipts_elsewhere :
      (receipts : List ReceiveOnlyOwnershipReceipt) (s : Drafting) {t : Drafting}
      → draft_receipts c receipts s ≡ ok t
      → ((r : ReceiveOnlyOwnershipReceipt)
          → Among r receipts
          → r.relative_path ≡ q
          → receipt_is_settled c.local_by_path c.expected_by_remote_id r ≡ true)
      → lookup q t.drafts ≡ lookup q s.drafts
  unfolding draft_receipts
  draft_receipts_elsewhere [] s {t} h settled =
      let same : t.drafts ≡ s.drafts = ground arith in rw same
  draft_receipts_elsewhere (r ∷ receipts) s h settled =
      let (t, f, g) = >>=-eq-ok (draft_receipt c r s) _ h in
      draft_receipts_elsewhere receipts t g (λ x m. settled x (inr m))
      ∙ draft_receipt_elsewhere r s f (settled r (inl refl))

module _ (c : Context) where
  carry_out_new :
      (d : Decision) (s : Drafting) (e : RemoteExpectedPath)
      (kind : ReceiveOnlyConvergenceActionKind) {t : Drafting}
      → d ≡ act kind
      → carry_out d s e c.max_actions ≡ ok t
      → lookup e.relative_path s.drafts ≡ none
      → lookup e.relative_path t.drafts ≡ some (draft_for kind (some e.remote_id) e.relative_path)
  carry_out_new d s e kind {t} decided_so f absent =
      let acted : carry_out (act kind) s e c.max_actions ≡ ok t =
        subst (λ x. carry_out x s e c.max_actions ≡ ok t) decided_so f in
      add_action_new c.max_actions e.relative_path s kind (some e.remote_id) e.relative_path acted
        absent

  -- The item that is decided to be acted on gets its draft.
  draft_expected_new :
      (es : List RemoteExpectedPath) (s : Drafting) (e : RemoteExpectedPath)
      (kind : ReceiveOnlyConvergenceActionKind) {t : Drafting}
      → draft_expected c es s ≡ ok t
      → IsNodup (expected_names es)
      → Among e es
      → decided c e ≡ act kind
      → lookup e.relative_path s.drafts ≡ none
      → lookup e.relative_path t.drafts ≡ some (draft_for kind (some e.remote_id) e.relative_path)
  unfolding draft_expected
  draft_expected_new [] s e kind h once m decided_so absent = absurd m
  draft_expected_new (x ∷ es) s e kind h (new, once) (inl p) decided_so absent =
      let (t, f, g) = >>=-eq-ok (carry_out (decided c x) s x c.max_actions) _ h in
      let away : contains (expected_names es) e.relative_path ≡ false = rw (← p) new in
      let acted : carry_out (decided c e) s e c.max_actions ≡ ok t = rw (← p) f in
      draft_expected_elsewhere c e.relative_path es t g away
      ∙ carry_out_new (decided c e) s e kind decided_so acted absent
  draft_expected_new (x ∷ es) s e kind h (new, once) (inr m) decided_so absent =
      let (t, f, g) = >>=-eq-ok (carry_out (decided c x) s x c.max_actions) _ h in
      let differ : (x.relative_path == e.relative_path) ≡ false =
        ground (arith, new, contains_names-Among es e m) in
      draft_expected_new es t e kind g once m decided_so
        (carry_out_elsewhere c.max_actions e.relative_path (decided c x) s x f differ ∙ absent)

  pub draft_actions_new :
      (receipts : List ReceiveOnlyOwnershipReceipt) (e : RemoteExpectedPath)
      (kind : ReceiveOnlyConvergenceActionKind) {s : Drafting}
      → draft_actions c receipts ≡ ok s
      → IsNodup (expected_names c.expected_paths)
      → Among e c.expected_paths
      → decided c e ≡ act kind
      → ((r : ReceiveOnlyOwnershipReceipt)
          → Among r receipts
          → r.relative_path ≡ e.relative_path
          → receipt_is_settled c.local_by_path c.expected_by_remote_id r ≡ true)
      → lookup e.relative_path s.drafts ≡ some (draft_for kind (some e.remote_id) e.relative_path)
  unfolding draft_actions
  draft_actions_new receipts e kind h once m decided_so settled =
      let q = e.relative_path in
      let known = contains_names-Among c.expected_paths e m in
      let (s, f1, f2) = >>=-eq-ok (draft_expected c c.expected_paths no_drafting) _ h in
      let (t, f3, f4) = >>=-eq-ok (draft_entries c c.local_entries s) _ f2 in
      draft_receipts_elsewhere c q receipts t f4 settled
      ∙ draft_entries_elsewhere c q c.local_entries s f3
          (λ entry n fresh. ground (arith, known, fresh))
      ∙ draft_expected_new c.expected_paths no_drafting e kind f1 once m decided_so
          (unfold lookup in refl)

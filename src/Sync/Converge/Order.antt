-- ===== src/Sync/Converge/Order.antt =====
-- The order of the actions of a plan of crates/nubisync-sync/src/convergence.rs.
use nubisync.Base.{
  All, All-insert_sorted, Bool, Bool-cases, List, [], arith, false, if◌then◌else◌, inl, inr,
  insert_sorted, int_eq, is_gt, leb, ltb, map, nat_eq, ok, option_eq, sort_by, text_eq, true, ℕ,
  ◌&&◌, ◌==◌, ◌||◌, ◌∷◌, ◌≡◌, All-sort_by, Text, length, refl, split, suc,
}
use nubisync.Core.Path.{slash}
use nubisync.Core.Remote.{RemoteItem}
use nubisync.Sync.Local.{LocalTreeEntry}
use nubisync.Sync.Converge.Receipts.{ReceiveOnlyOwnershipReceipt}
use nubisync.Sync.Converge.Drafts.{
  ReceiveOnlyConvergenceActionKind, action_kind_eq, Drafts, create_directory,
  materialize_missing_file, verify_existing_file, revalidate_stale_file_replacement,
  revalidate_stale_file_deletion, delete_owned_empty_directory, blocked,
}
use nubisync.Sync.Converge.Plan.{
  ReceiveOnlyConvergenceAction, ReceiveOnlyConvergencePlan, action_of, compare_actions,
  sorted_actions, by_key, action_priority, is_directory_deletion, plan_receive_only_convergence,
  path_depth,
}
use nubisync.Sync.Converge.Parts.{plan_parts}

-- The phases in which actions are carried out.
abbrev pub phase : ReceiveOnlyConvergenceActionKind → ℕ
phase create_directory = 0
phase materialize_missing_file = 1
phase verify_existing_file = 1
phase revalidate_stale_file_replacement = 1
phase revalidate_stale_file_deletion = 2
phase delete_owned_empty_directory = 3
phase blocked = 4

-- The number of slashes in a path.
abbrev pub slashes : Text → ℕ
slashes [] = 0
slashes (x ∷ path) = if x == slash then suc (slashes path) else slashes path

-- Of two paths of a phase, which is nearer the root; for deletions of directories, farther from it.
abbrev nearer : ReceiveOnlyConvergenceActionKind → Text → Text → Bool
nearer delete_owned_empty_directory p q = leb (slashes q) (slashes p)
nearer _ p q = leb (slashes p) (slashes q)

-- The left action may be carried out before the right one: it is of an earlier phase, or of the
-- same one and its path has no more slashes, for a deletion of a directory no fewer.
abbrev pub precedes : ReceiveOnlyConvergenceAction → ReceiveOnlyConvergenceAction → Bool
precedes a b =
    ltb (phase a.kind) (phase b.kind)
    || (phase a.kind == phase b.kind && nearer a.kind a.relative_path b.relative_path)

abbrev pub IsOrdered : List ReceiveOnlyConvergenceAction → Type 0
IsOrdered [] = Unit
IsOrdered (a ∷ actions) = All (λ b. precedes a b ≡ true) actions × IsOrdered actions

-- The same by the keys that the actions are sorted by.
abbrev key_precedes : ReceiveOnlyConvergenceAction → ReceiveOnlyConvergenceAction → Bool
key_precedes a b =
    ltb (action_priority a.kind) (action_priority b.kind)
    || (action_priority a.kind == action_priority b.kind
        && (if is_directory_deletion a.kind then leb b.depth a.depth else leb a.depth b.depth))

abbrev IsKeyOrdered : List ReceiveOnlyConvergenceAction → Type 0
IsKeyOrdered [] = Unit
IsKeyOrdered (a ∷ actions) = All (λ b. key_precedes a b ≡ true) actions × IsKeyOrdered actions

phase_lem : (kind : ReceiveOnlyConvergenceActionKind) → action_priority kind ≡ phase kind
unfolding action_priority
phase_lem kind = ground arith

length-split : (path : Text) → length (split slash path) ≡ suc (slashes path)
unfolding split
length-split [] = refl
length-split (x ∷ path) = ground (arith, length-split path)

abbrev HasDepth : ReceiveOnlyConvergenceAction → Type 0
HasDepth a = a.depth ≡ suc (slashes a.relative_path)

All-action_of : (drafts : Drafts) → All HasDepth (map action_of drafts)
unfolding path_depth
All-action_of [] = tt
All-action_of ((_, d) ∷ drafts) = (length-split d.relative_path, All-action_of drafts)

precedes_by_key :
    (a b : ReceiveOnlyConvergenceAction)
    → HasDepth a
    → HasDepth b
    → key_precedes a b ≡ true
    → precedes a b ≡ true
precedes_by_key a b p q h = ground (arith, p, q, phase_lem a.kind, phase_lem b.kind)

All-precedes :
    (a : ReceiveOnlyConvergenceAction) (actions : List ReceiveOnlyConvergenceAction)
    → HasDepth a
    → All HasDepth actions
    → All (λ b. key_precedes a b ≡ true) actions
    → All (λ b. precedes a b ≡ true) actions
All-precedes a [] p q h = tt
All-precedes a (b ∷ actions) p (q, qs) (here, rest) =
    (precedes_by_key a b p q here, All-precedes a actions p qs rest)

IsKeyOrdered-IsOrdered :
    (actions : List ReceiveOnlyConvergenceAction)
    → All HasDepth actions
    → IsKeyOrdered actions
    → IsOrdered actions
IsKeyOrdered-IsOrdered [] p h = tt
IsKeyOrdered-IsOrdered (a ∷ actions) (p, ps) (here, rest) =
    (All-precedes a actions p ps here, IsKeyOrdered-IsOrdered actions ps rest)

deletion_priority :
    (kind : ReceiveOnlyConvergenceActionKind)
    → is_directory_deletion kind ≡ (action_priority kind == 3)
unfolding action_priority action_kind_eq nat_eq
deletion_priority kind = ground arith

precedes_trans :
    (a b c : ReceiveOnlyConvergenceAction)
    → key_precedes a b ≡ true
    → key_precedes b c ≡ true
    → key_precedes a c ≡ true
precedes_trans a b c h k = ground (arith, deletion_priority a.kind, deletion_priority b.kind)

not_after_precedes :
    (a b : ReceiveOnlyConvergenceAction)
    → is_gt (compare_actions a b) ≡ false
    → key_precedes a b ≡ true
unfolding compare_actions
not_after_precedes a b h = ground (arith, deletion_priority a.kind, deletion_priority b.kind)

after_precedes :
    (a b : ReceiveOnlyConvergenceAction)
    → is_gt (compare_actions a b) ≡ true
    → key_precedes b a ≡ true
unfolding compare_actions
after_precedes a b h = ground (arith, deletion_priority a.kind, deletion_priority b.kind)

All-trans :
    (a b : ReceiveOnlyConvergenceAction) (actions : List ReceiveOnlyConvergenceAction)
    → key_precedes a b ≡ true
    → All (λ c. key_precedes b c ≡ true) actions
    → All (λ c. key_precedes a c ≡ true) actions
All-trans a b [] h all_after = tt
All-trans a b (c ∷ actions) h (here, rest) =
    (precedes_trans a b c h here, All-trans a b actions h rest)

insert_sorted-IsKeyOrdered :
    (a : ReceiveOnlyConvergenceAction) (actions : List ReceiveOnlyConvergenceAction)
    → IsKeyOrdered actions
    → IsKeyOrdered (insert_sorted compare_actions a actions)
unfolding insert_sorted
insert_sorted-IsKeyOrdered a [] h = (tt, tt)
insert_sorted-IsKeyOrdered a (b ∷ actions) (first, rest) =
    elim (Bool-cases (is_gt (compare_actions a b))) [
      | inl after ↦ rw after (
        All-insert_sorted compare_actions (λ c. key_precedes b c ≡ true) a actions
            (after_precedes a b after) first,
        insert_sorted-IsKeyOrdered a actions rest,
      )
      | inr before ↦
          let h = not_after_precedes a b before in
          rw before ((h, All-trans a b actions h first), (first, rest))
    ]

sort_by-IsKeyOrdered :
    (actions : List ReceiveOnlyConvergenceAction) → IsKeyOrdered (sort_by compare_actions actions)
unfolding sort_by
sort_by-IsKeyOrdered [] = tt
sort_by-IsKeyOrdered (a ∷ actions) =
    insert_sorted-IsKeyOrdered a (sort_by compare_actions actions) (sort_by-IsKeyOrdered actions)

-- The actions of a plan are in the order in which they can be carried out: creations of directories
-- first, then files to fetch, to verify or to replace, then deletions of files, then deletions of
-- directories, then what is blocked; in a phase by the number of slashes in
-- the path, fewest first, for deletions of directories most first.
pub plan_receive_only_convergence-IsOrdered :
    (remote_items : List RemoteItem) (local_entries : List LocalTreeEntry)
    (receipts : List ReceiveOnlyOwnershipReceipt) (max_actions : ℕ) {p : ReceiveOnlyConvergencePlan}
    → plan_receive_only_convergence remote_items local_entries receipts max_actions ≡ ok p
    → IsOrdered p.actions
unfolding sorted_actions
plan_receive_only_convergence-IsOrdered remote_items local_entries receipts max_actions h =
    let (_, s, _, _, _, same) = plan_parts remote_items local_entries receipts max_actions h in
    let actions = map action_of (sort_by by_key s.drafts) in
    rw same (
      IsKeyOrdered-IsOrdered (sort_by compare_actions actions)
        (All-sort_by compare_actions HasDepth actions (All-action_of (sort_by by_key s.drafts)))
        (sort_by-IsKeyOrdered actions))

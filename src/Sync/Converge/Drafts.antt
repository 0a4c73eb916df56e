-- ===== src/Sync/Converge/Drafts.antt =====
-- Action drafts by path, and `set_action` of crates/nubisync-sync/src/convergence.rs.
use nubisync.Base.{
  Dict, Eq, Option, Text, err, if◌then◌else◌, insert, int_eq, length, lookup, ltb, nat_eq, none, ok,
  option_eq, some, text_eq, ℕ, ◌==◌,
}
use nubisync.Sync.Converge.Receipts.{Converged, action_limit_exceeded}

pub data ReceiveOnlyConvergenceActionKind : Type 0 where
  create_directory : ReceiveOnlyConvergenceActionKind
  materialize_missing_file : ReceiveOnlyConvergenceActionKind
  verify_existing_file : ReceiveOnlyConvergenceActionKind
  revalidate_stale_file_replacement : ReceiveOnlyConvergenceActionKind
  revalidate_stale_file_deletion : ReceiveOnlyConvergenceActionKind
  delete_owned_empty_directory : ReceiveOnlyConvergenceActionKind
  blocked : ReceiveOnlyConvergenceActionKind

action_kind_discrete : Discrete ReceiveOnlyConvergenceActionKind
action_kind_discrete = hlevel

instance unfoldable pub action_kind_eq : Eq ReceiveOnlyConvergenceActionKind
unfolding action_kind_discrete
action_kind_eq = record { dec = action_kind_discrete }

pub record ActionDraft : Type 0 where
  pub kind : ReceiveOnlyConvergenceActionKind
  pub remote_id : Option Text
  pub relative_path : Text

abbrev pub Drafts : Type 0
Drafts = Dict Text ActionDraft

abbrev pub block : ActionDraft → ActionDraft
block existing = record existing { kind = blocked; remote_id = none }

-- Two different actions on one path become a blocked one.
unfoldable pub set_action : Drafts → ActionDraft → ℕ → Converged Drafts
set_action actions candidate max_actions = elim (lookup candidate.relative_path actions) [
  | some existing ↦
      if existing.kind == candidate.kind
      then ok actions
      else ok (insert candidate.relative_path (block existing) actions)
  | none ↦
      let grown = insert candidate.relative_path candidate actions in
      if ltb max_actions (length grown) then err action_limit_exceeded else ok grown
]

-- ===== src/Sync/Converge/Receipts.antt =====
-- Ownership receipts and the errors of the convergence planner, of
-- crates/nubisync-sync/src/convergence.rs.
use nubisync.Base.{Result, Text, is_blank, map_err, ok, reject_if, ◌>>◌}
use nubisync.Sync.Local.{
  LocalTreeEntryKind, ReceiveOnlyMaterializationPlanError, validate_safe_relative_path,
}

pub data ReceiveOnlyReceiptState : Type 0 where
  current stale : ReceiveOnlyReceiptState

pub record ReceiveOnlyOwnershipReceipt : Type 0 where
  pub remote_id : Text
  pub relative_path : Text
  pub kind : LocalTreeEntryKind
  pub state : ReceiveOnlyReceiptState

pub data ReceiveOnlyConvergencePlanError : Type 0 where
  materialization : ReceiveOnlyMaterializationPlanError → ReceiveOnlyConvergencePlanError
  invalid_max_actions : ReceiveOnlyConvergencePlanError
  invalid_receipt_remote_id : ReceiveOnlyConvergencePlanError
  invalid_receipt_path : ReceiveOnlyConvergencePlanError
  duplicate_receipt_remote_id : ReceiveOnlyConvergencePlanError
  duplicate_receipt_path : ReceiveOnlyConvergencePlanError
  action_limit_exceeded : ReceiveOnlyConvergencePlanError

abbrev pub Converged {ℓ} : Type ℓ → Type ℓ
Converged A = Result ReceiveOnlyConvergencePlanError A

unfoldable pub new_receipt :
    Text
    → Text
    → LocalTreeEntryKind
    → ReceiveOnlyReceiptState
    → Converged ReceiveOnlyOwnershipReceipt
new_receipt remote_id relative_path kind state = do
  reject_if (is_blank remote_id) invalid_receipt_remote_id
  map_err (λ _. invalid_receipt_path) (validate_safe_relative_path relative_path)
  ok (record { remote_id = remote_id; relative_path = relative_path; kind = kind; state = state })

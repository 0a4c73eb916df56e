-- ===== src/Sync/Converge/Index.antt =====
-- The indexes that `plan_receive_only_convergence` of crates/nubisync-sync/src/convergence.rs reads.
use nubisync.Base.{
  List, [], contains_key, err, if◌then◌else◌, insert, int_eq, map_err, nat_eq, ok, option_eq,
  reject_if, text_eq, ℕ, ◌==◌, ◌>>=◌, ◌>>◌, ◌∷◌,
}
use nubisync.Core.Remote.{RemoteItem}
use nubisync.Sync.Local.{LocalTreeEntry, duplicate_local_path}
use nubisync.Sync.Paths.{RemoteExpectedPath, build_remote_expected_paths}
use nubisync.Sync.Materialize.{Locals, plan_receive_only_materialization}
use nubisync.Sync.Converge.Receipts.{
  ReceiveOnlyOwnershipReceipt, Converged, materialization, invalid_max_actions,
  duplicate_receipt_remote_id, duplicate_receipt_path,
}
use nubisync.Sync.Converge.Decide.{Receipts, Expected}

-- The loop that fills `local_by_path`.
unfoldable pub index_locals : Locals → List LocalTreeEntry → Converged Locals
index_locals d [] = ok d
index_locals d (entry ∷ entries) =
    let rest = index_locals (insert entry.relative_path entry.kind d) entries in
    if contains_key entry.relative_path d then err (materialization duplicate_local_path) else rest

-- The loop that fills `receipt_by_remote_id` and `receipt_by_path`.
unfoldable pub index_receipts :
    Receipts → Receipts → List ReceiveOnlyOwnershipReceipt → Converged (Receipts × Receipts)
index_receipts by_id by_path [] = ok (by_id, by_path)
index_receipts by_id by_path (receipt ∷ receipts) =
    let rest =
      index_receipts (insert receipt.remote_id receipt by_id)
        (insert receipt.relative_path receipt by_path) receipts in
    if contains_key receipt.remote_id by_id
    then err duplicate_receipt_remote_id
    else if contains_key receipt.relative_path by_path
    then err duplicate_receipt_path
    else rest

unfoldable pub index_expected : Expected → List RemoteExpectedPath → Expected
index_expected d [] = d
index_expected d (e ∷ es) = index_expected (insert e.remote_id (e.relative_path, e.kind) d) es

-- What the loops share.
pub record Context : Type 0 where
  pub expected_paths : List RemoteExpectedPath
  pub local_entries : List LocalTreeEntry
  pub local_by_path : Locals
  pub receipt_by_remote_id : Receipts
  pub receipt_by_path : Receipts
  pub expected_by_remote_id : Expected
  pub max_actions : ℕ

-- The indexes that the loops read, or the error of the first that cannot be made.
unfoldable pub make_context :
    List RemoteItem → List LocalTreeEntry → List ReceiveOnlyOwnershipReceipt → ℕ → Converged Context
make_context remote_items local_entries receipts max_actions = do
  reject_if (max_actions == 0) invalid_max_actions
  _ ← map_err materialization (plan_receive_only_materialization remote_items local_entries)
  expected_paths ← map_err materialization (build_remote_expected_paths remote_items)
  local_by_path ← index_locals [] local_entries
  indexed ← index_receipts [] [] receipts
  ok (record {
    expected_paths = expected_paths;
    local_entries = local_entries;
    local_by_path = local_by_path;
    receipt_by_remote_id = indexed.0;
    receipt_by_path = indexed.1;
    expected_by_remote_id = index_expected [] expected_paths;
    max_actions = max_actions;
  })

-- ===== src/Sync/Reconcile.antt =====
-- `plan` of crates/nubisync-sync/src/lib.rs: what to do about an item that changed on one side, or
-- on both, since the last checkpoint.
use nubisync.Base.{Bool, arith, false, if◌then◌else◌, true, ◌&&◌, ◌↔◌, ◌≡◌, ◌≢◌}
use nubisync.Core.Modes.{SyncMode, two_way, mirror_local_to_remote, receive_only}

pub record Divergence : Type 0 where
  pub local_changed_since_checkpoint : Bool
  pub remote_changed_since_checkpoint : Bool

pub data ReconcileAction : Type 0 where
  noop upload_local download_remote conflict ignore_local_change ignore_remote_change :
      ReconcileAction

-- The `match` on the mode and the two flags. The case of both flags does not arrive here: it is
-- `unreachable!` in the code, and `plan` has answered it.
unfoldable pub plan_by_mode : SyncMode → Bool → Bool → ReconcileAction
plan_by_mode _ false false = noop
plan_by_mode two_way true false = upload_local
plan_by_mode mirror_local_to_remote true false = upload_local
plan_by_mode two_way false true = download_remote
plan_by_mode receive_only false true = download_remote
plan_by_mode receive_only true false = ignore_local_change
plan_by_mode mirror_local_to_remote false true = ignore_remote_change
plan_by_mode _ true true = conflict

unfoldable pub plan : SyncMode → Divergence → ReconcileAction
unfolding plan_by_mode
plan mode d =
    if local_changed_since_checkpoint && remote_changed_since_checkpoint
    then conflict
    else plan_by_mode mode local_changed_since_checkpoint remote_changed_since_checkpoint
  where
    open d use {local_changed_since_checkpoint, remote_changed_since_checkpoint}

-- The plan is a conflict exactly when both sides changed. It uploads exactly when only the local
-- side changed and the mode is not receive-only, and downloads exactly when only the remote side
-- changed and the mode is not the mirror. So it never overwrites a side that changed.
plan_iff :
    (mode : SyncMode) (d : Divergence)
    → ((plan mode d ≡ conflict)
        ↔ ((d.local_changed_since_checkpoint ≡ true) × (d.remote_changed_since_checkpoint ≡ true)))
      × ((plan mode d ≡ upload_local) ↔ (
          (d.local_changed_since_checkpoint ≡ true)
          × (d.remote_changed_since_checkpoint ≡ false)
          × (mode ≢ receive_only)))
      × ((plan mode d ≡ download_remote) ↔ (
          (d.local_changed_since_checkpoint ≡ false)
          × (d.remote_changed_since_checkpoint ≡ true)
          × (mode ≢ mirror_local_to_remote)))
      × ((plan mode d ≡ noop) ↔ (
          (d.local_changed_since_checkpoint ≡ false) × (d.remote_changed_since_checkpoint ≡ false)))
unfolding plan
plan_iff mode d = (
  (λ h. ground arith, λ h. ground arith),
  (λ h. ground arith, λ h. ground arith),
  (λ h. ground arith, λ h. ground arith),
  (λ h. ground arith, λ h. ground arith),
)

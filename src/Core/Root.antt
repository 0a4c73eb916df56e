-- ===== src/Core/Root.antt =====
-- `SyncRoot` of crates/nubisync-core/src/lib.rs.
use nubisync.Base.{
  Bool, Option, Result, Text, arith, byte_len, false, is_blank, ltb, none, ok, reject_if, some, ℤ,
  ◌||◌, ◌↔◌, ◌≡◌, ◌≤◌, ◌>>◌,
}
use nubisync.Core.Error.{
  CoreError, invalid_sync_root_id, invalid_account_subject, invalid_sync_root_local_path,
  invalid_remote_root_id,
}
use nubisync.Core.Ids.{ProviderId}
use nubisync.Core.Modes.{SyncMode}

pub record SyncRoot : Type 0 where
  pub id : Text
  pub provider : ProviderId
  pub account_subject : Text
  pub local_path : Text
  pub remote_root_id : Option Text
  pub mode : SyncMode
  pub created_at_unix_ms : ℤ

-- `value.as_ref().is_some_and(|value| value.trim().is_empty())`
unfoldable pub is_some_blank : Option Text → Bool
unfolding is_blank
is_some_blank none = false
is_some_blank (some value) = is_blank value

unfoldable pub new_sync_root :
    Text → ProviderId → Text → Text → Option Text → SyncMode → ℤ → Result CoreError SyncRoot
unfolding is_some_blank byte_len
new_sync_root id provider account_subject local_path remote_root_id mode created_at_unix_ms = do
  reject_if (is_blank id || ltb 128 (byte_len id)) invalid_sync_root_id
  reject_if (is_blank account_subject) invalid_account_subject
  reject_if (is_blank local_path) invalid_sync_root_local_path
  reject_if (is_some_blank remote_root_id) invalid_remote_root_id
  ok (record {
    id = id;
    provider = provider;
    account_subject = account_subject;
    local_path = local_path;
    remote_root_id = remote_root_id;
    mode = mode;
    created_at_unix_ms = created_at_unix_ms;
  })

-- What a caller may rely on in a root that was accepted.
pub record IsSyncRoot (r : SyncRoot) : Type 0 where
  pub id_not_blank : is_blank r.id ≡ false
  pub id_short : byte_len r.id ≤ 128
  pub subject_not_blank : is_blank r.account_subject ≡ false
  pub path_not_blank : is_blank r.local_path ≡ false
  pub remote_not_blank : is_some_blank r.remote_root_id ≡ false

-- A root is accepted exactly when its id has at most 128 bytes and no field among id, account
-- subject, local path and a remote id that is present is blank. The root holds what was given.
new_sync_root_iff :
    (r : SyncRoot) (given : SyncRoot)
    → (new_sync_root given.id given.provider given.account_subject given.local_path
          given.remote_root_id given.mode given.created_at_unix_ms
        ≡ ok r)
      ↔ (IsSyncRoot given × (r ≡ given))
unfolding new_sync_root
new_sync_root_iff r given = (λ h. ground arith, λ h. ground arith)

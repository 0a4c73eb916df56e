-- ===== src/Storage/Tables.antt =====
-- The tables of one sync root in crates/nubisync-storage/src/lib.rs. Every statement that reads or
-- writes them names the sync root, so a table is here the rows of that root, without the column.
use nubisync.Base.{
  Bool, Dict, List, Option, Result, Text, ok, err, if◌then◌else◌, ltb, none, some, ◌>>=◌, ◌+◌, ℕ, ℤ,
}
use nubisync.Core.Remote.{RemoteItemKind}
use nubisync.Storage.Failure.{StorageError, numeric_overflow}

-- A row of `sync_root_remote_inventory_state`.
pub record InventoryStateRow : Type 0 where
  pub snapshot_complete : Bool
  pub catchup_complete : Bool
  pub item_count : ℕ
  pub snapshot_completed_at_unix_ms : Option ℤ
  pub catchup_from_cursor : Option Text
  pub change_cursor : Option Text

-- A row of `sync_root_remote_items`, under its `remote_id`.
pub record ItemRow : Type 0 where
  pub parent_remote_id : Option Text
  pub name : Text
  pub item_kind : RemoteItemKind
  pub size_bytes : Option ℕ
  pub trashed : Bool
  pub observed_at_unix_ms : ℤ

-- A row of `sync_root_change_window_state`.
pub record WindowRow : Type 0 where
  pub base_cursor : Text
  pub continuation : Option Text
  pub checkpoint : Option Text
  pub page_count : ℕ
  pub change_count : ℕ

-- The texts that the column `event_kind` admits.
pub data EventKind : Type 0 where
  delete_event upsert_event : EventKind

-- A row of `sync_root_change_window_events`, under its `sequence`.
pub record EventRow : Type 0 where
  pub event_kind : EventKind
  pub remote_id : Text
  pub parent_remote_id : Option Text
  pub name : Option Text
  pub item_kind : Option RemoteItemKind
  pub size_bytes : Option ℕ
  pub trashed : Bool

-- The texts that the column `receipt_state` admits.
pub data ReceiptState : Type 0 where
  current stale : ReceiptState

-- A row of `sync_root_file_materialization_receipts`, under its `remote_id`.
pub record FileReceiptRow : Type 0 where
  pub relative_path : Text
  pub size_bytes : ℕ
  pub sha256_hex : Text
  pub materialized_at_unix_ms : ℤ
  pub receipt_state : ReceiptState

-- A row of `sync_root_directory_materialization_receipts`, under its `remote_id`.
pub record DirectoryReceiptRow : Type 0 where
  pub relative_path : Text
  pub materialized_at_unix_ms : ℤ
  pub receipt_state : ReceiptState

pub record RootTables : Type 0 where
  pub inventory_state : Option InventoryStateRow
  pub items : Dict Text ItemRow
  pub window : Option WindowRow
  pub events : Dict ℕ EventRow
  pub tokens : List Text
  pub file_receipts : Dict Text FileReceiptRow
  pub directory_receipts : Dict Text DirectoryReceiptRow

-- 2 ^ 63
abbrev pub i64_bound : ℕ
i64_bound = 9223372036854775808

-- `i64::try_from` on a `u64` or a `usize`.
unfoldable pub i64_try_from : ℕ → Result StorageError ℕ
i64_try_from n = if ltb n i64_bound then ok n else err numeric_overflow

-- `checked_add` on two `i64` that are not negative.
unfoldable pub i64_checked_add : ℕ → ℕ → Result StorageError ℕ
i64_checked_add a b = if ltb (a + b) i64_bound then ok (a + b) else err numeric_overflow

-- `.map(i64::try_from).transpose()`
unfoldable pub optional_size : Option ℕ → Result StorageError (Option ℕ)
unfolding i64_try_from
optional_size none = ok none
optional_size (some n) = i64_try_from n >>= λ size. ok (some size)

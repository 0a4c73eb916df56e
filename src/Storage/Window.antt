-- ===== src/Storage/Window.antt =====
-- The change window of one sync root in crates/nubisync-storage/src/lib.rs: pages of remote changes
-- are staged from a durable cursor until one carries a checkpoint; the window is then committed or
-- discarded as a whole.
use nubisync.Base.{
  Bool, Dict, List, Option, Result, Text, [], contains, contains_key, false, is_blank, is_empty,
  is_some, length, ltb, nat_eq, none, not, ok, option_eq, reject_if, some, suc, text_eq, true, ℕ,
  ◌++◌, ◌==◌, ◌>>=◌, ◌>>◌, ◌||◌, ◌∷◌, int_eq,
}
use nubisync.Core.Ids.{ChangeCursor, ContinuationToken}
use nubisync.Core.Remote.{ChangePage, RemoteChange, RemoteItem, delete, upsert}
use nubisync.Storage.Failure.{
  StorageError, invalid_sync_root_change_page_boundary, invalid_sync_root_change_event,
  sync_root_change_window_base_cursor_mismatch, sync_root_change_window_continuation_mismatch,
  sync_root_change_window_already_complete, sync_root_change_window_pagination_loop,
  sync_root_change_window_safety_limit_exceeded, sqlite,
}
use nubisync.Storage.Tables.{
  EventRow, delete_event, upsert_event, WindowRow, RootTables, i64_try_from, i64_checked_add,
  optional_size,
}
use nubisync.Storage.Catalog.{durable_cursor}

pub record SyncRootChangeWindowState : Type 0 where
  pub base_cursor : ChangeCursor
  pub continuation : Option ContinuationToken
  pub checkpoint : Option ChangeCursor
  pub page_count : ℕ
  pub change_count : ℕ

abbrev pub token_text : Option ContinuationToken → Option Text
token_text none = none
token_text (some token) = some token.as_str

abbrev pub cursor_text : Option ChangeCursor → Option Text
cursor_text none = none
cursor_text (some cursor) = some cursor.as_str

-- The counts that a page adds to, from the window that is open.
unfoldable pub open_counts : Text → Option Text → Option WindowRow → Result StorageError (ℕ × ℕ)
open_counts base expected none = do
  reject_if (is_some expected) sync_root_change_window_continuation_mismatch
  ok (0, 0)
open_counts base expected (some window) = do
  reject_if (is_some window.checkpoint) sync_root_change_window_already_complete
  reject_if (not (window.base_cursor == base)) sync_root_change_window_base_cursor_mismatch
  reject_if (not (window.continuation == expected)) sync_root_change_window_continuation_mismatch
  ok (window.page_count, window.change_count)

abbrev pub upsert_row : RemoteItem → Option ℕ → EventRow
upsert_row item size_bytes = record {
  event_kind = upsert_event;
  remote_id = item.remote_id;
  parent_remote_id = item.parent_remote_id;
  name = some item.name;
  item_kind = some item.kind;
  size_bytes = size_bytes;
  trashed = item.trashed;
}

abbrev pub delete_row : Text → EventRow
delete_row remote_id = record {
  event_kind = delete_event;
  remote_id = remote_id;
  parent_remote_id = none;
  name = none;
  item_kind = none;
  size_bytes = none;
  trashed = false;
}

-- The row that is inserted for a change.
unfoldable pub event_of : RemoteChange → Result StorageError EventRow
unfolding optional_size
event_of (delete remote_id) = do
  reject_if (is_blank remote_id) invalid_sync_root_change_event
  ok (delete_row remote_id)
event_of (upsert item) = do
  reject_if (is_blank item.remote_id || is_empty item.name) invalid_sync_root_change_event
  size_bytes ← optional_size item.size_bytes
  ok (upsert_row item size_bytes)

-- `INSERT INTO sync_root_change_window_events`, whose primary key is the sequence.
unfoldable pub insert_event : ℕ → EventRow → Dict ℕ EventRow → Result StorageError (Dict ℕ EventRow)
insert_event sequence row events = do
  reject_if (contains_key sequence events) sqlite
  ok (events ++ (sequence, row) ∷ [])

-- The loop over the page's changes, from the count of those staged before and the offset so far.
unfoldable pub stage_changes :
    ℕ → ℕ → List RemoteChange → Dict ℕ EventRow → Result StorageError (Dict ℕ EventRow)
unfolding event_of insert_event i64_checked_add i64_try_from
stage_changes change_count offset [] events = ok events
stage_changes change_count offset (change ∷ changes) events = do
  offset_i64 ← i64_try_from offset
  sequence ← i64_checked_add change_count offset_i64
  row ← event_of change
  after ← insert_event sequence row events
  stage_changes change_count (suc offset) changes after

-- `INSERT OR IGNORE` of the next token, which reports whether it was new.
unfoldable pub stage_token : Option Text → List Text → Result StorageError (List Text)
stage_token none tokens = ok tokens
stage_token (some token) tokens = do
  reject_if (contains tokens token) sync_root_change_window_pagination_loop
  ok (tokens ++ token ∷ [])

abbrev pub is_same : Bool → Bool → Bool
is_same true b = b
is_same false b = not b

-- The upsert of the window's row leaves the base cursor of an open window.
abbrev pub kept_base : Text → Option WindowRow → Text
kept_base base none = base
kept_base base (some window) = window.base_cursor

abbrev pub maximum_pages : ℕ
maximum_pages = 1000000

abbrev pub maximum_changes : ℕ
maximum_changes = 100000000

unfoldable pub stage_sync_root_change_window_page :
    ChangeCursor
    → Option ContinuationToken
    → ChangePage
    → RootTables
    → Result StorageError (SyncRootChangeWindowState × RootTables)
unfolding durable_cursor open_counts stage_changes stage_token i64_checked_add i64_try_from
stage_sync_root_change_window_page base_cursor expected_continuation page t = do
  reject_if (is_same (is_some page.continuation) (is_some page.checkpoint))
      invalid_sync_root_change_page_boundary
  durable ← durable_cursor t.inventory_state
  reject_if (not (durable == base_cursor.as_str)) sync_root_change_window_base_cursor_mismatch
  counts ← open_counts base_cursor.as_str (token_text expected_continuation) t.window
  next_page_count ← i64_checked_add counts.0 1
  reject_if (ltb maximum_pages next_page_count) sync_root_change_window_safety_limit_exceeded
  page_change_count ← i64_try_from (length page.changes)
  next_change_count ← i64_checked_add counts.1 page_change_count
  reject_if (ltb maximum_changes next_change_count) sync_root_change_window_safety_limit_exceeded
  events ← stage_changes counts.1 0 page.changes t.events
  tokens ← stage_token (token_text page.continuation) t.tokens
  ok (
    record {
      base_cursor = base_cursor;
      continuation = page.continuation;
      checkpoint = page.checkpoint;
      page_count = next_page_count;
      change_count = next_change_count;
    },
    record t {
      window = some (record {
        base_cursor = kept_base base_cursor.as_str t.window;
        continuation = token_text page.continuation;
        checkpoint = cursor_text page.checkpoint;
        page_count = next_page_count;
        change_count = next_change_count;
      });
      events = events;
      tokens = tokens;
    },
  )

-- ===== src/Drive/Pages.antt =====
-- The pages of changes and of the inventory that crates/nubisync-drive/src/api.rs makes of the
-- provider's answers.
use nubisync.Base.{
  Bool, List, Option, Result, Text, [], codes, err, if◌then◌else◌, int_eq, is_blank, is_empty,
  map_err, nat_eq, none, not, ok, ok_or, option_eq, reject_if, some, starts_with, text_eq, ℕ, ◌&&◌,
  ◌==◌, ◌>>=◌, ◌>>◌, ◌||◌, ◌∷◌, ◌++◌, ◌+◌,
}
use nubisync.Core.Error.{CoreError}
use nubisync.Core.Ids.{ContinuationToken, ChangeCursor, new_continuation_token, new_change_cursor}
use nubisync.Core.Remote.{
  RemoteItem, RemoteItemKind, file, folder, RemoteChange, upsert, delete, ChangePage,
}
use nubisync.Drive.Number.{parse_u64}
pub mod Changes
pub mod Inventory

pub data PageError : Type 0 where
  core_error : CoreError → PageError
  invalid_numeric_field : Text → PageError
  invalid_change_page : Text → PageError
  incomplete_inventory_search : PageError
  invalid_inventory_page : Text → PageError

abbrev pub Paged {ℓ} : Type ℓ → Type ℓ
Paged A = Result PageError A

-- `GoogleFile`, and `GoogleInventoryFile`, which has the same fields.
pub record GoogleFile : Type 0 where
  pub id : Text
  pub name : Text
  pub mime_type : Text
  pub parents : List Text
  pub size : Option Text
  pub trashed : Bool

unfoldable pub parse_optional_u64 : Option Text → Text → Paged (Option ℕ)
parse_optional_u64 none field = ok none
parse_optional_u64 (some raw) field = do
  value ← ok_or (parse_u64 raw) (invalid_numeric_field field)
  ok (some value)

-- `.into_iter().next()`
abbrev pub first : List Text → Option Text
first [] = none
first (x ∷ _) = some x

abbrev pub folder_mime_type : Text
folder_mime_type = codes "application/vnd.google-apps.folder"

-- A file of the provider's own kind, with no bytes to fetch.
unfoldable pub is_provider_native : Text → Bool
is_provider_native mime_type =
    not (mime_type == folder_mime_type)
    && starts_with mime_type (codes "application/vnd.google-apps.")

abbrev pub kind_of : Text → RemoteItemKind
kind_of mime_type = if mime_type == folder_mime_type then folder else file

unfoldable pub into_remote_item : GoogleFile → RemoteItemKind → Paged RemoteItem
into_remote_item f kind = do
  size_bytes ← parse_optional_u64 f.size (codes "file.size")
  ok (record {
    remote_id = f.id;
    parent_remote_id = first f.parents;
    name = f.name;
    kind = kind;
    size_bytes = size_bytes;
    modified_unix_ms = none;
    trashed = f.trashed;
  })

pub record GoogleChange : Type 0 where
  pub change_type : Text
  pub file_id : Text
  pub removed : Bool
  pub changed_file : Option GoogleFile

-- The change of an item that is still there.
unfoldable pub into_upsert : Text → GoogleFile → Paged (Option RemoteChange)
into_upsert file_id f = do
  reject_if (not (f.id == file_id)) (invalid_change_page (codes "file_id_mismatch"))
  reject_if (is_empty f.name || is_empty f.mime_type)
      (invalid_change_page (codes "missing_file_identity_metadata"))
  if is_provider_native f.mime_type
      then ok none
      else into_remote_item f (kind_of f.mime_type) >>= λ item. ok (some (upsert item))

unfoldable pub into_remote_change : GoogleChange → Paged (Option RemoteChange)
into_remote_change change = do
  reject_if (not (change.change_type == codes "file"))
      (invalid_change_page (codes "non_file_change"))
  reject_if (is_blank change.file_id) (invalid_change_page (codes "empty_file_id"))
  if change.removed
      then ok (some (delete change.file_id))
      else ok_or change.changed_file (invalid_change_page (codes "missing_file_metadata"))
        >>= into_upsert change.file_id

abbrev pub keep : Option RemoteChange → List RemoteChange → List RemoteChange
keep none changes = changes
keep (some change) changes = change ∷ changes

unfoldable pub into_changes : List GoogleChange → Paged (List RemoteChange)
into_changes [] = ok []
into_changes (change ∷ changes) = do
  converted ← into_remote_change change
  rest ← into_changes changes
  ok (keep converted rest)

abbrev pub transposed {ℓ} :
    {A : Type ℓ} → (Text → Result CoreError A) → Option Text → Paged (Option A)
transposed new none = ok none
transposed new (some value) = map_err core_error (new value) >>= λ token. ok (some token)

-- Exactly one of the two tokens must be there.
abbrev pub check_tokens : Option ContinuationToken → Option ChangeCursor → Paged (Unit {0})
check_tokens (some _) none = ok tt
check_tokens none (some _) = ok tt
check_tokens (some _) (some _) = err (invalid_change_page (codes "both_page_and_checkpoint_tokens"))
check_tokens none none = err (invalid_change_page (codes "missing_page_or_checkpoint_token"))

pub record ChangeListResponse : Type 0 where
  pub next_page_token : Option Text
  pub new_start_page_token : Option Text
  pub changes : List GoogleChange

unfoldable pub into_change_page : ChangeListResponse → Paged ChangePage
into_change_page response = do
  continuation ← transposed new_continuation_token response.next_page_token
  checkpoint ← transposed new_change_cursor response.new_start_page_token
  check_tokens continuation checkpoint
  changes ← into_changes response.changes
  ok (record { changes = changes; continuation = continuation; checkpoint = checkpoint })

pub record FileListResponse : Type 0 where
  pub list_next_page_token : Option Text
  pub incomplete_search : Bool
  pub files : List GoogleFile

pub record DriveInventoryPage : Type 0 where
  pub items : List RemoteItem
  pub inventory_continuation : Option ContinuationToken
  pub supported_items : ℕ
  pub file_count : ℕ
  pub folder_count : ℕ
  pub unsupported_provider_native : ℕ

pub record InventoryTally : Type 0 where
  pub listed : List RemoteItem
  pub listed_files : ℕ
  pub listed_folders : ℕ
  pub listed_native : ℕ

abbrev pub list_folder : GoogleFile → InventoryTally → Paged InventoryTally
list_folder f t = into_remote_item f folder >>= λ item.
    ok (record t { listed = t.listed ++ (item ∷ []); listed_folders = t.listed_folders + 1 })

abbrev pub list_ordinary : GoogleFile → InventoryTally → Paged InventoryTally
list_ordinary f t = into_remote_item f file >>= λ item.
    ok (record t { listed = t.listed ++ (item ∷ []); listed_files = t.listed_files + 1 })

-- The body of the loop over the files.
unfoldable pub list_file : GoogleFile → InventoryTally → Paged InventoryTally
list_file f t = do
  reject_if (is_blank f.id || is_empty f.name || is_empty f.mime_type)
      (invalid_inventory_page (codes "missing_file_identity_metadata"))
  reject_if f.trashed (invalid_inventory_page (codes "trashed_item_returned"))
  if f.mime_type == folder_mime_type
      then list_folder f t
      else if is_provider_native f.mime_type
      then ok (record t { listed_native = t.listed_native + 1 })
      else list_ordinary f t

unfoldable pub list_files : List GoogleFile → InventoryTally → Paged InventoryTally
list_files [] t = ok t
list_files (f ∷ files) t = do t' ← list_file f t; list_files files t'

abbrev pub nothing_listed : InventoryTally
nothing_listed = record { listed = []; listed_files = 0; listed_folders = 0; listed_native = 0 }

unfoldable pub into_inventory_page : FileListResponse → Paged DriveInventoryPage
into_inventory_page response = do
  reject_if response.incomplete_search incomplete_inventory_search
  continuation ← transposed new_continuation_token response.list_next_page_token
  t ← list_files response.files nothing_listed
  ok (record {
    items = t.listed;
    inventory_continuation = continuation;
    supported_items = t.listed_files + t.listed_folders;
    file_count = t.listed_files;
    folder_count = t.listed_folders;
    unsupported_provider_native = t.listed_native;
  })

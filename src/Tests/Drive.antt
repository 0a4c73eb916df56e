-- ===== src/Tests/Drive.antt =====
-- The queries and resumable uploads of crates/nubisync-drive/src/api.rs, run.
use nubisync.Core.Ids.{new_continuation_token}
use nubisync.Drive.Pages.{
  GoogleFile, ChangeListResponse, FileListResponse, DriveInventoryPage, into_inventory_page,
  folder_mime_type, into_remote_item, is_provider_native, list_file, list_files, parse_optional_u64,
}
use nubisync.Core.Remote.{ChangePage, upsert, delete}
use nubisync.Tests.{docs}
use nubisync.Base.{
  byte_len, int_eq, is_blank, is_whitespace, nat_eq, option_eq, text_eq, text_pair_eq, utf8_width,
  Text, [], arith, codes, false, none, ok, refl, some, ◌+◌, ◌-◌, ◌<◌, ◌∷◌, ◌≡◌, true,
}
use nubisync.Drive.Number.{u64_bound, print_u64, parse_u64, parse_digits, print_digits}
use nubisync.Drive.Query.{quote, folder_children_query, escape_drive_query_literal, replace}
use nubisync.Drive.Query.Literal.{read_literal, read-folder_children_query}
use nubisync.Drive.Upload.{
  print_range, build_resumable_chunk_content_range, parse_resumable_next_offset, checked_add,
  strip_prefix,
}
use nubisync.Drive.Upload.Ranges.{confirm, confirmed_chunk_advances}
use nubisync.Drive.Upload.Completion.{
  DriveResumableUploadSession, DriveOrdinaryFileUploadResponse, DriveOrdinaryFileUploadCompletion,
  validate_ordinary_file_upload_completion, IsFileOf, completion-IsFileOf,
  normalize_optional_hex_checksum,
}

fits : 1000000 < u64_bound
fits = omega arith

-- An id with a quote and a backslash in it.
abbrev odd_id : Text
odd_id = 97 ∷ 39 ∷ 92 ∷ []

abbrev odd_query : Text
odd_query = codes "'a\\'\\\\' in parents and 'me' in owners and trashed = false"

asked : folder_children_query odd_id ≡ ok odd_query
unfolding int_eq is_blank is_whitespace text_eq text_pair_eq nat_eq option_eq
    escape_drive_query_literal folder_children_query replace
asked = refl

read-folder_children_query_example :
    (s : Text) × (odd_query ≡ quote ∷ s)
    × (read_literal s ≡ some (odd_id, codes " in parents and 'me' in owners and trashed = false"))
read-folder_children_query_example = read-folder_children_query odd_id odd_query asked

abbrev first_range : Text
first_range = codes "bytes 0-262143/1000000"

sent : build_resumable_chunk_content_range 1000000 0 262144 ≡ ok first_range
unfolding int_eq text_eq nat_eq option_eq print_digits print_u64 build_resumable_chunk_content_range
    checked_add print_range
sent = refl

answered : parse_resumable_next_offset (some (codes "bytes=0-99")) 1000000 ≡ ok 100
unfolding int_eq text_eq nat_eq option_eq parse_digits parse_u64 checked_add
    parse_resumable_next_offset strip_prefix
answered = refl

confirmed_chunk_advances_example :
    parse_resumable_next_offset (some (confirm (0 + 262144 - 1))) 1000000 ≡ ok (0 + 262144)
confirmed_chunk_advances_example =
    confirmed_chunk_advances 1000000 0 262144 first_range fits sent (omega arith)

abbrev session : DriveResumableUploadSession
session = record {
  session_uri = codes "https://www.googleapis.com/upload/drive/v3/files";
  remote_id = codes "7";
  expected_name = codes "a";
  expected_parent_remote_id = codes "root";
  expected_mime_type = codes "text/plain";
  total_bytes = 5;
}

abbrev response : DriveOrdinaryFileUploadResponse
response = record {
  id = codes "7";
  name = codes "a";
  mime_type = codes "text/plain";
  parents = codes "root" ∷ [];
  size = some (codes "5");
  trashed = false;
  version = some (codes "12");
  md5_checksum = none;
  sha256_checksum = none;
}

abbrev completion : DriveOrdinaryFileUploadCompletion
completion = record {
  size_bytes = 5;
  remote_version = 12;
  md5_checksum = none;
  sha256_checksum = none;
}

completed : validate_ordinary_file_upload_completion session response ≡ ok completion
unfolding int_eq byte_len text_eq text_pair_eq utf8_width nat_eq option_eq parse_digits parse_u64
    normalize_optional_hex_checksum validate_ordinary_file_upload_completion
completed = refl

completion-IsFileOf_example : IsFileOf session response completion
completion-IsFileOf_example = completion-IsFileOf session response completion completed

abbrev docs_file : GoogleFile
docs_file = record {
  id = codes "1";
  name = codes "docs";
  mime_type = folder_mime_type;
  parents = codes "root" ∷ [];
  size = none;
  trashed = false;
}

abbrev sheet_file : GoogleFile
sheet_file = record {
  id = codes "5";
  name = codes "sheet";
  mime_type = codes "application/vnd.google-apps.spreadsheet";
  parents = codes "root" ∷ [];
  size = none;
  trashed = false;
}

abbrev change_list : ChangeListResponse
change_list = record {
  next_page_token = none;
  new_start_page_token = some (codes "42");
  changes =
      record {
        change_type = codes "file";
        file_id = codes "1";
        removed = false;
        changed_file = some docs_file;
      }
      ∷ record {
        change_type = codes "file";
        file_id = codes "5";
        removed = false;
        changed_file = some sheet_file;
      }
      ∷ record {
        change_type = codes "file";
        file_id = codes "9";
        removed = true;
        changed_file = none;
      }
      ∷ [];
}

abbrev change_page : ChangePage
change_page = record {
  changes = upsert docs ∷ delete (codes "9") ∷ [];
  continuation = none;
  checkpoint = some (record { as_str = codes "42" });
}

abbrev file_list : FileListResponse
file_list = record {
  list_next_page_token = none;
  incomplete_search = false;
  files = docs_file ∷ sheet_file ∷ [];
}

abbrev inventory : DriveInventoryPage
inventory = record {
  items = docs ∷ [];
  inventory_continuation = none;
  supported_items = 1;
  file_count = 0;
  folder_count = 1;
  unsupported_provider_native = 1;
}

inventoried : into_inventory_page file_list ≡ ok inventory
unfolding int_eq is_blank is_whitespace text_eq text_pair_eq nat_eq option_eq new_continuation_token
    parse_digits parse_u64 into_inventory_page into_remote_item is_provider_native list_file
    list_files parse_optional_u64
inventoried = refl

-- ===== src/Drive/Upload.antt =====
-- The offsets and checks of a resumable upload, of crates/nubisync-drive/src/api.rs.
use nubisync.Base.{
  Option, Result, Text, [], codes, contains, if◌then◌else◌, int_eq, is_empty, leb, ltb, nat_eq,
  none, not, ok, ok_or, option_eq, reject_if, some, text_eq, ℕ, ◌&&◌, ◌++◌, ◌+◌, ◌-◌, ◌==◌, ◌>>=◌,
  ◌>>◌, ◌||◌, ◌∷◌,
}
use Prim.Native.Nat.{◌%◌}
use nubisync.Core.Path.{slash}
use nubisync.Drive.Number.{u64_bound, print_u64, parse_u64}
pub mod Ranges
pub mod Completion

pub data UploadError : Type 0 where
  invalid_resumable_upload_chunk : UploadError
  invalid_resumable_upload_chunk_alignment : UploadError
  invalid_resumable_upload_range : UploadError
  invalid_ordinary_file_create_name : UploadError
  invalid_ordinary_file_upload_checksum : UploadError
  ordinary_file_upload_postcondition_mismatch : UploadError
  ordinary_file_upload_size_missing : UploadError
  ordinary_file_upload_size_invalid : UploadError
  ordinary_file_upload_version_missing : UploadError
  ordinary_file_upload_version_invalid : UploadError

abbrev pub Uploaded {ℓ} : Type ℓ → Type ℓ
Uploaded A = Result UploadError A

unfoldable pub validate_ordinary_file_create_name : Text → Uploaded (Unit {0})
validate_ordinary_file_create_name name =
    reject_if (is_empty name || contains name slash || contains name 0)
      invalid_ordinary_file_create_name

-- 256 KiB
abbrev pub chunk_alignment_bytes : ℕ
chunk_alignment_bytes = 262144

-- `checked_add` on `u64`
unfoldable pub checked_add : ℕ → ℕ → Option ℕ
checked_add a b = if ltb (a + b) u64_bound then some (a + b) else none

-- `format!("bytes {start_offset}-{}/{}", end_exclusive - 1, total_bytes)`
unfoldable pub print_range : ℕ → ℕ → ℕ → Text
print_range start_offset last total_bytes =
    codes "bytes "
    ++ (print_u64 start_offset
        ++ (codes "-" ++ (print_u64 last ++ (codes "/" ++ print_u64 total_bytes))))

unfoldable pub build_resumable_chunk_content_range : ℕ → ℕ → ℕ → Uploaded Text
build_resumable_chunk_content_range total_bytes start_offset chunk_len = do
  reject_if (total_bytes == 0 || chunk_len == 0) invalid_resumable_upload_chunk
  end_exclusive ← ok_or (checked_add start_offset chunk_len) invalid_resumable_upload_chunk
  reject_if (leb total_bytes start_offset || ltb total_bytes end_exclusive)
      invalid_resumable_upload_chunk
  reject_if (not (end_exclusive == total_bytes) && not (chunk_len % chunk_alignment_bytes == 0))
      invalid_resumable_upload_chunk_alignment
  ok (print_range start_offset (end_exclusive - 1) total_bytes)

-- `str::strip_prefix`
unfoldable pub strip_prefix : Text → Text → Option Text
strip_prefix [] s = some s
strip_prefix (x ∷ prefix) [] = none
strip_prefix (x ∷ prefix) (y ∷ s) =
    let rest = strip_prefix prefix s in if x == y then rest else none

abbrev pub range_prefix : Text
range_prefix = codes "bytes=0-"

unfoldable pub parse_resumable_next_offset : Option Text → ℕ → Uploaded ℕ
parse_resumable_next_offset none total_bytes = ok 0
parse_resumable_next_offset (some value) total_bytes = do
  suffix ← ok_or (strip_prefix range_prefix value) invalid_resumable_upload_range
  last ← ok_or (parse_u64 suffix) invalid_resumable_upload_range
  next ← ok_or (checked_add last 1) invalid_resumable_upload_range
  reject_if (leb total_bytes next) invalid_resumable_upload_range
  ok next

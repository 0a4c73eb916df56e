-- ===== src/Drive/Upload/Completion.antt =====
-- What a finished resumable upload must answer, of crates/nubisync-drive/src/api.rs.
use nubisync.Base.{
  >>-eq-ok, >>=-eq-ok, Bool, List, Option, Text, [], all, arith, byte_len, err, false,
  if◌then◌else◌, int_eq, leb, map, nat_eq, none, not, ok, ok_or, option_eq, reject_if, some,
  text_eq, true, ℕ, ◌&&◌, ◌+◌, ◌<◌, ◌==◌, ◌>>=◌, ◌>>◌, ◌||◌, ◌∷◌, ◌≡◌,
}
use nubisync.Drive.Number.{parse_u64, is_digit}
use nubisync.Drive.Upload.{
  Uploaded, invalid_ordinary_file_upload_checksum, ordinary_file_upload_postcondition_mismatch,
  ordinary_file_upload_size_missing, ordinary_file_upload_size_invalid,
  ordinary_file_upload_version_missing, ordinary_file_upload_version_invalid,
}

pub record DriveResumableUploadSession : Type 0 where
  pub session_uri : Text
  pub remote_id : Text
  pub expected_name : Text
  pub expected_parent_remote_id : Text
  pub expected_mime_type : Text
  pub total_bytes : ℕ

pub record DriveOrdinaryFileUploadResponse : Type 0 where
  pub id : Text
  pub name : Text
  pub mime_type : Text
  pub parents : List Text
  pub size : Option Text
  pub trashed : Bool
  pub version : Option Text
  pub md5_checksum : Option Text
  pub sha256_checksum : Option Text

pub record DriveOrdinaryFileUploadCompletion : Type 0 where
  pub size_bytes : ℕ
  pub remote_version : ℕ
  pub md5_checksum : Option Text
  pub sha256_checksum : Option Text

-- `u8::is_ascii_hexdigit`
abbrev pub is_hex_digit : ℕ → Bool
is_hex_digit c = is_digit c || (leb 65 c && leb c 70) || (leb 97 c && leb c 102)

-- `str::to_ascii_lowercase`
abbrev pub to_lower : ℕ → ℕ
to_lower c = if leb 65 c && leb c 90 then c + 32 else c

-- A text of hexadecimal digits has a byte for each character, and a longer one is refused for its
-- other characters.
unfoldable pub normalize_optional_hex_checksum : Option Text → ℕ → Uploaded (Option Text)
normalize_optional_hex_checksum none expected_len = ok none
normalize_optional_hex_checksum (some value) expected_len =
    if not (byte_len value == expected_len) || not (all is_hex_digit value)
    then err invalid_ordinary_file_upload_checksum
    else ok (some (map to_lower value))

-- `metadata.parents.len() != 1` and the test of the first.
abbrev is_only_parent : Text → List Text → Bool
is_only_parent parent [] = false
is_only_parent parent (p ∷ []) = p == parent
is_only_parent parent (_ ∷ _ ∷ _) = false

abbrev pub differs : DriveResumableUploadSession → DriveOrdinaryFileUploadResponse → Bool
differs session metadata =
    not (metadata.id == session.remote_id)
    || not (metadata.name == session.expected_name)
    || not (metadata.mime_type == session.expected_mime_type)
    || not (is_only_parent session.expected_parent_remote_id metadata.parents)
    || metadata.trashed

unfoldable pub validate_ordinary_file_upload_completion :
    DriveResumableUploadSession
    → DriveOrdinaryFileUploadResponse
    → Uploaded DriveOrdinaryFileUploadCompletion
validate_ordinary_file_upload_completion session metadata = do
  reject_if (differs session metadata) ordinary_file_upload_postcondition_mismatch
  size ← ok_or metadata.size ordinary_file_upload_size_missing
  size_bytes ← ok_or (parse_u64 size) ordinary_file_upload_size_invalid
  reject_if (not (size_bytes == session.total_bytes)) ordinary_file_upload_postcondition_mismatch
  version ← ok_or metadata.version ordinary_file_upload_version_missing
  remote_version ← ok_or (parse_u64 version) ordinary_file_upload_version_invalid
  reject_if (remote_version == 0) ordinary_file_upload_version_invalid
  md5_checksum ← normalize_optional_hex_checksum metadata.md5_checksum 32
  sha256_checksum ← normalize_optional_hex_checksum metadata.sha256_checksum 64
  ok (record {
    size_bytes = size_bytes;
    remote_version = remote_version;
    md5_checksum = md5_checksum;
    sha256_checksum = sha256_checksum;
  })

-- The answer is about the file of the session, with all its bytes.
pub record IsFileOf (session : DriveResumableUploadSession)
    (metadata : DriveOrdinaryFileUploadResponse) (c : DriveOrdinaryFileUploadCompletion)
    : Type 0 where
  pub same_id : metadata.id ≡ session.remote_id
  pub same_name : metadata.name ≡ session.expected_name
  pub same_type : metadata.mime_type ≡ session.expected_mime_type
  pub one_parent : metadata.parents ≡ session.expected_parent_remote_id ∷ []
  pub not_trashed : metadata.trashed ≡ false
  pub all_bytes : c.size_bytes ≡ session.total_bytes
  pub has_version : 0 < c.remote_version

only_parent :
    (parent : Text) (parents : List Text)
    → is_only_parent parent parents ≡ true
    → parents ≡ parent ∷ []
only_parent parent [] h = ground arith
only_parent parent (p ∷ []) h = ground arith
only_parent parent (p ∷ q ∷ parents) h = ground arith

-- An upload is reported as complete only where the answer names the file of the session, live, of
-- its type, under its one parent, with as many bytes as were to be sent and a version past 0.
pub completion-IsFileOf :
    (session : DriveResumableUploadSession) (metadata : DriveOrdinaryFileUploadResponse)
    (c : DriveOrdinaryFileUploadCompletion)
    → validate_ordinary_file_upload_completion session metadata ≡ ok c
    → IsFileOf session metadata c
unfolding validate_ordinary_file_upload_completion
completion-IsFileOf session metadata c h =
    let (checked, h1) =
      >>-eq-ok (reject_if (differs session metadata) ordinary_file_upload_postcondition_mismatch) _
        h in
    let (size, _, h2) = >>=-eq-ok (ok_or metadata.size ordinary_file_upload_size_missing) _ h1 in
    let (bytes, _, h3) =
      >>=-eq-ok (ok_or (parse_u64 size) ordinary_file_upload_size_invalid) _ h2 in
    let (same, h4) =
      >>-eq-ok
        (reject_if (not (bytes == session.total_bytes)) ordinary_file_upload_postcondition_mismatch)
        _ h3 in
    let (version, _, h5) =
      >>=-eq-ok (ok_or metadata.version ordinary_file_upload_version_missing) _ h4 in
    let (number, _, h6) =
      >>=-eq-ok (ok_or (parse_u64 version) ordinary_file_upload_version_invalid) _ h5 in
    let (past_zero, h7) =
      >>-eq-ok (reject_if (number == 0) ordinary_file_upload_version_invalid) _ h6 in
    let (md5, _, h8) = >>=-eq-ok (normalize_optional_hex_checksum metadata.md5_checksum 32) _ h7 in
    let (sha, _, h9) =
      >>=-eq-ok (normalize_optional_hex_checksum metadata.sha256_checksum 64) _ h8 in
    record {
      same_id = ground (arith, checked);
      same_name = ground (arith, checked);
      same_type = ground (arith, checked);
      one_parent =
          only_parent session.expected_parent_remote_id metadata.parents (ground (arith, checked));
      not_trashed = ground (arith, checked);
      all_bytes = ground (arith, h9, same);
      has_version = ground (arith, h9, past_zero);
    }

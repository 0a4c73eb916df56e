-- ===== src/Drive/Upload/Ranges.antt =====
-- The ranges of a resumable upload, of crates/nubisync-drive/src/api.rs: what is sent and what the
-- server answers.
use nubisync.Base.{
  Option, Text, [], arith, none, ok, refl, some, ℕ, ◌++◌, ◌+◌, ◌-◌, ◌<◌, ◌↔◌, ◌∷◌, ◌≡◌, ◌≤◌, ◌⊎◌,
  >>=-eq-ok, ok_or,
}
use Prim.Native.Nat.{◌%◌}
use nubisync.Drive.Number.{u64_bound, print_u64, parse_u64}
use nubisync.Drive.Number.Decimal.{parse-print_u64}
use nubisync.Drive.Upload.{
  invalid_resumable_upload_range, chunk_alignment_bytes, checked_add, print_range,
  build_resumable_chunk_content_range, strip_prefix, range_prefix, parse_resumable_next_offset,
}

-- A chunk of a file, whose size is a `u64`, is sent exactly when it is not empty, lies inside the
-- file, and is the last one or a multiple of the alignment; the range names its first and last byte
-- and the size of the file.
build_resumable_chunk_content_range_iff :
    (total start len : ℕ) (range : Text)
    → total < u64_bound
    → (build_resumable_chunk_content_range total start len ≡ ok range) ↔ (
        (0 < len)
        × (start + len ≤ total)
        × ((start + len ≡ total) ⊎ (len % chunk_alignment_bytes ≡ 0))
        × (range ≡ print_range start (start + len - 1) total))
unfolding build_resumable_chunk_content_range checked_add
build_resumable_chunk_content_range_iff total start len range fits =
    (λ h. ground arith, λ h. ground arith)

strip-append : (prefix s : Text) → strip_prefix prefix (prefix ++ s) ≡ some s
unfolding strip_prefix
strip-append [] s = refl
strip-append (x ∷ prefix) s = ground (arith, strip-append prefix s)

-- The header by which the server confirms all bytes up to `last`.
abbrev pub confirm : ℕ → Text
confirm last = range_prefix ++ print_u64 last

-- An offset to go on from lies inside the file, which is not empty, whatever the server answers.
parse_resumable_next_offset-lt :
    (header : Option Text) (total next : ℕ)
    → 0 < total
    → parse_resumable_next_offset header total ≡ ok next
    → next < total
unfolding parse_resumable_next_offset
parse_resumable_next_offset-lt none total next positive h = ground arith
parse_resumable_next_offset-lt (some value) total next positive h =
    let (suffix, _, h1) =
      >>=-eq-ok (ok_or (strip_prefix range_prefix value) invalid_resumable_upload_range) _ h in
    let (last, _, h2) = >>=-eq-ok (ok_or (parse_u64 suffix) invalid_resumable_upload_range) _ h1 in
    let (found, _, h3) =
      >>=-eq-ok (ok_or (checked_add last 1) invalid_resumable_upload_range) _ h2 in
    ground (arith, h3)

-- Where a chunk of a file, whose size is a `u64`, was sent that is not the last one, and the server
-- confirms all bytes up to its end, the upload goes on right behind the chunk.
pub confirmed_chunk_advances :
    (total start len : ℕ) (range : Text)
    → total < u64_bound
    → build_resumable_chunk_content_range total start len ≡ ok range
    → start + len < total
    → parse_resumable_next_offset (some (confirm (start + len - 1))) total ≡ ok (start + len)
unfolding parse_resumable_next_offset checked_add
confirmed_chunk_advances total start len range fits sent more =
    let some_bytes : 0 < len =
      ((build_resumable_chunk_content_range_iff total start len range fits).0 sent).0 in
    let stripped = strip-append range_prefix (print_u64 (start + len - 1)) in
    let parsed = parse-print_u64 (start + len - 1) (omega arith) in
    rw (stripped, parsed) (ground (arith, some_bytes))

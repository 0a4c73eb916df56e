-- ===== src/Storage/Receipts/Matching.antt =====
-- The receipts of crates/nubisync-storage/src/lib.rs against the catalog's items: what makes a current
-- receipt right, and that the steps of the transactions keep it so.
use nubisync.Base.{
  Bool, Dict, List, Option, Text, [], ◌∷◌, ◌≡◌, arith, contains, false, insert, lookup,
  lookup-insert, none, not, option_eq, some, text_eq, true, ◌||◌, if◌then◌else◌, nat_eq, int_eq,
  refl,
}
use nubisync.Core.Remote.{kind_eq}
use nubisync.Storage.Tables.{ItemRow, FileReceiptRow, DirectoryReceiptRow, RootTables, stale}
use nubisync.Storage.Catalog.{stale_files, stale_directories}
use nubisync.Storage.Receipts.{is_current, is_file_of}
use nubisync.Storage.Directories.{is_live_folder}

-- A current receipt is of an item that is a live file of the receipt's size.
abbrev pub file_matches : Option ItemRow → Option FileReceiptRow → Bool
file_matches item none = true
file_matches none (some receipt) = not (is_current receipt.receipt_state)
file_matches (some item) (some receipt) =
    not (is_current receipt.receipt_state) || is_file_of item receipt.size_bytes

-- A current receipt is of an item that is a live folder.
abbrev pub directory_matches : Option ItemRow → Option DirectoryReceiptRow → Bool
directory_matches item none = true
directory_matches none (some receipt) = not (is_current receipt.receipt_state)
directory_matches (some item) (some receipt) =
    not (is_current receipt.receipt_state) || is_live_folder item

abbrev pub FilesMatch : Dict Text ItemRow → Dict Text FileReceiptRow → Type 0
FilesMatch items receipts = (x : Text) → file_matches (lookup x items) (lookup x receipts) ≡ true

abbrev pub DirectoriesMatch : Dict Text ItemRow → Dict Text DirectoryReceiptRow → Type 0
DirectoriesMatch items receipts =
    (x : Text) → directory_matches (lookup x items) (lookup x receipts) ≡ true

abbrev pub ReceiptsMatch : RootTables → Type 0
ReceiptsMatch t = FilesMatch t.items t.file_receipts × DirectoriesMatch t.items t.directory_receipts

abbrev pub stale_file : Option FileReceiptRow → Option FileReceiptRow
stale_file none = none
stale_file (some row) = some (record row { receipt_state = stale })

abbrev stale_directory : Option DirectoryReceiptRow → Option DirectoryReceiptRow
stale_directory none = none
stale_directory (some row) = some (record row { receipt_state = stale })

pub lookup-stale_files :
    (ids : List Text) (rows : Dict Text FileReceiptRow) (x : Text)
    → lookup x (stale_files ids rows)
      ≡ (if contains ids x then stale_file (lookup x rows) else lookup x rows)
unfolding lookup stale_files
lookup-stale_files ids [] x = ground arith
lookup-stale_files ids ((id, row) ∷ rows) x = ground (arith, lookup-stale_files ids rows x)

lookup-stale_directories :
    (ids : List Text) (rows : Dict Text DirectoryReceiptRow) (x : Text)
    → lookup x (stale_directories ids rows)
      ≡ (if contains ids x then stale_directory (lookup x rows) else lookup x rows)
unfolding lookup stale_directories
lookup-stale_directories ids [] x = ground arith
lookup-stale_directories ids ((id, row) ∷ rows) x =
    ground (arith, lookup-stale_directories ids rows x)

stale_file-matches :
    (item : Option ItemRow) (r : Option FileReceiptRow) → file_matches item (stale_file r) ≡ true
stale_file-matches item none = refl
stale_file-matches none (some r) = refl
stale_file-matches (some i) (some r) = refl

stale_directory-matches :
    (item : Option ItemRow) (r : Option DirectoryReceiptRow)
    → directory_matches item (stale_directory r) ≡ true
stale_directory-matches item none = refl
stale_directory-matches none (some r) = refl
stale_directory-matches (some i) (some r) = refl

-- Making receipts stale keeps those of the other items right, also where the item's row changes or
-- goes.
pub stale_files-Match :
    (ids : List Text) (items items' : Dict Text ItemRow) (rows : Dict Text FileReceiptRow)
    → FilesMatch items rows
    → ((x : Text) → contains ids x ≡ false → lookup x items' ≡ lookup x items)
    → FilesMatch items' (stale_files ids rows)
stale_files-Match ids items items' rows h same x = ground (
  arith,
  lookup-stale_files ids rows x,
  stale_file-matches (lookup x items') (lookup x rows),
  h x,
  same x,
)

pub stale_directories-Match :
    (ids : List Text) (items items' : Dict Text ItemRow) (rows : Dict Text DirectoryReceiptRow)
    → DirectoriesMatch items rows
    → ((x : Text) → contains ids x ≡ false → lookup x items' ≡ lookup x items)
    → DirectoriesMatch items' (stale_directories ids rows)
stale_directories-Match ids items items' rows h same x = ground (
  arith,
  lookup-stale_directories ids rows x,
  stale_directory-matches (lookup x items') (lookup x rows),
  h x,
  same x,
)

-- A new row for an item whose receipt is not current keeps the receipts right.
pub insert-FilesMatch :
    (id : Text) (row : ItemRow) (items : Dict Text ItemRow) (rows : Dict Text FileReceiptRow)
    → FilesMatch items rows
    → file_matches (some row) (lookup id rows) ≡ true
    → FilesMatch (insert id row items) rows
insert-FilesMatch id row items rows h here x =
    ground (arith, lookup-insert id x row items, h x, here)

pub insert-DirectoriesMatch :
    (id : Text) (row : ItemRow) (items : Dict Text ItemRow) (rows : Dict Text DirectoryReceiptRow)
    → DirectoriesMatch items rows
    → directory_matches (some row) (lookup id rows) ≡ true
    → DirectoriesMatch (insert id row items) rows
insert-DirectoriesMatch id row items rows h here x =
    ground (arith, lookup-insert id x row items, h x, here)

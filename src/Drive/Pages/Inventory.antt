-- ===== src/Drive/Pages/Inventory.antt =====
-- What an inventory page of crates/nubisync-drive/src/api.rs accounts for.
use nubisync.Base.{
  >>=-eq-ok, arith, codes, is_blank, is_empty, ok, ◌≡◌, >>-eq-ok, Bool-cases, List, [], inl, inr,
  int_eq, length, nat_eq, option_eq, reject_if, text_eq, ◌+◌, ◌==◌, ◌||◌, ◌∷◌, length-append,
}
use nubisync.Core.Ids.{new_continuation_token}
use nubisync.Core.Remote.{file, folder}
use nubisync.Drive.Pages.{
  DriveInventoryPage, FileListResponse, GoogleFile, InventoryTally, folder_mime_type,
  incomplete_inventory_search, into_inventory_page, into_remote_item, invalid_inventory_page,
  is_provider_native, list_file, list_files, list_folder, list_ordinary, nothing_listed, transposed,
}

-- One more file is counted, and each item that is listed is counted as a file or a folder.
abbrev CountsOne : InventoryTally → InventoryTally → Type 0
CountsOne t u =
    (u.listed_files + u.listed_folders + u.listed_native
      ≡ t.listed_files + t.listed_folders + t.listed_native + 1)
    × (length u.listed + t.listed_files + t.listed_folders
        ≡ length t.listed + u.listed_files + u.listed_folders)

list_folder-CountsOne :
    (f : GoogleFile) (t u : InventoryTally) → list_folder f t ≡ ok u → CountsOne t u
list_folder-CountsOne f t u h =
    let (item, _, k) = >>=-eq-ok (into_remote_item f folder) _ h in
    (ground (arith, k), ground (arith, k, length-append t.listed (item ∷ [])))

list_ordinary-CountsOne :
    (f : GoogleFile) (t u : InventoryTally) → list_ordinary f t ≡ ok u → CountsOne t u
list_ordinary-CountsOne f t u h =
    let (item, _, k) = >>=-eq-ok (into_remote_item f file) _ h in
    (ground (arith, k), ground (arith, k, length-append t.listed (item ∷ [])))

list_file-CountsOne : (f : GoogleFile) (t u : InventoryTally) → list_file f t ≡ ok u → CountsOne t u
unfolding list_file
list_file-CountsOne f t u h =
    let (_, h1) =
      >>-eq-ok
        (reject_if (is_blank f.id || is_empty f.name || is_empty f.mime_type)
          (invalid_inventory_page (codes "missing_file_identity_metadata")))
        _ h in
    let (_, h2) =
      >>-eq-ok (reject_if f.trashed (invalid_inventory_page (codes "trashed_item_returned"))) _
        h1 in
    elim (Bool-cases (f.mime_type == folder_mime_type)) [
      | inl is_folder ↦
          let listed : list_folder f t ≡ ok u = ground (arith, h2, is_folder) in
          list_folder-CountsOne f t u listed
      | inr no_folder ↦ elim (Bool-cases (is_provider_native f.mime_type)) [
        | inl native ↦
            (ground (arith, h2, no_folder, native), ground (arith, h2, no_folder, native))
        | inr ordinary ↦
            let listed : list_ordinary f t ≡ ok u = ground (arith, h2, no_folder, ordinary) in
            list_ordinary-CountsOne f t u listed
      ]
    ]

list_files_lem :
    (files : List GoogleFile) (t u : InventoryTally)
    → list_files files t ≡ ok u
    → (u.listed_files + u.listed_folders + u.listed_native
        ≡ t.listed_files + t.listed_folders + t.listed_native + length files)
      × (length u.listed + t.listed_files + t.listed_folders
          ≡ length t.listed + u.listed_files + u.listed_folders)
unfolding list_files
list_files_lem [] t u h = (ground arith, ground arith)
list_files_lem (f ∷ files) t u h =
    let (v, k, l) = >>=-eq-ok (list_file f t) _ h in
    let (one, listed) = list_file-CountsOne f t v k in
    let (rest, listed') = list_files_lem files v u l in
    (omega (arith, one, rest), omega (arith, listed, listed'))

-- An inventory page accounts for every file of the answer: each is an item of the page, a file or a
-- folder, or one of the provider's own that are only counted.
into_inventory_page_lem :
    (response : FileListResponse) (page : DriveInventoryPage)
    → into_inventory_page response ≡ ok page
    → (page.supported_items + page.unsupported_provider_native ≡ length response.files)
      × (length page.items ≡ page.supported_items)
      × (page.file_count + page.folder_count ≡ page.supported_items)
unfolding into_inventory_page
into_inventory_page_lem response page h =
    let (_, h1) = >>-eq-ok (reject_if response.incomplete_search incomplete_inventory_search) _ h in
    let (_, _, h2) =
      >>=-eq-ok (transposed new_continuation_token response.list_next_page_token) _ h1 in
    let (t, k, h3) = >>=-eq-ok (list_files response.files nothing_listed) _ h2 in
    let (all_counted, all_listed) = list_files_lem response.files nothing_listed t k in
    (ground (arith, h3, all_counted), ground (arith, h3, all_listed), ground (arith, h3))

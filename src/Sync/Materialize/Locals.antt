-- ===== src/Sync/Materialize/Locals.antt =====
-- The local entries by path.
use nubisync.Base.{
  IsNodup, List, Option, Text, [], arith, contains, contains_key, if◌then◌else◌, insert, int_eq,
  is_some, lookup, lookup-insert, nat_eq, none, ok, option_eq, refl, some, text_eq, ◌==◌, ◌∷◌, ◌≡◌,
  ==_refl, false, true,
}
use nubisync.Sync.Local.{LocalTreeEntryKind, LocalTreeEntry, local_kind_eq}
use nubisync.Sync.Materialize.{Locals, index_local_entries, local_paths, local_files}

-- The kind of the entry at a path; `none` if the tree has none there.
abbrev pub local_kind_at : List LocalTreeEntry → Text → Option LocalTreeEntryKind
local_kind_at [] path = none
local_kind_at (entry ∷ entries) path =
    if entry.relative_path == path then some entry.kind else local_kind_at entries path

abbrev or_else : Option LocalTreeEntryKind → Option LocalTreeEntryKind → Option LocalTreeEntryKind
or_else none b = b
or_else (some a) b = some a

index_local_entries_from :
    (d : Locals) (entries : List LocalTreeEntry) {out : Locals}
    → index_local_entries d entries ≡ ok out
    → (path : Text) → lookup path out ≡ or_else (lookup path d) (local_kind_at entries path)
unfolding index_local_entries contains_key
index_local_entries_from d [] {out} e path = ground arith
index_local_entries_from d (entry ∷ entries) {out} e path =
    let more : index_local_entries (insert entry.relative_path entry.kind d) entries ≡ ok out =
      ground arith in
    let fresh : is_some (lookup entry.relative_path d) ≡ false = ground arith in
    ground (
      arith,
      fresh,
      index_local_entries_from (insert entry.relative_path entry.kind d) entries more path,
      lookup-insert entry.relative_path path entry.kind d,
    )

-- The index has the kind of each entry, and nothing else.
pub lookup-index_local_entries :
    (entries : List LocalTreeEntry) {out : Locals}
    → index_local_entries [] entries ≡ ok out
    → (path : Text) → lookup path out ≡ local_kind_at entries path
unfolding lookup
lookup-index_local_entries entries e path = index_local_entries_from [] entries e path

pub contains-local_paths :
    (entries : List LocalTreeEntry) (path : Text)
    → contains (local_paths entries) path ≡ is_some (local_kind_at entries path)
contains-local_paths [] path = refl
contains-local_paths (entry ∷ entries) path = ground (arith, contains-local_paths entries path)

index-distinct_from :
    (d : Locals) (entries : List LocalTreeEntry) {out : Locals}
    → index_local_entries d entries ≡ ok out
    → IsNodup (local_paths entries)
      × ((path : Text)
          → contains (local_paths entries) path ≡ true
          → is_some (lookup path d) ≡ false)
unfolding index_local_entries contains_key
index-distinct_from d [] e = (tt, λ path m. cc)
index-distinct_from d (entry ∷ entries) {out} e =
    let path = entry.relative_path in
    let next = insert path entry.kind d in
    let more : index_local_entries next entries ≡ ok out = ground arith in
    let fresh : is_some (lookup path d) ≡ false = ground arith in
    let (once, apart) = index-distinct_from next entries more in
    (
      (ground (arith, apart path, lookup-insert path path entry.kind d, ==_refl path), once),
      λ p m. ground (arith, fresh, apart p, lookup-insert path p entry.kind d),
    )

-- A local tree that is indexed has no path twice.
pub index-IsNodup :
    (entries : List LocalTreeEntry) {out : Locals}
    → index_local_entries [] entries ≡ ok out
    → IsNodup (local_paths entries)
index-IsNodup entries e = (index-distinct_from [] entries e).0

-- Under distinct paths the file paths are those of the entries whose kind is a file.
pub contains-local_files :
    (entries : List LocalTreeEntry) (path : Text)
    → IsNodup (local_paths entries)
    → contains (local_files entries) path
      ≡ (local_kind_at entries path == some LocalTreeEntryKind.file)
contains-local_files [] path u = ground arith
contains-local_files (entry ∷ entries) path (fresh, u) =
    ground (arith, contains-local_files entries path u, contains-local_paths entries path)

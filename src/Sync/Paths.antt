-- ===== src/Sync/Paths.antt =====
-- `build_remote_expected_paths` of crates/nubisync-sync/src/lib.rs: the local path of every item of
-- a remote catalog, from the top of the tree down.
use nubisync.Base.{
  Dict, List, Option, Ordering, Text, [], compare_text, contains, err, if◌then◌else◌, insert,
  int_eq, is_blank, is_some, length, lookup, nat_eq, none, not, ok, ok_or, option_eq, reject_if,
  some, sort_by, suc, text_eq, then_with, zero, ℕ, ◌++◌, ◌==◌, ◌>>=◌, ◌>>◌, ◌||◌, ◌∷◌,
}
pub mod Grouped
pub mod Layout
pub mod Expand
pub mod Ends
pub mod Built
use nubisync.Base.{text_pair_eq}
use nubisync.Core.Path.{slash}
use nubisync.Core.Remote.{RemoteItemKind, file, folder, RemoteItem}
use nubisync.Sync.Local.{
  Planned, ReceiveOnlyMaterializationPlanError, invalid_remote_item, duplicate_remote_id,
  duplicate_sibling_name, incomplete_remote_catalog, invalid_remote_parent_kind,
  remote_path_collision, validate_safe_remote_name, validate_safe_relative_path,
}

pub record RemoteExpectedPath : Type 0 where
  pub relative_path : Text
  pub kind : RemoteItemKind
  pub remote_id : Text
  pub size_bytes : Option ℕ

abbrev pub Siblings : Type 0
Siblings = Dict Text (List RemoteItem)

-- The first loop: each item by itself, and the kind of each id.
unfoldable pub index_remote_items :
    List Text → Dict Text RemoteItemKind → List RemoteItem → Planned (Dict Text RemoteItemKind)
index_remote_items remote_ids kind_by_id [] = ok kind_by_id
index_remote_items remote_ids kind_by_id (item ∷ items) =
    let rest =
      index_remote_items (item.remote_id ∷ remote_ids) (insert item.remote_id item.kind kind_by_id)
        items in
    do
      reject_if (is_blank item.remote_id || not (is_some item.parent_remote_id) || item.trashed)
          invalid_remote_item
      validate_safe_remote_name item.name
      reject_if (contains remote_ids item.remote_id) duplicate_remote_id
      rest

pub record Grouping : Type 0 where
  pub external_parent_ids : List Text
  pub children_by_parent : Siblings
  pub sibling_names : List (Text × Text)

abbrev pub set_insert : Text → List Text → List Text
set_insert x xs = if contains xs x then xs else xs ++ x ∷ []

unfoldable pub siblings_of : Text → Siblings → List RemoteItem
siblings_of parent children = elim (lookup parent children) [ none ↦ [] | some c ↦ c ]

-- The `match` on the parent's kind.
abbrev external_of : Option RemoteItemKind → Text → List Text → Planned (List Text)
external_of none parent external = ok (set_insert parent external)
external_of (some folder) parent external = ok external
external_of (some file) parent external = err invalid_remote_parent_kind

-- One round of the second loop, for an item under its parent.
unfoldable pub group_under :
    Dict Text RemoteItemKind → Text → RemoteItem → Grouping → Planned Grouping
group_under kind_by_id parent item g = do
  reject_if (contains g.sibling_names (parent, item.name)) duplicate_sibling_name
  external ← external_of (lookup parent kind_by_id) parent g.external_parent_ids
  ok (record {
    external_parent_ids = external;
    children_by_parent =
        insert parent (siblings_of parent g.children_by_parent ++ item ∷ []) g.children_by_parent;
    sibling_names = (parent, item.name) ∷ g.sibling_names;
  })

unfoldable pub group_remote_items :
    Dict Text RemoteItemKind → List RemoteItem → Grouping → Planned Grouping
group_remote_items kind_by_id [] g = ok g
group_remote_items kind_by_id (item ∷ items) g = do
  parent ← ok_or item.parent_remote_id invalid_remote_item
  g' ← group_under kind_by_id parent item g
  group_remote_items kind_by_id items g'

-- `left.name.cmp(&right.name).then_with(|| left.remote_id.cmp(&right.remote_id))`
unfoldable pub compare_siblings : RemoteItem → RemoteItem → Ordering
unfolding compare_text
compare_siblings left right =
    then_with (compare_text left.name right.name) (compare_text left.remote_id right.remote_id)

abbrev pub Queue : Type 0
Queue = List (RemoteItem × Text)

abbrev pub top_level : List RemoteItem → Queue
top_level [] = []
top_level (item ∷ items) = (item, item.name) ∷ top_level items

-- The loop over the children of a folder.
unfoldable pub queue_children : Text → List RemoteItem → Planned Queue
queue_children relative_path [] = ok []
queue_children relative_path (child ∷ children) =
    let rest = queue_children relative_path children in
    do
      validate_safe_relative_path (relative_path ++ slash ∷ child.name)
      queue ← rest
      ok ((child, relative_path ++ slash ∷ child.name) ∷ queue)

pub record Expansion : Type 0 where
  pub visited : List Text
  pub seen_paths : List Text
  pub expected_paths : List RemoteExpectedPath

abbrev pub expected_path : RemoteItem → Text → RemoteExpectedPath
expected_path item relative_path = record {
  relative_path = relative_path;
  kind = item.kind;
  remote_id = item.remote_id;
  size_bytes = item.size_bytes;
}

abbrev pub record_path : RemoteItem → Text → Expansion → Expansion
record_path item relative_path x = record {
  visited = item.remote_id ∷ x.visited;
  seen_paths = relative_path ∷ x.seen_paths;
  expected_paths = x.expected_paths ++ expected_path item relative_path ∷ [];
}

abbrev folder_children : RemoteItemKind → Text → Text → Siblings → Planned Queue
folder_children file remote_id relative_path children = ok []
folder_children folder remote_id relative_path children =
    queue_children relative_path (sort_by compare_siblings (siblings_of remote_id children))

-- The tests of one round, and the children that it queues.
unfoldable pub expand_item : Siblings → RemoteItem → Text → Expansion → Planned Queue
expand_item children item relative_path x = do
  validate_safe_relative_path relative_path
  reject_if (contains x.visited item.remote_id) incomplete_remote_catalog
  reject_if (contains x.seen_paths relative_path) remote_path_collision
  folder_children item.kind item.remote_id relative_path children

-- The loop over the queue; `none` means that the fuel ran out.
unfoldable pub expand : ℕ → Siblings → Queue → Expansion → Option (Planned Expansion)
expand fuel children [] x = some (ok x)
expand zero children (_ ∷ _) x = none
expand (suc fuel) children ((item, relative_path) ∷ queue) x =
    elim (expand_item children item relative_path x) [
      | err e ↦ some (err e)
      | ok queued ↦ expand fuel children (queue ++ queued) (record_path item relative_path x)
    ]

-- The test that exactly one parent lies outside the catalog.
unfoldable pub single_external : List Text → Planned Text
single_external (root ∷ []) = ok root
single_external _ = err incomplete_remote_catalog

abbrev pub no_grouping : Grouping
no_grouping = record { external_parent_ids = []; children_by_parent = []; sibling_names = [] }

abbrev pub no_expansion : Expansion
no_expansion = record { visited = []; seen_paths = []; expected_paths = [] }

-- Every round adds an id of the catalog to `visited` or stops, so that the rounds are at most one
-- more than the items.
unfoldable pub expand_all : List RemoteItem → Grouping → Text → Option (Planned Expansion)
expand_all remote_items g root =
    expand (suc (length remote_items)) g.children_by_parent
      (top_level (sort_by compare_siblings (siblings_of root g.children_by_parent))) no_expansion

abbrev finish : ℕ → Option (Planned Expansion) → Planned (List RemoteExpectedPath)
finish items none = err incomplete_remote_catalog
finish items (some (err e)) = err e
finish items (some (ok x)) =
    reject_if (not (length x.visited == items)) incomplete_remote_catalog >> ok x.expected_paths

unfoldable pub build_remote_expected_paths : List RemoteItem → Planned (List RemoteExpectedPath)
build_remote_expected_paths [] = ok []
build_remote_expected_paths (item ∷ items) =
    let remote_items = item ∷ items in
    do
      kind_by_id ← index_remote_items [] [] remote_items
      g ← group_remote_items kind_by_id remote_items no_grouping
      root ← single_external g.external_parent_ids
      finish (length remote_items) (expand_all remote_items g root)

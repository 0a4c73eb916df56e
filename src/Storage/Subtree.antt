-- ===== src/Storage/Subtree.antt =====
-- The recursive query `subtree` of crates/nubisync-storage/src/lib.rs: an id, and every item that
-- its parent column links to it. Its `UNION` keeps each id once, whatever the order in which the
-- rows are found, so here one row at a time is taken that has its parent among the ids so far.
use nubisync.Base.{
  Bool, Dict, List, Option, Text, ℕ, [], ◌∷◌, contains, false, length, none, some, suc, text_eq,
  zero, if◌then◌else◌, int_eq, nat_eq, option_eq,
}
pub mod Closed
use nubisync.Storage.Tables.{ItemRow}

abbrev pub is_child : List Text → Option Text → Bool
is_child found none = false
is_child found (some parent) = contains found parent

-- The next row that the join finds, and the rows that remain.
unfoldable pub take_child : List Text → Dict Text ItemRow → Option (Text × Dict Text ItemRow)
take_child found [] = none
take_child found ((remote_id, row) ∷ rows) =
    let later = take_child found rows in
    if is_child found row.parent_remote_id
    then some (remote_id, rows)
    else elim later [ none ↦ none | some (id, rest) ↦ some (id, (remote_id, row) ∷ rest) ]

-- As much fuel as there are rows is enough, since each round takes one.
unfoldable pub grow_subtree : ℕ → List Text → Dict Text ItemRow → List Text
unfolding take_child
grow_subtree zero found rows = found
grow_subtree (suc fuel) found rows = elim (take_child found rows) [
  | none ↦ found
  | some (id, rest) ↦ grow_subtree fuel (id ∷ found) rest
]

unfoldable pub subtree : Text → Dict Text ItemRow → List Text
unfolding grow_subtree
subtree remote_id items = grow_subtree (length items) (remote_id ∷ []) items

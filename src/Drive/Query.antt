-- ===== src/Drive/Query.antt =====
-- The search queries of crates/nubisync-drive/src/api.rs.
pub mod Literal
use nubisync.Base.{
  Text, ◌++◌, ◌∷◌, Result, [], codes, err, false, if◌then◌else◌, int_eq, is_blank, nat_eq, ok,
  option_eq, text_eq, ℕ, ◌==◌, ◌>>=◌, ◌>>◌,
}

pub data QueryError : Type 0 where
  invalid_inventory_parent_id : QueryError

-- `str::replace` of a character by a text.
unfoldable pub replace : ℕ → Text → Text → Text
replace c by [] = []
replace c by (x ∷ s) = let rest = replace c by s in if x == c then by ++ rest else x ∷ rest

abbrev pub backslash : ℕ
backslash = 92

abbrev pub quote : ℕ
quote = 39

unfoldable pub escape_drive_query_literal : Text → Result QueryError Text
escape_drive_query_literal value =
    if is_blank value
    then err invalid_inventory_parent_id
    else ok (
        replace quote (backslash ∷ quote ∷ [])
          (replace backslash (backslash ∷ backslash ∷ []) value))

unfoldable pub folder_children_query : Text → Result QueryError Text
folder_children_query parent_remote_id = do
  escaped ← escape_drive_query_literal parent_remote_id
  ok (quote ∷ (escaped ++ codes "' in parents and 'me' in owners and trashed = false"))

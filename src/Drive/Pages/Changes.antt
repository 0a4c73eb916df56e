-- ===== src/Drive/Pages/Changes.antt =====
-- What a page of changes of crates/nubisync-drive/src/api.rs holds, when there is one.
use nubisync.Base.{
  Option, false, is_blank, is_empty, none, some, ◌≡◌, int_eq, nat_eq, option_eq, text_eq,
}
use nubisync.Core.Remote.{RemoteChange, delete, upsert}

-- A change names its item, and an item that is still there has a name.
abbrev pub IsNamed : RemoteChange → Type 0
IsNamed (delete id) = is_blank id ≡ false
IsNamed (upsert item) = (is_blank item.remote_id ≡ false) × (is_empty item.name ≡ false)

abbrev AllNamed : Option RemoteChange → Type 0
AllNamed none = Unit
AllNamed (some change) = IsNamed change

-- ===== src/Core/Remote.antt =====
-- The remote catalog's items and changes, of crates/nubisync-core/src/lib.rs.
use nubisync.Base.{ℕ_discrete, Bool, Eq, List, Option, Text, ℕ, ℤ}
use nubisync.Core.Ids.{ChangeCursor, ContinuationToken}

pub data RemoteItemKind : Type 0 where
  file folder : RemoteItemKind

kind_discrete : Discrete RemoteItemKind
kind_discrete = hlevel

instance unfoldable pub kind_eq : Eq RemoteItemKind
unfolding kind_discrete
kind_eq = record { dec = kind_discrete }

pub record RemoteItem : Type 0 where
  pub remote_id : Text
  pub parent_remote_id : Option Text
  pub name : Text
  pub kind : RemoteItemKind
  pub size_bytes : Option ℕ
  pub modified_unix_ms : Option ℤ
  pub trashed : Bool

item_discrete : Discrete RemoteItem
item_discrete = hlevel ℕ_discrete

-- The derived `PartialEq`.
instance unfoldable pub item_eq : Eq RemoteItem
unfolding item_discrete ℕ_discrete
item_eq = record { dec = item_discrete }

pub data RemoteChange : Type 0 where
  upsert : RemoteItem → RemoteChange
  delete : Text → RemoteChange

pub record ChangePage : Type 0 where
  pub changes : List RemoteChange
  pub continuation : Option ContinuationToken
  pub checkpoint : Option ChangeCursor

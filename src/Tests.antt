-- ===== src/Tests.antt =====
-- A small catalog that the tests run on: a folder `docs` with a file in it, and a file beside it.
use nubisync.Base.{Text, List, [], codes, false, none, some, ◌∷◌}
use nubisync.Core.Remote.{RemoteItem, file, folder}
mod Catalog
mod Converge
mod Materialize
mod Secrets
mod Drive
mod Storage
mod Window
mod Snapshot
mod Local
mod Receipts
mod Intents

abbrev pub root_id : Text
root_id = codes "root"

abbrev pub docs_id : Text
docs_id = codes "1"

abbrev pub notes_id : Text
notes_id = codes "2"

abbrev pub song_id : Text
song_id = codes "3"

abbrev pub docs : RemoteItem
docs = record {
  remote_id = docs_id;
  parent_remote_id = some root_id;
  name = codes "docs";
  kind = folder;
  size_bytes = none;
  modified_unix_ms = none;
  trashed = false;
}

abbrev pub notes : RemoteItem
notes = record {
  remote_id = notes_id;
  parent_remote_id = some docs_id;
  name = codes "notes";
  kind = file;
  size_bytes = some 5;
  modified_unix_ms = none;
  trashed = false;
}

abbrev pub song : RemoteItem
song = record {
  remote_id = song_id;
  parent_remote_id = some root_id;
  name = codes "song";
  kind = file;
  size_bytes = some 7;
  modified_unix_ms = none;
  trashed = false;
}

abbrev pub catalog : List RemoteItem
catalog = docs ∷ notes ∷ song ∷ []

-- ===== src/Storage/LocalEvent.antt =====
-- The changes of local items that crates/nubisync-storage/src/lib.rs keeps a journal of.
use nubisync.Base.{
  Text, Option, Result, Bool, ℕ, ℤ, ok, err, false, any, contains, split, not, is_some, is_empty,
  codes, reject_if, starts_with_char, ends_with_char, text_eq, nat_eq, option_eq, int_eq, ◌==◌,
  ◌||◌, ◌>>=◌, ◌>>◌, if◌then◌else◌,
}
use nubisync.Core.Path.{slash, is_bad_component}
use nubisync.Core.Modes.{LocalItemKind, item_kind_eq}
use nubisync.Storage.Failure.{
  StorageError, invalid_local_change_path, invalid_local_change_shape,
  invalid_stored_local_change_event_kind, invalid_stored_local_change_event,
}
use nubisync.Storage.Intents.{is_positive}

pub data LocalChangeEventKind : Type 0 where
  created deleted modified type_changed : LocalChangeEventKind

unfoldable pub event_kind_as_str : LocalChangeEventKind → Text
event_kind_as_str created = codes "created"
event_kind_as_str deleted = codes "deleted"
event_kind_as_str modified = codes "modified"
event_kind_as_str type_changed = codes "type_changed"

unfoldable pub parse_event_kind : Text → Result StorageError LocalChangeEventKind
parse_event_kind value =
    if value == codes "created"
    then ok created
    else if value == codes "deleted"
    then ok deleted
    else if value == codes "modified"
    then ok modified
    else if value == codes "type_changed"
    then ok type_changed
    else err invalid_stored_local_change_event_kind

pub record LocalChangeEventInput : Type 0 where
  pub relative_path : Text
  pub kind : LocalChangeEventKind
  pub baseline_kind : Option LocalItemKind
  pub current_kind : Option LocalItemKind

unfoldable pub is_safe_local_event_relative_path : Text → Bool
unfolding split
is_safe_local_event_relative_path path =
    if is_empty path || starts_with_char slash path || ends_with_char slash path || contains path 0
    then false
    else not (any is_bad_component (split slash path))

-- The kinds that an event of this kind cannot have.
abbrev pub is_misshapen : LocalChangeEventKind → Option LocalItemKind → Option LocalItemKind → Bool
is_misshapen created baseline current = is_some baseline || not (is_some current)
is_misshapen deleted baseline current = not (is_some baseline) || is_some current
is_misshapen modified baseline current =
    not (is_some baseline) || not (is_some current) || not (baseline == current)
is_misshapen type_changed baseline current =
    not (is_some baseline) || not (is_some current) || baseline == current

unfoldable pub new_local_change_event_input :
    Text
    → LocalChangeEventKind
    → Option LocalItemKind
    → Option LocalItemKind
    → Result StorageError LocalChangeEventInput
unfolding is_safe_local_event_relative_path
new_local_change_event_input relative_path kind baseline_kind current_kind = do
  reject_if (not (is_safe_local_event_relative_path relative_path)) invalid_local_change_path
  reject_if (is_misshapen kind baseline_kind current_kind) invalid_local_change_shape
  ok (record {
    relative_path = relative_path;
    kind = kind;
    baseline_kind = baseline_kind;
    current_kind = current_kind;
  })

pub record LocalChangeEventRecord : Type 0 where
  pub id : ℤ
  pub baseline_generation : ℕ
  pub event : LocalChangeEventInput

unfoldable pub new_local_change_event_record :
    ℤ
    → ℕ
    → Text
    → LocalChangeEventKind
    → Option LocalItemKind
    → Option LocalItemKind
    → Result StorageError LocalChangeEventRecord
unfolding new_local_change_event_input
new_local_change_event_record id generation relative_path kind baseline_kind current_kind = do
  reject_if (not (is_positive id) || generation == 0) invalid_stored_local_change_event
  event ← new_local_change_event_input relative_path kind baseline_kind current_kind
  ok (record { id = id; baseline_generation = generation; event = event })

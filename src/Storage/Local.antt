-- ===== src/Storage/Local.antt =====
-- The local inventory of one sync root in crates/nubisync-storage/src/lib.rs, and the journal of the
-- changes that are observed against it.
use nubisync.Base.{
  Text, List, Dict, Option, Result, Bool, Eq, [], ◌∷◌, ℕ, ℤ, ok, err, none, some, true, false,
  lookup, insert, length, any, contains, split, not, suc, is_some, is_empty, codes, reject_if,
  starts_with_char, ends_with_char, text_eq, nat_eq, option_eq, int_eq, ◌==◌, ◌&&◌, ◌||◌, ◌>>=◌,
  ◌>>◌, if◌then◌else◌, ℕ_discrete,
}
use nubisync.Core.Path.{slash, is_bad_component}
use nubisync.Core.Modes.{LocalItemKind, item_kind_eq}
use nubisync.Core.Snapshot.{LocalItemSnapshot}
use nubisync.Storage.Failure.{
  StorageError, sqlite, invalid_local_change_path, invalid_local_change_shape,
  local_change_baseline_mismatch, local_change_journal_count_mismatch,
  invalid_stored_local_change_event_kind, invalid_stored_local_change_event,
}
use nubisync.Storage.Tables.{optional_size, i64_try_from}
use nubisync.Storage.Intents.{is_positive}
pub mod Journal
pub mod Reconciled
pub mod Stale
use nubisync.Storage.LocalEvent.{LocalChangeEventKind, LocalChangeEventInput}

-- A row of `sync_root_local_inventory_state`.
pub record LocalInventoryState : Type 0 where
  pub snapshot_complete : Bool
  pub item_count : ℕ
  pub snapshot_completed_at_unix_ms : Option ℤ
  pub generation : ℕ
  pub observation_valid : Bool

-- A row of `sync_root_local_items` or of its staging table, under its `relative_path`.
pub record LocalItemRow : Type 0 where
  pub item_kind : LocalItemKind
  pub size_bytes : Option ℕ
  pub modified_unix_ns : ℤ
  pub device_id : ℕ
  pub inode : ℕ
  pub observed_at_unix_ms : ℤ

-- The texts that the column `status` admits.
pub data JournalStatus : Type 0 where
  pending applied superseded failed : JournalStatus

-- A row of `sync_root_local_change_events`, under its generation and path, which are unique; its `id`
-- is left out.
pub record JournalRow : Type 0 where
  pub baseline_item_count : ℕ
  pub baseline_snapshot_completed_at_unix_ms : Option ℤ
  pub event_kind : LocalChangeEventKind
  pub baseline_kind : Option LocalItemKind
  pub current_kind : Option LocalItemKind
  pub observed_at_unix_ms : ℤ
  pub status : JournalStatus

abbrev pub JournalKey : Type 0
JournalKey = ℕ × Text

journal_key_discrete : Discrete (ℕ × Text)
journal_key_discrete = hlevel ℕ_discrete

instance unfoldable pub journal_key_eq : Eq (ℕ × Text)
unfolding journal_key_discrete ℕ_discrete
journal_key_eq = record { dec = journal_key_discrete }

abbrev pub Journal : Type 0
Journal = Dict (ℕ × Text) JournalRow

pub record LocalTables : Type 0 where
  pub state : Option LocalInventoryState
  pub items : Dict Text LocalItemRow
  pub staging : Dict Text LocalItemRow
  pub events : Journal

unfoldable pub begin_sync_root_local_inventory_staging : LocalTables → LocalTables
begin_sync_root_local_inventory_staging t = record t { staging = [] }

unfoldable pub insert_sync_root_local_inventory_item :
    ℤ → LocalItemSnapshot → Dict Text LocalItemRow → Result StorageError (Dict Text LocalItemRow)
unfolding optional_size
insert_sync_root_local_inventory_item at item staging = do
  size_bytes ← optional_size item.size_bytes
  ok (
      insert item.relative_path
        (record {
          item_kind = item.kind;
          size_bytes = size_bytes;
          modified_unix_ns = item.modified_unix_ns;
          device_id = item.device_id;
          inode = item.inode;
          observed_at_unix_ms = at;
        })
        staging)

unfoldable pub insert_local_items :
    ℤ
    → List LocalItemSnapshot
    → Dict Text LocalItemRow
    → Result StorageError (Dict Text LocalItemRow)
unfolding insert_sync_root_local_inventory_item
insert_local_items at [] staging = ok staging
insert_local_items at (item ∷ items) staging =
    insert_sync_root_local_inventory_item at item staging >>= insert_local_items at items

unfoldable pub stage_sync_root_local_inventory_items :
    List LocalItemSnapshot → ℤ → LocalTables → Result StorageError (ℕ × LocalTables)
unfolding insert_local_items
stage_sync_root_local_inventory_items items at t = do
  staging ← insert_local_items at items t.staging
  ok (length items, record t { staging = staging })

unfoldable pub staged_sync_root_local_inventory_count : LocalTables → ℕ
staged_sync_root_local_inventory_count t = length t.staging

abbrev pub is_pending : JournalStatus → Bool
is_pending pending = true
is_pending applied = false
is_pending superseded = false
is_pending failed = false

-- `SET status = 'superseded' WHERE .. AND status = 'pending'`, with the test on the key.
unfoldable pub supersede : (ℕ × Text → Bool) → Journal → Journal
supersede test [] = []
supersede test ((key, row) ∷ rows) =
    let rest = supersede test rows in
    if is_pending row.status && test key
    then (key, record row { status = superseded }) ∷ rest
    else (key, row) ∷ rest

unfoldable pub count_pending : (ℕ × Text → Bool) → Journal → ℕ
count_pending test [] = 0
count_pending test ((key, row) ∷ rows) =
    let rest = count_pending test rows in
    if is_pending row.status && test key then suc rest else rest

abbrev pub next_generation : Option LocalInventoryState → ℕ
next_generation none = 1
next_generation (some state) = suc state.generation

unfoldable pub commit_sync_root_local_inventory_snapshot :
    ℤ → LocalTables → Result StorageError (ℕ × LocalTables)
unfolding i64_try_from supersede
commit_sync_root_local_inventory_snapshot completed_at t = do
  item_count ← i64_try_from (length t.staging)
  ok (
    length t.staging,
    record {
      state = some (record {
        snapshot_complete = true;
        item_count = item_count;
        snapshot_completed_at_unix_ms = some completed_at;
        generation = next_generation t.state;
        observation_valid = true;
      });
      items = t.staging;
      staging = [];
      events = supersede (λ key. true) t.events;
    },
  )

unfoldable pub sync_root_local_inventory_state : LocalTables → LocalInventoryState
sync_root_local_inventory_state t = elim t.state [
  | none ↦ record {
    snapshot_complete = false;
    item_count = 0;
    snapshot_completed_at_unix_ms = none;
    generation = 0;
    observation_valid = false;
  }
  | some state ↦ state
]

unfoldable pub invalidate_sync_root_local_observation_baseline : LocalTables → Bool × LocalTables
invalidate_sync_root_local_observation_baseline t = elim t.state [
  | none ↦ (false, t)
  | some state ↦
      if state.snapshot_complete && state.observation_valid
      then (true, record t { state = some (record state { observation_valid = false }) })
      else (false, t)
]

pub record LocalChangeJournalCommit : Type 0 where
  pub baseline_generation : ℕ
  pub pending_events : ℕ
  pub superseded_events : ℕ
  pub current_diff_events : ℕ

-- The baseline that a diff was made against.
pub record Baseline : Type 0 where
  pub generation : ℕ
  pub item_count : ℕ
  pub snapshot_completed_at_unix_ms : Option ℤ

unfoldable pub check_baseline :
    ℕ → ℕ → Option ℤ → Option LocalInventoryState → Result StorageError (Unit {0})
check_baseline generation item_count completed_at none = err local_change_baseline_mismatch
check_baseline generation item_count completed_at (some state) =
    reject_if
      (not state.snapshot_complete
        || not state.observation_valid
        || not (state.generation == generation)
        || not (state.item_count == item_count)
        || not (state.snapshot_completed_at_unix_ms == completed_at))
      local_change_baseline_mismatch

abbrev pub journal_row : Baseline → ℤ → LocalChangeEventInput → JournalRow
journal_row baseline at event = record {
  baseline_item_count = baseline.item_count;
  baseline_snapshot_completed_at_unix_ms = baseline.snapshot_completed_at_unix_ms;
  event_kind = event.kind;
  baseline_kind = event.baseline_kind;
  current_kind = event.current_kind;
  observed_at_unix_ms = at;
  status = pending;
}

-- The schema admits no generation 0.
unfoldable pub insert_events :
    Baseline → ℤ → List LocalChangeEventInput → Journal → Result StorageError Journal
unfolding journal_key_eq
insert_events baseline at [] rows = ok rows
insert_events baseline at (event ∷ events) rows =
    reject_if (baseline.generation == 0) sqlite
    >> insert_events baseline at events
        (insert (baseline.generation, event.relative_path) (journal_row baseline at event) rows)

unfoldable pub reconcile_sync_root_local_change_journal :
    Baseline
    → List LocalChangeEventInput
    → ℤ
    → LocalTables
    → Result StorageError (LocalChangeJournalCommit × LocalTables)
unfolding i64_try_from check_baseline supersede count_pending insert_events
reconcile_sync_root_local_change_journal expected events at t = do
  generation ← i64_try_from expected.generation
  item_count ← i64_try_from expected.item_count
  check_baseline generation item_count expected.snapshot_completed_at_unix_ms t.state
  let of_baseline = λ (key : ℕ × Text). key.0 == generation
  let baseline = record expected { generation = generation; item_count = item_count }
  after ← insert_events baseline at events (supersede of_baseline t.events)
  expected_pending ← i64_try_from (length events)
  reject_if (not (count_pending of_baseline after == expected_pending))
      local_change_journal_count_mismatch
  ok (
    record {
      baseline_generation = generation;
      pending_events = count_pending of_baseline after;
      superseded_events = count_pending of_baseline t.events;
      current_diff_events = length events;
    },
    record t { events = after },
  )

-- ===== src/Lib.antt =====
-- NubiSync keeps a local directory in step with a subtree of a cloud drive. The program is a set of
-- crates; this library models the ones that decide, which do no input or output, and the store that
-- they decide upon: the domain types, the planners, the secret stores, and of the SQLite store the
-- catalog, the change window, the receipts, the snapshots, the local journal and the remote-write
-- intents. The daemon and the command line read the drive, the local tree and the stored receipts,
-- ask the planners what to do, and carry that out.
--
-- How the parts meet: the provider reports changes of single items. `plan_root_catalog_change` says
-- what one change means for the selected subtree, and `RootCatalogProjection` applies it to a copy
-- of the catalog and hands the mutations to storage; the batch is committed only if the copy is
-- complete at its end. Storage keeps the changes of several pages in a window until the last page
-- brings the cursor to go on from, and then commits the mutations, that cursor and the end of the
-- window in one transaction, in which it also marks the receipts stale that no longer agree with
-- the catalog. What is to be created on the drive goes through an intent, whose status every step
-- of the upload moves under a test on the status and the generation before.
-- `build_remote_expected_paths` lays a complete catalog out as local paths. The materialization
-- planner compares these with the local tree, and the convergence planner does so with the receipts
-- of what the program wrote itself, to bring the local tree to the remote one without touching what
-- is not its own.
--
-- The files, and the code that they model:
--   Core       crates/nubisync-core/src/lib.rs
--     Error, Ids, Modes, Path, Root, Snapshot, Remote: the types of the same names with their
--     validating constructors (`new_x` is `X::new`, `parse_x` is `X::parse`). Ids/Shape, Path/Parts
--     and Path/Join hold what they let through.
--   Sync       crates/nubisync-sync/src/lib.rs, and src/convergence.rs of the same crate
--     Reconcile    `plan`
--     Change       `plan_root_catalog_change`
--     Failure      `RootCatalogProjectionError`
--     Projection   `RootCatalogProjection` with `apply_upsert`, `delete_subtree`, `is_complete`; its
--                  children prove what these do to the parent map and its buckets
--     Hydration    `validate_hydration`, split at its loops
--     Catalog      `RootCatalogProjection::new`, `apply_change`, `validate_complete`
--     Local        `LocalTreeEntry` and the validators of names and paths
--     Paths        `build_remote_expected_paths`, a function for each loop
--     Materialize  `plan_receive_only_materialization` and the target lists
--     Converge     `plan_receive_only_convergence`: Receipts, Drafts (`set_action`), Decide (the
--                  bodies of the three loops), Index (the maps that they read), Plan (the loops, the
--                  order and the counts); Reads ties the maps to the lists, Reasons says on the lists
--                  what each action rests on
--   Auth       crates/nubisync-auth/src/lib.rs
--     `SecretKey` and `SecretValue`; Memory is `MemorySecretStore`, Keyring is `KeyringSecretStore`
--   Drive      crates/nubisync-drive/src/api.rs, what of it does no input or output
--     Number is the decimal form of a `u64`, Query the search queries, Pages the conversion of change
--     and inventory pages (an error's code is a text), Upload the ranges of a resumable upload and, in
--     Upload/Completion, the checks of its last answer
--   Storage    crates/nubisync-storage/src/lib.rs, the operations on one sync root
--     Failure      `StorageError`, the variants that these operations return
--     Tables       the rows of the tables, and the conversions to `i64`
--     Subtree      the recursive query for an item and what is below it
--     Catalog      `commit_sync_root_catalog_batch_and_cursor` with the mutations and the receipts
--                  that each of them marks stale; Catalog/Agree relates it to Sync/Projection
--     Window       `stage_sync_root_change_window_page`
--     Closing      `sync_root_change_window_changes`, `discard_sync_root_change_window` and
--                  `commit_sync_root_catalog_change_window`
--     Receipts     the receipts of files: recording one or a batch, deleting stale ones
--     Directories  the same for directories
--     History      any sequence of the operations above
--     Snapshot     the staging table, `commit_sync_root_remote_inventory_snapshot` and
--                  `commit_sync_root_remote_inventory_rebaseline`. They leave the receipts as they
--                  are, so that what History keeps of these is not stated of them
--     LocalEvent   `LocalChangeEventKind`, `LocalChangeEventInput`, `LocalChangeEventRecord`
--     Local        the staging and the commit of a local snapshot, and
--                  `reconcile_sync_root_local_change_journal`; the journal's entries go by generation
--                  and path, which are unique, and their ids are left out
--     Intents      operations, statuses and rows of the remote-write intents; Begin and Restart are
--                  their submissions (`begin_*`, `restart_*`), Evidence the fingerprint, the upload and
--                  the recovery, Moves the two `transition_*`; Graph, Steps, Calls and Runs prove what
--                  any sequence of them does
--   Telemetry  crates/nubisync-telemetry/src/lib.rs
--   Base       what the modules share; Tests holds the runs at concrete inputs.
--
-- How the code is written here. A text is a list of Unicode scalar values, and `byte_len` counts
-- its UTF-8 bytes. `Result` with `>>=` is Rust's with `?`. A hash map or a `BTreeMap` is an
-- association list with one entry for a key; a hash set is a list without repetitions. The order in
-- which Rust walks a hash map is not fixed; where the model fixes one (the buckets of the
-- projection) the results are stated as sets or counts. `sort_by` is a stable insertion sort, and
-- the values of the `BTreeMap` of drafts are sorted by their keys. Counters are natural numbers: a
-- `usize` holds as many as there are elements in memory.
--
-- A table is the rows of one sync root, since every statement that is modelled names the root, and
-- its primary key is the key of an association list. A column that the schema restricts to some
-- texts is a data type; a column that the schema keeps from being negative, or that is only written
-- from a `u64`, is a natural number. An operation returns the new tables or an error, and an error
-- stands for the rollback of its transaction, so that the tables stay as they were; History and
-- Intents say so in `after` and `settle`. A unique index is a test that fails with `sqlite`, and so
-- are the reading of an absent kind as a text and a generation 0 in the journal; no other failure
-- of SQLite is modelled. An `i64` counter is checked against 2 ^ 63 where the source checks it.
-- What an intent's guards read of other tables is in `WriteTables`, which a run takes anew at each
-- call; the settlements are there as the ids of their intents.
--
-- Loops on a queue take fuel, the rounds that they may run, and `none` means that it ran out.
-- `is_complete` runs one round more than there are items, `validate_hydration` and
-- `build_remote_expected_paths` one more than there are items given; each is enough, since an id is
-- queued once. The recursive query for a subtree takes the number of rows as fuel, which is enough,
-- since each round takes a row away. `delete_subtree` keeps no set of visited ids, so its fuel is
-- an argument: it ends on a forest, within the bound that Projection/Depth gives, and for no fuel
-- on the cycle that Projection/Cycle makes. A `u64` is printed with a fuel of 20, the digits of the
-- largest. An addition on `u64` that the source checks is checked against 2 ^ 64.
--
-- Not modelled: the keyring package is a parameter of Auth/Keyring (`Keyring`, with what it
-- documents in `IsCredentialStore`). Of crates/nubisync-storage, SQLite itself, the migrations, the
-- write authority, the planning and the settlement of intents, the catalog of a provider and the
-- lists and counts are left out so far. The requests of crates/nubisync-drive (HTTP and OAuth) with
-- the checks of their other answers, crates/nubisync-daemon and crates/nubisync-cli (files, D-Bus,
-- timers, printing) are left out, as are the Debug and serde instances and the `CloudProvider`
-- trait, which has no code.
pub mod Base
pub mod Core
pub mod Sync
pub mod Auth
pub mod Drive
pub mod Storage
pub mod Telemetry
pub mod Tests

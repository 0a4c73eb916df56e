-- ===== src/Sync/Failure.antt =====
-- `RootCatalogProjectionError` of crates/nubisync-sync/src/lib.rs.
use nubisync.Sync.Change.{RootCatalogPlanError}

pub data RootCatalogProjectionError : Type 0 where
  plan : RootCatalogPlanError → RootCatalogProjectionError
  invalid_root_identifier : RootCatalogProjectionError
  invalid_initial_catalog_item : RootCatalogProjectionError
  duplicate_initial_remote_id : RootCatalogProjectionError
  incomplete_initial_catalog : RootCatalogProjectionError
  hydration_required : RootCatalogProjectionError
  unexpected_hydration : RootCatalogProjectionError
  invalid_hydration_root : RootCatalogProjectionError
  invalid_hydration_item : RootCatalogProjectionError
  duplicate_hydration_remote_id : RootCatalogProjectionError
  incomplete_hydration : RootCatalogProjectionError
  incomplete_projected_catalog : RootCatalogProjectionError

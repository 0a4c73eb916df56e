-- ===== src/Storage/Catalog/Agree.antt =====
-- The catalog of crates/nubisync-storage/src/lib.rs and the projection of crates/nubisync-sync/src/lib.rs:
-- what is committed for a change is what the projection has become.
use nubisync.Base.{
  List, Option, Text, [], ◌∷◌, ◌≡◌, ◌∙◌, arith, map, ok, option_eq, some, sym, text_eq, ℕ, ℤ, Eq,
}
use mathlib.Core.Path.{subst}
use mathlib.Core.Logic.{dite}
use nubisync.Core.Ids.{ChangeCursor}
use nubisync.Core.Remote.{RemoteItem, RemoteChange}
use nubisync.Sync.Change.{RootChangeMembership}
use nubisync.Sync.Projection.{RootCatalogProjection}
use nubisync.Sync.Projection.Index.{IsIndexed}
use nubisync.Sync.Catalog.{
  RootCatalogMutationPlan, upsert_plan, delete_plan, RootCatalogResolution, apply_change,
}
use nubisync.Sync.Catalog.Mutations.{
  Stored, InSubtree, itself, child, Mutates, Replays, done, step, mutations_of, stored,
  apply_change-Replays,
}
use nubisync.Storage.Tables.{RootTables}
use nubisync.Storage.Catalog.{
  SyncRootCatalogMutation, SyncRootCatalogBatchCommit, commit_sync_root_catalog_batch_and_cursor,
}
use nubisync.Storage.Catalog.Replays.{plan_of, catalog, HasKeys}
use nubisync.Storage.Receipts.Paths.{HasReceipts}
use nubisync.Storage.Catalog.Commits.{commit_batch-Commits}

-- The catalogs have the same entries.
abbrev pub Agrees : Stored → Stored → Type 0
Agrees s t = (x : Text) → s x ≡ t x

InSubtree-Agrees :
    {s t : Stored} → Agrees s t → (top x : Text) → InSubtree s top x → InSubtree t top x
InSubtree-Agrees same top x itself = itself
InSubtree-Agrees same top x (child {p = p} b e) =
    child (InSubtree-Agrees same top p b) (sym (same x) ∙ e)

Mutates-Agrees :
    (m : RootCatalogMutationPlan) (s s' t t' : Stored)
    → Agrees s s'
    → Mutates m s t
    → Mutates m s' t'
    → Agrees t t'
Mutates-Agrees (upsert_plan item) s s' t t' same a b x = ground (arith, a x, b x, same x)
Mutates-Agrees (delete_plan top) s s' t t' same a b x =
    dite (entry_eq.dec (t x) (t' x)) (λ e. e)
      (λ n.
        let out = (λ (i : InSubtree s top x).
          n ((a x).0 i ∙ sym ((b x).0 (InSubtree-Agrees same top x i)))) in
        absurd (
          n (
            (a x).1 out
            ∙ same x
            ∙ sym ((b x).1 (λ i. out (InSubtree-Agrees (λ y. sym (same y)) top x i))))))
  where
    entry_eq : Eq (Option (Option Text))
    entry_eq = option_eq

Replays-Agrees :
    (ms : List RootCatalogMutationPlan) {s s' t t' : Stored}
    → Agrees s s'
    → Replays ms s t
    → Replays ms s' t'
    → Agrees t t'
Replays-Agrees [] same (done a) (done b) = λ x. a x ∙ same x ∙ sym (b x)
Replays-Agrees (m ∷ ms) same (step a rest) (step b others) =
    Replays-Agrees ms (Mutates-Agrees m _ _ _ _ same a b) rest others

-- Where the projection and the catalog have the same entries, and the mutations that the projection
-- returns for a change are committed, they have the same entries afterwards. The projection's index
-- is in order, the catalog has one row for an id, and every current receipt is right
-- and at a path of its own.
pub commit_follows_projection :
    (fuel : ℕ) (change : RemoteChange) (membership : RootChangeMembership)
    (hydration : Option (List RemoteItem)) (p : RootCatalogProjection)
    {resolution : RootCatalogResolution} {p' : RootCatalogProjection} (expected : ChangeCursor)
    (ms : List SyncRootCatalogMutation) (next : ChangeCursor) (observed : ℤ) (t : RootTables)
    {commit : SyncRootCatalogBatchCommit} {t' : RootTables}
    → IsIndexed p
    → HasKeys t
    → HasReceipts t
    → Agrees (catalog t) (stored p)
    → apply_change fuel change membership hydration p ≡ some (ok (resolution, p'))
    → mutations_of resolution ≡ map plan_of ms
    → commit_sync_root_catalog_batch_and_cursor expected ms next observed t ≡ ok (commit, t')
    → Agrees (catalog t') (stored p')
commit_follows_projection fuel change membership hydration p {p' = p'} expected ms next observed t
      index u receipts same applied planned committed =
    let (_, replays) = apply_change-Replays fuel change membership hydration p index applied in
    let commits = (commit_batch-Commits expected ms next observed t u receipts committed).0 in
    Replays-Agrees (map plan_of ms) same commits.replays
      (subst (λ plans. Replays plans (stored p) (stored p')) planned replays)

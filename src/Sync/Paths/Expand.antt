-- ===== src/Sync/Paths/Expand.antt =====
-- The loop over the queue in `build_remote_expected_paths` lays the catalog out.
use nubisync.Base.{
  All, Among, IsNodup, List, Text, [], contains, false, int_eq, length, nat_eq, option_eq, text_eq,
  ◌≡◌, >>-eq-ok, >>=-eq-ok, All-snoc, All-sort_by, arith, contains-append, inr, length-append, ok,
  refl, snoc-IsNodup, some, suc, sym, zero, ℕ, ◌++◌, ◌∷◌, All-append, Among-snoc, Result-cases, inl,
}
use nubisync.Core.Path.{slash}
use nubisync.Core.Path.Parts.{IsSafePath}
use nubisync.Core.Remote.{RemoteItem, RemoteItemKind, folder, file}
use nubisync.Sync.Local.{validate_safe_relative_path}
use nubisync.Sync.Local.Safe.{validate_safe_relative_path_iff}
use nubisync.Sync.Paths.{
  RemoteExpectedPath, expected_path, Siblings, siblings_of, compare_siblings, Queue, queue_children,
  Expansion, record_path, folder_children, expand_item, expand,
}
use nubisync.Sync.Paths.Layout.{
  expected_ids, expected_names, IsPlaced, AreEntries, expected_ids-append, expected_names-append,
  AreEntries-snoc, IsPlaced-append,
}

module _ (items : List RemoteItem) (root : Text) where
  -- Between two rounds.
  pub record IsExpansion (x : Expansion) : Type 0 where
    pub once : IsNodup x.visited
    pub same_ids : (a : Text) → contains x.visited a ≡ contains (expected_ids x.expected_paths) a
    pub same_paths :
        (p : Text) → contains x.seen_paths p ≡ contains (expected_names x.expected_paths) p
    pub counted : length x.visited ≡ length x.expected_paths
    pub laid_out : AreEntries items root [] x.expected_paths
    pub safe : All IsSafePath (expected_names x.expected_paths)
    pub paths_once : IsNodup (expected_names x.expected_paths)
    pub ids_once : IsNodup (expected_ids x.expected_paths)

  abbrev pub AreQueued : List RemoteExpectedPath → Queue → Type 0
  AreQueued before queue =
      All (λ (item, path). Among item items × IsPlaced root before item path) queue

  record_path-IsExpansion :
      (item : RemoteItem) (path : Text) (x : Expansion)
      → IsExpansion x
      → Among item items
      → IsPlaced root x.expected_paths item path
      → IsSafePath path
      → contains x.visited item.remote_id ≡ false
      → contains x.seen_paths path ≡ false
      → IsExpansion (record_path item path x)
  record_path-IsExpansion item path x h m placed ok_path fresh new = record {
    once = (fresh, h.once);
    same_ids = λ a.
        rw expected_ids-append
          (ground (arith, h.same_ids a, contains-append (expected_ids es) (id ∷ []) a));
    same_paths = λ p.
        rw expected_names-append
          (ground (arith, h.same_paths p, contains-append (expected_names es) (path ∷ []) p));
    counted = omega (arith, h.counted, length-append es (e ∷ []));
    laid_out = AreEntries-snoc items root [] es e h.laid_out (item, m, refl, placed);
    safe = rw expected_names-append (All-snoc IsSafePath (expected_names es) path h.safe ok_path);
    paths_once =
        rw expected_names-append
          (snoc-IsNodup (expected_names es) path h.paths_once (ground (arith, h.same_paths path)));
    ids_once =
        rw expected_ids-append
          (snoc-IsNodup (expected_ids es) id h.ids_once (ground (arith, h.same_ids id)));
  }
    where
      id : Text
      id = item.remote_id

      es : List RemoteExpectedPath
      es = x.expected_paths

      e : RemoteExpectedPath
      e = expected_path item path

  -- The items of each bucket are in the catalog and name the bucket as their parent.
  abbrev pub AreChildren : Siblings → Type 0
  AreChildren children =
      (q : Text)
      → All (λ item. Among item items × (item.parent_remote_id ≡ some q)) (siblings_of q children)

  queue_children-AreQueued :
      (d : RemoteExpectedPath) (before : List RemoteExpectedPath) (children : List RemoteItem)
      {queue : Queue}
      → Among d before
      → d.kind ≡ folder
      → All (λ item. Among item items × (item.parent_remote_id ≡ some d.remote_id)) children
      → queue_children d.relative_path children ≡ ok queue
      → AreQueued before queue
  unfolding queue_children
  queue_children-AreQueued d before [] {queue} m k a e =
      let same : [] ≡ queue = ground arith in rw (← same) tt
  queue_children-AreQueued d before (child ∷ children) {queue} m k (here, rest) e =
      let path = d.relative_path ++ slash ∷ child.name in
      let (_, e₁) = >>-eq-ok (validate_safe_relative_path path) _ e in
      let (tail, e₂, e₃) = >>=-eq-ok (queue_children d.relative_path children) _ e₁ in
      let same : (child, path) ∷ tail ≡ queue = ground arith in
      rw (← same) (
        (here.0, inr (d, m, k, here.1, refl)),
        queue_children-AreQueued d before children m k rest e₂,
      )

  folder_children-AreQueued :
      (kind : RemoteItemKind) (d : RemoteExpectedPath) (before : List RemoteExpectedPath)
      (children : Siblings) {queue : Queue}
      → kind ≡ d.kind
      → Among d before
      → AreChildren children
      → folder_children kind d.remote_id d.relative_path children ≡ ok queue
      → AreQueued before queue
  folder_children-AreQueued file d before children {queue} k m a e =
      let same : [] ≡ queue = ground arith in rw (← same) tt
  folder_children-AreQueued folder d before children k m a e =
      queue_children-AreQueued d before _ m (sym k)
        (All-sort_by compare_siblings
          (λ (item : RemoteItem). Among item items × (item.parent_remote_id ≡ some d.remote_id))
          (siblings_of d.remote_id children) (a d.remote_id))
        e

  AreQueued-append :
      (before more : List RemoteExpectedPath) (queue : Queue)
      → AreQueued before queue
      → AreQueued (before ++ more) queue
  AreQueued-append before more [] h = tt
  AreQueued-append before more ((item, path) ∷ queue) ((m, p), rest) =
      ((m, IsPlaced-append root before more item path p), AreQueued-append before more queue rest)

  -- What a round that goes on has checked, and what it queues.
  pub expand_item-eq-ok :
      (children : Siblings) (item : RemoteItem) (path : Text) (x : Expansion) {queued : Queue}
      → expand_item children item path x ≡ ok queued
      → IsSafePath path
        × (contains x.visited item.remote_id ≡ false)
        × (contains x.seen_paths path ≡ false)
        × (folder_children item.kind item.remote_id path children ≡ ok queued)
  unfolding expand_item
  expand_item-eq-ok children item path x e =
      let (valid, e₁) = >>-eq-ok (validate_safe_relative_path path) _ e in
      ((validate_safe_relative_path_iff path).0 valid, ground arith, ground arith, ground arith)

  expand-step :
      (fuel : ℕ) (children : Siblings) (item : RemoteItem) (path : Text) (queue : Queue)
      (x : Expansion) {y : Expansion}
      → expand (suc fuel) children ((item, path) ∷ queue) x ≡ some (ok y)
      → (queued : Queue) × (expand_item children item path x ≡ ok queued)
        × (expand fuel children (queue ++ queued) (record_path item path x) ≡ some (ok y))
  unfolding expand
  expand-step fuel children item path queue x e =
      elim (Result-cases (expand_item children item path x)) [
        | inl (queued, f) ↦ (queued, f, ground (arith, f))
        | inr (_, f) ↦ ground (arith, f)
      ]

  -- The queue after a round.
  pub AreQueued-step :
      (item : RemoteItem) (path : Text) (x : Expansion) (children : Siblings) (queue : Queue)
      {queued : Queue}
      → AreChildren children
      → AreQueued x.expected_paths queue
      → folder_children item.kind item.remote_id path children ≡ ok queued
      → AreQueued (record_path item path x).expected_paths (queue ++ queued)
  AreQueued-step item path x children queue {queued} a rest below =
      let d = expected_path item path in
      let before = x.expected_paths ++ d ∷ [] in
      All-append
        (λ (pair : RemoteItem × Text). Among pair.0 items × IsPlaced root before pair.0 pair.1)
        queue queued (AreQueued-append x.expected_paths (d ∷ []) queue rest)
        (folder_children-AreQueued item.kind d before children refl (Among-snoc d x.expected_paths)
          a below)

  pub expand-IsExpansion :
      (fuel : ℕ) (children : Siblings) (queue : Queue) (x : Expansion) {y : Expansion}
      → AreChildren children
      → expand fuel children queue x ≡ some (ok y)
      → AreQueued x.expected_paths queue
      → IsExpansion x
      → IsExpansion y
  unfolding expand
  expand-IsExpansion fuel children [] x {y} a e q h =
      let same : x ≡ y = ground arith in rw (← same) h
  expand-IsExpansion zero children (_ ∷ queue) x a e q h = cc
  expand-IsExpansion (suc fuel) children ((item, path) ∷ queue) x {y} a e ((m, placed), rest) h =
      let (queued, f, more) = expand-step fuel children item path queue x e in
      let (safe, fresh, new, below) = expand_item-eq-ok children item path x f in
      expand-IsExpansion fuel children (queue ++ queued) (record_path item path x) a more
        (AreQueued-step item path x children queue a rest below)
        (record_path-IsExpansion item path x h m placed safe fresh new)

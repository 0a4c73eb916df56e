-- ===== src/Sync/Converge/Reads.antt =====
-- What the indexes of `plan_receive_only_convergence` of crates/nubisync-sync/src/convergence.rs
-- hold of the lists that they are made from.
use nubisync.Base.{
  ==_refl, ==→≡, >>-eq-ok, >>=-eq-ok, Among, Among-append_left, Among-snoc, Among-snoc_cases,
  Bool-cases, Dict, IsNodup, List, Text, [], arith, contains, contains_key, false, inl, inr, insert,
  int_eq, lookup, lookup-insert, map_err, map_err-eq-ok, nat_eq, ok, ok-injective, option_eq, refl,
  reject_if, some, text_eq, true, ℕ, ◌++◌, ◌==◌, ◌∷◌, ◌≡◌,
}
use mathlib.Core.Path.{subst}
use mathlib.Core.List.{append-nil, append_assoc}
use nubisync.Core.Remote.{RemoteItem}
use nubisync.Sync.Local.{LocalTreeEntry}
use nubisync.Sync.Paths.{RemoteExpectedPath, build_remote_expected_paths}
use nubisync.Sync.Paths.Layout.{IsLayout, expected_ids}
use nubisync.Sync.Paths.Built.{build_remote_expected_paths_lem}
use nubisync.Sync.Materialize.{Locals, local_paths, plan_receive_only_materialization}
use nubisync.Sync.Materialize.Locals.{index-IsNodup}
use nubisync.Sync.Materialize.Counts.{plan-Made}
use nubisync.Sync.Converge.Receipts.{
  ReceiveOnlyOwnershipReceipt, materialization, invalid_max_actions,
}
use nubisync.Sync.Converge.Decide.{Receipts, Expected}
use nubisync.Sync.Converge.Index.{
  Context, make_context, index_locals, index_receipts, index_expected,
}

-- The index has the value of each element under its key, and nothing else.
pub record IsIndexOf {A V : Type 0} (key : A → Text) (val : A → V) (xs : List A) (d : Dict Text V)
    : Type 0 where
  pub sound :
      (k : Text) (v : V) → lookup k d ≡ some v → (x : A) × Among x xs × (key x ≡ k) × (val x ≡ v)
  pub complete : (x : A) → Among x xs → lookup (key x) d ≡ some (val x)

module _ {A V : Type 0} (key : A → Text) (val : A → V) where
  empty_IsIndexOf : IsIndexOf key val [] []
  unfolding lookup
  empty_IsIndexOf = record { sound = λ k v h. ground arith; complete = λ x m. absurd m }

  grown_sound :
      (seen : List A) (d : Dict Text V) (x : A)
      → IsIndexOf key val seen d
      → (k : Text) (v : V) → lookup k (insert (key x) (val x) d) ≡ some v
      → (y : A) × Among y (seen ++ x ∷ []) × (key y ≡ k) × (val y ≡ v)
  grown_sound seen d x h k v there =
      let found = lookup-insert (key x) k (val x) d in
      elim (Bool-cases (key x == k)) [
        | inl same ↦ (x, Among-snoc x seen, ==→≡ (key x) k same, ground (arith, found, same))
        | inr differ ↦
            let (y, m, p, q) = h.sound k v (ground (arith, found, differ)) in
            (y, Among-append_left y seen (x ∷ []) m, p, q)
      ]

  grown_complete :
      (seen : List A) (d : Dict Text V) (x : A)
      → IsIndexOf key val seen d
      → contains_key (key x) d ≡ false
      → (y : A) → Among y (seen ++ x ∷ [])
      → lookup (key y) (insert (key x) (val x) d) ≡ some (val y)
  unfolding contains_key
  grown_complete seen d x h fresh y m = elim (Among-snoc_cases y seen x m) [
    | inl old ↦ ground (arith, lookup-insert (key x) (key y) (val x) d, h.complete y old, fresh)
    | inr p ↦ rw (← p) (ground (arith, lookup-insert (key x) (key x) (val x) d, ==_refl (key x)))
  ]

  grown_IsIndexOf :
      (seen : List A) (d : Dict Text V) (x : A)
      → IsIndexOf key val seen d
      → contains_key (key x) d ≡ false
      → IsIndexOf key val (seen ++ x ∷ []) (insert (key x) (val x) d)
  grown_IsIndexOf seen d x h fresh = record {
    sound = grown_sound seen d x h;
    complete = grown_complete seen d x h fresh;
  }

abbrev pub IsLocalIndex : List LocalTreeEntry → Locals → Type 0
IsLocalIndex = IsIndexOf (λ (x : LocalTreeEntry). x.relative_path) (λ (x : LocalTreeEntry). x.kind)

abbrev pub IsIdIndex : List ReceiveOnlyOwnershipReceipt → Receipts → Type 0
IsIdIndex =
    IsIndexOf (λ (x : ReceiveOnlyOwnershipReceipt). x.remote_id)
      (λ (x : ReceiveOnlyOwnershipReceipt). x)

abbrev pub IsPathIndex : List ReceiveOnlyOwnershipReceipt → Receipts → Type 0
IsPathIndex =
    IsIndexOf (λ (x : ReceiveOnlyOwnershipReceipt). x.relative_path)
      (λ (x : ReceiveOnlyOwnershipReceipt). x)

abbrev pub IsExpectedIndex : List RemoteExpectedPath → Expected → Type 0
IsExpectedIndex =
    IsIndexOf (λ (x : RemoteExpectedPath). x.remote_id)
      (λ (x : RemoteExpectedPath). (x.relative_path, x.kind))

index_locals-IsLocalIndex :
    (seen entries : List LocalTreeEntry) (d : Locals) {out : Locals}
    → index_locals d entries ≡ ok out
    → IsLocalIndex seen d
    → IsLocalIndex (seen ++ entries) out
unfolding index_locals
index_locals-IsLocalIndex seen [] d {out} e h =
    let same : d ≡ out = ground arith in rw append-nil (subst (IsLocalIndex seen) same h)
index_locals-IsLocalIndex seen (x ∷ entries) d {out} e h =
    let fresh : contains_key x.relative_path d ≡ false = ground arith in
    let rest : index_locals (insert x.relative_path x.kind d) entries ≡ ok out = ground arith in
    subst (λ xs. IsLocalIndex xs out) (append_assoc seen (x ∷ []) entries)
      (index_locals-IsLocalIndex (seen ++ x ∷ []) entries (insert x.relative_path x.kind d) rest
        (grown_IsIndexOf _ _ seen d x h fresh))

index_receipts-AreIndexes :
    (seen receipts : List ReceiveOnlyOwnershipReceipt) (by_id by_path : Receipts)
    {out : Receipts × Receipts}
    → index_receipts by_id by_path receipts ≡ ok out
    → IsIdIndex seen by_id
    → IsPathIndex seen by_path
    → IsIdIndex (seen ++ receipts) out.0 × IsPathIndex (seen ++ receipts) out.1
unfolding index_receipts
index_receipts-AreIndexes seen [] by_id by_path {out} e h k =
    let same : by_id ≡ out.0 = ground arith in
    let same_path : by_path ≡ out.1 = ground arith in
    rw append-nil (subst (IsIdIndex seen) same h, subst (IsPathIndex seen) same_path k)
index_receipts-AreIndexes seen (x ∷ receipts) by_id by_path {out} e h k =
    let fresh : contains_key x.remote_id by_id ≡ false = ground arith in
    let fresh_path : contains_key x.relative_path by_path ≡ false = ground arith in
    let rest : index_receipts (insert x.remote_id x by_id) (insert x.relative_path x by_path)
          receipts
        ≡ ok out =
      ground arith in
    subst (λ xs. IsIdIndex xs out.0 × IsPathIndex xs out.1) (append_assoc seen (x ∷ []) receipts)
      (index_receipts-AreIndexes (seen ++ x ∷ []) receipts (insert x.remote_id x by_id)
        (insert x.relative_path x by_path) rest (grown_IsIndexOf _ _ seen by_id x h fresh)
        (grown_IsIndexOf _ _ seen by_path x k fresh_path))

index_expected-IsExpectedIndex :
    (seen es : List RemoteExpectedPath) (d : Expected)
    → IsNodup (expected_ids es)
    → ((id : Text) → contains (expected_ids es) id ≡ true → contains_key id d ≡ false)
    → IsExpectedIndex seen d
    → IsExpectedIndex (seen ++ es) (index_expected d es)
unfolding index_expected contains_key
index_expected-IsExpectedIndex seen [] d once fresh h = rw append-nil h
index_expected-IsExpectedIndex seen (x ∷ es) d (new, once) fresh h =
    let more = insert x.remote_id (x.relative_path, x.kind) d in
    subst (λ xs. IsExpectedIndex xs (index_expected more es)) (append_assoc seen (x ∷ []) es)
      (index_expected-IsExpectedIndex (seen ++ x ∷ []) es more once
        (λ id m. ground (arith, fresh id, lookup-insert x.remote_id id (x.relative_path, x.kind) d))
        (grown_IsIndexOf _ _ seen d x h (fresh x.remote_id (ground (arith, ==_refl x.remote_id)))))

-- The indexes of a context are those of the lists that it is made from.
pub record Reads (items : List RemoteItem) (entries : List LocalTreeEntry)
    (receipts : List ReceiveOnlyOwnershipReceipt) (c : Context) : Type 0 where
  pub root : Text
  pub laid_out : IsLayout items root c.expected_paths
  pub entries_kept : c.local_entries ≡ entries
  pub distinct_entries : IsNodup (local_paths entries)
  pub by_local_path : IsLocalIndex entries c.local_by_path
  pub by_receipt_id : IsIdIndex receipts c.receipt_by_remote_id
  pub by_receipt_path : IsPathIndex receipts c.receipt_by_path
  pub by_expected_id : IsExpectedIndex c.expected_paths c.expected_by_remote_id

pub make_context-Reads :
    (items : List RemoteItem) (entries : List LocalTreeEntry)
    (receipts : List ReceiveOnlyOwnershipReceipt) (max_actions : ℕ) {c : Context}
    → make_context items entries receipts max_actions ≡ ok c
    → Reads items entries receipts c
unfolding make_context
make_context-Reads items entries receipts max_actions {c} h =
    let (_, h1) = >>-eq-ok (reject_if (max_actions == 0) invalid_max_actions) _ h in
    let (m, planned, h2) =
      >>=-eq-ok (map_err materialization (plan_receive_only_materialization items entries)) _ h1 in
    let (es, built, h3) =
      >>=-eq-ok (map_err materialization (build_remote_expected_paths items)) _ h2 in
    let (locals, listed, h4) = >>=-eq-ok (index_locals [] entries) _ h3 in
    let (indexed, filed, last) = >>=-eq-ok (index_receipts [] [] receipts) _ h4 in
    let (root, laid_out) =
      build_remote_expected_paths_lem items es (map_err-eq-ok materialization _ built) in
    let (ids, paths) =
      index_receipts-AreIndexes [] receipts [] [] filed (empty_IsIndexOf _ _)
        (empty_IsIndexOf _ _) in
    let made = plan-Made items entries m (map_err-eq-ok materialization _ planned) in
    subst (Reads items entries receipts) (ok-injective last) (record {
      root = root;
      laid_out = laid_out;
      entries_kept = refl;
      distinct_entries = index-IsNodup entries made.indexed;
      by_local_path = index_locals-IsLocalIndex [] entries [] listed (empty_IsIndexOf _ _);
      by_receipt_id = ids;
      by_receipt_path = paths;
      by_expected_id =
          index_expected-IsExpectedIndex [] es [] laid_out.distinct_ids
            (λ id m. unfold contains_key lookup in refl) (empty_IsIndexOf _ _);
    })

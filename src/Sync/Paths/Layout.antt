-- ===== src/Sync/Paths/Layout.antt =====
-- What a list of expected paths should be, said without the loops.
use nubisync.Base.{
  All, Among, Among-append_left, IsNodup, IsSubset, List, Text, [], ap, inl, inr, int_eq, length,
  nat_eq, option_eq, refl, some, suc, text_eq, ◌++◌, ◌∷◌, ◌≡◌, ◌⊎◌,
}
use mathlib.Core.List.{append-nil, append_assoc}
use nubisync.Core.Path.{slash}
use nubisync.Core.Path.Parts.{IsSafePath}
use nubisync.Core.Remote.{RemoteItem, folder}
use nubisync.Sync.Hydration.{ids_of}
use nubisync.Sync.Paths.{RemoteExpectedPath, expected_path}

abbrev pub expected_ids : List RemoteExpectedPath → List Text
expected_ids [] = []
expected_ids (e ∷ es) = e.remote_id ∷ expected_ids es

abbrev pub expected_names : List RemoteExpectedPath → List Text
expected_names [] = []
expected_names (e ∷ es) = e.relative_path ∷ expected_names es

-- A top-level item lies at its name. Any other lies in the directory of its parent, a folder that
-- is among the entries before it.
abbrev pub IsPlaced : Text → List RemoteExpectedPath → RemoteItem → Text → Type 0
IsPlaced root before item path =
    ((item.parent_remote_id ≡ some root) × (path ≡ item.name))
    ⊎ ((d : RemoteExpectedPath) × Among d before
        × (d.kind ≡ folder)
        × (item.parent_remote_id ≡ some d.remote_id)
        × (path ≡ d.relative_path ++ slash ∷ item.name))

-- The entry is that of an item of the catalog, in its place.
abbrev pub IsEntry : List RemoteItem → Text → List RemoteExpectedPath → RemoteExpectedPath → Type 0
IsEntry items root before e =
    (item : RemoteItem) × Among item items
    × (e ≡ expected_path item e.relative_path)
    × IsPlaced root before item e.relative_path

abbrev pub AreEntries :
    List RemoteItem → Text → List RemoteExpectedPath → List RemoteExpectedPath → Type 0
AreEntries items root before [] = Unit
AreEntries items root before (e ∷ es) =
    IsEntry items root before e × AreEntries items root (before ++ e ∷ []) es

-- The layout of a catalog under a root: an entry for each item, at distinct safe paths, parents
-- first.
pub record IsLayout (items : List RemoteItem) (root : Text) (es : List RemoteExpectedPath)
    : Type 0 where
  pub entries : AreEntries items root [] es
  pub safe_paths : All IsSafePath (expected_names es)
  pub distinct_paths : IsNodup (expected_names es)
  pub distinct_ids : IsNodup (expected_ids es)
  pub one_for_each : length es ≡ length items
  pub all_items : IsSubset (ids_of items) (expected_ids es)

pub expected_ids-append :
    (es fs : List RemoteExpectedPath) → expected_ids (es ++ fs) ≡ expected_ids es ++ expected_ids fs
expected_ids-append [] fs = refl
expected_ids-append (e ∷ es) fs = rw (expected_ids-append es fs)

pub expected_names-append :
    (es fs : List RemoteExpectedPath)
    → expected_names (es ++ fs) ≡ expected_names es ++ expected_names fs
expected_names-append [] fs = refl
expected_names-append (e ∷ es) fs = rw (expected_names-append es fs)

pub length-expected_ids : (es : List RemoteExpectedPath) → length (expected_ids es) ≡ length es
length-expected_ids [] = refl
length-expected_ids (e ∷ es) = ap suc (length-expected_ids es)

pub AreEntries-snoc :
    (items : List RemoteItem) (root : Text) (before es : List RemoteExpectedPath)
    (e : RemoteExpectedPath)
    → AreEntries items root before es
    → IsEntry items root (before ++ es) e
    → AreEntries items root before (es ++ e ∷ [])
AreEntries-snoc items root before [] e h p = (rw append-nil at p, tt)
AreEntries-snoc items root before (x ∷ es) e (here, rest) p =
    (here, AreEntries-snoc items root (before ++ x ∷ []) es e rest (rw append_assoc p))

-- An item stays placed as entries are added.
pub IsPlaced-append :
    (root : Text) (before more : List RemoteExpectedPath) (item : RemoteItem) (path : Text)
    → IsPlaced root before item path
    → IsPlaced root (before ++ more) item path
IsPlaced-append root before more item path (inl top) = inl top
IsPlaced-append root before more item path (inr (d, m, k, p, n)) =
    inr (d, Among-append_left d before more m, k, p, n)

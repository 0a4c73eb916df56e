-- ===== src/Drive/Query/Literal.antt =====
-- How a quoted text is read back from a query of crates/nubisync-drive/src/api.rs.
use nubisync.Base.{
  Option, Text, [], if◌then◌else◌, int_eq, nat_eq, none, option_eq, some, text_eq, ℕ, ◌++◌, ◌==◌,
  ◌∷◌, ◌≡◌, Bool-cases, arith, codes, false, inl, inr, ok, refl, ◌||◌,
}
use nubisync.Drive.Query.{
  replace, backslash, quote, escape_drive_query_literal, folder_children_query,
}

abbrev read_on : ℕ → Option (Text × Text) → Option (Text × Text)
read_on c none = none
read_on c (some (text, rest)) = some (c ∷ text, rest)

-- The reader of a quoted text, from behind its opening quote: a backslash takes the next character
-- as it is, and the first other quote ends the text.
unfoldable pub read_literal : Text → Option (Text × Text)
read_literal [] = none
read_literal (c ∷ []) = if c == quote then some ([], []) else none
read_literal (c ∷ d ∷ s) =
    let plain = read_literal (d ∷ s) in
    let escaped = read_literal s in
    if c == quote
    then some ([], d ∷ s)
    else if c == backslash
    then read_on d escaped
    else read_on c plain

abbrev escape : Text → Text
escape value =
    replace quote (backslash ∷ quote ∷ []) (replace backslash (backslash ∷ backslash ∷ []) value)

differ : (backslash == quote) ≡ false
unfolding nat_eq
differ = refl

escape-cons :
    (c : ℕ) (value : Text)
    → escape (c ∷ value)
      ≡ (if c == backslash || c == quote then backslash ∷ c ∷ escape value else c ∷ escape value)
unfolding replace
escape-cons c value = elim (Bool-cases (c == backslash)) [
  | inl same ↦
      let is_backslash : c ≡ backslash = ground (arith, same) in
      rw (same, is_backslash) (ground (arith, differ))
  | inr other ↦ ground (arith, other)
]

read_quote : (s : Text) → read_literal (quote ∷ s) ≡ some ([], s)
unfolding read_literal nat_eq
read_quote [] = refl
read_quote (c ∷ s) = refl

read_backslash : (c : ℕ) (s : Text) → read_literal (backslash ∷ c ∷ s) ≡ read_on c (read_literal s)
unfolding read_literal nat_eq
read_backslash c s = refl

read_other :
    (c : ℕ) (s : Text)
    → (c == quote) ≡ false
    → (c == backslash) ≡ false
    → read_literal (c ∷ s) ≡ read_on c (read_literal s)
unfolding read_literal
read_other c [] h k = rw h refl
read_other c (d ∷ s) h k = rw (h, k) refl

read-escape : (value rest : Text) → read_literal (escape value ++ quote ∷ rest) ≡ some (value, rest)
unfolding replace
read-escape [] rest = read_quote rest
read-escape (c ∷ value) rest =
    let tail = escape value ++ quote ∷ rest in
    ground
      (arith, escape-cons c value, read-escape value rest, read_backslash c tail, read_other c tail)

-- An id cannot leave its quotes: from a query that is built for it, the reader takes exactly the id,
-- whatever characters it has, and is then behind the closing quote.
pub read-folder_children_query :
    (parent query : Text)
    → folder_children_query parent ≡ ok query
    → (s : Text) × (query ≡ quote ∷ s)
      × (read_literal s ≡ some (parent, codes " in parents and 'me' in owners and trashed = false"))
unfolding folder_children_query escape_drive_query_literal
read-folder_children_query parent query h = (
  escape parent ++ quote ∷ codes " in parents and 'me' in owners and trashed = false",
  ground arith,
  read-escape parent (codes " in parents and 'me' in owners and trashed = false"),
)

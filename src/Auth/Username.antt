-- ===== src/Auth/Username.antt =====
-- When `SecretKey::storage_username` of crates/nubisync-auth/src/lib.rs tells keys apart.
use nubisync.Base.{
  Text, [], ap, arith, contains, false, int_eq, nat_eq, option_eq, refl, text_eq, ◌++◌, ◌∷◌, ◌≡◌,
}
use nubisync.Auth.{SecretKey, colon, storage_username}

abbrev tail_of : Text → Text
tail_of [] = []
tail_of (_ ∷ s) = s

split_at_colon :
    (xs ys r s : Text)
    → contains xs colon ≡ false
    → contains ys colon ≡ false
    → (xs ++ colon ∷ r) ≡ (ys ++ colon ∷ s)
    → (xs ≡ ys) × (r ≡ s)
split_at_colon [] [] r s nx ny e = (refl, ap tail_of e)
split_at_colon [] (y ∷ ys) r s nx ny e = ground arith
split_at_colon (x ∷ xs) [] r s nx ny e = ground arith
split_at_colon (x ∷ xs) (y ∷ ys) r s nx ny e =
    ground (arith, split_at_colon xs ys r s (ground arith) (ground arith) (ap tail_of e))

abbrev pub HasNoColon : SecretKey → Type 0
HasNoColon key =
    (contains key.provider colon ≡ false) × (contains key.account_subject colon ≡ false)

-- Two keys with no colon in the provider or the account have different names in the credential
-- store unless they are equal.
pub storage_username_injective :
    (key other : SecretKey)
    → HasNoColon key
    → HasNoColon other
    → storage_username key ≡ storage_username other
    → key ≡ other
unfolding storage_username
storage_username_injective key other (p, q) (p', q') e =
    let k = key.account_subject ++ colon ∷ key.purpose in
    let o = other.account_subject ++ colon ∷ other.purpose in
    let (provider, rest) = split_at_colon key.provider other.provider k o p p' e in
    let (subject, purpose) =
      split_at_colon key.account_subject other.account_subject key.purpose other.purpose q q'
        rest in
    ground arith

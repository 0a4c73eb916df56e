-- ===== src/Auth.antt =====
-- crates/nubisync-auth/src/lib.rs: the keys and values of secrets.
use nubisync.Base.{
  Text, List, Eq, Result, contains, err, if◌then◌else◌, int_eq, is_blank, is_empty, nat_eq, ok,
  option_eq, reject_if, text_eq, ℕ, ℕ_discrete, ◌++◌, ◌>>=◌, ◌>>◌, ◌||◌, ◌∷◌,
}
pub mod Username
pub mod Memory
pub mod Keyring

pub record SecretKey : Type 0 where
  pub provider : Text
  pub account_subject : Text
  pub purpose : Text

secret_key_discrete : Discrete SecretKey
secret_key_discrete = hlevel ℕ_discrete

instance unfoldable pub secret_key_eq : Eq SecretKey
unfolding secret_key_discrete ℕ_discrete
secret_key_eq = record { dec = secret_key_discrete }

pub data SecretStoreError : Type 0 where
  invalid_key : SecretStoreError
  empty_secret : SecretStoreError
  invalid_service : SecretStoreError
  poisoned : SecretStoreError
  backend_unavailable : SecretStoreError
  backend_failure : SecretStoreError

abbrev pub Stored {ℓ} : Type ℓ → Type ℓ
Stored A = Result SecretStoreError A

abbrev pub nul : ℕ
nul = 0

-- `SecretKey::new`
unfoldable pub new_secret_key : Text → Text → Text → Stored SecretKey
new_secret_key provider account_subject purpose = do
  reject_if (is_blank provider || is_blank account_subject || is_blank purpose) invalid_key
  reject_if (contains provider nul || contains account_subject nul || contains purpose nul)
      invalid_key
  ok (record { provider = provider; account_subject = account_subject; purpose = purpose })

abbrev pub colon : ℕ
colon = 58

unfoldable pub storage_username : SecretKey → Text
storage_username key = key.provider ++ (colon ∷ (key.account_subject ++ (colon ∷ key.purpose)))

pub record SecretValue : Type 0 where
  pub bytes : List ℕ

-- `SecretValue::new`
unfoldable pub new_secret_value : List ℕ → Stored SecretValue
new_secret_value bytes = if is_empty bytes then err empty_secret else ok (record { bytes = bytes })

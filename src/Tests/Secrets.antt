-- ===== src/Tests/Secrets.antt =====
-- The secret stores of crates/nubisync-auth/src/lib.rs, run over a credential store that is a map.
use nubisync.Base.{
  List, ◌↔◌, ◌∷◌, [], text_eq, nat_eq, int_eq, option_eq, lookup, false, some, none, Dict, Option,
  Result, Text, arith, codes, erase, err, if◌then◌else◌, insert, lookup-erase, lookup-insert, ok,
  refl, text_pair_eq, ℕ, ℕ_discrete, ◌==◌, ◌>>=◌, ◌≡◌,
}
use nubisync.Auth.{SecretKey, secret_key_eq, SecretValue, storage_username}
use nubisync.Auth.Username.{HasNoColon, storage_username_injective}
use nubisync.Auth.Memory.{
  MemorySecretStore, memory_store_lem, Write, puts, deletes, write, write_all, get as memory_get,
}
use nubisync.Auth.Keyring.{
  Keyring, KeyringError, no_entry, IsCredentialStore, keyring_put_lem, put as keyring_put,
  get as keyring_get, delete as keyring_delete, entry,
}

abbrev token : SecretKey
token = record { provider = codes "drive"; account_subject = codes "ann"; purpose = codes "token" }

abbrev client : SecretKey
client = record { provider = codes "drive"; account_subject = codes "app"; purpose = codes "id" }

abbrev secret : SecretValue
secret = record { bytes = 1 ∷ 2 ∷ [] }

token-HasNoColon : HasNoColon token
unfolding nat_eq ℕ_discrete
token-HasNoColon = (refl, refl)

client-HasNoColon : HasNoColon client
unfolding nat_eq ℕ_discrete
client-HasNoColon = (refl, refl)

storage_username_injective_example : token ≡ token
storage_username_injective_example =
    storage_username_injective token token token-HasNoColon token-HasNoColon refl

abbrev store : MemorySecretStore
store = record { is_poisoned = false; inner = (client, secret) ∷ [] }

abbrev writes : List Write
writes = puts token secret ∷ deletes client ∷ []

memory_store_lem_example :
    ((write_all store writes >>= λ s. memory_get s token) ≡ ok (some secret))
    × (memory_get store token ≡ ok none)
    × (((s : MemorySecretStore) × (write store (deletes token) ≡ ok s)) ↔ (false ≡ false))
unfolding lookup secret_key_eq text_eq nat_eq int_eq option_eq
memory_store_lem_example = memory_store_lem store writes (deletes token) token

abbrev Entry : Type 0
Entry = Text × Text

abbrev Credentials : Type 0
Credentials = Dict Entry (List ℕ)

abbrev read : Option (List ℕ) → Result KeyringError (List ℕ)
read none = err no_entry
read (some bytes) = ok bytes

abbrev forget : Credentials → Entry → Option (List ℕ) → Result KeyringError Credentials
forget d e none = err no_entry
forget d e (some _) = ok (erase e d)

abbrev keyring : Keyring Entry Credentials
keyring = record {
  new_entry = λ service user. ok (service, user);
  set_secret = λ d e bytes. ok (insert e bytes d);
  get_secret = λ d e. read (lookup e d);
  delete_credential = λ d e. forget d e (lookup e d);
}

laws : IsCredentialStore keyring
laws = record {
  get-set = λ s t e v h. ground (arith, lookup-insert e e v s);
  get-delete = λ s t e h. ground (arith, lookup-erase e e s);
  get-no_entry = λ s e h. ground arith;
  get-set_other = λ s t e f v n h. ground (arith, lookup-insert e f v s);
  get-delete_other = λ s t e f n h. ground (arith, lookup-erase e f s);
  new_entry_injective = λ service user other e h k. ground arith;
}

abbrev service : Text
service = codes "nubisync"

abbrev kept : Credentials
kept = ((service, storage_username token), 1 ∷ 2 ∷ []) ∷ []

secret-kept : keyring_put keyring service [] token secret ≡ ok kept
unfolding keyring_put entry storage_username insert
secret-kept = refl

keyring_put_lem_example :
    keyring_get keyring service kept client
    ≡ (if token == client then ok (some secret) else keyring_get keyring service [] client)
keyring_put_lem_example =
    keyring_put_lem keyring laws service [] token client secret token-HasNoColon client-HasNoColon
      refl secret-kept

gone : keyring_delete keyring service kept token ≡ ok []
unfolding keyring_delete entry storage_username lookup erase text_pair_eq
gone = refl

-- ===== src/Auth/Keyring.antt =====
-- `KeyringSecretStore` of crates/nubisync-auth/src/lib.rs, over any credential store.
use nubisync.Base.{
  List, Option, Result, Text, contains, err, false, if◌then◌else◌, int_eq, is_blank, is_empty,
  map_err, nat_eq, none, ok, option_eq, some, text_eq, ℕ, ◌>>=◌, ◌||◌, ◌≡◌, ◌≢◌, >>=-eq-ok,
  Result-cases, arith, inl, inr, refl, Bool-cases, map_err-eq-ok, ◌==◌, ◌∙◌, ◌⊎◌,
}
use nubisync.Auth.{
  secret_key_eq, SecretKey, SecretValue, SecretStoreError, Stored, invalid_service,
  backend_unavailable, backend_failure, nul, storage_username, new_secret_value,
}
use nubisync.Auth.Username.{HasNoColon, storage_username_injective}

-- The errors of the keyring package, those that the program does not tell apart as one.
pub data KeyringError : Type 0 where
  no_entry : KeyringError
  no_default_store : KeyringError
  no_storage_access : KeyringError
  other_error : KeyringError

-- What the program calls of the keyring package: `Entry::new`, `set_secret`, `get_secret` and
-- `delete_credential`, on the credentials `S` of the operating system.
pub record Keyring (Entry S : Type 0) : Type 0 where
  pub new_entry : Text → Text → Result KeyringError Entry
  pub set_secret : S → Entry → List ℕ → Result KeyringError S
  pub get_secret : S → Entry → Result KeyringError (List ℕ)
  pub delete_credential : S → Entry → Result KeyringError S

unfoldable pub map_keyring_error : KeyringError → SecretStoreError
map_keyring_error no_default_store = backend_unavailable
map_keyring_error no_storage_access = backend_unavailable
map_keyring_error _ = backend_failure

-- `KeyringSecretStore::new`
unfoldable pub new_service : Text → Stored Text
new_service service =
    if is_blank service || contains service nul then err invalid_service else ok service

module _ {Entry S : Type 0} (k : Keyring Entry S) (service : Text) where
  unfoldable pub entry : SecretKey → Stored Entry
  entry key = map_err map_keyring_error (k.new_entry service (storage_username key))

  unfoldable pub put : S → SecretKey → SecretValue → Stored S
  put s key value = entry key >>= λ e. map_err map_keyring_error (k.set_secret s e value.bytes)

  abbrev pub found : Result KeyringError (List ℕ) → Stored (Option SecretValue)
  found (ok secret) = new_secret_value secret >>= λ v. ok (some v)
  found (err no_entry) = ok none
  found (err e) = err (map_keyring_error e)

  unfoldable pub get : S → SecretKey → Stored (Option SecretValue)
  get s key = entry key >>= λ e. found (k.get_secret s e)

  -- Nothing to delete leaves the credentials as they are.
  abbrev pub deleted : S → Result KeyringError S → Stored S
  deleted s (ok t) = ok t
  deleted s (err no_entry) = ok s
  deleted s (err e) = err (map_keyring_error e)

  unfoldable pub delete : S → SecretKey → Stored S
  delete s key = entry key >>= λ e. deleted s (k.delete_credential s e)

-- What keyring-rs documents of a credential: an entry stands for the pair of service and user, what
-- is set is read back, what is deleted is gone, and no other entry changes.
pub record IsCredentialStore {Entry S : Type 0} (k : Keyring Entry S) : Type 0 where
  pub get-set :
      (s t : S) (e : Entry) (v : List ℕ) → k.set_secret s e v ≡ ok t → k.get_secret t e ≡ ok v
  pub get-delete :
      (s t : S) (e : Entry) → k.delete_credential s e ≡ ok t → k.get_secret t e ≡ err no_entry
  pub get-no_entry :
      (s : S) (e : Entry) → k.delete_credential s e ≡ err no_entry → k.get_secret s e ≡ err no_entry
  pub get-set_other :
      (s t : S) (e f : Entry) (v : List ℕ)
      → e ≢ f
      → k.set_secret s e v ≡ ok t
      → k.get_secret t f ≡ k.get_secret s f
  pub get-delete_other :
      (s t : S) (e f : Entry)
      → e ≢ f
      → k.delete_credential s e ≡ ok t
      → k.get_secret t f ≡ k.get_secret s f
  pub new_entry_injective :
      (service user other : Text) (e : Entry)
      → k.new_entry service user ≡ ok e
      → k.new_entry service other ≡ ok e
      → user ≡ other

module _ {Entry S : Type 0} (k : Keyring Entry S) (laws : IsCredentialStore k)
    (service : Text) where
  -- The entry of a key, when there is one.
  entry-eq-ok :
      (key : SecretKey) {e : Entry}
      → entry k service key ≡ ok e
      → k.new_entry service (storage_username key) ≡ ok e
  unfolding entry
  entry-eq-ok key {e} h = elim (Result-cases (k.new_entry service (storage_username key))) [
    | inl (a, p) ↦ ground (arith, p)
    | inr (a, p) ↦ ground (arith, p)
  ]

  entry_differs :
      (key other : SecretKey) {e f : Entry}
      → HasNoColon key
      → HasNoColon other
      → key ≢ other
      → entry k service key ≡ ok e
      → entry k service other ≡ ok f
      → e ≢ f
  entry_differs key other {e} {f} p q differ h h' same =
      let here : k.new_entry service (storage_username other) ≡ ok e =
        rw same (entry-eq-ok other h') in
      differ (
        storage_username_injective key other p q (
          laws.new_entry_injective service (storage_username key) (storage_username other) e
            (entry-eq-ok key h) here))

  get_same :
      (s t : S) (other : SecretKey)
      → ((f : Entry) → entry k service other ≡ ok f → k.get_secret t f ≡ k.get_secret s f)
      → get k service t other ≡ get k service s other
  unfolding get
  get_same s t other h = elim (Result-cases (entry k service other)) [
    | inl (f, p) ↦ rw (p, h f p) refl
    | inr (e, p) ↦ rw p refl
  ]

  get-found :
      (t : S) (key : SecretKey) {e : Entry}
      → entry k service key ≡ ok e
      → get k service t key ≡ found k service (k.get_secret t e)
  unfolding get
  get-found t key h = rw h refl

  abbrev Agrees : S → S → SecretKey → Option SecretValue → SecretKey → Type 0
  Agrees s t key value other =
      get k service t other ≡ (if key == other then ok value else get k service s other)

  Agrees-by_cases :
      (s t : S) (key other : SecretKey) (value : Option SecretValue)
      → get k service t key ≡ ok value
      → (key ≢ other → get k service t other ≡ get k service s other)
      → Agrees s t key value other
  Agrees-by_cases s t key other value here elsewhere = elim (Bool-cases (key == other)) [
    | inl same ↦ let equal : key ≡ other = ground (arith, same) in rw same (rw (← equal) here)
    | inr differ ↦ rw differ (elsewhere (λ p. ground (arith, differ, p)))
  ]

  -- Over a credential store that keeps its laws: after a put of a value that is not empty the store
  -- answers as a map does, with the new value under the key and under every other key as before, when
  -- neither key has a colon in its provider or its account.
  pub keyring_put_lem :
      (s : S) (key other : SecretKey) (value : SecretValue) {t : S}
      → HasNoColon key
      → HasNoColon other
      → is_empty value.bytes ≡ false
      → put k service s key value ≡ ok t
      → get k service t other ≡ (if key == other then ok (some value) else get k service s other)
  unfolding put new_secret_value
  keyring_put_lem s key other value {t} p q full h =
      let (e, at, stored) = >>=-eq-ok (entry k service key) _ h in
      let set = map_err-eq-ok map_keyring_error (k.set_secret s e value.bytes) stored in
      let read : found k service (k.get_secret t e) ≡ ok (some value) =
        rw (laws.get-set s t e value.bytes set, full) refl in
      Agrees-by_cases s t key other (some value) (get-found t key at ∙ read) (λ differ.
        get_same s t other (λ f at'.
          laws.get-set_other s t e f value.bytes (entry_differs key other p q differ at at') set))

  deleted-cases :
      (s : S) (r : Result KeyringError S) {t : S}
      → deleted k service s r ≡ ok t
      → (r ≡ ok t) ⊎ ((r ≡ err no_entry) × (s ≡ t))
  deleted-cases s (ok u) h = inl (ground arith)
  deleted-cases s (err no_entry) h = inr (refl, ground arith)
  deleted-cases s (err no_default_store) h = ground arith
  deleted-cases s (err no_storage_access) h = ground arith
  deleted-cases s (err other_error) h = ground arith

  -- Over a credential store that keeps its laws: after a deletion nothing is under the key, and every
  -- other key answers as before, when neither key has a colon in its provider or its account.
  keyring_delete_lem :
      (s : S) (key other : SecretKey) {t : S}
      → HasNoColon key
      → HasNoColon other
      → delete k service s key ≡ ok t
      → get k service t other ≡ (if key == other then ok none else get k service s other)
  unfolding delete
  keyring_delete_lem s key other {t} p q h =
      let (e, at, gone) = >>=-eq-ok (entry k service key) _ h in
      elim (deleted-cases s (k.delete_credential s e) gone) [
        | inl done ↦
            let read : found k service (k.get_secret t e) ≡ ok none =
              rw (laws.get-delete s t e done) refl in
            Agrees-by_cases s t key other none (get-found t key at ∙ read) (λ differ.
              get_same s t other (λ f at'.
                laws.get-delete_other s t e f (entry_differs key other p q differ at at') done))
        | inr (absent, same) ↦
            let read : found k service (k.get_secret t e) ≡ ok none =
              rw (← same, laws.get-no_entry s e absent) refl in
            Agrees-by_cases s t key other none (get-found t key at ∙ read) (λ _. rw same refl)
      ]

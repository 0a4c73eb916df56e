-- ===== src/Auth/Memory.antt =====
-- `MemorySecretStore` of crates/nubisync-auth/src/lib.rs, with its lock's poisoning.
use nubisync.Base.{
  List, [], ◌∷◌, ok, err, true, false, refl, ap, ◌∙◌, ◌↔◌, Bool, Dict, Option, arith, erase,
  if◌then◌else◌, insert, int_eq, lookup, lookup-erase, lookup-insert, nat_eq, none, ok, option_eq,
  reject_if, some, text_eq, ◌==◌, ◌>>=◌, ◌>>◌, ◌≡◌,
}
use nubisync.Auth.{SecretKey, secret_key_eq, SecretValue, Stored, poisoned}

pub record MemorySecretStore : Type 0 where
  pub is_poisoned : Bool
  pub inner : Dict SecretKey SecretValue

unfoldable pub put : MemorySecretStore → SecretKey → SecretValue → Stored MemorySecretStore
put store key value = do
  reject_if store.is_poisoned poisoned
  ok (record store { inner = insert key value store.inner })

unfoldable pub get : MemorySecretStore → SecretKey → Stored (Option SecretValue)
get store key = do reject_if store.is_poisoned poisoned; ok (lookup key store.inner)

unfoldable pub delete : MemorySecretStore → SecretKey → Stored MemorySecretStore
delete store key = do
  reject_if store.is_poisoned poisoned
  ok (record store { inner = erase key store.inner })

-- A write to the store.
pub data Write : Type 0 where
  puts : SecretKey → SecretValue → Write
  deletes : SecretKey → Write

unfoldable pub write : MemorySecretStore → Write → Stored MemorySecretStore
unfolding put delete
write store (puts key value) = put store key value
write store (deletes key) = delete store key

unfoldable pub write_all : MemorySecretStore → List Write → Stored MemorySecretStore
unfolding write
write_all store [] = ok store
write_all store (w ∷ writes) = write store w >>= λ s. write_all s writes

-- The value that a key has after the writes, from the one it had before.
abbrev pub value_after : SecretKey → List Write → Option SecretValue → Option SecretValue
value_after key [] before = before
value_after key (puts k value ∷ writes) before =
    value_after key writes (if k == key then some value else before)
value_after key (deletes k ∷ writes) before =
    value_after key writes (if k == key then none else before)

abbrev store_of : Bool → Dict SecretKey SecretValue → MemorySecretStore
store_of is_poisoned inner = record { is_poisoned = is_poisoned; inner = inner }

get-write_all :
    (key : SecretKey) (is_poisoned : Bool) (inner : Dict SecretKey SecretValue)
    (writes : List Write)
    → (write_all (store_of is_poisoned inner) writes >>= λ s. get s key)
      ≡ (if is_poisoned then err poisoned else ok (value_after key writes (lookup key inner)))
unfolding write_all write put delete get
get-write_all key true inner [] = refl
get-write_all key true inner (puts k value ∷ writes) = refl
get-write_all key true inner (deletes k ∷ writes) = refl
get-write_all key false inner [] = refl
get-write_all key false inner (puts k value ∷ writes) =
    get-write_all key false (insert k value inner) writes
    ∙ ap (λ v. ok (value_after key writes v)) (lookup-insert k key value inner)
get-write_all key false inner (deletes k ∷ writes) =
    get-write_all key false (erase k inner) writes
    ∙ ap (λ v. ok (value_after key writes v)) (lookup-erase k key inner)

get-eq :
    (key : SecretKey) (is_poisoned : Bool) (inner : Dict SecretKey SecretValue)
    → get (store_of is_poisoned inner) key
      ≡ (if is_poisoned then err poisoned else ok (lookup key inner))
unfolding get
get-eq key true inner = refl
get-eq key false inner = refl

write-ok :
    (is_poisoned : Bool) (inner : Dict SecretKey SecretValue) (w : Write)
    → ((s : MemorySecretStore) × (write (store_of is_poisoned inner) w ≡ ok s))
      ↔ (is_poisoned ≡ false)
unfolding write put delete
write-ok true inner (puts key value) = (λ (s, e). ground arith, λ h. ground arith)
write-ok true inner (deletes key) = (λ (s, e). ground arith, λ h. ground arith)
write-ok false inner (puts key value) = (λ _. refl, λ h. (_, refl))
write-ok false inner (deletes key) = (λ _. refl, λ h. (_, refl))

-- The store is a map: after any sequence of writes a read returns what the last write to its key has
-- left, or the value from before where there is none, as long as the lock is sound. Once it is poisoned
-- a read returns the error of that, and each write succeeds exactly if it is not.
pub memory_store_lem :
    (store : MemorySecretStore) (writes : List Write) (w : Write) (key : SecretKey)
    → ((write_all store writes >>= λ s. get s key) ≡ (
        if store.is_poisoned
        then err poisoned
        else ok (value_after key writes (lookup key store.inner))))
      × (get store key ≡ (if store.is_poisoned then err poisoned else ok (lookup key store.inner)))
      × (((s : MemorySecretStore) × (write store w ≡ ok s)) ↔ (store.is_poisoned ≡ false))
memory_store_lem store writes w key = (
  get-write_all key store.is_poisoned store.inner writes,
  get-eq key store.is_poisoned store.inner,
  write-ok store.is_poisoned store.inner w,
)

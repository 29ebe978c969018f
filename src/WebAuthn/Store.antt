-- ===== src/WebAuthn/Store.antt =====
-- src/webauthn_store.rs: the store of passkey credentials in memory, a map from credential ids.
pub mod Runs
use aqua_auth.Prelude.{
  ℕ, Bool, true, false, List, [], Option, none, some, Result, ok, err, if◌then◌else◌, ltb, keep,
}
use aqua_auth.Text.{Text, Bytes, text_eq}
use aqua_auth.Table
use aqua_auth.Table.{Table, values}

pub record StoredCredential : Type 0 where
  pub did : Text
  pub credential_id : Bytes
  pub public_key : Bytes
  pub sign_count : ℕ
  pub transports : List Text
  pub label : Option Text
  pub created_at : ℕ

pub record NewCredential : Type 0 where
  pub did : Text
  pub credential_id : Bytes
  pub public_key : Bytes
  pub sign_count : ℕ
  pub transports : List Text
  pub label : Option Text

pub data WebauthnStoreError : Type 0 where
  not_found lock_poisoned : WebauthnStoreError

-- `poisoned` is what the lock of the map answers with.
pub record InMemoryWebauthnStore : Type 0 where
  pub creds : Table StoredCredential
  pub poisoned : Bool

-- `new`
unfoldable pub empty_store : InMemoryWebauthnStore
empty_store = record { creds = []; poisoned = false }

-- the row of a new credential, stamped at `now`
unfoldable pub stored : NewCredential → ℕ → StoredCredential
stored cred now = record {
  did = cred.did;
  credential_id = cred.credential_id;
  public_key = cred.public_key;
  sign_count = cred.sign_count;
  transports = cred.transports;
  label = cred.label;
  created_at = now;
}

unfoldable pub insert :
    NewCredential
    → ℕ
    → InMemoryWebauthnStore
    → InMemoryWebauthnStore × Result WebauthnStoreError (Unit {0})
insert cred now s =
    if s.poisoned
    then (s, err lock_poisoned)
    else (record s { creds = Table.insert cred.credential_id (stored cred now) s.creds }, ok tt)

unfoldable pub list_for_did :
    Text → InMemoryWebauthnStore → Result WebauthnStoreError (List StoredCredential)
list_for_did did s =
    if s.poisoned then err lock_poisoned else ok (keep (λ c. text_eq c.did did) (values s.creds))

unfoldable pub get_by_id :
    Bytes → InMemoryWebauthnStore → Result WebauthnStoreError (Option StoredCredential)
get_by_id cred_id s = if s.poisoned then err lock_poisoned else ok (Table.get cred_id s.creds)

-- the write through `get_mut`
unfoldable pub bump : StoredCredential → ℕ → StoredCredential
bump cred new_count =
    if ltb cred.sign_count new_count then record cred { sign_count = new_count } else cred

unfoldable pub update_sign_count :
    Bytes → ℕ → InMemoryWebauthnStore → InMemoryWebauthnStore × Result WebauthnStoreError (Unit {0})
update_sign_count cred_id new_count s =
    if s.poisoned then (s, err lock_poisoned) else elim (Table.get cred_id s.creds) [
      | none ↦ (s, err not_found)
      | some cred ↦ (record s { creds = Table.insert cred_id (bump cred new_count) s.creds }, ok tt)
    ]

unfoldable pub delete :
    Text → Bytes → InMemoryWebauthnStore → InMemoryWebauthnStore × Result WebauthnStoreError Bool
delete did cred_id s =
    if s.poisoned then (s, err lock_poisoned) else elim (Table.get cred_id s.creds) [
      | none ↦ (s, ok false)
      | some c ↦
          if text_eq c.did did
          then (record s { creds = Table.remove cred_id s.creds }, ok true)
          else (s, ok false)
    ]

-- ===== src/Session/Backend.antt =====
-- The trait `SessionBackend` of src/session_backend.rs as an interface: its operations over a state
-- `B`, and the laws that `SessionStore` relies on. An insert may fail; it then still touches no other
-- token, and adds at most one session.
use aqua_auth.Prelude.{
  ℕ, ◌+◌, ◌≤◌, ◌<◌, ◌≡◌, Bool, true, false, List, Option, none, some, Result, ok, if◌then◌else◌,
  ltb, length,
}
use mathlib.Core.List.{Memᴰ}
use aqua_auth.Errors.{AuthError}
use aqua_auth.Text.{Text, text_eq}

-- `Session` of src/types.rs
pub record Session : Type 0 where
  pub did : Text
  pub token : Text
  pub valid_until : ℕ
  pub created_at : ℕ

pub record SessionBackend (B : Type 0) : Type 0 where
  pub insert : Session → B → B × Result AuthError (Unit {0})
  pub get : Text → B → Option Session
  pub remove : Text → B → B × Bool
  pub sessions_for_did : Text → B → List Session
  pub remove_all_for_did : Text → B → B × ℕ
  pub purge_expired : ℕ → B → B × ℕ
  pub all : B → List Session
  pub len : B → ℕ

-- what a lookup gives once the sessions that fail a test are gone
abbrev pub passing : (Session → Bool) → Option Session → Option Session
passing p none = none
passing p (some s) = if p s then some s else none

pub record BackendLaws {B : Type 0} (be : SessionBackend B) (IsValid : B → Type 0) : Type 0 where
  pub insert_valid : (s : Session) (b : B) → IsValid b → IsValid (be.insert s b).0
  pub remove_valid : (t : Text) (b : B) → IsValid b → IsValid (be.remove t b).0
  pub purge_valid : (now : ℕ) (b : B) → IsValid b → IsValid (be.purge_expired now b).0
  pub remove_all_valid : (did : Text) (b : B) → IsValid b → IsValid (be.remove_all_for_did did b).0
  -- a session that was inserted is found under its token
  pub get-inserted :
      (s : Session) (b : B)
      → IsValid b
      → (be.insert s b).1 ≡ ok tt
      → be.get s.token (be.insert s b).0 ≡ some s
  -- an insert touches no other token
  pub get-insert_other :
      (t : Text) (s : Session) (b : B)
      → IsValid b
      → text_eq s.token t ≡ false
      → be.get t (be.insert s b).0 ≡ be.get t b
  pub get-remove :
      (t u : Text) (b : B)
      → IsValid b
      → be.get t (be.remove u b).0 ≡ (if text_eq u t then none else be.get t b)
  pub get-purge :
      (t : Text) (now : ℕ) (b : B)
      → IsValid b
      → be.get t (be.purge_expired now b).0 ≡ passing (λ s. ltb now s.valid_until) (be.get t b)
  pub get-remove_all :
      (t did : Text) (b : B)
      → IsValid b
      → be.get t (be.remove_all_for_did did b).0
        ≡ passing (λ s. if text_eq s.did did then false else true) (be.get t b)
  pub get-token : (t : Text) (b : B) {s : Session} → IsValid b → be.get t b ≡ some s → s.token ≡ t
  pub len-insert : (s : Session) (b : B) → be.len (be.insert s b).0 ≤ be.len b + 1
  pub len-remove : (t : Text) (b : B) → be.len (be.remove t b).0 ≤ be.len b
  pub len-purge : (now : ℕ) (b : B) → be.len (be.purge_expired now b).0 ≤ be.len b
  -- the sessions of a DID are the stored ones with that DID
  pub for_did_stored :
      (did : Text) (b : B) {s : Session}
      → IsValid b
      → Memᴰ s (be.sessions_for_did did b)
      → (be.get s.token b ≡ some s) × (s.did ≡ did)
  pub for_did-insert :
      (did : Text) (s : Session) (b : B)
      → length (be.sessions_for_did did (be.insert s b).0)
        ≤ (if text_eq s.did did then 1 else 0) + length (be.sessions_for_did did b)
  pub for_did-remove :
      (did t : Text) (b : B)
      → length (be.sessions_for_did did (be.remove t b).0) ≤ length (be.sessions_for_did did b)
  pub for_did-remove-lt :
      (did : Text) (s : Session) (b : B)
      → IsValid b
      → Memᴰ s (be.sessions_for_did did b)
      → length (be.sessions_for_did did (be.remove s.token b).0)
        < length (be.sessions_for_did did b)
  pub for_did-purge :
      (did : Text) (now : ℕ) (b : B)
      → length (be.sessions_for_did did (be.purge_expired now b).0)
        ≤ length (be.sessions_for_did did b)

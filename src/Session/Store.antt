-- ===== src/Session/Store.antt =====
-- `SessionStore` of src/session.rs: the policy over a backend. The state is the backend's; a method
-- takes the clock readings and the random bytes of its run.
use aqua_auth.Prelude.{
  ℕ, ◌+◌, ◌%◌, ◌^◌, Bool, true, false, List, [], ◌∷◌, map, none, some, Result, ok, err, ◌>>◌,
  if◌then◌else◌, leb, ltb, length, keep,
}
use aqua_auth.Env.{Env}
use aqua_auth.Errors.{AuthError, session_not_found, session_expired, session_store_full}
use aqua_auth.Text.{Text, Bytes, text_le}
use aqua_auth.Session.Backend.{Session, SessionBackend}

pub record Limits : Type 0 where
  pub ttl_secs : ℕ
  pub max_sessions : ℕ
  pub max_sessions_per_did : ℕ

-- `SessionInfo` of src/types.rs
pub record SessionInfo : Type 0 where
  pub did : Text
  pub created_at : ℕ
  pub valid_until : ℕ

-- `SessionStore::new`
unfoldable pub default_limits : ℕ → Limits
default_limits ttl_secs = record {
  ttl_secs = ttl_secs;
  max_sessions = 8192;
  max_sessions_per_did = 32;
}

-- `a.1.cmp(&b.1).then_with(|| a.0.cmp(&b.0)) != Greater` on pairs of a token and its creation
unfoldable pub older_or_same : Text × ℕ → Text × ℕ → Bool
older_or_same a b = if leb a.1 b.1 then (if leb b.1 a.1 then text_le a.0 b.0 else true) else false

-- `sort_by`, which keeps the order of equal elements
unfoldable pub insert_sorted : Text × ℕ → List (Text × ℕ) → List (Text × ℕ)
insert_sorted x [] = x ∷ []
insert_sorted x (y ∷ ys) =
    let rest = insert_sorted x ys in if older_or_same x y then x ∷ y ∷ ys else y ∷ rest

unfoldable pub sort : List (Text × ℕ) → List (Text × ℕ)
unfolding insert_sorted older_or_same
sort [] = []
sort (x ∷ xs) = insert_sorted x (sort xs)

-- the session that `create` builds; the sum is one of `u64`
unfoldable pub new_session : Env → Limits → Text → Bytes → ℕ → Session
new_session env limits did token_bytes now = record {
  did = did;
  token = env.hex_encode token_bytes;
  valid_until = (now + limits.ttl_secs) % 2 ^ 64;
  created_at = now;
}

module _ {B : Type 0} (be : SessionBackend B) where
  unfoldable pub enforce_per_did_cap : ℕ → Text → B → B
  enforce_per_did_cap max_sessions_per_did did b =
      let this_did = map (λ (s : Session). (s.token, s.created_at)) (be.sessions_for_did did b) in
      if ltb (length this_did) max_sessions_per_did then b else elim (sort this_did) [
        | [] ↦ b
        | (oldest_token, created) ∷ rest ↦ (be.remove oldest_token b).0
      ]

  -- the part of `create` behind the check of the global capacity
  unfoldable pub admit : Env → Limits → Text → Bytes → ℕ → B → B × Result AuthError Session
  unfolding new_session
  admit env limits did token_bytes now b =
      let b' = enforce_per_did_cap limits.max_sessions_per_did did b in
      let session = new_session env limits did token_bytes now in
      let (b'', inserted) = be.insert session b' in (b'', inserted >> ok session)

  -- `create`; `swept` is the clock reading of the sweep and `now` that of the session
  unfoldable pub create : Env → Limits → Text → Bytes → ℕ → ℕ → B → B × Result AuthError Session
  create env limits did token_bytes swept now b =
      if leb limits.max_sessions (be.len b)
      then (let b' = (be.purge_expired swept b).0 in
          if leb limits.max_sessions (be.len b')
          then (b', err (session_store_full limits.max_sessions))
          else admit env limits did token_bytes now b')
      else admit env limits did token_bytes now b

  unfoldable pub revoke : Text → B → B × Bool
  revoke token b = be.remove token b

  unfoldable pub revoke_all_for_did : Text → B → B × ℕ
  revoke_all_for_did did b = be.remove_all_for_did did b

  unfoldable pub validate : Text → ℕ → B → B × Result AuthError Text
  validate token now b = elim (be.get token b) [
    | none ↦ (b, err session_not_found)
    | some session ↦
        if leb session.valid_until now
        then ((be.remove token b).0, err session_expired)
        else (b, ok session.did)
  ]

  unfoldable pub list_sessions : ℕ → B → List SessionInfo
  list_sessions now b =
      map
        (λ (s : Session). record {
          did = s.did;
          created_at = s.created_at;
          valid_until = s.valid_until;
        })
        (keep (λ s. ltb now s.valid_until) (be.all b))

  -- `self.backend.len() as u32`
  unfoldable pub active_count : B → ℕ
  active_count b = be.len b % 2 ^ 32

  unfoldable pub cleanup_expired : ℕ → B → B
  cleanup_expired now b = (be.purge_expired now b).0

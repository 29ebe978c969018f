-- ===== src/Session/Revoked.antt =====
-- Revocation in `SessionStore`: a token that is gone stays gone, over any lawful backend.
use aqua_auth.Prelude.{
  ℕ, ◌≡◌, ◌≢◌, refl, ◌⊎◌, inl, inr, List, [], ◌∷◌, none, some, err, arith, leb, Bool-cases,
  Option-cases, All,
}
use aqua_auth.Env.{Env}
use aqua_auth.Errors.{session_not_found}
use aqua_auth.Text.{Text, Bytes}
use aqua_auth.Text.Laws.{ne→text_eq, text_eq_refl}
use aqua_auth.Session.Backend.{Session, SessionBackend, BackendLaws}
use aqua_auth.Session.Store.{
  Limits, admit, create, new_session, revoke, revoke_all_for_did, validate, cleanup_expired,
}
use aqua_auth.Session.Policy.{enforce-cases}
use aqua_auth.Session.Capacity.{evicted, evicted-IsValid, create-cases, create-IsValid}
use aqua_auth.Session.Lifetime.{validate_unknown}

-- The calls of a session store: by a server's handlers, and by the background sweep.
pub data Call : Type 0 where
  create_for : Text → Bytes → ℕ → ℕ → Call
  validate_at : Text → ℕ → Call
  revoke_token : Text → Call
  revoke_all : Text → Call
  sweep_at : ℕ → Call

module _ {B : Type 0} (be : SessionBackend B) (env : Env) (limits : Limits) where
  unfoldable pub step : B → Call → B
  step b (create_for did token_bytes swept now) =
      (create be env limits did token_bytes swept now b).0
  step b (validate_at token now) = (validate be token now b).0
  step b (revoke_token token) = (revoke be token b).0
  step b (revoke_all did) = (revoke_all_for_did be did b).0
  step b (sweep_at now) = cleanup_expired be now b

  unfoldable pub run : B → List Call → B
  run b [] = b
  run b (c ∷ calls) = run (step b c) calls

-- the call does not draw this token
abbrev pub NotDrawn : Env → Text → Call → Type 0
NotDrawn env token (create_for did token_bytes swept now) = env.hex_encode token_bytes ≢ token
NotDrawn env token (validate_at other now) = Unit
NotDrawn env token (revoke_token other) = Unit
NotDrawn env token (revoke_all did) = Unit
NotDrawn env token (sweep_at now) = Unit

module _ {B : Type 0} (be : SessionBackend B) {IsValid : B → Type 0} (laws : BackendLaws be IsValid)
    (env : Env) (limits : Limits) where
  remove_keeps_absent :
      (token other : Text) (b : B)
      → IsValid b
      → be.get token b ≡ none
      → be.get token (be.remove other b).0 ≡ none
  remove_keeps_absent token other b v h = ground (arith, laws.get-remove token other b v, h)

  admit_keeps_absent :
      (token did : Text) (token_bytes : Bytes) (now : ℕ) (b : B)
      → IsValid b
      → be.get token b ≡ none
      → env.hex_encode token_bytes ≢ token
      → be.get token (admit be env limits did token_bytes now b).0 ≡ none
  unfolding admit evicted new_session
  admit_keeps_absent token did token_bytes now b v h fresh =
      rw
        (laws.get-insert_other token (new_session env limits did token_bytes now) _
          (evicted-IsValid be laws env limits did token_bytes now b v)
          (ne→text_eq (env.hex_encode token_bytes) token fresh))
        (elim (enforce-cases be limits.max_sessions_per_did did b) [
          | inl (few, same) ↦ rw same h
          | inr (s, mine, same) ↦ rw same (remove_keeps_absent token s.token b v h)
        ])

  create_keeps_absent :
      (token did : Text) (token_bytes : Bytes) (swept now : ℕ) (b : B)
      → IsValid b
      → be.get token b ≡ none
      → env.hex_encode token_bytes ≢ token
      → be.get token (create be env limits did token_bytes swept now b).0 ≡ none
  create_keeps_absent token did token_bytes swept now b v h fresh =
      let purged : be.get token (be.purge_expired swept b).0 ≡ none =
        rw (laws.get-purge token swept b v, h) refl in
      elim (create-cases be laws env limits did token_bytes swept now b) [
        | inl (below, same) ↦ rw same (admit_keeps_absent token did token_bytes now b v h fresh)
        | inr (inl (below, same)) ↦ rw same (
            admit_keeps_absent token did token_bytes now _ (laws.purge_valid swept b v) purged
              fresh)
        | inr (inr (full, same)) ↦ rw same purged
      ]

  -- `validate` leaves the store as it is or removes the token it was given
  validate_state :
      (token : Text) (now : ℕ) (b : B)
      → ((validate be token now b).0 ≡ b) ⊎ ((validate be token now b).0 ≡ (be.remove token b).0)
  unfolding validate
  validate_state token now b = elim (Option-cases (be.get token b)) [
    | inl absent ↦ inl (rw (absent, validate) refl)
    | inr (s, stored) ↦ elim (Bool-cases (leb s.valid_until now)) [
      | inl late ↦ inr (rw (stored, late, validate) refl)
      | inr early ↦ inl (rw (stored, early, validate) refl)
    ]
  ]

  validate-IsValid :
      (token : Text) (now : ℕ) (b : B) → IsValid b → IsValid (validate be token now b).0
  validate-IsValid token now b v = elim (validate_state token now b) [
    | inl same ↦ rw same v
    | inr same ↦ rw same (laws.remove_valid token b v)
  ]

  validate_keeps_absent :
      (token other : Text) (now : ℕ) (b : B)
      → IsValid b
      → be.get token b ≡ none
      → be.get token (validate be other now b).0 ≡ none
  validate_keeps_absent token other now b v h = elim (validate_state other now b) [
    | inl same ↦ rw same h
    | inr same ↦ rw same (remove_keeps_absent token other b v h)
  ]

  step-IsValid : (b : B) (c : Call) → IsValid b → IsValid (step be env limits b c)
  unfolding step revoke revoke_all_for_did cleanup_expired
  step-IsValid b (create_for did token_bytes swept now) v =
      create-IsValid be laws env limits did token_bytes swept now b v
  step-IsValid b (validate_at token now) v = validate-IsValid token now b v
  step-IsValid b (revoke_token token) v = laws.remove_valid token b v
  step-IsValid b (revoke_all did) v = laws.remove_all_valid did b v
  step-IsValid b (sweep_at now) v = laws.purge_valid now b v

  step_keeps_absent :
      (token : Text) (b : B) (c : Call)
      → IsValid b
      → NotDrawn env token c
      → be.get token b ≡ none
      → be.get token (step be env limits b c) ≡ none
  unfolding step revoke revoke_all_for_did cleanup_expired
  step_keeps_absent token b (create_for did token_bytes swept now) v fresh h =
      create_keeps_absent token did token_bytes swept now b v h fresh
  step_keeps_absent token b (validate_at other now) v fresh h =
      validate_keeps_absent token other now b v h
  step_keeps_absent token b (revoke_token other) v fresh h = remove_keeps_absent token other b v h
  step_keeps_absent token b (revoke_all did) v fresh h =
      rw (laws.get-remove_all token did b v, h) refl
  step_keeps_absent token b (sweep_at now) v fresh h = rw (laws.get-purge token now b v, h) refl

  run_keeps_absent :
      (token : Text) (calls : List Call) (b : B)
      → IsValid b
      → All (NotDrawn env token) calls
      → be.get token b ≡ none
      → be.get token (run be env limits b calls) ≡ none
  unfolding run
  run_keeps_absent token [] b v fresh h = h
  run_keeps_absent token (c ∷ calls) b v (f, fresh) h =
      run_keeps_absent token calls (step be env limits b c) (step-IsValid b c v) fresh
        (step_keeps_absent token b c v f h)

  -- A revoked token is refused as unknown at any later time, after any calls, as long as no `create`
  -- draws the same random token again.
  pub revoked_forever :
      (token : Text) (calls : List Call) (b : B) (now : ℕ)
      → IsValid b
      → All (NotDrawn env token) calls
      → (validate be token now (run be env limits (revoke be token b).0 calls)).1
        ≡ err session_not_found
  unfolding revoke
  revoked_forever token calls b now v fresh =
      let gone : be.get token (be.remove token b).0 ≡ none =
        rw (laws.get-remove token token b v, text_eq_refl token) refl in
      rw
        (validate_unknown be token now _
          (run_keeps_absent token calls _ (laws.remove_valid token b v) fresh gone))
        refl

  -- Once the sessions of a DID are revoked together, the token of each of them is refused as unknown
  -- at any later time, after any calls that do not draw the same random token again.
  pub did_revoked_forever :
      (did token : Text) (s : Session) (calls : List Call) (b : B) (now : ℕ)
      → IsValid b
      → be.get token b ≡ some s
      → s.did ≡ did
      → All (NotDrawn env token) calls
      → (validate be token now (run be env limits (revoke_all_for_did be did b).0 calls)).1
        ≡ err session_not_found
  unfolding revoke_all_for_did
  did_revoked_forever did token s calls b now v stored own fresh =
      let gone : be.get token (be.remove_all_for_did did b).0 ≡ none =
        rw (laws.get-remove_all token did b v, stored, own, text_eq_refl did) refl in
      rw
        (validate_unknown be token now _
          (run_keeps_absent token calls _ (laws.remove_all_valid did b v) fresh gone))
        refl

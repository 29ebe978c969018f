-- ===== src/Session/Lifetime.antt =====
-- The life of a session of `SessionStore`: created, validated, revoked, over any lawful backend.
use aqua_auth.Prelude.{
  ℕ, ◌+◌, ◌^◌, ◌≤◌, ◌<◌, ◌≡◌, refl, ap, sym, ◌∙◌, ◌↔◌, ◌⊎◌, inl, inr, true, false, none, some,
  Result, ok, err, >>=-eq-ok, ok-inj, Result-cases, arith, if◌then◌else◌, leb, ltb, Bool-cases,
  Option-cases,
}
use aqua_auth.Env.{Env}
use aqua_auth.Errors.{AuthError, session_not_found, session_expired, session_store_full}
use aqua_auth.Text.{Text, Bytes}
use aqua_auth.Session.Backend.{Session, SessionBackend, BackendLaws}
use aqua_auth.Session.Store.{Limits, new_session, enforce_per_did_cap, admit, create, validate}
use aqua_auth.Session.Capacity.{evicted, create-cases, evicted-IsValid}

module _ {B : Type 0} (be : SessionBackend B) where
  pub validate_live :
      (token : Text) (now : ℕ) (b : B) (s : Session)
      → be.get token b ≡ some s
      → now < s.valid_until
      → validate be token now b ≡ (b, ok s.did)
  unfolding validate
  validate_live token now b s stored live =
      let early : leb s.valid_until now ≡ false = ground arith in rw (stored, validate, early) refl

  pub validate_late :
      (token : Text) (now : ℕ) (b : B) (s : Session)
      → be.get token b ≡ some s
      → s.valid_until ≤ now
      → validate be token now b ≡ ((be.remove token b).0, err session_expired)
  unfolding validate
  validate_late token now b s stored expired =
      let late : leb s.valid_until now ≡ true = ground arith in rw (stored, validate, late) refl

  pub validate_unknown :
      (token : Text) (now : ℕ) (b : B)
      → be.get token b ≡ none
      → validate be token now b ≡ (b, err session_not_found)
  unfolding validate
  validate_unknown token now b absent = rw (absent, validate) refl

  validated :
      (token did : Text) (now : ℕ) (b : B)
      → (validate be token now b).1 ≡ ok did
      → (s : Session) × (be.get token b ≡ some s) × (s.did ≡ did) × (now < s.valid_until)
  validated token did now b h = elim (Option-cases (be.get token b)) [
    | inl absent ↦ ground (arith, h, validate_unknown token now b absent)
    | inr (s, stored) ↦ elim (Bool-cases (leb s.valid_until now)) [
      | inl late ↦
          let expired = validate_late token now b s stored (ground arith) in
          ground (arith, h, expired)
      | inr early ↦
          let live : now < s.valid_until = ground arith in
          let answer = validate_live token now b s stored live in
          (s, stored, ground (arith, h, answer), live)
    ]
  ]

  -- A token is accepted for a DID exactly when a session of that DID is stored under it and the
  -- session has not expired.
  pub validate_iff :
      (token did : Text) (now : ℕ) (b : B)
      → ((validate be token now b).1 ≡ ok did)
        ↔ ((s : Session) × (be.get token b ≡ some s) × (s.did ≡ did) × (now < s.valid_until))
  validate_iff token did now b = (
    validated token did now b,
    λ (s, stored, same, live). rw (validate_live token now b s stored live) (ap ok same),
  )

module _ {B : Type 0} (be : SessionBackend B) {IsValid : B → Type 0} (laws : BackendLaws be IsValid)
    (env : Env) (limits : Limits) where
  module _ (did : Text) (token_bytes : Bytes) (now : ℕ) where
    -- the insert of `admit`, behind the eviction
    abbrev pub inserted : B → B × Result AuthError (Unit {0})
    inserted b =
        be.insert (new_session env limits did token_bytes now)
          (enforce_per_did_cap be limits.max_sessions_per_did did b)

    admit-eq-ok :
        (b : B) {s : Session}
        → (admit be env limits did token_bytes now b).1 ≡ ok s
        → ((inserted b).1 ≡ ok tt) × (s ≡ new_session env limits did token_bytes now)
    unfolding admit
    admit-eq-ok b h =
        let (u, done, same) = >>=-eq-ok (inserted b).1 _ h in (done, sym (ok-inj same))

    same_error :
        {a b : AuthError}
        → ◌≡◌ {A = Result AuthError Session} (err a) (err b)
        → ◌≡◌ {A = Result AuthError (Unit {0})} (err a) (err b)
    same_error h = ground (arith, h)

    admit-err :
        (b : B) {e : AuthError}
        → ((admit be env limits did token_bytes now b).1 ≡ err e) ↔ ((inserted b).1 ≡ err e)
    unfolding admit
    admit-err b = elim (Result-cases (inserted b).1) [
      | inl (u, done) ↦ (
        λ h. absurd (ground (arith, rw (admit, done) at (h))),
        λ h. absurd (ground (arith, h, done)),
      )
      | inr (e', failed) ↦
          (λ h. failed ∙ same_error (rw (admit, failed) at (h)), λ h. rw (admit, h) refl)
    ]

    get-admit_new :
        (b : B)
        → IsValid b
        → (inserted b).1 ≡ ok tt
        → be.get (env.hex_encode token_bytes) (admit be env limits did token_bytes now b).0
          ≡ some (new_session env limits did token_bytes now)
    unfolding admit evicted new_session
    get-admit_new b v done =
        laws.get-inserted (new_session env limits did token_bytes now) _
          (evicted-IsValid be laws env limits did token_bytes now b v) done

  module _ (did : Text) (token_bytes : Bytes) (swept now : ℕ) (b : B) where
    -- the session that `create` returns is the one it stores
    pub created :
        {s : Session}
        → IsValid b
        → (create be env limits did token_bytes swept now b).1 ≡ ok s
        → (s ≡ new_session env limits did token_bytes now)
          × (be.get s.token (create be env limits did token_bytes swept now b).0 ≡ some s)
    unfolding new_session
    created {s = s} v h = elim (create-cases be laws env limits did token_bytes swept now b) [
      | inl (below, same) ↦ of_admit b v same
      | inr (inl (below, same)) ↦ of_admit _ (laws.purge_valid swept b v) same
      | inr (inr (full, same)) ↦ ground (arith, h, same)
    ]
      where
        of_admit :
            (b' : B)
            → IsValid b'
            → create be env limits did token_bytes swept now b
              ≡ admit be env limits did token_bytes now b'
            → (s ≡ new_session env limits did token_bytes now)
              × (be.get s.token (create be env limits did token_bytes swept now b).0 ≡ some s)
        of_admit b' v' same =
            let (done, eq) =
              admit-eq-ok did token_bytes now b'
                (sym (ap (λ (r : B × Result AuthError Session). r.1) same) ∙ h) in
            (eq, rw (same, eq) (get-admit_new did token_bytes now b' v' done))

    -- A session that `create` returns carries the DID it was asked for. Its token validates for that
    -- DID as long as its lifetime, counted from its creation, lasts, and as expired from then on,
    -- where the end of the lifetime fits into 64 bits.
    pub create_then_validate :
        (s : Session) (later : ℕ)
        → IsValid b
        → now + limits.ttl_secs < 2 ^ 64
        → (create be env limits did token_bytes swept now b).1 ≡ ok s
        → (s.did ≡ did)
          × ((validate be s.token later (create be env limits did token_bytes swept now b).0).1
              ≡ (if ltb later (now + limits.ttl_secs) then ok did else err session_expired))
    unfolding new_session
    create_then_validate s later v fits h =
        let (eq, stored) = created v h in
        let mine : s.did ≡ did = ap (λ (x : Session). x.did) eq in
        let until : s.valid_until ≡ now + limits.ttl_secs =
          omega (arith, ap (λ (x : Session). x.valid_until) eq) in
        (
          mine,
          elim (Bool-cases (ltb later (now + limits.ttl_secs))) [
            | inl early ↦
                rw (validate_live be s.token later _ s stored (ground arith), early) (ap ok mine)
            | inr late ↦ rw (validate_late be s.token later _ s stored (ground arith), late) refl
          ],
        )

    abbrev purged : B
    purged = (be.purge_expired swept b).0

    -- what `create` admits the session to: a full store is swept first
    abbrev pub room : B
    room = if leb limits.max_sessions (be.len b) then (be.purge_expired swept b).0 else b

    create-room :
        ((be.len room < limits.max_sessions)
          × (be.len purged < limits.max_sessions)
          × (create be env limits did token_bytes swept now b
              ≡ admit be env limits did token_bytes now room))
        ⊎ ((limits.max_sessions ≤ be.len room)
            × (limits.max_sessions ≤ be.len purged)
            × (create be env limits did token_bytes swept now b
                ≡ (purged, err (session_store_full limits.max_sessions))))
    unfolding create
    create-room = elim (Bool-cases (leb limits.max_sessions (be.len b))) [
      | inr below ↦
          let small : be.len b < limits.max_sessions = ground arith in
          rw below (inl (small, omega (arith, small, laws.len-purge swept b), refl))
      | inl full ↦ elim (Bool-cases (leb limits.max_sessions (be.len purged))) [
        | inr below ↦ rw full (inl (ground arith, ground arith, rw below refl))
        | inl still ↦ rw full (inr (ground arith, ground arith, rw still refl))
      ]
    ]

    -- Over a backend that keeps the laws, whose insert may fail, `create` fails in two ways: exactly
    -- when the sessions that the sweep leaves, the unexpired ones, fill the store, and with the error
    -- of the backend exactly when there is room and the insert of the new session, behind the eviction,
    -- fails.
    pub create_refuses_iff :
        (e : AuthError)
        → ((create be env limits did token_bytes swept now b).1 ≡ err e) ↔ (
            ((e ≡ session_store_full limits.max_sessions)
              × (limits.max_sessions ≤ be.len (be.purge_expired swept b).0))
            ⊎ ((be.len room < limits.max_sessions)
                × ((inserted did token_bytes now room).1 ≡ err e)))
    create_refuses_iff e = elim create-room [
      | inl (below, swept_below, same) ↦ (
        λ h. inr (below, (admit-err did token_bytes now room).0 (rw same at (h))),
        λ r. elim r [
          | inl (eq, full) ↦ absurd (omega (arith, full, swept_below))
          | inr (again, failed) ↦ rw same ((admit-err did token_bytes now room).1 failed)
        ],
      )
      | inr (full, still, same) ↦ (
        λ h. inl (ground (arith, rw same at (h)), still),
        λ r. elim r [
          | inl (eq, again) ↦ rw (same, eq) refl
          | inr (below, failed) ↦ absurd (omega (arith, full, below))
        ],
      )
    ]

    -- Over a backend whose insert does not fail, a full store is the only reason of a refusal.
    pub create_full_iff :
        (insert_ok : (s : Session) (b' : B) → (be.insert s b').1 ≡ ok tt) (e : AuthError)
        → ((create be env limits did token_bytes swept now b).1 ≡ err e) ↔ (
            (e ≡ session_store_full limits.max_sessions)
            × (limits.max_sessions ≤ be.len (be.purge_expired swept b).0))
    create_full_iff insert_ok e = (
      λ h. elim ((create_refuses_iff e).0 h) [
        | inl full ↦ full
        | inr (below, failed) ↦ absurd (ground (arith, sym (insert_ok _ _) ∙ failed))
      ],
      λ full. (create_refuses_iff e).1 (inl full),
    )

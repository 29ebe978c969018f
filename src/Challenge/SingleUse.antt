-- ===== src/Challenge/SingleUse.antt =====
-- A challenge is answered at most once, inside its lifetime, and after any sequence of calls.
use aqua_auth.Prelude.{
  ℕ, ◌≡◌, ◌≢◌, refl, ap, ◌∙◌, >>=-eq-ok, inl, inr, false, List, [], ◌∷◌, ◌++◌, none, some, ok, err,
  arith, if◌then◌else◌, leb, Option-cases, Result-cases, All, Bool-cases,
}
use aqua_auth.Env.{Env}
use aqua_auth.Errors.{challenge_not_found, challenge_expired}
use aqua_auth.Text.{Text, Bytes, codes, text_eq}
use aqua_auth.Text.Laws.{ne→text_eq, text_eq_refl}
use aqua_auth.Table.{get}
use aqua_auth.Table.Laws.{get-insert, get-remove, get-retain-none}
use aqua_auth.Table.Bounded.{get-make_room-none}
use aqua_auth.Did.Format.{validate_did_well_formed}
use aqua_auth.Message.{Chrono, build_message}
use aqua_auth.Challenge.{
  Challenge, ChallengeStore, by_expiry, cleanup_expired, room_for_one, now_secs, new_challenge,
  create, validate,
}
use aqua_auth.Challenge.Capacity.{new_challenge-nonce}

-- The calls of a store: by clients, and by the background sweep.
pub data Call (T : Type 0) : Type 0 where
  create_for : Text → Bytes → T → T → Call T
  validate_at : Text → ℕ → Call T
  sweep_at : ℕ → Call T

pub validate_consumes :
    (s : ChallengeStore) (nonce : Text) (now : ℕ)
    → get nonce (validate s nonce now).0.challenges ≡ none
unfolding validate
validate_consumes s nonce now = elim (Option-cases (get nonce s.challenges)) [
  | inl e ↦ rw (e, validate) e
  | inr (c, e) ↦ elim (Bool-cases (leb c.expires_at now)) [
    | inl late ↦ rw (e, late, validate) (rw (get-remove, text_eq_refl nonce) refl)
    | inr early ↦ rw (e, early, validate) (rw (get-remove, text_eq_refl nonce) refl)
  ]
]

validate_absent :
    (s : ChallengeStore) (nonce : Text) (now : ℕ)
    → get nonce s.challenges ≡ none
    → (validate s nonce now).1 ≡ err challenge_not_found
unfolding validate
validate_absent s nonce now h = rw (h, validate) refl

validate_keeps_absent :
    (s : ChallengeStore) (nonce other : Text) (now : ℕ)
    → get nonce s.challenges ≡ none
    → get nonce (validate s other now).0.challenges ≡ none
unfolding validate
validate_keeps_absent s nonce other now h = elim (Option-cases (get other s.challenges)) [
  | inl e ↦ rw (e, validate) h
  | inr (c, e) ↦ elim (Bool-cases (leb c.expires_at now)) [
    | inl late ↦ rw (e, late, validate) (ground (arith, get-remove nonce other s.challenges))
    | inr early ↦ rw (e, early, validate) (ground (arith, get-remove nonce other s.challenges))
  ]
]

module _ (env : Env) {T : Type 0} (chrono : Chrono T) where
  unfoldable pub step : ChallengeStore → Call T → ChallengeStore
  step s (create_for did nonce_bytes swept now) = (create env chrono s did nonce_bytes swept now).0
  step s (validate_at nonce now) = (validate s nonce now).0
  step s (sweep_at now) = record s { challenges = cleanup_expired now s.challenges }

  unfoldable pub run : List (Call T) → ChallengeStore → ChallengeStore
  run [] s = s
  run (c ∷ calls) s = run calls (step s c)

  -- The call does not draw the nonce anew.
  abbrev pub DrawsOther : Text → Call T → Type 0
  DrawsOther nonce (create_for did nonce_bytes swept now) =
      codes "0x" ++ env.hex_encode nonce_bytes ≢ nonce
  DrawsOther nonce (validate_at other now) = Unit
  DrawsOther nonce (sweep_at now) = Unit

  create_keeps_absent :
      (nonce : Text) (s : ChallengeStore) (did : Text) (nonce_bytes : Bytes) (swept now : T)
      → codes "0x" ++ env.hex_encode nonce_bytes ≢ nonce
      → get nonce s.challenges ≡ none
      → get nonce (create env chrono s did nonce_bytes swept now).0.challenges ≡ none
  unfolding create room_for_one
  create_keeps_absent nonce s did nonce_bytes swept now other h =
      elim (Result-cases (validate_did_well_formed env did)) [
        | inr (e, bad) ↦ rw (bad, create) h
        | inl (v, good) ↦ elim (Result-cases (new_challenge env chrono s did nonce_bytes now)) [
          | inr (e, failed) ↦ rw (good, failed, create) room
          | inl (c, made) ↦
              let fresh : text_eq c.nonce nonce ≡ false =
                rw (new_challenge-nonce env chrono s did nonce_bytes now made)
                  (ne→text_eq _ nonce other) in
              rw (good, made, create) (rw (get-insert, fresh) room)
        ]
      ]
    where
      room :
          get nonce (room_for_one s.max_challenges (now_secs env chrono swept) s.challenges) ≡ none
      room = get-make_room-none by_expiry _ s.max_challenges nonce s.challenges h

  step_keeps_absent :
      (nonce : Text) (s : ChallengeStore) (c : Call T)
      → DrawsOther nonce c
      → get nonce s.challenges ≡ none
      → get nonce (step s c).challenges ≡ none
  unfolding step cleanup_expired
  step_keeps_absent nonce s (create_for did nonce_bytes swept now) other h =
      create_keeps_absent nonce s did nonce_bytes swept now other h
  step_keeps_absent nonce s (validate_at other now) _ h = validate_keeps_absent s nonce other now h
  step_keeps_absent nonce s (sweep_at now) _ h = get-retain-none nonce _ s.challenges h

  pub run_keeps_absent :
      (nonce : Text) (calls : List (Call T)) (s : ChallengeStore)
      → All (DrawsOther nonce) calls
      → get nonce s.challenges ≡ none
      → get nonce (run calls s).challenges ≡ none
  unfolding run
  run_keeps_absent nonce [] s _ h = h
  run_keeps_absent nonce (c ∷ calls) s (hc, hs) h =
      run_keeps_absent nonce calls (step s c) hs (step_keeps_absent nonce s c hc h)

  -- Once a nonce has been presented, no later presentation succeeds, whatever calls come between,
  -- as long as none of them draws the same random bytes again.
  pub presented_once :
      (s : ChallengeStore) (nonce : Text) (first later : ℕ) (calls : List (Call T))
      → All (DrawsOther nonce) calls
      → (validate (run calls (validate s nonce first).0) nonce later).1 ≡ err challenge_not_found
  presented_once s nonce first later calls h =
      validate_absent _ nonce later
        (run_keeps_absent nonce calls _ h (validate_consumes s nonce first))

  pub create_stores :
      (s : ChallengeStore) (did : Text) (nonce_bytes : Bytes) (swept now : T) (c : Challenge)
      → (create env chrono s did nonce_bytes swept now).1 ≡ ok c
      → (new_challenge env chrono s did nonce_bytes now ≡ ok c)
        × (get c.nonce (create env chrono s did nonce_bytes swept now).0.challenges ≡ some c)
  unfolding create
  create_stores s did nonce_bytes swept now c h =
      elim (Result-cases (validate_did_well_formed env did)) [
        | inr (e, bad) ↦ ground arith
        | inl (v, good) ↦ elim (Result-cases (new_challenge env chrono s did nonce_bytes now)) [
          | inr (e, failed) ↦ ground arith
          | inl (c', made) ↦
              let same : c' ≡ c = ground arith in
              (
                made ∙ ap (λ (d : Challenge). ok d) same,
                rw (good, made, create) (rw (← same) (rw (get-insert, text_eq_refl c'.nonce) refl)),
              )
        ]
      ]

  pub new_challenge-did :
      (s : ChallengeStore) (did : Text) (nonce_bytes : Bytes) (now : T) {c : Challenge}
      → new_challenge env chrono s did nonce_bytes now ≡ ok c
      → c.did ≡ did
  unfolding new_challenge
  new_challenge-did s did nonce_bytes now h =
      let (m, built, rest) = >>=-eq-ok (build_message env chrono _) _ h in ground arith

  -- A challenge that `create` returns names the DID that asked for it, and `validate` answers with
  -- that very challenge until it expires, and with its expiry from then on.
  pub validate-create :
      (s : ChallengeStore) (did : Text) (nonce_bytes : Bytes) (swept now : T) (c : Challenge)
      (later : ℕ)
      → (create env chrono s did nonce_bytes swept now).1 ≡ ok c
      → (c.did ≡ did)
        × ((validate (create env chrono s did nonce_bytes swept now).0 c.nonce later).1
            ≡ (if leb c.expires_at later then err challenge_expired else ok c))
  unfolding validate
  validate-create s did nonce_bytes swept now c later h =
      let (made, stored) = create_stores s did nonce_bytes swept now c h in
      (new_challenge-did s did nonce_bytes now made, ground (arith, stored))

-- ===== src/Peer/Handled.antt =====
-- The steps of `session_handler` (aqua-auth-testkit/src/lib.rs), one by one.
use aqua_auth.Prelude.{
  ℕ, ◌≤◌, ◌<◌, ◌≡◌, refl, ap, ◌∙◌, inl, inr, true, false, Option, none, some, ok, err, guard, arith,
  leb, >>=-eq-ok, guard-eq-ok, map_err-eq-ok, >>=-eq-err, guard-eq-err, ok_or-eq-err,
  map_err-eq-err,
}
use aqua_auth.Env.{Env}
use aqua_auth.Errors.{challenge_not_found, challenge_expired}
use aqua_auth.Text.{Text, Bytes, text_eq}
use aqua_auth.Text.Laws.{text_eq→eq, text_eq_refl}
use aqua_auth.Table.{get, remove}
use aqua_auth.Did.Principal.{Principal, authenticate_with_public_key}
use aqua_auth.Did.Possession.{authenticate_iff}
use aqua_auth.Challenge
use aqua_auth.Challenge.{Challenge, ChallengeStore}
use aqua_auth.Client.{SessionRequest}
use aqua_auth.Peer.{
  PeerState, Readings, Status, not_found, unauthorized, refusal, decoded, decoded_key, proven,
  open_session, session_for, session_handler, trim_0x,
}

module _ (env : Env) where
  -- The proof that a request for a session carries for a challenge: it names the DID that the
  -- challenge was issued to, and its signature is accepted for that DID on the challenge's message.
  pub record IsProof (stored : Challenge) (request : SessionRequest) (signature : Bytes)
      (public_key : Option Bytes) : Type 0 where
    pub same_did : stored.did ≡ request.did
    pub signature_reads : decoded env request.signature ≡ ok signature
    pub key_reads : decoded_key env request.public_key ≡ ok public_key
    pub accepted :
        authenticate_with_public_key env request.did stored.message signature public_key
        ≡ ok (record { did = request.did })

  pub proven-IsProof :
      (stored : Challenge) (request : SessionRequest) {principal : Principal}
      → proven env stored request ≡ ok principal
      → (principal.did ≡ request.did)
        × (signature : Bytes) × (public_key : Option Bytes) × IsProof stored request signature
            public_key
  unfolding proven
  proven-IsProof stored request {principal = principal} h =
      let (u, same, h1) = >>=-eq-ok (guard (text_eq stored.did request.did) unauthorized) _ h in
      let (signature, reads, h2) = >>=-eq-ok (decoded env request.signature) _ h1 in
      let (key, key_reads, h3) = >>=-eq-ok (decoded_key env request.public_key) _ h2 in
      let accepted = map_err-eq-ok _ _ h3 in
      let (named, valid, verified) =
        (authenticate_iff env request.did stored.message signature key principal).0 accepted in
      (
        named,
        signature,
        key,
        record {
          same_did = text_eq→eq stored.did request.did (guard-eq-ok _ _ same);
          signature_reads = reads;
          key_reads = key_reads;
          accepted =
              (authenticate_iff env request.did stored.message signature key
                  (record { did = request.did })).1
                (refl, valid, verified);
        },
      )

  pub proof_proven :
      (stored : Challenge) (request : SessionRequest) (signature : Bytes)
      (public_key : Option Bytes)
      → IsProof stored request signature public_key
      → proven env stored request ≡ ok (record { did = request.did })
  unfolding proven
  proof_proven stored request signature public_key p =
      rw (proven, p.same_did, text_eq_refl request.did, p.signature_reads, p.key_reads, p.accepted)
        refl

  decoded_key-err :
      (key : Option Text) {e : Status} → decoded_key env key ≡ err e → e ≡ unauthorized
  unfolding decoded decoded_key
  decoded_key-err none h = cc
  decoded_key-err (some hex_pk) h = elim (>>=-eq-err (decoded env hex_pk) _ h) [
    | inl bad ↦ ok_or-eq-err (env.hex_decode (trim_0x hex_pk)) unauthorized bad
    | inr (key, good, rest) ↦ ground (arith, rest)
  ]

  pub proven-err :
      (stored : Challenge) (request : SessionRequest) {status : Status}
      → proven env stored request ≡ err status
      → status ≡ unauthorized
  unfolding proven decoded
  proven-err stored request h =
      elim (>>=-eq-err (guard (text_eq stored.did request.did) unauthorized) _ h) [
        | inl other ↦ guard-eq-err _ unauthorized other
        | inr (u, same, h1) ↦ elim (>>=-eq-err (decoded env request.signature) _ h1) [
          | inl unread ↦ ok_or-eq-err _ unauthorized unread
          | inr (signature, reads, h2) ↦
              elim (>>=-eq-err (decoded_key env request.public_key) _ h2) [
                | inl bad_key ↦ decoded_key-err request.public_key bad_key
                | inr (key, key_reads, h3) ↦ (map_err-eq-err (λ e. unauthorized) _ h3).2
              ]
        ]
      ]

-- the stores once a nonce has been taken out
abbrev without : ChallengeStore → Text → ChallengeStore
without s nonce = record s { challenges = remove nonce s.challenges }

abbrev pub spent : PeerState → Text → PeerState
spent s nonce = record s { challenges = without s.challenges nonce }

module _ (s : ChallengeStore) (nonce : Text) (now : ℕ) where
  validate_unknown :
      get nonce s.challenges ≡ none → Challenge.validate s nonce now ≡ (s, err challenge_not_found)
  unfolding Challenge.validate
  validate_unknown absent = rw (absent, Challenge.validate) refl

  validate_late :
      (c : Challenge)
      → get nonce s.challenges ≡ some c
      → c.expires_at ≤ now
      → Challenge.validate s nonce now ≡ (without s nonce, err challenge_expired)
  unfolding Challenge.validate
  validate_late c pending expired =
      let late : leb c.expires_at now ≡ true = ground arith in
      rw (pending, Challenge.validate, late) refl

  validate_live :
      (c : Challenge)
      → get nonce s.challenges ≡ some c
      → now < c.expires_at
      → Challenge.validate s nonce now ≡ (without s nonce, ok c)
  unfolding Challenge.validate
  validate_live c pending live =
      let early : leb c.expires_at now ≡ false = ground arith in
      rw (pending, Challenge.validate, early) refl

module _ (env : Env) {T : Type 0} (s : PeerState) (request : SessionRequest) (r : Readings T) where
  pub handled_unknown :
      get request.nonce s.challenges.challenges ≡ none
      → session_handler env s request r ≡ (s, err not_found)
  unfolding session_handler session_for refusal
  handled_unknown absent =
      ap (session_for env s request r)
        (validate_unknown s.challenges request.nonce r.presented absent)

  module _ (stored : Challenge)
      (pending : get request.nonce s.challenges.challenges ≡ some stored) where
    pub handled_late :
        stored.expires_at ≤ r.presented
        → session_handler env s request r ≡ (spent s request.nonce, err unauthorized)
    unfolding session_handler session_for refusal
    handled_late expired =
        ap (session_for env s request r)
          (validate_late s.challenges request.nonce r.presented stored pending expired)

    pub handled_live :
        r.presented < stored.expires_at
        → session_handler env s request r
          ≡ session_for env s request r (without s.challenges request.nonce, ok stored)
    unfolding session_handler
    handled_live live =
        ap (session_for env s request r)
          (validate_live s.challenges request.nonce r.presented stored pending live)

    pub handled_refused :
        r.presented < stored.expires_at
        → proven env stored request ≡ err unauthorized
        → session_handler env s request r ≡ (spent s request.nonce, err unauthorized)
    unfolding session_for
    handled_refused live refused = handled_live live ∙ rw (session_for, refused) refl

    pub handled_proven :
        (principal : Principal)
        → r.presented < stored.expires_at
        → proven env stored request ≡ ok principal
        → session_handler env s request r ≡ open_session env (spent s request.nonce) principal r
    unfolding session_for
    handled_proven principal live accepted = handled_live live ∙ rw (session_for, accepted) refl

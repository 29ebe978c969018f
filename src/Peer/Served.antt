-- ===== src/Peer/Served.antt =====
-- A login from end to end, over the handlers of aqua-auth-testkit/src/lib.rs and the request that
-- src/client.rs posts: challenge, session, and a request under the session's token.
use aqua_auth.Prelude.{
  ◌+◌, ◌^◌, ◌<◌, ◌≡◌, refl, ap, sym, ◌∙◌, inl, inr, Bool, true, false, [], ◌∷◌, ◌++◌, Option, none,
  some, Result, ok, err, map_err, arith, if◌then◌else◌, ltb, ◌==◌, Option-cases, Result-cases,
  >>=-eq-ok, map_err-eq-ok, ok-inj,
}
use aqua_auth.Env.{Env}
use aqua_auth.Errors.{AuthError, session_expired}
use aqua_auth.Text.{Text, Bytes, codes, contains}
use aqua_auth.Text.Laws.{strip_prefix-append}
use aqua_auth.Table.{get}
use aqua_auth.Message.{Chrono}
use aqua_auth.Did.Method.{find_did_method}
use aqua_auth.Did.Principal.{authenticate_with_public_key}
use aqua_auth.Challenge
use aqua_auth.Challenge.{Challenge, ChallengeStore}
use aqua_auth.Challenge.SingleUse.{create_stores, new_challenge-did}
use aqua_auth.Session.Backend.{Session}
use aqua_auth.Session.InMemory.{in_memory}
use aqua_auth.Session.InMemory.Laws.{IsValid, in_memory_laws, in_memory-insert_ok}
use aqua_auth.Session.Store
use aqua_auth.Session.Store.{new_session}
use aqua_auth.Session.Lifetime.{create_full_iff, create_then_validate, created}
use aqua_auth.WebAuthn.Web.{Web}
use aqua_auth.Client.{
  ChallengeEnvelope, SessionRequest, SessionResponse, Signer, request_of, hex_text, hex_option,
}
use aqua_auth.Peer.{
  PeerState, Readings, Status, Headers, bad_request, unauthorized, trim_0x, decoded, decoded_key,
  envelope_of, response_of, challenge_handler, open_session, session_handler, header_str,
  bearer_token, whoami_handler,
}
use aqua_auth.Peer.Handled.{IsProof, spent}
use aqua_auth.Peer.Login.{IsProven, session_for_did, handled_with_proof}

-- What the crate `hex` documents of its two functions: decoding undoes encoding, and the encoding is
-- in digits, none of which is an `x`.
pub record IsHex (env : Env) : Type 0 where
  pub round_trip : (b : Bytes) → env.hex_decode (env.hex_encode b) ≡ some b
  pub digits : (b : Bytes) → contains b'x' (env.hex_encode b) ≡ false

trim_0x-none : (s : Text) → contains b'x' s ≡ false → trim_0x s ≡ s
unfolding trim_0x contains
trim_0x-none [] h = refl
trim_0x-none (c ∷ []) h = refl
trim_0x-none (c ∷ d ∷ s) h =
    let plain : (d == b'x') ≡ false = ground (arith, h) in ground (arith, plain)

module _ (env : Env) (hex : IsHex env) (web : Web) where
  decoded-hex_text : (b : Bytes) → decoded env (hex_text env web b) ≡ ok b
  unfolding decoded hex_text trim_0x
  decoded-hex_text b =
      rw (decoded, hex_text, trim_0x-none (env.hex_encode b) (hex.digits b), hex.round_trip b) refl

  decoded_key-hex_option : (key : Option Bytes) → decoded_key env (hex_option env web key) ≡ ok key
  unfolding decoded_key hex_option
  decoded_key-hex_option none = refl
  decoded_key-hex_option (some b) = rw (decoded-hex_text b) refl

module _ (env : Env) {T : Type 0} (chrono : Chrono T) (s : PeerState) (did : Text)
    (r : Readings T) where
  -- the challenge behind an envelope
  issued :
      (envelope : ChallengeEnvelope)
      → (challenge_handler env chrono s (some did) r).1 ≡ ok envelope
      → (c : Challenge) × (envelope ≡ envelope_of c)
        × (c.did ≡ did)
        × (challenges : ChallengeStore) × (get c.nonce challenges.challenges ≡ some c)
        × ((challenge_handler env chrono s (some did) r).0 ≡ record s { challenges = challenges })
  unfolding challenge_handler
  issued envelope h = elim (Option-cases (find_did_method env did)) [
    | inl unknown ↦ absurd (ground (arith, h, unknown))
    | inr (method, known) ↦
        let (c, made, rest) =
          >>=-eq-ok
            (map_err (λ e. bad_request)
              (Challenge.create env chrono s.challenges did r.nonce_bytes r.challenges_swept
                r.issued).1)
            _ (rw (known, challenge_handler) at (h)) in
        let (fresh, stored) =
          create_stores env chrono s.challenges did r.nonce_bytes r.challenges_swept r.issued c
            (map_err-eq-ok _ _ made) in
        (
          c,
          sym (ok-inj rest),
          new_challenge-did env chrono s.challenges did r.nonce_bytes r.issued fresh,
          (Challenge.create env chrono s.challenges did r.nonce_bytes r.challenges_swept
              r.issued).0,
          stored,
          rw (known, challenge_handler) refl,
        )
  ]

whoami-answer :
    {T : Type 0} (to_str : Bytes → Option Text) (s : PeerState) (headers : Headers) (r : Readings T)
    (token : Text)
    → bearer_token to_str headers ≡ some token
    → (whoami_handler to_str s headers r).1
      ≡ map_err (λ e. unauthorized) (Store.validate in_memory token r.shown s.sessions).1
unfolding whoami_handler
whoami-answer to_str s headers r token carried = rw (whoami_handler, carried) refl

-- an expiry becomes the status of a refusal
until_expiry :
    (live : Bool) (did : Text)
    → map_err (λ (e : AuthError). unauthorized) (if live then ok did else err session_expired)
      ≡ (if live then ok did else err unauthorized)
until_expiry true did = refl
until_expiry false did = refl

module _ (env : Env) {T : Type 0} (s : PeerState) (request : SessionRequest) (r : Readings T)
    (valid : IsValid s.sessions) (fits : r.created + s.limits.ttl_secs < 2 ^ 64)
    (room : in_memory.len (in_memory.purge_expired r.sessions_swept s.sessions).0
      < s.limits.max_sessions) where
  abbrev fresh : Session
  fresh = new_session env s.limits request.did r.token_bytes r.created

  session_made : session_for_did env s request r request.did ≡ ok fresh
  session_made = elim (Result-cases (session_for_did env s request r request.did)) [
    | inr (e, failed) ↦
        let full =
          ((create_full_iff in_memory in_memory_laws env s.limits request.did r.token_bytes
              r.sessions_swept r.created s.sessions in_memory-insert_ok e).0
            failed).1 in
        absurd (omega (arith, full, room))
    | inl (session, made) ↦
        let (same, stored) =
          created in_memory in_memory_laws env s.limits request.did r.token_bytes r.sessions_swept
            r.created s.sessions valid made in
        made ∙ ap (λ (x : Session). ok x) same
  ]

  module _ (p : IsProven env s request r) where
    opened : session_handler env s request r ≡ (
      record (spent s request.nonce) {
        sessions =
            (Store.create in_memory env s.limits request.did r.token_bytes r.sessions_swept
              r.created s.sessions).0;
      },
      ok (response_of fresh),
    )
    unfolding open_session
    opened = handled_with_proof env s request r p ∙ rw (open_session, session_made) refl

    shown_token :
        (to_str : Bytes → Option Text) (headers : Headers) (later : Readings T)
        → header_str to_str headers (codes "authorization") ≡ some (codes "Bearer " ++ fresh.token)
        → (whoami_handler to_str (session_handler env s request r).0 headers later).1 ≡ (
            if ltb later.shown (r.created + s.limits.ttl_secs)
            then ok request.did
            else err unauthorized)
    unfolding bearer_token
    shown_token to_str headers later carried =
        let token : bearer_token to_str headers ≡ some fresh.token =
          rw (bearer_token, carried) (strip_prefix-append (codes "Bearer ") fresh.token) in
        let (mine, answer) =
          create_then_validate in_memory in_memory_laws env s.limits request.did r.token_bytes
            r.sessions_swept r.created s.sessions fresh later.shown valid fits session_made in
        whoami-answer to_str (session_handler env s request r).0 headers later fresh.token token
        ∙ ap
            (λ (o : PeerState × Result Status SessionResponse).
              map_err (λ e. unauthorized)
                (Store.validate in_memory fresh.token later.shown o.0.sessions).1)
            opened
        ∙ ap (map_err (λ e. unauthorized)) answer
        ∙ until_expiry (ltb later.shown (r.created + s.limits.ttl_secs)) request.did

module _ (env : Env) (hex : IsHex env) (web : Web) {T : Type 0} (chrono : Chrono T)
    (to_str : Bytes → Option Text) where
  -- A login succeeds from end to end. A challenge is issued to a signer; its DID's verifier accepts
  -- the signature that it makes on the message of the envelope; the request that the client builds of
  -- the two is posted before the challenge expires, to a store of sessions that is valid and has
  -- room, and the end of the session fits into 64 bits. Then the answer is a session of the signer's
  -- DID, and its token is answered with that DID as long as the session lasts, and with 401 from
  -- then on.
  pub login_served :
      {W : Type 0} (s : PeerState) (signer : Signer W) (r r' later : Readings T)
      (envelope : ChallengeEnvelope) (signature : Bytes) (headers : Headers)
      → (challenge_handler env chrono s (some signer.signer_did) r).1 ≡ ok envelope
      → authenticate_with_public_key env signer.signer_did envelope.message signature
          signer.public_key
        ≡ ok (record { did = signer.signer_did })
      → r'.presented < envelope.expires_at
      → IsValid s.sessions
      → in_memory.len (in_memory.purge_expired r'.sessions_swept s.sessions).0
        < s.limits.max_sessions
      → r'.created + s.limits.ttl_secs < 2 ^ 64
      → header_str to_str headers (codes "authorization")
        ≡ some (codes "Bearer " ++ env.hex_encode r'.token_bytes)
      → ((session_handler env
            (challenge_handler env chrono s (some signer.signer_did) r).0
            (request_of env web envelope signer signature)
            r').1
          ≡ ok (response_of (new_session env s.limits signer.signer_did r'.token_bytes r'.created)))
        × ((whoami_handler to_str
              (session_handler env
                (challenge_handler env chrono s (some signer.signer_did) r).0
                (request_of env web envelope signer signature)
                r').0
              headers
              later).1
            ≡ (if ltb later.shown (r'.created + s.limits.ttl_secs)
                then ok signer.signer_did
                else err unauthorized))
  unfolding request_of new_session envelope_of
  login_served s signer r r' later envelope signature headers offered accepted in_time valid room
        fits carried =
      let (c, is_c, mine, challenges, pending, state) =
        issued env chrono s signer.signer_did r envelope offered in
      let request = request_of env web envelope signer signature in
      let proof : IsProof env c request signature signer.public_key = record {
        same_did = mine;
        signature_reads = decoded-hex_text env hex web signature;
        key_reads = decoded_key-hex_option env hex web signer.public_key;
        accepted = rw is_c at (accepted);
      } in
      let p : IsProven env (record s { challenges = challenges }) request r' = record {
        stored = c;
        pending = ap (λ (e : ChallengeEnvelope). get e.nonce challenges.challenges) is_c ∙ pending;
        in_time = rw is_c at (in_time);
        signature = signature;
        public_key = signer.public_key;
        proof = proof;
      } in
      let after = record s { challenges = challenges } in
      rw state (
        ap (λ (o : PeerState × Result Status SessionResponse). o.1)
            (opened env after request r' valid fits room p),
        shown_token env after request r' valid fits room p to_str headers later carried,
      )

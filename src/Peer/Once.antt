-- ===== src/Peer/Once.antt =====
-- A challenge is exchanged once, over any requests that the peer of aqua-auth-testkit/src/lib.rs
-- serves in between: `Challenge.SingleUse`, for the whole server.
use aqua_auth.Prelude.{
  ◌≡◌, ◌≢◌, refl, ap, inl, inr, List, [], ◌∷◌, ◌++◌, Option, none, some, err, ◌>>=◌, map_err,
  Result, All, Option-cases, Result-cases,
}
use aqua_auth.Env.{Env}
use aqua_auth.Text.{Text, Bytes, codes}
use aqua_auth.Table.{get}
use aqua_auth.Message.{Chrono}
use aqua_auth.Did.Method.{find_did_method}
use aqua_auth.HttpSig.Fields.{Sfv}
use aqua_auth.Directory.{Json}
use aqua_auth.Client.{SessionRequest, SessionResponse}
use aqua_auth.Challenge
use aqua_auth.Challenge.{ChallengeStore}
use aqua_auth.Challenge.SingleUse.{
  Call, create_for, validate_at, step, run, validate_consumes, run_keeps_absent, DrawsOther,
}
use aqua_auth.Peer.{
  PeerState, Readings, Headers, Received, Status, not_found, refusal, proven, bearer_token,
  signed_parts, challenge_handler, session_handler, session_for, open_session, whoami_handler,
  sig_whoami_handler,
}
use aqua_auth.Peer.Handled.{handled_unknown}
use aqua_auth.Peer.Router.{
  Request, get_challenge, post_session, get_whoami, get_sig_whoami, get_jwks, get_aqua_identity,
  bodied, route, serve,
}

module _ (env : Env) {T : Type 0} where
  pub session-challenges :
      (s : PeerState) (request : SessionRequest) (r : Readings T)
      → (session_handler env s request r).0.challenges
        ≡ (Challenge.validate s.challenges request.nonce r.presented).0
  unfolding session_handler session_for open_session
  session-challenges s request r =
      elim (Result-cases (
        map_err refusal (Challenge.validate s.challenges request.nonce r.presented).1
        >>= (λ stored. proven env stored request))) [
          | inl (principal, good) ↦ rw (session_handler, session_for, good) refl
          | inr (status, bad) ↦ rw (session_handler, session_for, bad) refl
        ]

module _ (env : Env) (sfv : Sfv) (json : Json) (to_str : Bytes → Option Text) {T : Type 0}
    (chrono : Chrono T) where
  -- The handler does not draw the nonce anew.
  abbrev pub DrawsOtherNonce : Text → Request × Readings T → Type 0
  DrawsOtherNonce nonce (get_challenge did, r) = codes "0x" ++ env.hex_encode r.nonce_bytes ≢ nonce
  DrawsOtherNonce nonce (request, r) = Unit

  -- what a request is to the store of challenges
  call_of : Request → Readings T → List (Call T)
  call_of (get_challenge none) r = []
  call_of (get_challenge (some did)) r = elim (find_did_method env did) [
    | none ↦ []
    | some method ↦ create_for did r.nonce_bytes r.challenges_swept r.issued ∷ []
  ]
  call_of (post_session request) r = validate_at request.nonce r.presented ∷ []
  call_of request r = []

  whoami-challenges :
      (s : PeerState) (headers : Headers) (r : Readings T)
      → (whoami_handler to_str s headers r).0.challenges ≡ s.challenges
  unfolding whoami_handler
  whoami-challenges s headers r = elim (Option-cases (bearer_token to_str headers)) [
    | inl e ↦ rw (e, whoami_handler) refl
    | inr (token, e) ↦ rw (e, whoami_handler) refl
  ]

  sig_whoami-challenges :
      (s : PeerState) (request : Received) (r : Readings T)
      → (sig_whoami_handler to_str env sfv s request r).0.challenges ≡ s.challenges
  unfolding sig_whoami_handler
  sig_whoami-challenges s request r = elim (Result-cases (signed_parts to_str s request)) [
    | inr (e, bad) ↦ rw (bad, sig_whoami_handler) refl
    | inl (parts, good) ↦ rw (good, sig_whoami_handler) refl
  ]

  challenge-challenges :
      (s : PeerState) (did : Text) (r : Readings T)
      → (challenge_handler env chrono s (some did) r).0.challenges
        ≡ run env chrono (call_of (get_challenge (some did)) r) s.challenges
  unfolding challenge_handler call_of run step
  challenge-challenges s did r = elim (Option-cases (find_did_method env did)) [
    | inl e ↦ rw (e, challenge_handler, call_of) refl
    | inr (method, e) ↦ rw (e, challenge_handler, call_of) refl
  ]

  route_challenges :
      (s : PeerState) (request : Request) (r : Readings T)
      → (route env sfv json to_str chrono s request r).0.challenges
        ≡ run env chrono (call_of request r) s.challenges
  unfolding route bodied call_of run step challenge_handler
  route_challenges s (get_challenge none) r = refl
  route_challenges s (get_challenge (some did)) r = challenge-challenges s did r
  route_challenges s (post_session request) r = session-challenges env s request r
  route_challenges s (get_whoami headers) r = whoami-challenges s headers r
  route_challenges s (get_sig_whoami request) r = sig_whoami-challenges s request r
  route_challenges s get_jwks r = refl
  route_challenges s get_aqua_identity r = refl

  calls_DrawsOther :
      (nonce : Text) (request : Request) (r : Readings T)
      → DrawsOtherNonce nonce (request, r)
      → All (DrawsOther env chrono nonce) (call_of request r)
  unfolding call_of
  calls_DrawsOther nonce (get_challenge none) r h = tt
  calls_DrawsOther nonce (get_challenge (some did)) r h =
      elim (Option-cases (find_did_method env did)) [
        | inl e ↦ rw (e, call_of) tt
        | inr (method, e) ↦ rw (e, call_of) (h, tt)
      ]
  calls_DrawsOther nonce (post_session request) r h = (tt, tt)
  calls_DrawsOther nonce (get_whoami headers) r h = tt
  calls_DrawsOther nonce (get_sig_whoami request) r h = tt
  calls_DrawsOther nonce get_jwks r h = tt
  calls_DrawsOther nonce get_aqua_identity r h = tt

  serve_keeps_absent :
      (nonce : Text) (requests : List (Request × Readings T)) (s : PeerState)
      → All (DrawsOtherNonce nonce) requests
      → get nonce s.challenges.challenges ≡ none
      → get nonce (serve env sfv json to_str chrono requests s).challenges.challenges ≡ none
  unfolding serve
  serve_keeps_absent nonce [] s _ h = h
  serve_keeps_absent nonce ((request, r) ∷ rest) s (other, others) h =
      let after =
        run_keeps_absent env chrono nonce (call_of request r) s.challenges
          (calls_DrawsOther nonce request r other) h in
      serve_keeps_absent nonce rest (route env sfv json to_str chrono s request r).0 others
        (rw route_challenges after)

  -- Once a request for a session has presented a nonce, whatever it was answered, no later request
  -- with that nonce gets a session: it is answered with 404, whatever requests are served in between,
  -- as long as none of them draws the same nonce again.
  pub exchanged_once :
      (s : PeerState) (first later : SessionRequest) (r r' : Readings T)
      (requests : List (Request × Readings T))
      → later.nonce ≡ first.nonce
      → All (DrawsOtherNonce first.nonce) requests
      → (session_handler env
          (serve env sfv json to_str chrono requests (session_handler env s first r).0)
          later
          r').1
        ≡ err not_found
  exchanged_once s first later r r' requests same others =
      let gone : get first.nonce (session_handler env s first r).0.challenges.challenges ≡ none =
        rw (session-challenges env) (validate_consumes s.challenges first.nonce r.presented) in
      let absent = serve_keeps_absent first.nonce requests _ others gone in
      ap (λ (o : PeerState × Result Status SessionResponse). o.1)
        (handled_unknown env _ later r' (rw same absent))

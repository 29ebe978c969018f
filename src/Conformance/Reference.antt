-- ===== src/Conformance/Reference.antt =====
-- The reference server of aqua-auth-testkit/src/lib.rs under a case of the conformance suite. The
-- world is the server's state with the number of requests so far, and `readings` is what the handler
-- of each request reads.
use aqua_auth.Prelude.{
  ℕ, suc, ◌≡◌, ◌≢◌, refl, ap, sym, ◌∙◌, inl, inr, [], none, some, Result, ok, err, guard, arith,
  if◌then◌else◌, and_then, and_then-eq-ok, returned-eq-ok, Bool-cases,
}
use aqua_auth.Env.{Env}
use aqua_auth.Text.{codes, text_eq}
use aqua_auth.Table.{get}
use aqua_auth.Message.{Chrono}
use aqua_auth.Challenge.SingleUse.{validate_consumes}
use aqua_auth.WebAuthn.Web.{Web}
use aqua_auth.Client.{ChallengeEnvelope, SessionRequest, SessionResponse, Signer}
use aqua_auth.Peer.{
  PeerState, Readings, Status, bad_request, unauthorized, not_found, internal_server_error,
  service_unavailable, challenge_handler, session_handler,
}
use aqua_auth.Peer.Handled.{handled_unknown}
use aqua_auth.Peer.Once.{session-challenges}
use aqua_auth.Conformance.{
  Target, Outcome, fail, HttpResponse, Http, LoginError, LoginFlow, fetch_challenge, post_session,
  sign_challenge, login, is_success,
}
use aqua_auth.Conformance.Cases.{
  Stop, failed, skipped, session_accepted, outcome_of, verdict_on, stopped, settled,
  spec_7_3_nonce_single_use,
}

-- the number of a status
unfoldable pub status_code : Status → ℕ
status_code bad_request = 400
status_code unauthorized = 401
status_code not_found = 404
status_code internal_server_error = 500
status_code service_unavailable = 503

-- the string members of the two bodies; `text` is what is written of them, which no case reads
unfoldable pub challenge_response : Result Status ChallengeEnvelope → HttpResponse
challenge_response (err status) = record { status = status_code status; text = []; json = none }
challenge_response (ok envelope) = record {
  status = 200;
  text = [];
  json = some (λ name.
      if text_eq name (codes "message")
      then some envelope.message
      else if text_eq name (codes "nonce")
      then some envelope.nonce
      else none);
}

unfoldable pub session_response : Result Status SessionResponse → HttpResponse
session_response (err status) = record { status = status_code status; text = []; json = none }
session_response (ok response) = record {
  status = 200;
  text = [];
  json = some (λ name.
      if text_eq name (codes "did")
      then some response.did
      else if text_eq name (codes "token")
      then some response.token
      else none);
}

module _ (env : Env) {T : Type 0} (chrono : Chrono T) (readings : ℕ → Readings T) where
  -- the server behind its two routes
  unfoldable pub reference : Http (PeerState × ℕ)
  unfolding challenge_response session_response status_code
  reference = record {
    get = λ url did w.
        let (s, answer) = challenge_handler env chrono w.0 (some did) (readings w.1) in
        ((s, suc w.1), some (challenge_response answer));
    post = λ url request w.
        let (s, answer) = session_handler env w.0 request (readings w.1) in
        ((s, suc w.1), some (session_response answer));
  }

  module _ (target : Target) where
    post-reference :
        (request : SessionRequest) (w : PeerState × ℕ)
        → post_session reference target request w ≡ (
          ((session_handler env w.0 request (readings w.1)).0, suc w.1),
          ok (session_response (session_handler env w.0 request (readings w.1)).1),
        )
    unfolding post_session reference
    post-reference request w = refl

    posted_spends :
        (request : SessionRequest) (w w' : PeerState × ℕ) {response : HttpResponse}
        → post_session reference target request w ≡ (w', ok response)
        → get request.nonce w'.0.challenges.challenges ≡ none
    posted_spends request w w' posted =
        let state : w'.0 ≡ (session_handler env w.0 request (readings w.1)).0 =
          ap (λ (x : (PeerState × ℕ) × Result LoginError HttpResponse). x.0.0)
            (sym posted ∙ post-reference request w) in
        rw state (
          rw (session-challenges env w.0 request (readings w.1))
            (validate_consumes w.0.challenges request.nonce (readings w.1).presented))

    -- the last request of a login spends its nonce
    login_spends :
        (web : Web) (signer : Signer (PeerState × ℕ)) (w w' : PeerState × ℕ) (flow : LoginFlow)
        → login env web reference target signer w ≡ (w', ok flow)
        → get flow.session_request.nonce w'.0.challenges.challenges ≡ none
    unfolding login
    login_spends web signer w w' flow h =
        let (w1, challenge, fetched, h1) =
          and_then-eq-ok (fetch_challenge reference target signer.signer_did w) _ h in
        let (w2, request, signed, h2) =
          and_then-eq-ok (sign_challenge env web challenge signer w1) _ h1 in
        let (w3, response, posted, h3) =
          and_then-eq-ok (post_session reference target request w2) _ h2 in
        let (last, flow_is) = returned-eq-ok h3 in
        ap (λ (f : LoginFlow). get f.session_request.nonce w'.0.challenges.challenges) (sym flow_is)
        ∙ ap (λ (v : PeerState × ℕ). get request.nonce v.0.challenges.challenges) (sym last)
        ∙ posted_spends request w2 w3 posted

    -- a request with a spent nonce is answered with 404, and that is no session
    replay_refused :
        (request : SessionRequest) (w : PeerState × ℕ)
        → get request.nonce w.0.challenges.challenges ≡ none
        → post_session reference target request w ≡ (
          ((session_handler env w.0 request (readings w.1)).0, suc w.1),
          ok (record { status = 404; text = []; json = none }),
        )
    unfolding session_response status_code
    replay_refused request w absent =
        let build : PeerState × Result Status SessionResponse
            → (PeerState × ℕ) × Result LoginError HttpResponse =
          λ x. (
            ((session_handler env w.0 request (readings w.1)).0, suc w.1),
            ok (session_response x.1),
          ) in
        post-reference request w ∙ ap build (handled_unknown env w.0 request (readings w.1) absent)

    -- the case behind its login
    abbrev after_login : LoginFlow → PeerState × ℕ → (PeerState × ℕ) × Result Stop Outcome
    after_login flow w1 =
        and_then (w1, guard (session_accepted flow.session_response) skipped)
          (λ u w2.
            and_then (stopped failed (post_session reference target flow.session_request w2))
              (λ replay w3. (w3, ok (verdict_on replay))))

    conforms_after :
        (m : (PeerState × ℕ) × Result LoginError LoginFlow)
        → ((w' : PeerState × ℕ) (flow : LoginFlow)
            → m ≡ (w', ok flow)
            → get flow.session_request.nonce w'.0.challenges.challenges ≡ none)
        → (settled (and_then (stopped skipped m) after_login)).1 ≢ fail
    unfolding settled stopped outcome_of verdict_on session_accepted is_success
    conforms_after (v, err e) spent = λ h. ground (arith, h)
    conforms_after (v, ok flow) spent = elim (Bool-cases (session_accepted flow.session_response)) [
      | inr refused ↦ rw (refused, settled) (λ h. ground (arith, h))
      | inl accepted ↦
          let refused = replay_refused flow.session_request v (spent v flow refl) in
          rw (accepted, refused, settled) (λ h. ground (arith, h))
    ]

    -- The reference server does not fail the single-use case, whatever its state is, whatever its
    -- handlers read, and whichever signer logs in: the case passes, or the login did not succeed.
    pub single_use_conforms :
        (web : Web) (signer : Signer (PeerState × ℕ)) (w : PeerState × ℕ)
        → (spec_7_3_nonce_single_use env web reference target signer w).1 ≢ fail
    unfolding spec_7_3_nonce_single_use
    single_use_conforms web signer w =
        conforms_after (login env web reference target signer w) (login_spends web signer w)

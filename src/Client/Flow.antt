-- ===== src/Client/Flow.antt =====
-- What a login of src/client.rs that succeeds went through, and how often the client calls.
use aqua_auth.Prelude.{
  ◌≡◌, ◌↔◌, inl, inr, refl, sym, ap, ◌∙◌, some, ok, arith, answered, returned-eq-ok, answered-eq-ok,
  and_then-eq-ok, Result-cases,
}
use aqua_auth.Env.{Env}
use aqua_auth.Text.{Text, Bytes}
use aqua_auth.Session.Backend.{Session}
use aqua_auth.WebAuthn.Web.{Web}
use aqua_auth.Client.{
  ChallengeEnvelope, SessionRequest, SessionResponse, Signer, Http, sign_failed, check_challenge,
  signed_session_request, request_of, challenge_url, session_url, session_of, authenticate,
}
use aqua_auth.Client.Binding.{IsBound, HasPlainSchemes, check_challenge_iff}

-- A login: the challenge that was asked for is bound, is signed and is exchanged for the session.
pub record IsLogin {W Request : Type 0} (env : Env) (web : Web) (http : Http W Request)
    (base_url : Text) (signer : Signer W) (w w' : W) (session : Session) : Type 0 where
  pub asked : W
  pub envelope : ChallengeEnvelope
  pub signed : W
  pub sig_bytes : Bytes
  pub resp : SessionResponse
  pub challenged :
      http.get_challenge (challenge_url base_url signer.signer_did) w ≡ (asked, some envelope)
  pub bound : IsBound env web signer.signer_did base_url envelope.message
  pub signature : signer.sign envelope.message asked ≡ (signed, some sig_bytes)
  pub posted :
      http.post_session (session_url base_url) (request_of env web envelope signer sig_bytes) signed
      ≡ (w', some resp)
  pub session_eq : session ≡ session_of resp

-- A request that is signed: the checks passed, and the signer answered.
signed-eq-ok :
    {W : Type 0} (env : Env) (web : Web) (envelope : ChallengeEnvelope) (base_url : Text)
    (signer : Signer W) (w : W) {w' : W} {req : SessionRequest}
    → signed_session_request env web envelope base_url signer w ≡ (w', ok req)
    → (sig : Bytes) × (check_challenge env web signer.signer_did base_url envelope.message ≡ ok tt)
      × (signer.sign envelope.message w ≡ (w', some sig))
      × (req ≡ request_of env web envelope signer sig)
unfolding signed_session_request
signed-eq-ok env web envelope base_url signer w h =
    elim (Result-cases (check_challenge env web signer.signer_did base_url envelope.message)) [
      | inr (e, refused) ↦
          absurd (ground (arith, ap (λ x. x.1) (rw (signed_session_request, refused) at h)))
      | inl (u, passed) ↦
          let (w2, sig, e, same) =
            and_then-eq-ok (answered sign_failed (signer.sign envelope.message w)) _
              (rw (signed_session_request, passed) at h) in
          let (world, value) = returned-eq-ok same in
          (sig, passed, answered-eq-ok _ _ e ∙ ap (λ v. (v, some sig)) world, sym value)
    ]

module _ {W Request : Type 0} (env : Env) (web : Web) (http : Http W Request) (base_url : Text)
    (signer : Signer W) (w w' : W) (session : Session) where
  went :
      HasPlainSchemes web
      → authenticate env web http base_url signer w ≡ (w', ok session)
      → IsLogin env web http base_url signer w w' session
  unfolding authenticate
  went plain h =
      let (w1, envelope, e1, h1) = and_then-eq-ok (answered _ (http.get_challenge _ w)) _ h in
      let (w2, req, e2, h2) =
        and_then-eq-ok (signed_session_request env web envelope base_url signer w1) _ h1 in
      let (w3, resp, e3, h3) =
        and_then-eq-ok (answered _ (http.post_session (session_url base_url) req w2)) _ h2 in
      let (sig, passed, e4, req_eq) = signed-eq-ok env web envelope base_url signer w1 e2 in
      let (world, value) = returned-eq-ok h3 in
      let post_eq = answered-eq-ok _ _ e3 ∙ ap (λ v. (v, some resp)) world in
      record {
        asked = w1;
        envelope = envelope;
        signed = w2;
        sig_bytes = sig;
        resp = resp;
        challenged = answered-eq-ok _ _ e1;
        bound =
            (check_challenge_iff env web signer.signer_did base_url envelope.message plain).0
              passed;
        signature = e4;
        posted = rw (sym req_eq) post_eq;
        session_eq = sym value;
      }

  goes :
      HasPlainSchemes web
      → IsLogin env web http base_url signer w w' session
      → authenticate env web http base_url signer w ≡ (w', ok session)
  unfolding authenticate signed_session_request
  goes plain l =
      let e1 = l.challenged in
      let e2 =
        (check_challenge_iff env web signer.signer_did base_url l.envelope.message plain).1
          l.bound in
      let e3 = l.signature in
      let e4 = l.posted in
      let e5 = l.session_eq in rw (authenticate, signed_session_request, e1, e2, e3, e4, e5) refl

  -- `authenticate` gives a session exactly at the end of a login: the challenge that came back names
  -- the signer's identifier and the origin that was dialed, the signer signed it, and the server
  -- gave the session for it. No scheme starts with `<`.
  pub authenticate-IsLogin :
      HasPlainSchemes web
      → (authenticate env web http base_url signer w ≡ (w', ok session))
        ↔ IsLogin env web http base_url signer w w' session
  authenticate-IsLogin plain = (went plain, goes plain)

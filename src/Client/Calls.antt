-- ===== src/Client/Calls.antt =====
-- How often `AuthSession::send` of src/client.rs calls the server.
use aqua_auth.Prelude.{
  ℕ, ◌+◌, ◌≤◌, inl, inr, Option, none, some, Result, ok, err, arith, Result-cases, answered,
  and_then, ◌==◌, Bool-cases,
}
use aqua_auth.Env.{Env}
use aqua_auth.Text.{Text}
use aqua_auth.WebAuthn.Web.{Web}
use aqua_auth.Client.{
  ChallengeEnvelope, SessionRequest, Signer, Http, AuthClientError, sign_failed, check_challenge,
  signed_session_request, authenticate, challenge_url, session_url,
}
use aqua_auth.Client.AuthSession.{AuthSession, attempt, retry, send}

-- A count of the calls: each call of the server adds at most one, and the signer adds none.
pub record IsCount {W Request : Type 0} (http : Http W Request) (signer : Signer W) (count : W → ℕ)
    : Type 0 where
  pub get_adds : (url : Text) (w : W) → count (http.get_challenge url w).0 ≤ count w + 1
  pub post_adds :
      (url : Text) (req : SessionRequest) (w : W)
      → count (http.post_session url req w).0 ≤ count w + 1
  pub send_adds : (r : Request) (w : W) → count (http.send r w).0 ≤ count w + 1
  pub sign_adds : (t : Text) (w : W) → count (signer.sign t w).0 ≤ count w

module _ {W : Type 0} (count : W → ℕ) where
  count-answered : {E A : Type 0} (e : E) (m : W × Option A) → count (answered e m).0 ≤ count m.0
  count-answered e (w, none) = omega arith
  count-answered e (w, some a) = omega arith

  count-and_then :
      {E A B : Type 0} (m : W × Result E A) (next : A → W → W × Result E B) (n k total : ℕ)
      → n + k ≤ total
      → count m.0 ≤ n
      → ((a : A) (w : W) → count (next a w).0 ≤ count w + k)
      → count (and_then m next).0 ≤ total
  count-and_then (w, err e) next n k total fits h step = omega (arith, h, fits)
  count-and_then (w, ok a) next n k total fits h step = omega (arith, h, fits, step a w)

module _ {W Request : Type 0} (env : Env) (web : Web) (http : Http W Request) (signer : Signer W)
    (count : W → ℕ) (counts : IsCount http signer count) where
  count-signed :
      (envelope : ChallengeEnvelope) (base_url : Text) (w : W)
      → count (signed_session_request env web envelope base_url signer w).0 ≤ count w + 0
  unfolding signed_session_request
  count-signed envelope base_url w =
      count-and_then count (w, check_challenge env web _ base_url envelope.message) _ (count w) 0
        (count w + 0) (omega arith) (omega arith)
        (λ u w1.
          count-and_then count (answered sign_failed (signer.sign envelope.message w1)) _ (count w1)
            0 (count w1 + 0) (omega arith)
            (omega (
              arith,
              count-answered count sign_failed (signer.sign envelope.message w1),
              counts.sign_adds envelope.message w1,
            ))
            (λ sig w2. omega arith))

  count-authenticate :
      (base_url : Text) (w : W)
      → count (authenticate env web http base_url signer w).0 ≤ count w + 2
  unfolding authenticate
  count-authenticate base_url w =
      count-and_then count
        (answered AuthClientError.http
          (http.get_challenge (challenge_url base_url signer.signer_did) w))
        _ (count w + 1) 1 (count w + 2) (omega arith)
        (omega (
          arith,
          count-answered count AuthClientError.http
              (http.get_challenge (challenge_url base_url signer.signer_did) w),
          counts.get_adds (challenge_url base_url signer.signer_did) w,
        ))
        (λ envelope w1.
          count-and_then count (signed_session_request env web envelope base_url signer w1) _
            (count w1) 1 (count w1 + 1) (omega arith)
            (omega (arith, count-signed envelope base_url w1))
            (λ req w2.
              count-and_then count
                (answered AuthClientError.http (http.post_session (session_url base_url) req w2)) _
                (count w2 + 1) 0 (count w2 + 1) (omega arith)
                (omega (
                  arith,
                  count-answered count AuthClientError.http
                      (http.post_session (session_url base_url) req w2),
                  counts.post_adds (session_url base_url) req w2,
                ))
                (λ resp w3. omega arith)))

  module _ (build : Text → Text → Request) where
    count-attempt :
        (a : AuthSession) (w : W) → count (attempt env web http signer build a w).0 ≤ count w + 1
    unfolding attempt
    count-attempt a w = omega (
      arith,
      count-answered count AuthClientError.http (http.send (build a.base_url a.session.token) w),
      counts.send_adds (build a.base_url a.session.token) w,
    )

    count-retry :
        (a : AuthSession) (w : W) → count (retry env web http signer build a w).0 ≤ count w + 3
    unfolding retry
    count-retry a w =
        let (w1, login) = authenticate env web http a.base_url signer w in
        let calls = count-authenticate a.base_url w in
        elim (Result-cases (authenticate env web http a.base_url signer w).1) [
          | inr (e, failed) ↦ rw (retry, failed) (omega (arith, calls))
          | inl (session, logged_in) ↦
              rw (retry, logged_in)
                (omega (
                  arith,
                  calls,
                  count-attempt (record a { session = session })
                      (authenticate env web http a.base_url signer w).0,
                ))
        ]

    -- `send` calls the server at most four times: the request, the two calls of one login, and the
    -- request once more.
    pub send_calls :
        (a : AuthSession) (w : W) → count (send env web http signer build a w).0 ≤ count w + 4
    unfolding send
    send_calls a w =
        let w1 = (attempt env web http signer build a w).0 in
        let first = count-attempt a w in
        elim (Result-cases (attempt env web http signer build a w).1) [
          | inr (e, failed) ↦ rw (send, failed) (omega (arith, first))
          | inl (response, answered_eq) ↦ elim (Bool-cases (response.0 == 401)) [
            | inl again ↦ rw (send, answered_eq, again) (omega (arith, first, count-retry a w1))
            | inr done ↦ rw (send, answered_eq, done) (omega (arith, first))
          ]
        ]

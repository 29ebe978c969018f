-- ===== src/Client/AuthSession.antt =====
-- `AuthSession` of src/client.rs: a session that logs in again when the server has forgotten it.
use aqua_auth.Prelude.{ℕ, Result, ok, err, if◌then◌else◌, ◌==◌, answered, and_then}
use aqua_auth.Env.{Env}
use aqua_auth.Text.{Text, Bytes}
use aqua_auth.Session.Backend.{Session}
use aqua_auth.WebAuthn.Web.{Web}
use aqua_auth.Client.{Signer, Http, AuthClientError, authenticate}

pub record AuthSession : Type 0 where
  pub base_url : Text
  pub session : Session

abbrev pub unauthorized : ℕ
unauthorized = 401

module _ (env : Env) (web : Web) {W Request : Type 0} (http : Http W Request)
    (signer : Signer W) where
  unfoldable pub login : Text → W → W × Result AuthClientError AuthSession
  login base_url w =
      and_then (authenticate env web http base_url signer w)
        (λ session w1. (w1, ok (record { base_url = base_url; session = session })))

  -- `build` is given the base URL and the token
  module _ (build : Text → Text → Request) where
    -- one attempt with the token of the session
    unfoldable pub attempt : AuthSession → W → W × Result AuthClientError (ℕ × Bytes)
    attempt a w = answered AuthClientError.http (http.send (build a.base_url a.session.token) w)

    -- the login after a refusal, and the request once more
    unfoldable pub retry : AuthSession → W → W × AuthSession × Result AuthClientError (ℕ × Bytes)
    unfolding attempt
    retry a w =
        let (w1, login) = authenticate env web http a.base_url signer w in
        elim login [
          | err e ↦ (w1, a, err e)
          | ok session ↦
              let a' = record a { session = session } in
              let (w2, answer) = attempt a' w1 in (w2, a', answer)
        ]

    unfoldable pub send : AuthSession → W → W × AuthSession × Result AuthClientError (ℕ × Bytes)
    unfolding attempt retry
    send a w =
        let (w1, first) = attempt a w in
        elim first [
          | err e ↦ (w1, a, err e)
          | ok response ↦
              let again = retry a w1 in
              if response.0 == unauthorized then again else (w1, a, ok response)
        ]

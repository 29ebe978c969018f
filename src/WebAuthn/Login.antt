-- ===== src/WebAuthn/Login.antt =====
-- src/login_challenge.rs: the login challenge that a node derives from its nonce and its origin.
use aqua_auth.Prelude.{◌||◌, ◌++◌, Result, ok, ◌>>=◌, ◌>>◌, ok_or, guard}
use aqua_auth.Env.{Env}
use aqua_auth.Text.{Text, Bytes, codes, text_eq, as_bytes}
use aqua_auth.WebAuthn.Web.{Web, Url}

abbrev pub login_challenge_tag : Bytes
login_challenge_tag = codes "aqua-auth/webauthn-login/v1"

pub data LoginChallengeError : Type 0 where
  invalid_url : LoginChallengeError
  unsupported_scheme : Text → LoginChallengeError

-- A node URL is `http` or `https`.
unfoldable pub node_url_of : Web → Text → Result LoginChallengeError Url
node_url_of web node_url = do
  url ← ok_or (web.parse_url node_url) LoginChallengeError.invalid_url
  guard (text_eq url.scheme (codes "http") || text_eq url.scheme (codes "https"))
      (unsupported_scheme url.scheme)
  ok url

unfoldable pub derive_login_challenge : Env → Web → Bytes → Text → Result LoginChallengeError Bytes
derive_login_challenge env web nonce node_url = do
  url ← node_url_of web node_url
  ok (env.sha256 (login_challenge_tag ++ nonce ++ as_bytes url.origin))

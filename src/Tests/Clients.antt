-- ===== src/Tests/Clients.antt =====
-- The client: a toy server and signer whose world is the number of calls, and witnesses.
use aqua_auth.Prelude.{
  ℕ, ◌+◌, ◌≤◌, ◌≡◌, ◌↔◌, ◌⊎◌, refl, ap, sym, Bool, false, [], ◌∷◌, ◌++◌, Option, none, some, ok,
  err, arith,
}
use aqua_auth.Text.{Text, codes, starts_with}
use aqua_auth.Did.Parse.{identifier_from_message}
use aqua_auth.WebAuthn.Web.{Url}
use aqua_auth.Client.{
  ChallengeEnvelope, SessionResponse, Signer, Http, AuthClientError, session_of, urlencoded,
  challenge_url, session_url, find_uri, non_empty, uri_line, origin_text, origin_of, client_origin,
  message_origin, verify_uri_binding, expected_identifier, check_challenge, hex_text, hex_option,
  request_of, signed_session_request, authenticate,
}
use aqua_auth.Client.AuthSession.{AuthSession, attempt, retry, send}
use aqua_auth.Client.Binding.{IsBound, signed_session_request-IsBound}
use aqua_auth.Client.Flow.{IsLogin, authenticate-IsLogin}
use aqua_auth.Message.{MessageParams, message_text, build_message}
use aqua_auth.Did.Method.{Method, find_did_method, address_for_message, method_label}
use aqua_auth.Client.Served.{IsPresentable, first_line, served_challenge_signed}
use aqua_auth.Client.Calls.{IsCount, send_calls}
use aqua_auth.Tests.Toy.{seconds, toy, ed25519_did, replicate}
use aqua_auth.Tests.Passkeys.{passkeys, web}

unfoldable clients : Unit {0}
unfolding passkeys starts_with identifier_from_message session_of urlencoded challenge_url
    session_url find_uri non_empty uri_line origin_text origin_of client_origin message_origin
    verify_uri_binding expected_identifier check_challenge hex_text hex_option request_of
    signed_session_request authenticate attempt retry send
clients = tt

abbrev scheme_test : Option Url → Bool
scheme_test none = false
scheme_test (some u) = starts_with (codes "<") u.scheme

-- no scheme starts with `<`
plain_schemes :
    (t : Text) (u : Url) → web.parse_url t ≡ some u → starts_with (codes "<") u.scheme ≡ false
unfolding clients
plain_schemes t u h = ap scheme_test (sym h)

abbrev message : Text
message =
    codes "a.example wants you to sign in with your Ed25519 account:\nz"
    ++ (0xed ∷ 0x01 ∷ replicate 32 b'k' ++ codes "\n\nURI: https://login.a.example\n")

abbrev envelope : ChallengeEnvelope
envelope = record { nonce = codes "n"; message = message; expires_at = 60 }

-- one more call is one more in the world
abbrev signer : Signer ℕ
signer = record {
  signer_did = ed25519_did;
  sign = λ t w. (w, some (codes "sig"));
  public_key = none;
}

abbrev response : SessionResponse
response = record { did = ed25519_did; token = codes "t"; valid_until = 90; created_at = 30 }

-- the server has forgotten every session
abbrev server : Http ℕ Text
server = record {
  get_challenge = λ url w. (w + 1, some envelope);
  post_session = λ url req w. (w + 1, some response);
  send = λ r w. (w + 1, some (401, []));
}

logs_in :
    authenticate toy web server (codes "https://login.a.example") signer 0
    ≡ (2, ok (session_of response))
unfolding clients
logs_in = refl

signed_session_request-IsBound_example :
    ((e : AuthClientError) × (signed_session_request toy web envelope
          (codes "https://login.a.example")
          signer
          1
        ≡ (1, err e)))
    ⊎ IsBound toy web ed25519_did (codes "https://login.a.example") message
signed_session_request-IsBound_example =
    signed_session_request-IsBound toy web plain_schemes envelope (codes "https://login.a.example")
      signer 1

authenticate-IsLogin_example :
    (authenticate toy web server (codes "https://login.a.example") signer 0
      ≡ (2, ok (session_of response)))
    ↔ IsLogin toy web server (codes "https://login.a.example") signer 0 2 (session_of response)
authenticate-IsLogin_example =
    authenticate-IsLogin toy web server (codes "https://login.a.example") signer 0 2
      (session_of response) plain_schemes

counts : IsCount server signer (λ w. w)
counts = record {
  get_adds = λ url w. omega arith;
  post_adds = λ url req w. omega arith;
  send_adds = λ r w. omega arith;
  sign_adds = λ t w. omega arith;
}

abbrev session : AuthSession
session = record { base_url = codes "https://login.a.example"; session = session_of response }

send_calls_example : (send toy web server signer (λ url token. token) session 0).0 ≤ 0 + 4
send_calls_example = send_calls toy web server signer (λ w. w) counts (λ url token. token) session 0

abbrev offer : MessageParams ℕ
offer = record {
  did = ed25519_did;
  domain = codes "a.example";
  uri = codes "https://login.a.example";
  nonce = codes "n";
  issued_at = 100;
  expiration_time = 160;
}

abbrev identifier : Text
identifier = b'z' ∷ 0xed ∷ 0x01 ∷ replicate 32 b'k'

abbrev offered : ChallengeEnvelope
offered = record {
  nonce = codes "n";
  message = message_text seconds offer (codes "Ed25519") identifier [];
  expires_at = 160;
}

presentable :
    IsPresentable
      (first_line (codes "a.example") (codes "Ed25519"))
      identifier
      (codes "https://login.a.example")
unfolding clients
presentable = record {
  first_IsLine = refl;
  first_plain = refl;
  identifier_IsWord = (refl, λ e. ground (arith, e));
  identifier_plain = refl;
  uri_IsWord = (refl, λ e. ground (arith, e));
}

finds : find_did_method toy ed25519_did ≡ some Method.key
unfolding clients
finds = refl

addresses : address_for_message toy Method.key ed25519_did ≡ ok identifier
unfolding clients
addresses = refl

labels : method_label toy Method.key ed25519_did ≡ ok (codes "Ed25519")
unfolding clients
labels = refl

builds : build_message toy seconds offer ≡ ok offered.message
unfolding clients
builds = refl

same_origin :
    origin_of web (codes "https://login.a.example") ≡ some (codes "https://login.a.example:443")
unfolding clients
same_origin = refl

served_challenge_signed_example :
    signed_session_request toy web offered (codes "https://login.a.example") signer 0
    ≡ (0, ok (request_of toy web offered signer (codes "sig")))
served_challenge_signed_example =
    served_challenge_signed toy web seconds offer Method.key identifier (codes "Ed25519")
      (codes "https://login.a.example:443") (codes "https://login.a.example") offered signer 0 0
      (codes "sig") plain_schemes finds addresses labels presentable builds refl same_origin
      same_origin refl

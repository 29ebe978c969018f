-- ===== src/Client.antt =====
-- src/client.rs and the records of src/wire.rs. What the client talks to is a world of type `W`:
-- the calls of `reqwest` and the signer are functions that return the new world. A call that fails
-- on the way, with an error status or with a body that does not parse is `none`.
pub mod AuthSession
pub mod Binding
pub mod Flow
pub mod Calls
pub mod Served
pub mod LocalKey
use aqua_auth.Prelude.{
  ℕ, Bool, not, List, [], ◌∷◌, ◌++◌, Option, none, some, Result, ok, err, ◌>>=◌, ◌>>◌, ok_or, guard,
  map_err, if◌then◌else◌, ◌==◌, answered, and_then,
}
use aqua_auth.Env.{Env}
use aqua_auth.Errors.{CryptoError, AuthError, crypto, unsupported_method}
use aqua_auth.Text.{
  Text, Bytes, codes, text_eq, strip_prefix, trim, trim_end_matches, to_ascii_lowercase,
}
use aqua_auth.Text.Decimal.{decimal}
use aqua_auth.Text.Ends.{pieces, replace_char}
use aqua_auth.Did.Method.{find_did_method, address_for_message}
use aqua_auth.Did.Parse.{identifier_from_message}
use aqua_auth.Session.Backend.{Session}
use aqua_auth.WebAuthn.Web.{Web, Url}

pub record ChallengeEnvelope : Type 0 where
  pub nonce : Text
  pub message : Text
  pub expires_at : ℕ

pub record SessionRequest : Type 0 where
  pub did : Text
  pub nonce : Text
  pub signature : Text
  pub public_key : Option Text

pub record SessionResponse : Type 0 where
  pub did : Text
  pub token : Text
  pub valid_until : ℕ
  pub created_at : ℕ

-- `Session` from the answer
unfoldable pub session_of : SessionResponse → Session
session_of resp = record {
  did = resp.did;
  token = resp.token;
  valid_until = resp.valid_until;
  created_at = resp.created_at;
}

-- `Signer` of src/signer.rs, which may wait for a service or a person; `none` is a `SignError`.
pub record Signer (W : Type 0) : Type 0 where
  pub signer_did : Text
  pub sign : Text → W → W × Option Bytes
  pub public_key : Option Bytes

-- `reqwest` with the server behind it. `send` takes a request of the caller and gives the status
-- and the body of the response.
pub record Http (W : Type 0) (Request : Type 0) : Type 0 where
  pub get_challenge : Text → W → W × Option ChallengeEnvelope
  pub post_session : Text → SessionRequest → W → W × Option SessionResponse
  pub send : Request → W → W × Option (ℕ × Bytes)

pub data AuthClientError : Type 0 where
  http sign_failed : AuthClientError
  auth : AuthError → AuthClientError
  message_identifier_mismatch uri_origin_mismatch : Text → Text → AuthClientError

unfoldable pub urlencoded : Text → Text
urlencoded s = replace_char b':' (codes "%3A") s

unfoldable pub challenge_url : Text → Text → Text
challenge_url base_url did = base_url ++ codes "/auth/challenge?did=" ++ urlencoded did

unfoldable pub session_url : Text → Text
session_url base_url = base_url ++ codes "/auth/session"

-- `find_map` on the lines
unfoldable pub find_uri : List Text → Option Text
find_uri [] = none
find_uri (line ∷ lines) =
    let later = find_uri lines in
    elim (strip_prefix (codes "URI:") (trim_end_matches (λ c. c == b'\r') line)) [
      | some rest ↦ some rest
      | none ↦ later
    ]

-- `filter(|uri| !uri.is_empty())`
unfoldable pub non_empty : Text → Option Text
non_empty [] = none
non_empty (c ∷ s) = some (c ∷ s)

unfoldable pub uri_line : Text → Option Text
uri_line message = elim (find_uri (pieces b'\n' message)) [
  | none ↦ none
  | some rest ↦ non_empty (trim rest)
]

-- `scheme://host`, with the port if there is one
unfoldable pub origin_text : Text → Text → Option ℕ → Text
origin_text scheme host none = scheme ++ codes "://" ++ host
origin_text scheme host (some port) = scheme ++ codes "://" ++ host ++ codes ":" ++ decimal port

unfoldable pub origin_of : Web → Text → Option Text
origin_of web raw = elim (web.parse_url raw) [
  | none ↦ none
  | some url ↦ elim url.host [
    | none ↦ none
    | some host ↦ some (
        origin_text (to_ascii_lowercase url.scheme) (to_ascii_lowercase host)
          url.port_or_known_default)
  ]
]

-- the origin that the client dials, and the one that the message names, or a placeholder
unfoldable pub client_origin : Web → Text → Text
client_origin web base_url = elim (origin_of web base_url) [
  | none ↦ codes "<unparsable base_url: " ++ base_url ++ codes ">"
  | some origin ↦ origin
]

unfoldable pub message_origin : Web → Text → Text
message_origin web message = elim (uri_line message) [
  | none ↦ codes "<message missing URI line>"
  | some uri ↦ elim (origin_of web uri) [
    | none ↦ codes "<unparsable URI line: " ++ uri ++ codes ">"
    | some origin ↦ origin
  ]
]

unfoldable pub verify_uri_binding : Web → Text → Text → Result AuthClientError (Unit {0})
verify_uri_binding web message base_url =
    guard (text_eq (message_origin web message) (client_origin web base_url))
      (uri_origin_mismatch (message_origin web message) (client_origin web base_url))

module _ (env : Env) (web : Web) where
  -- the identifier that the message has to name
  unfoldable pub expected_identifier : Text → Result AuthClientError Text
  expected_identifier did = do
    method ← ok_or (find_did_method env did) (auth (crypto (unsupported_method did)))
    map_err (λ e. auth (crypto e)) (address_for_message env method did)

  -- the two checks before a message is signed
  unfoldable pub check_challenge : Text → Text → Text → Result AuthClientError (Unit {0})
  check_challenge did base_url message = do
    expected ← expected_identifier did
    actual ←
        ok_or (identifier_from_message message)
          (message_identifier_mismatch expected (codes "<message missing identifier line>"))
    guard (text_eq actual expected) (message_identifier_mismatch expected actual)
    verify_uri_binding web message base_url

  -- `format!("0x{}", hex::encode(bytes))`
  unfoldable pub hex_text : Bytes → Text
  hex_text bytes = codes "0x" ++ env.hex_encode bytes

  unfoldable pub hex_option : Option Bytes → Option Text
  unfolding hex_text
  hex_option none = none
  hex_option (some bytes) = some (hex_text bytes)

  module _ {W : Type 0} where
    unfoldable pub request_of : ChallengeEnvelope → Signer W → Bytes → SessionRequest
    request_of envelope signer sig_bytes = record {
      did = signer.signer_did;
      nonce = envelope.nonce;
      signature = hex_text sig_bytes;
      public_key = hex_option signer.public_key;
    }

    unfoldable pub signed_session_request :
        ChallengeEnvelope → Text → Signer W → W → W × Result AuthClientError SessionRequest
    signed_session_request envelope base_url signer w =
        and_then (w, check_challenge signer.signer_did base_url envelope.message)
          (λ u w1.
            and_then (answered sign_failed (signer.sign envelope.message w1))
              (λ sig_bytes w2. (w2, ok (request_of envelope signer sig_bytes))))

    module _ {Request : Type 0} (http : Http W Request) where
      unfoldable pub authenticate : Text → Signer W → W → W × Result AuthClientError Session
      authenticate base_url signer w =
          and_then
            (answered AuthClientError.http
              (http.get_challenge (challenge_url base_url signer.signer_did) w))
            (λ envelope w1. and_then (signed_session_request envelope base_url signer w1) (λ req w2.
              and_then
                (answered AuthClientError.http (http.post_session (session_url base_url) req w2))
                (λ resp w3. (w3, ok (session_of resp)))))

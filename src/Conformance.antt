-- ===== src/Conformance.antt =====
-- aqua-auth-testkit/src/conformance: the suite that judges a server by its answers: mod.rs, http.rs
-- and cases. The server is a world of type `W`. A body is what its members that are strings are, and
-- the text of a detail is left out.
pub mod Cases
pub mod Refused
pub mod Gate
pub mod Verdicts
pub mod Reference
pub mod Refusals
pub mod Malformed
use aqua_auth.Prelude.{
  ℕ, Bool, true, false, not, ◌&&◌, ◌||◌, List, [], ◌∷◌, ◌++◌, Option, none, some, Result, ok, err,
  ◌>>=◌, ◌>>◌, ok_or, guard, map_err, if◌then◌else◌, ltb, leb, ◌==◌, any, keep, answered, and_then,
}
use aqua_auth.Env.{Env}
use aqua_auth.Text.{Text, Bytes, codes, text_eq, strip_prefix, trim_end_matches, to_ascii_lowercase}
use aqua_auth.Text.Ends.{strip_suffix}
use aqua_auth.WebAuthn.Web.{Web, Url}
use aqua_auth.Client.{SessionRequest, Signer, hex_text, hex_option}

abbrev pub default_challenge_path : Text
default_challenge_path = codes "/auth/challenge"

abbrev pub default_session_path : Text
default_session_path = codes "/auth/session"

pub record Target : Type 0 where
  pub base_url : Text
  pub challenge_path : Text
  pub session_path : Text

pub data TargetError : Type 0 where
  parse missing_host : TargetError
  remote_not_allowed : Text → TargetError

-- what stands between brackets, or all of it
unfoldable pub unbracketed : Text → Text
unbracketed host = elim (strip_prefix (codes "[") host) [
  | none ↦ host
  | some inner ↦ elim (strip_suffix (codes "]") inner) [ none ↦ host | some ip ↦ ip ]
]

-- `ip_is_loopback` is `parse::<IpAddr>().map(|ip| ip.is_loopback()).unwrap_or(false)`
module _ (ip_is_loopback : Text → Bool) where
  unfoldable pub is_loopback_host : Text → Bool
  unfolding unbracketed
  is_loopback_host host =
      text_eq (to_ascii_lowercase host) (codes "localhost") || ip_is_loopback (unbracketed host)

  unfoldable pub check_host : Text → Bool → Result TargetError (Unit {0})
  check_host host allow_remote =
      guard (allow_remote || is_loopback_host host) (remote_not_allowed host)

  -- `Target::new`; the option is the environment variable
  unfoldable pub new_target : Web → Option Text → Text → Result TargetError Target
  new_target web allow_remote_env base_url = do
    parsed ← ok_or (web.parse_url base_url) TargetError.parse
    host ← ok_or parsed.host missing_host
    check_host host (elim allow_remote_env [ none ↦ false | some v ↦ text_eq v (codes "1") ])
    ok (record {
      base_url = trim_end_matches (λ c. c == b'/') base_url;
      challenge_path = default_challenge_path;
      session_path = default_session_path;
    })

abbrev pub with_paths : Target → Text → Text → Target
with_paths target challenge session = record target {
  challenge_path = challenge;
  session_path = session;
}

-- the URL of `get_challenge`, without its query, and that of `post_session`
unfoldable pub challenge_url : Target → Text
challenge_url target = target.base_url ++ target.challenge_path

unfoldable pub session_url : Target → Text
session_url target = target.base_url ++ target.session_path

pub data Outcome : Type 0 where
  pass fail skip : Outcome

-- `CaseResult`, without its detail
pub record CaseResult : Type 0 where
  pub id : Text
  pub spec_ref : Text
  pub title : Text
  pub outcome : Outcome

pub record Report : Type 0 where
  pub cases : List CaseResult

unfoldable pub is_fail : Outcome → Bool
is_fail fail = true
is_fail pass = false
is_fail skip = false

unfoldable pub passed : Report → Bool
unfolding is_fail
passed report = not (any (λ (c : CaseResult). is_fail c.outcome) report.cases)

unfoldable pub failures : Report → List CaseResult
unfolding is_fail
failures report = keep (λ (c : CaseResult). is_fail c.outcome) report.cases

-- `json` is `None` for a body that is no JSON
pub record HttpResponse : Type 0 where
  pub status : ℕ
  pub text : Text
  pub json : Option (Text → Option Text)

-- `StatusCode::is_success`
unfoldable pub is_success : HttpResponse → Bool
is_success response = leb 200 response.status && ltb response.status 300

-- `Http`: the requests of `reqwest` to the server behind it; `none` is an `HttpError`
pub record Http (W : Type 0) : Type 0 where
  pub get : Text → Text → W → W × Option HttpResponse
  pub post : Text → SessionRequest → W → W × Option HttpResponse

pub data LoginError : Type 0 where
  http sign : LoginError
  challenge_status challenge_shape : HttpResponse → LoginError

-- a member of a body that is a string
unfoldable pub string_member : Text → HttpResponse → Option Text
string_member name response = elim response.json [ none ↦ none | some body ↦ body name ]

module _ {W : Type 0} (http : Http W) where
  unfoldable pub fetch_challenge : Target → Text → W → W × Result LoginError HttpResponse
  unfolding challenge_url
  fetch_challenge target did w = answered LoginError.http (http.get (challenge_url target) did w)

  unfoldable pub post_session : Target → SessionRequest → W → W × Result LoginError HttpResponse
  unfolding session_url
  post_session target body w = answered LoginError.http (http.post (session_url target) body w)

-- the checks of `sign_challenge`: the message and the nonce
unfoldable pub signable : HttpResponse → Result LoginError (Text × Text)
unfolding is_success string_member
signable challenge = do
  guard (is_success challenge) (challenge_status challenge)
  message ← ok_or (string_member (codes "message") challenge) (challenge_shape challenge)
  nonce ← ok_or (string_member (codes "nonce") challenge) (challenge_shape challenge)
  ok (message, nonce)

-- the request that was sent, and the answer; the challenge, which no case reads, is left out
pub record LoginFlow : Type 0 where
  pub session_request : SessionRequest
  pub session_response : HttpResponse

module _ (env : Env) (web : Web) {W : Type 0} where
  unfoldable pub sign_challenge : HttpResponse → Signer W → W → W × Result LoginError SessionRequest
  sign_challenge challenge signer w =
      and_then (w, signable challenge)
        (λ offered w1. and_then (answered sign (signer.sign offered.0 w1)) (λ signature w2. (
          w2,
          ok (record {
            did = signer.signer_did;
            nonce = offered.1;
            signature = hex_text env web signature;
            public_key = hex_option env web signer.public_key;
          }),
        )))

  unfoldable pub login : Http W → Target → Signer W → W → W × Result LoginError LoginFlow
  login server target signer w =
      and_then (fetch_challenge server target signer.signer_did w) (λ challenge w1.
        and_then (sign_challenge challenge signer w1) (λ request w2.
          and_then (post_session server target request w2) (λ response w3.
            (w3, ok (record { session_request = request; session_response = response })))))

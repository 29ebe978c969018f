-- ===== src/Tests/Peers.antt =====
-- The reference server: a login from end to end on small inputs, and witnesses.
use aqua_auth.Prelude.{
  ℕ, ◌+◌, ◌-◌, ◌^◌, ◌<◌, ◌≤◌, ◌≡◌, ◌≢◌, ◌↔◌, refl, false, [], ◌∷◌, ◌++◌, Option, none, some, ok,
  err, map, arith, if◌then◌else◌, ltb, ap, List, get_elem?,
}
use aqua_auth.Prelude.Int.{pos}
use aqua_auth.Env.{Env}
use aqua_auth.Text.{Text, Bytes, codes, contains, text_eq}
use aqua_auth.Table.{get}
use aqua_auth.Challenge
use aqua_auth.HttpSig.Replay
use aqua_auth.Message.{message_text}
use aqua_auth.Did.Principal.{authenticate_with_public_key}
use aqua_auth.Session.InMemory.{in_memory}
use aqua_auth.Session.InMemory.Laws
use aqua_auth.Session.Store.{new_session, default_limits}
use aqua_auth.Client.{
  ChallengeEnvelope, SessionRequest, SessionResponse, Signer, request_of, hex_text, hex_option,
}
use aqua_auth.Peer.{
  AquaPeer, PeerState, Readings, Headers, Received, not_found, unauthorized, service_unavailable,
  in_memory_peer, after_scheme, authority, scheme_of, router, trim_0x, refusal, decoded,
  decoded_key, proven, envelope_of, response_of, challenge_handler, open_session, session_for,
  session_handler, header_str, bearer_token, whoami_handler, host_of, with_agent, received_parts,
  signed_parts, guard_after, sig_whoami_handler,
}
use aqua_auth.Peer.Login.{IsLogin, IsProven, session_handler-IsLogin, session_handler_refuses}
use aqua_auth.Peer.Router.{Request, get_challenge, post_session, get_whoami, serve, route, bodied}
use aqua_auth.Peer.Once.{exchanged_once}
use aqua_auth.Peer.Served.{IsHex, login_served}
use aqua_auth.Peer.Signed.{IsSigned, sig_whoami_handler-IsSigned, resent_refused}
use aqua_auth.Tests.Toy.{toy, seconds, ed25519_did, replicate}
use aqua_auth.Tests.Passkeys.{web}
use aqua_auth.Tests.Directories.{directories, json}
use aqua_auth.Tests.Requests.{fields, header}

unfoldable pub peers : Unit {0}
unfolding directories in_memory_peer after_scheme authority scheme_of router trim_0x refusal decoded
    decoded_key proven envelope_of response_of challenge_handler open_session session_for
    session_handler header_str bearer_token whoami_handler host_of with_agent received_parts
    signed_parts guard_after sig_whoami_handler serve route bodied request_of hex_text hex_option
    Challenge.with_capacity Replay.with_capacity default_limits
peers = tt

-- one letter for each byte, and none of them an `x`
abbrev pub shifted : Bytes → Text
shifted = map (λ c. c + 1000)

abbrev shifted_back : Text → Bytes
shifted_back = map (λ c. c - 1000)

abbrev pub hexed : Env
hexed = record toy { hex_encode = shifted; hex_decode = λ t. some (shifted_back t) }

shifted-back : (b : Bytes) → shifted_back (shifted b) ≡ b
shifted-back [] = refl
shifted-back (c ∷ b) = ground (arith, shifted-back b)

shifted-no_x : (b : Bytes) → contains b'x' (shifted b) ≡ false
unfolding contains
shifted-no_x [] = refl
shifted-no_x (c ∷ b) = ground (arith, shifted-no_x b)

hex : IsHex hexed
hex = record { round_trip = λ b. ap some (shifted-back b); digits = shifted-no_x }

abbrev peer : AquaPeer
peer = in_memory_peer hexed (codes "a.example") (codes "https://login.a.example") 60 ed25519_did

authority_named : authority peer ≡ codes "login.a.example"
unfolding peers
authority_named = refl

abbrev pub state : PeerState
state = router peer

abbrev pub readings : Readings ℕ
readings = record {
  nonce_bytes = 7 ∷ [];
  token_bytes = 9 ∷ [];
  challenges_swept = 100;
  issued = 100;
  presented = 110;
  sessions_swept = 110;
  created = 110;
  shown = 120;
  verified = pos 1010;
  rendered = 120;
}

abbrev envelope : ChallengeEnvelope
envelope = record {
  nonce = codes "0x" ++ 1007 ∷ [];
  message =
      message_text seconds
        (record {
          did = ed25519_did;
          domain = codes "a.example";
          uri = codes "https://login.a.example";
          nonce = codes "0x" ++ 1007 ∷ [];
          issued_at = 100;
          expiration_time = 160;
        })
        (codes "Ed25519") (b'z' ∷ 0xed ∷ 0x01 ∷ replicate 32 b'k') [];
  expires_at = 160;
}

offered : (challenge_handler hexed seconds state (some ed25519_did) readings).1 ≡ ok envelope
unfolding peers
offered = refl

abbrev pub signature : Bytes
signature = replicate 64 1

abbrev pub signer : Signer ℕ
signer = record { signer_did = ed25519_did; sign = λ t w. (w, some signature); public_key = none }

accepted :
    authenticate_with_public_key hexed ed25519_did envelope.message signature none
    ≡ ok (record { did = ed25519_did })
unfolding peers
accepted = refl

-- the headers of a request by name
abbrev one_header : Text → Text → Headers
one_header name value = λ n. if text_eq n name then some value else none

abbrev bearer : Headers
bearer = one_header (codes "authorization") (codes "Bearer " ++ shifted (9 ∷ []))

abbrev to_str : Bytes → Option Text
to_str = λ b. some b

carried :
    header_str to_str bearer (codes "authorization") ≡ some (codes "Bearer " ++ shifted (9 ∷ []))
unfolding peers
carried = refl

no_sessions : Laws.IsValid state.sessions
unfolding peers
no_sessions = record { unique = tt; keyed = tt }

room : in_memory.len (in_memory.purge_expired 110 state.sessions).0 < state.limits.max_sessions
unfolding peers
room = omega arith

fits : 110 + state.limits.ttl_secs < 2 ^ 64
unfolding peers
fits = omega arith

abbrev challenged : PeerState
challenged = (challenge_handler hexed seconds state (some ed25519_did) readings).0

abbrev request : SessionRequest
request = request_of hexed web envelope signer signature

abbrev logged_in : PeerState
logged_in = (session_handler hexed challenged request readings).0

login_served_example :
    ((session_handler hexed challenged request readings).1
      ≡ ok (response_of (new_session hexed state.limits ed25519_did (9 ∷ []) 110)))
    × ((whoami_handler to_str logged_in bearer readings).1
        ≡ (if ltb 120 (110 + state.limits.ttl_secs) then ok ed25519_did else err unauthorized))
login_served_example =
    login_served hexed hex web seconds to_str state signer readings readings readings envelope
      signature bearer offered accepted (omega arith) no_sessions room fits carried

abbrev response : SessionResponse
response = response_of (new_session hexed state.limits ed25519_did (9 ∷ []) 110)

session_handler-IsLogin_example :
    ((session_handler hexed challenged request readings).1 ≡ ok response)
    ↔ IsLogin hexed challenged request readings response
session_handler-IsLogin_example = session_handler-IsLogin hexed challenged request readings response

session_handler_refuses_example :
    (((session_handler hexed challenged request readings).1 ≡ err not_found)
      ↔ (get request.nonce challenged.challenges.challenges ≡ none))
    × (((session_handler hexed challenged request readings).1 ≡ err service_unavailable) ↔ (
        IsProven hexed challenged request readings
        × (challenged.limits.max_sessions
            ≤ in_memory.len (in_memory.purge_expired 110 challenged.sessions).0)))
session_handler_refuses_example = session_handler_refuses hexed challenged request readings

abbrev redrawn : Readings ℕ
redrawn = record readings { nonce_bytes = 8 ∷ [] }

-- a request under the token and one for another challenge
abbrev between : List (Request × Readings ℕ)
between =
    (get_whoami bearer, readings)
    ∷ (get_challenge (some ed25519_did), redrawn)
    ∷ (post_session request, readings)
    ∷ []

other_nonce : codes "0x" ++ hexed.hex_encode redrawn.nonce_bytes ≢ request.nonce
unfolding peers
other_nonce = λ e. ground (arith, ap (λ (t : Text). get_elem? t 2) e)

exchanged_once_example :
    (session_handler hexed
      (serve hexed fields json to_str seconds between logged_in)
      request
      readings).1
    ≡ err not_found
exchanged_once_example =
    exchanged_once hexed fields json to_str seconds challenged request request readings readings
      between refl (tt, (other_nonce, (tt, tt)))

abbrev signed : Headers
signed = λ n.
    if text_eq n (codes "host")
    then some (codes "a.b")
    else if text_eq n (codes "signature-input")
    then some (codes "i")
    else if text_eq n (codes "signature")
    then some header
    else none

abbrev signed_request : Received
signed_request = record {
  method = codes "GET";
  path = codes "/sig/whoami";
  uri_authority = none;
  headers = signed;
}

signed_accepted :
    (sig_whoami_handler to_str toy fields state signed_request readings).1 ≡ ok ed25519_did
unfolding peers
signed_accepted = refl

sig_whoami_handler-IsSigned_example :
    ((sig_whoami_handler to_str toy fields state signed_request readings).1 ≡ ok ed25519_did)
    ↔ IsSigned toy fields to_str state signed_request readings ed25519_did
sig_whoami_handler-IsSigned_example =
    sig_whoami_handler-IsSigned toy fields to_str state signed_request readings ed25519_did

resent_refused_example :
    (sig_whoami_handler to_str toy fields
      (sig_whoami_handler to_str toy fields state signed_request readings).0
      signed_request
      readings).1
    ≢ ok ed25519_did
resent_refused_example =
    resent_refused toy fields to_str state signed_request signed_request readings readings
      ed25519_did ed25519_did refl signed_accepted

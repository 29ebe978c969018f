-- ===== src/Peer.antt =====
-- aqua-auth-testkit/src/lib.rs: the reference server, its stores and its handlers. A handler takes
-- the state and what it reads of the clocks and of the random source, and returns the new state
-- beside its answer. The headers of a request are a function, and `to_str` is the one of their values.
pub mod Handled
pub mod Login
pub mod Router
pub mod Once
pub mod Served
pub mod Signed
use aqua_auth.Prelude.{
  ℕ, ◌&&◌, Bool, List, [], ◌∷◌, ◌++◌, Option, none, some, Result, ok, err, ◌>>=◌, ◌>>◌, ok_or,
  guard, map_err, if◌then◌else◌, ◌==◌,
}
use aqua_auth.Prelude.Int.{ℤ}
use aqua_auth.Env.{Env}
use aqua_auth.Errors.{AuthError, challenge_not_found}
use aqua_auth.Text.{
  Text, Bytes, codes, text_eq, strip_prefix, split_once_text, before_any, to_ascii_lowercase,
}
use aqua_auth.Table.{Table}
use aqua_auth.Did.Method.{find_did_method}
use aqua_auth.Did.Principal.{Principal, authenticate_with_public_key}
use aqua_auth.Message.{Chrono}
use aqua_auth.Challenge
use aqua_auth.Challenge.{Challenge, ChallengeStore, default_max_challenges}
use aqua_auth.Session.Backend.{Session}
use aqua_auth.Session.InMemory.{in_memory}
use aqua_auth.Session.Store
use aqua_auth.Session.Store.{Limits, default_limits}
use aqua_auth.HttpSig.Fields.{Sfv}
use aqua_auth.HttpSig.Base.{RequestParts}
use aqua_auth.HttpSig.Replay
use aqua_auth.HttpSig.Replay.{NonceReplayGuard, max_seen_nonces}
use aqua_auth.HttpSig.Verify.{VerifyOptions, verify_request_at}
use aqua_auth.HttpSig.Verify.Options.{
  aqua_internal, with_replay_guard, parts_of, with_signature_agent,
}
use aqua_auth.Client.{ChallengeEnvelope, SessionRequest, SessionResponse}
use aqua_auth.Directory.{
  KeyRegistry, DirectoryError, DirectoryDocument, Json, empty_registry, add, render_jwks,
  render_aqua_identity,
}

abbrev pub session_ttl_secs : ℕ
session_ttl_secs = 3600

abbrev pub advertised_nbf : ℕ
advertised_nbf = 0

abbrev pub advertised_exp : ℕ
advertised_exp = 4102444800

-- the signer is given by its DID
pub record AquaPeer : Type 0 where
  pub name : Text
  pub base_url : Text
  pub signer_did : Text
  pub challenges : ChallengeStore
  pub limits : Limits
  pub sessions : Table Session
  pub replay_guard : NonceReplayGuard
  pub registry : KeyRegistry

pub record PeerState : Type 0 where
  pub challenges : ChallengeStore
  pub limits : Limits
  pub sessions : Table Session
  pub replay_guard : NonceReplayGuard
  pub registry : KeyRegistry
  pub scheme : Text

unfoldable pub in_memory_peer : Env → Text → Text → ℕ → Text → AquaPeer
in_memory_peer env name base_url challenge_ttl_secs signer_did = record {
  name = name;
  base_url = base_url;
  signer_did = signer_did;
  challenges = Challenge.with_capacity challenge_ttl_secs name base_url default_max_challenges;
  limits = default_limits session_ttl_secs;
  sessions = [];
  replay_guard = Replay.with_capacity max_seen_nonces;
  registry =
      (add env empty_registry
        (record { did = signer_did; nbf = advertised_nbf; exp = advertised_exp })).0;
}

-- what stands behind `://`, or all of it
unfoldable pub after_scheme : Text → Text
after_scheme base_url = elim (split_once_text (codes "://") base_url) [
  | none ↦ base_url
  | some (scheme, rest) ↦ rest
]

unfoldable pub authority : AquaPeer → Text
unfolding after_scheme
authority peer = before_any (codes "/?#") (after_scheme peer.base_url)

unfoldable pub scheme_of : Text → Text
scheme_of base_url = elim (split_once_text (codes "://") base_url) [
  | none ↦ codes "http"
  | some (scheme, rest) ↦ to_ascii_lowercase scheme
]

-- the state that `router` hands to the handlers
unfoldable pub router : AquaPeer → PeerState
router peer = record {
  challenges = peer.challenges;
  limits = peer.limits;
  sessions = peer.sessions;
  replay_guard = peer.replay_guard;
  registry = peer.registry;
  scheme = scheme_of peer.base_url;
}

pub data Status : Type 0 where
  bad_request unauthorized not_found internal_server_error service_unavailable : Status

-- What one run of a handler reads: the random bytes, and the clock at each place that reads it.
pub record Readings (T : Type 0) : Type 0 where
  pub nonce_bytes : Bytes
  pub token_bytes : Bytes
  -- `ChallengeStore::create`
  pub challenges_swept : T
  pub issued : T
  -- `ChallengeStore::validate`, `SessionStore::create` and `SessionStore::validate`
  pub presented : ℕ
  pub sessions_swept : ℕ
  pub created : ℕ
  pub shown : ℕ
  -- `verify_request` and the renderers
  pub verified : ℤ
  pub rendered : ℕ

-- `trim_start_matches("0x")`, which strips as often as it can
unfoldable pub trim_0x : Text → Text
trim_0x [] = []
trim_0x (c ∷ []) = c ∷ []
trim_0x (c ∷ d ∷ s) = let rest = trim_0x s in if c == b'0' && d == b'x' then rest else c ∷ d ∷ s

-- the status for a challenge that does not validate
unfoldable pub refusal : AuthError → Status
refusal challenge_not_found = not_found
refusal e = unauthorized

module _ (env : Env) where
  -- `hex::decode(text.trim_start_matches("0x"))`
  unfoldable pub decoded : Text → Result Status Bytes
  decoded text = ok_or (env.hex_decode (trim_0x text)) unauthorized

  unfoldable pub decoded_key : Option Text → Result Status (Option Bytes)
  decoded_key none = ok none
  decoded_key (some hex_pk) = decoded hex_pk >>= (λ key. ok (some key))

  -- `session_handler` between the two stores
  unfoldable pub proven : Challenge → SessionRequest → Result Status Principal
  proven stored request = do
    guard (text_eq stored.did request.did) unauthorized
    signature ← decoded request.signature
    public_key ← decoded_key request.public_key
    map_err (λ e. unauthorized)
        (authenticate_with_public_key env request.did stored.message signature public_key)

unfoldable pub envelope_of : Challenge → ChallengeEnvelope
envelope_of c = record { nonce = c.nonce; message = c.message; expires_at = c.expires_at }

unfoldable pub response_of : Session → SessionResponse
response_of s = record {
  did = s.did;
  token = s.token;
  valid_until = s.valid_until;
  created_at = s.created_at;
}

module _ (env : Env) {T : Type 0} (chrono : Chrono T) where
  unfoldable pub challenge_handler :
      PeerState → Option Text → Readings T → PeerState × Result Status ChallengeEnvelope
  challenge_handler s none r = (s, err bad_request)
  challenge_handler s (some did) r = elim (find_did_method env did) [
    | none ↦ (s, err bad_request)
    | some method ↦
        let (challenges, created) =
          Challenge.create env chrono s.challenges did r.nonce_bytes r.challenges_swept r.issued in
        (
          record s { challenges = challenges },
          map_err (λ e. bad_request) created >>= (λ c. ok (envelope_of c)),
        )
  ]

module _ (env : Env) {T : Type 0} where
  -- the end of `session_handler`, for a principal that is proven
  unfoldable pub open_session :
      PeerState → Principal → Readings T → PeerState × Result Status SessionResponse
  open_session s principal r =
      let (sessions, created) =
        Store.create in_memory env s.limits principal.did r.token_bytes r.sessions_swept r.created
          s.sessions in
      (
        record s { sessions = sessions },
        map_err (λ e. service_unavailable) created >>= (λ session. ok (response_of session)),
      )

  -- `session_handler` behind `ChallengeStore::validate`, whose outcome is the pair
  unfoldable pub session_for :
      PeerState
      → SessionRequest
      → Readings T
      → ChallengeStore × Result AuthError Challenge
      → PeerState × Result Status SessionResponse
  unfolding open_session
  session_for s request r (challenges, validated) =
      elim (map_err refusal validated >>= (λ stored. proven env stored request)) [
        | err status ↦ (record s { challenges = challenges }, err status)
        | ok principal ↦ open_session (record s { challenges = challenges }) principal r
      ]

  unfoldable pub session_handler :
      PeerState → SessionRequest → Readings T → PeerState × Result Status SessionResponse
  unfolding session_for
  session_handler s request r =
      session_for s request r (Challenge.validate s.challenges request.nonce r.presented)

abbrev pub Headers : Type 0
Headers = Text → Option Bytes

-- a request as `sig_whoami_handler` takes it: `uri.path()` and `uri.authority()` of its target
pub record Received : Type 0 where
  pub method : Text
  pub path : Text
  pub uri_authority : Option Text
  pub headers : Headers

module _ (to_str : Bytes → Option Text) where
  unfoldable pub header_str : Headers → Text → Option Text
  header_str headers name = elim (headers name) [ none ↦ none | some value ↦ to_str value ]

  unfoldable pub bearer_token : Headers → Option Text
  unfolding header_str
  bearer_token headers = elim (header_str headers (codes "authorization")) [
    | none ↦ none
    | some value ↦ strip_prefix (codes "Bearer ") value
  ]

  -- the answer is the member `did` of the body
  unfoldable pub whoami_handler :
      {T : Type 0} → PeerState → Headers → Readings T → PeerState × Result Status Text
  whoami_handler s headers r = elim (bearer_token headers) [
    | none ↦ (s, err unauthorized)
    | some token ↦
        let (sessions, validated) = Store.validate in_memory token r.shown s.sessions in
        (record s { sessions = sessions }, map_err (λ e. unauthorized) validated)
  ]

  unfoldable pub host_of : Received → Option Text
  unfolding header_str
  host_of request = elim (header_str request.headers (codes "host")) [
    | some host ↦ some host
    | none ↦ request.uri_authority
  ]

  unfoldable pub with_agent : Option Text → RequestParts → RequestParts
  with_agent none parts = parts
  with_agent (some agent) parts = with_signature_agent parts agent

  -- the parts of a request as it was received
  unfoldable pub received_parts : PeerState → Received → Text → RequestParts
  unfolding with_agent
  received_parts s request host =
      with_agent (header_str request.headers (codes "signature-agent"))
        (parts_of request.method (s.scheme ++ codes "://" ++ host ++ request.path))

  -- the two headers of a signed request, with the parts
  unfoldable pub signed_parts : PeerState → Received → Result Status (RequestParts × Text × Text)
  unfolding received_parts host_of
  signed_parts s request = do
    host ← ok_or (host_of request) bad_request
    signature_input ← ok_or (header_str request.headers (codes "signature-input")) unauthorized
    signature ← ok_or (header_str request.headers (codes "signature")) unauthorized
    ok (received_parts s request host, signature_input, signature)

  -- the guard that the options share with the state, after a verification
  unfoldable pub guard_after : VerifyOptions → NonceReplayGuard → NonceReplayGuard
  guard_after opts old = elim opts.replay_guard [ none ↦ old | some new ↦ new ]

  unfoldable pub sig_whoami_handler :
      Env → Sfv → {T : Type 0} → PeerState → Received → Readings T → PeerState × Result Status Text
  unfolding signed_parts guard_after
  sig_whoami_handler env sfv s request r = elim (signed_parts s request) [
    | err status ↦ (s, err status)
    | ok (parts, signature_input, signature) ↦
        let (opts, verdict) =
          verify_request_at env sfv parts signature_input signature
            (with_replay_guard aqua_internal s.replay_guard) r.verified in
        (
          record s { replay_guard = guard_after opts s.replay_guard },
          map_err (λ e. unauthorized) verdict >>= (λ (principal : Principal). ok principal.did),
        )
  ]

-- content type, cache directive and body
unfoldable pub serve_document :
    Result DirectoryError DirectoryDocument → Result Status (Text × Text × Text)
serve_document document =
    map_err (λ e. internal_server_error) document
    >>= (λ (d : DirectoryDocument). ok (d.content_type, d.cache_control, d.body))

module _ (env : Env) (json : Json) {T : Type 0} where
  unfoldable pub jwks_handler : PeerState → Readings T → Result Status (Text × Text × Text)
  jwks_handler s r = serve_document (render_jwks env json s.registry r.rendered)

  unfoldable pub aqua_identity_handler : PeerState → Readings T → Result Status (Text × Text × Text)
  aqua_identity_handler s r = serve_document (render_aqua_identity env json s.registry r.rendered)

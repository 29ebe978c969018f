-- ===== src/Peer/Router.antt =====
-- The routes of `AquaPeer::router` (aqua-auth-testkit/src/lib.rs): one request after another, over
-- the stores that all of them share.
use aqua_auth.Prelude.{List, [], ◌∷◌, Option, Result, ok, ◌>>=◌}
use aqua_auth.Env.{Env}
use aqua_auth.Text.{Text, Bytes}
use aqua_auth.Message.{Chrono}
use aqua_auth.HttpSig.Fields.{Sfv}
use aqua_auth.Directory.{Json}
use aqua_auth.Client.{ChallengeEnvelope, SessionRequest, SessionResponse}
use aqua_auth.Peer.{
  PeerState, Readings, Status, Headers, Received, challenge_handler, session_handler,
  whoami_handler, sig_whoami_handler, jwks_handler, aqua_identity_handler,
}

-- a request, by its route
pub data Request : Type 0 where
  get_challenge : Option Text → Request
  post_session : SessionRequest → Request
  get_whoami : Headers → Request
  get_sig_whoami : Received → Request
  get_jwks get_aqua_identity : Request

-- the body of an answer
pub data Body : Type 0 where
  challenge : ChallengeEnvelope → Body
  session : SessionResponse → Body
  identity : Text → Body
  document : Text × Text × Text → Body

unfoldable pub bodied {ℓ} :
    {A : Type ℓ} → (A → Body) → PeerState × Result Status A → PeerState × Result Status Body
bodied f (s, answer) = (s, answer >>= (λ a. ok (f a)))

module _ (env : Env) (sfv : Sfv) (json : Json) (to_str : Bytes → Option Text) {T : Type 0}
    (chrono : Chrono T) where
  unfoldable pub route : PeerState → Request → Readings T → PeerState × Result Status Body
  unfolding bodied
  route s (get_challenge did) r = bodied challenge (challenge_handler env chrono s did r)
  route s (post_session request) r = bodied session (session_handler env s request r)
  route s (get_whoami headers) r = bodied identity (whoami_handler to_str s headers r)
  route s (get_sig_whoami request) r =
      bodied identity (sig_whoami_handler to_str env sfv s request r)
  route s get_jwks r = bodied document (s, jwks_handler env json s r)
  route s get_aqua_identity r = bodied document (s, aqua_identity_handler env json s r)

  -- the state behind a list of requests, each with what its handler reads
  unfoldable pub serve : List (Request × Readings T) → PeerState → PeerState
  serve [] s = s
  serve ((request, r) ∷ rest) s = serve rest (route s request r).0

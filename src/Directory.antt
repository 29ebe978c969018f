-- ===== src/Directory.antt =====
-- aqua-auth-directory/src: the keys that a service advertises, and the two documents that it renders
-- from them. `serde_json::to_string` on a document is a function; `none` is its error.
pub mod Rendered
pub mod Cache
use aqua_auth.Prelude.{
  ℕ, ◌-◌, max, Bool, ◌&&◌, List, [], ◌∷◌, ◌++◌, map, Option, none, some, Result, ok, err, ◌>>=◌,
  ◌>>◌, ok_or, map_err, if◌then◌else◌, ltb, leb, keep,
}
use aqua_auth.Env.{Env}
use aqua_auth.Errors.{CryptoError}
use aqua_auth.Text.{Text, codes, as_bytes}
use aqua_auth.Text.Decimal.{decimal}
use aqua_auth.Did.Key.{ed25519_pubkey_from_did_key}

abbrev pub crv_ed25519 : Text
crv_ed25519 = codes "Ed25519"

pub data DirectoryError : Type 0 where
  invalid_window : ℕ → ℕ → DirectoryError
  unsupported_did : CryptoError → DirectoryError
  serialization : DirectoryError

-- `nbf` is inclusive and `exp` exclusive
pub record AdvertisedKey : Type 0 where
  pub did : Text
  pub nbf : ℕ
  pub exp : ℕ

pub record KeyRegistry : Type 0 where
  pub keys : List AdvertisedKey

abbrev pub empty_registry : KeyRegistry
empty_registry = record { keys = [] }

unfoldable pub is_active_at : AdvertisedKey → ℕ → Bool
is_active_at key now = leb key.nbf now && ltb now key.exp

unfoldable pub active : KeyRegistry → ℕ → List AdvertisedKey
active registry now = keep (λ k. is_active_at k now) registry.keys

unfoldable pub canonical_okp_jwk : Text → Text → Text
canonical_okp_jwk crv x =
    codes "{\"crv\":\"" ++ (crv ++ (codes "\",\"kty\":\"OKP\",\"x\":\"" ++ (x ++ codes "\"}")))

-- `map` with a function that may fail, and `collect` into a result: the first error, or all values
unfoldable pub collect {ℓ κ} :
    {A : Type ℓ} {B : Type κ}
    → (A → Result DirectoryError B)
    → List A
    → Result DirectoryError (List B)
collect f [] = ok []
collect f (a ∷ rest) = f a >>= (λ b. collect f rest >>= (λ bs. ok (b ∷ bs)))

module _ (env : Env) where
  unfoldable pub okp_thumbprint : Text → Text → Text
  okp_thumbprint crv x = env.base64url_encode (env.sha256 (as_bytes (canonical_okp_jwk crv x)))

  unfoldable pub x_b64url : AdvertisedKey → Result DirectoryError Text
  x_b64url key = do
    raw ← map_err unsupported_did (ed25519_pubkey_from_did_key env key.did)
    ok (env.base64url_encode raw)

  unfoldable pub thumbprint : AdvertisedKey → Result DirectoryError Text
  thumbprint key = do x ← x_b64url key; ok (okp_thumbprint crv_ed25519 x)

  -- `KeyRegistry::add`
  unfoldable pub add : KeyRegistry → AdvertisedKey → KeyRegistry × Result DirectoryError (Unit {0})
  add registry key =
      if leb key.exp key.nbf
      then (registry, err (invalid_window key.nbf key.exp))
      else elim (map_err unsupported_did (ed25519_pubkey_from_did_key env key.did)) [
        | err e ↦ (registry, err e)
        | ok raw ↦ (record { keys = registry.keys ++ key ∷ [] }, ok tt)
      ]

pub record DirectoryDocument : Type 0 where
  pub path : Text
  pub content_type : Text
  pub cache_control : Text
  pub body : Text

-- `kty`, `crv` and `use` are the same in every `Jwk`
pub record Jwk : Type 0 where
  pub kty : Text
  pub crv : Text
  pub kid : Text
  pub x : Text
  pub use_ : Text
  pub nbf : ℕ
  pub exp : ℕ

pub record Jwks : Type 0 where
  pub keys : List Jwk

pub record AquaKey : Type 0 where
  pub did : Text
  pub thumbprint : Text
  pub nbf : ℕ
  pub exp : ℕ

pub record AquaIdentity : Type 0 where
  pub version : ℕ
  pub dids : List Text
  pub keys : List AquaKey

-- `serde_json::to_string`
pub record Json : Type 0 where
  pub jwks_to_string : Jwks → Option Text
  pub identity_to_string : AquaIdentity → Option Text

abbrev pub well_known_http_message_signatures : Text
well_known_http_message_signatures = codes "/.well-known/http-message-signatures-directory"

abbrev pub well_known_aqua_identity : Text
well_known_aqua_identity = codes "/.well-known/aqua-identity"

abbrev pub media_type_directory : Text
media_type_directory = codes "application/http-message-signatures-directory+json"

abbrev pub media_type_json : Text
media_type_json = codes "application/json"

abbrev pub min_cache_seconds : ℕ
min_cache_seconds = 60

-- `iter().min()`
unfoldable pub min_of : List ℕ → Option ℕ
min_of [] = none
min_of (n ∷ ns) = elim (min_of ns) [ none ↦ some n | some k ↦ some (if leb n k then n else k) ]

unfoldable pub unwrap_or : ℕ → Option ℕ → ℕ
unwrap_or n none = n
unwrap_or n (some k) = k

-- `exp.saturating_sub(now)` is the subtraction of ℕ
unfoldable pub cache_seconds : List AdvertisedKey → ℕ → ℕ
unfolding min_of unwrap_or
cache_seconds keys now =
    max (unwrap_or 0 (min_of (map (λ (k : AdvertisedKey). k.exp - now) keys))) min_cache_seconds

unfoldable pub cache_control : List AdvertisedKey → ℕ → Text
cache_control keys now = codes "max-age=" ++ decimal (cache_seconds keys now)

module _ (env : Env) where
  -- the `Jwk` of a key whose `x` is known
  unfoldable pub jwk_with : AdvertisedKey → Text → Jwk
  jwk_with k x = record {
    kty = codes "OKP";
    crv = crv_ed25519;
    kid = okp_thumbprint env crv_ed25519 x;
    x = x;
    use_ = codes "sig";
    nbf = k.nbf;
    exp = k.exp;
  }

  -- the closure of `render_jwks`
  unfoldable pub jwk_of : AdvertisedKey → Result DirectoryError Jwk
  unfolding jwk_with
  jwk_of k = do x ← x_b64url env k; ok (jwk_with k x)

  -- the closure of `render_aqua_identity`
  unfoldable pub aqua_key_of : AdvertisedKey → Result DirectoryError AquaKey
  aqua_key_of k = do
    t ← thumbprint env k
    ok (record { did = k.did; thumbprint = t; nbf = k.nbf; exp = k.exp })

  -- the values that the two renderers serialize
  unfoldable pub jwks_at : KeyRegistry → ℕ → Result DirectoryError Jwks
  jwks_at registry now = do keys ← collect jwk_of (active registry now); ok (record { keys = keys })

  unfoldable pub identity_at : KeyRegistry → ℕ → Result DirectoryError AquaIdentity
  identity_at registry now = do
    keys ← collect aqua_key_of (active registry now)
    ok (record {
      version = 1;
      dids = map (λ (k : AdvertisedKey). k.did) (active registry now);
      keys = keys;
    })

  module _ (json : Json) where
    unfoldable pub render_jwks : KeyRegistry → ℕ → Result DirectoryError DirectoryDocument
    render_jwks registry now = do
      value ← jwks_at registry now
      body ← ok_or (json.jwks_to_string value) serialization
      ok (record {
        path = well_known_http_message_signatures;
        content_type = media_type_directory;
        cache_control = cache_control (active registry now) now;
        body = body;
      })

    unfoldable pub render_aqua_identity : KeyRegistry → ℕ → Result DirectoryError DirectoryDocument
    render_aqua_identity registry now = do
      value ← identity_at registry now
      body ← ok_or (json.identity_to_string value) serialization
      ok (record {
        path = well_known_aqua_identity;
        content_type = media_type_json;
        cache_control = cache_control (active registry now) now;
        body = body;
      })

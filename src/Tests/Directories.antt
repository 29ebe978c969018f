-- ===== src/Tests/Directories.antt =====
-- The directory: witnesses.
use aqua_auth.Prelude.{◌-◌, ◌≤◌, max, ◌≡◌, refl, ◌⊎◌, List, [], ◌∷◌, map, some, ok, ◌>>=◌, ok_or}
use mathlib.Core.List.{Memᴰ}
use aqua_auth.Text.{Text, codes}
use aqua_auth.Did.Key.{ed25519_pubkey_from_did_key, ed25519_of}
use aqua_auth.Directory.{
  AdvertisedKey, KeyRegistry, Jwk, Jwks, AquaKey, AquaIdentity, Json, empty_registry, active, add,
  cache_seconds, min_cache_seconds, jwks_at, identity_at, render_jwks, serialization,
  well_known_http_message_signatures, media_type_directory, cache_control, is_active_at, x_b64url,
  thumbprint, okp_thumbprint, canonical_okp_jwk, collect, jwk_of, jwk_with, aqua_key_of,
}
use aqua_auth.Directory.Cache.{cache_seconds_lem}
use aqua_auth.Directory.Rendered.{
  IsValid, IsJwkOf, Pairwise, empty_registry-IsValid, add-IsValid, render_jwks-IsJwkOf,
  documents_agree,
}
use aqua_auth.Tests.Toy.{program, toy, ed25519_did, replicate}

unfoldable pub directories : Unit {0}
unfolding program ed25519_pubkey_from_did_key ed25519_of active add cache_seconds jwks_at
    identity_at render_jwks cache_control is_active_at x_b64url thumbprint okp_thumbprint
    canonical_okp_jwk collect jwk_of jwk_with aqua_key_of
directories = tt

abbrev key : AdvertisedKey
key = record { did = ed25519_did; nbf = 100; exp = 500 }

-- a successor, live from 400 on
abbrev successor : AdvertisedKey
successor = record { did = ed25519_did; nbf = 400; exp = 900 }

abbrev registry : KeyRegistry
registry = record { keys = key ∷ successor ∷ [] }

added : (add toy (record { keys = key ∷ [] }) successor).0 ≡ registry
unfolding directories
added = refl

first_added : (add toy empty_registry key).0 ≡ record { keys = key ∷ [] }
unfolding directories
first_added = refl

add-IsValid_example : IsValid toy (add toy empty_registry key).0
add-IsValid_example = add-IsValid toy empty_registry key (empty_registry-IsValid toy)

registry-IsValid : IsValid toy registry
registry-IsValid = rw (← added) (
    add-IsValid toy (record { keys = key ∷ [] }) successor
      (rw (← first_added) (add-IsValid toy empty_registry key (empty_registry-IsValid toy))))

-- the two documents as texts that say only how many keys there are
abbrev pub json : Json
json = record {
  jwks_to_string = λ j. some (map (λ (k : Jwk). k.exp) j.keys);
  identity_to_string = λ i. some (i.version ∷ []);
}

render_jwks-IsJwkOf_example :
    (keys : List Jwk) × Pairwise (IsJwkOf toy 450) (active registry 450) keys
    × (render_jwks toy json registry 450 ≡ (
        ok_or (json.jwks_to_string (record { keys = keys })) serialization >>= (λ body. ok (record {
          path = well_known_http_message_signatures;
          content_type = media_type_directory;
          cache_control = cache_control (active registry 450) 450;
          body = body;
        }))))
render_jwks-IsJwkOf_example = render_jwks-IsJwkOf toy json registry 450 registry-IsValid

-- without a key, a minute
empty : cache_seconds [] 420 ≡ 60
unfolding directories
empty = refl

cache_seconds_lem_example :
    (min_cache_seconds ≤ cache_seconds (key ∷ successor ∷ []) 420)
    × ((cache_seconds (key ∷ successor ∷ []) 420 ≤ max (500 - 420) min_cache_seconds)
        × ((cache_seconds (key ∷ successor ∷ []) 420 ≤ max (900 - 420) min_cache_seconds)
            × Unit {0}))
    × ((cache_seconds (key ∷ successor ∷ []) 420 ≡ min_cache_seconds)
        ⊎ ((soonest : AdvertisedKey) × Memᴰ soonest (key ∷ successor ∷ [])
            × (cache_seconds (key ∷ successor ∷ []) 420 ≡ soonest.exp - 420)))
cache_seconds_lem_example = cache_seconds_lem 420 (key ∷ successor ∷ [])

abbrev raw : Text
raw = replicate 32 b'k'

abbrev thumb : Text
thumb = okp_thumbprint toy (codes "Ed25519") raw

abbrev identity : AquaIdentity
identity = record {
  version = 1;
  dids = ed25519_did ∷ ed25519_did ∷ [];
  keys =
      record { did = ed25519_did; thumbprint = thumb; nbf = 100; exp = 500 }
      ∷ record { did = ed25519_did; thumbprint = thumb; nbf = 400; exp = 900 }
      ∷ [];
}

abbrev jwks : Jwks
jwks = record { keys = jwk_with toy key raw ∷ jwk_with toy successor raw ∷ [] }

jwks_made : jwks_at toy registry 450 ≡ ok jwks
unfolding directories
jwks_made = refl

identity_made : identity_at toy registry 450 ≡ ok identity
unfolding directories
identity_made = refl

documents_agree_example :
    (map (λ (j : Jwk). j.kid) jwks.keys ≡ map (λ (a : AquaKey). a.thumbprint) identity.keys)
    × (identity.dids ≡ map (λ (a : AquaKey). a.did) identity.keys)
documents_agree_example = documents_agree toy registry 450 jwks_made identity_made

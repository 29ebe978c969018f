-- ===== src/Directory/Rendered.antt =====
-- What the documents of a registry say, when its keys came in by `KeyRegistry::add`
-- (aqua-auth-directory/src/lib.rs and render.rs).
use aqua_auth.Prelude.{
  ℕ, ◌≤◌, ◌<◌, ◌≡◌, refl, ap, sym, ◌∙◌, Bool-cases, inl, inr, true, List, [], ◌∷◌, map, Result, ok,
  ◌>>=◌, arith, leb, keep, All, All-append, All-map, Bool, Result-cases, >>=-eq-ok, ok_or, ok-inj,
}
use aqua_auth.Env.{Env}
use aqua_auth.Text.{Text, Bytes}
use aqua_auth.Did.Key.{ed25519_pubkey_from_did_key}
use aqua_auth.Directory.{
  AdvertisedKey, KeyRegistry, Jwk, Jwks, AquaKey, AquaIdentity, Json, DirectoryError, serialization,
  crv_ed25519, is_active_at, active, collect, okp_thumbprint, x_b64url, thumbprint, add, jwk_with,
  jwk_of, aqua_key_of, jwks_at, identity_at, render_jwks, well_known_http_message_signatures,
  media_type_directory, cache_control, empty_registry,
}

-- The elements of two lists correspond, one by one and in order.
abbrev pub Pairwise {ℓ κ} : {A : Type ℓ} {B : Type κ} → (A → B → Type 0) → List A → List B → Type 0
Pairwise R [] [] = Unit
Pairwise R [] (b ∷ bs) = ⊥
Pairwise R (a ∷ rest) [] = ⊥
Pairwise R (a ∷ rest) (b ∷ bs) = R a b × Pairwise R rest bs

All-kept :
    {A : Type 0} (P : A → Type 0) (p : A → Bool) (xs : List A)
    → All P xs
    → All (λ x. P x × (p x ≡ true)) (keep p xs)
All-kept P p [] h = tt
All-kept P p (x ∷ xs) (px, h) = elim (Bool-cases (p x)) [
  | inl e ↦ rw e ((px, e), All-kept P p xs h)
  | inr e ↦ rw e (All-kept P p xs h)
]

collect-Pairwise :
    {A B : Type 0} (f : A → Result DirectoryError B) (R : A → B → Type 0) (xs : List A)
    → All (λ a. (b : B) × (f a ≡ ok b) × R a b) xs
    → (bs : List B) × (collect f xs ≡ ok bs) × Pairwise R xs bs
unfolding collect
collect-Pairwise f R [] h = ([], refl, tt)
collect-Pairwise f R (x ∷ xs) ((b, e, r), h) =
    let (bs, es, rs) = collect-Pairwise f R xs h in (b ∷ bs, rw (e, es, collect) refl, (r, rs))

cons_eq : {x y : Text} {xs ys : List Text} → x ≡ y → xs ≡ ys → x ∷ xs ≡ y ∷ ys
cons_eq p q = rw (p, q) refl

module _ (env : Env) where
  -- a key that can be advertised: it is live at some time, and its DID carries an Ed25519 key
  pub record IsAdvertisable (k : AdvertisedKey) : Type 0 where
    pub live : k.nbf < k.exp
    pub raw : Bytes
    pub decodes : ed25519_pubkey_from_did_key env k.did ≡ ok raw

  pub record IsValid (registry : KeyRegistry) : Type 0 where
    pub advertisable : All IsAdvertisable registry.keys

  -- what a JWK says of an advertised key at the time `now`
  pub record IsJwkOf (now : ℕ) (k : AdvertisedKey) (j : Jwk) : Type 0 where
    pub raw : Bytes
    pub decodes : ed25519_pubkey_from_did_key env k.did ≡ ok raw
    pub x_names : j.x ≡ env.base64url_encode raw
    pub kid_names : j.kid ≡ okp_thumbprint env crv_ed25519 j.x
    pub window : (j.nbf ≡ k.nbf) × (j.exp ≡ k.exp)
    pub active : (k.nbf ≤ now) × (now < k.exp)

  pub empty_registry-IsValid : IsValid empty_registry
  empty_registry-IsValid = record { advertisable = tt }

  -- `add` keeps the registry valid, whatever it is given: a key with an empty window or with a DID
  -- that carries no Ed25519 key is refused and leaves the registry as it was.
  pub add-IsValid :
      (registry : KeyRegistry) (k : AdvertisedKey)
      → IsValid registry
      → IsValid (add env registry k).0
  unfolding add
  add-IsValid registry k v = elim (Bool-cases (leb k.exp k.nbf)) [
    | inl inverted ↦ rw (inverted, add) v
    | inr window ↦ elim (Result-cases (ed25519_pubkey_from_did_key env k.did)) [
      | inr (e, bad) ↦ rw (window, bad, add) v
      | inl (raw, good) ↦
          rw (window, good, add)
            (record {
              advertisable =
                  All-append IsAdvertisable registry.keys (k ∷ []) v.advertisable
                    (record { live = ground arith; raw = raw; decodes = good }, tt);
            })
    ]
  ]

  jwk_of-IsJwkOf :
      (now : ℕ) (k : AdvertisedKey)
      → IsAdvertisable k × (is_active_at k now ≡ true)
      → (j : Jwk) × (jwk_of env k ≡ ok j) × IsJwkOf now k j
  unfolding jwk_of x_b64url is_active_at
  jwk_of-IsJwkOf now k (a, live) = (
    jwk_with env k (env.base64url_encode a.raw),
    rw (jwk_of, x_b64url, a.decodes) refl,
    record {
      raw = a.raw;
      decodes = a.decodes;
      x_names = refl;
      kid_names = refl;
      window = (refl, refl);
      active = (ground (arith, live), ground (arith, live));
    },
  )

  active-IsAdvertisable :
      (registry : KeyRegistry) (now : ℕ)
      → IsValid registry
      → All (λ k. IsAdvertisable k × (is_active_at k now ≡ true)) (active registry now)
  unfolding active
  active-IsAdvertisable registry now v =
      All-kept IsAdvertisable (λ k. is_active_at k now) registry.keys v.advertisable

  -- A valid registry renders, unless the JSON of the document cannot be written: the document holds
  -- one JWK for each key that is active at the time, in the order of the registry, with the raw key
  -- of its DID and the thumbprint of that very key.
  pub render_jwks-IsJwkOf :
      (json : Json) (registry : KeyRegistry) (now : ℕ)
      → IsValid registry
      → (keys : List Jwk) × Pairwise (IsJwkOf now) (active registry now) keys
        × (render_jwks env json registry now ≡ (
            ok_or (json.jwks_to_string (record { keys = keys })) serialization >>= (λ body.
              ok (record {
                path = well_known_http_message_signatures;
                content_type = media_type_directory;
                cache_control = cache_control (active registry now) now;
                body = body;
              }))))
  unfolding render_jwks jwks_at
  render_jwks-IsJwkOf json registry now v =
      let (keys, e, pairs) = collect-Pairwise (jwk_of env) (IsJwkOf now) (active registry now) (
        All-map _ _ (active registry now) (jwk_of-IsJwkOf now)
          (active-IsAdvertisable registry now v)) in
      (keys, pairs, rw (render_jwks, jwks_at, e) refl)

  keys_agree :
      (k : AdvertisedKey) {j : Jwk} {a : AquaKey}
      → jwk_of env k ≡ ok j
      → aqua_key_of env k ≡ ok a
      → (j.kid ≡ a.thumbprint) × (k.did ≡ a.did)
  unfolding jwk_of jwk_with aqua_key_of thumbprint
  keys_agree k {j = j} {a = a} h g = elim (Result-cases (x_b64url env k)) [
    | inr (e, bad) ↦ absurd (ground (arith, h, bad))
    | inl (x, good) ↦
        let j_is : jwk_with env k x ≡ j = ok-inj (rw good at (h)) in
        let a_is = ok-inj (rw good at (g)) in
        (
          sym (ap (λ (y : Jwk). y.kid) j_is) ∙ ap (λ (y : AquaKey). y.thumbprint) a_is,
          ap (λ (y : AquaKey). y.did) a_is,
        )
  ]

  collect-agree :
      (keys : List AdvertisedKey) {jwks : List Jwk} {aqua_keys : List AquaKey}
      → collect (jwk_of env) keys ≡ ok jwks
      → collect (aqua_key_of env) keys ≡ ok aqua_keys
      → (map (λ (j : Jwk). j.kid) jwks ≡ map (λ (a : AquaKey). a.thumbprint) aqua_keys)
        × (map (λ (k : AdvertisedKey). k.did) keys ≡ map (λ (a : AquaKey). a.did) aqua_keys)
  unfolding collect
  collect-agree [] h g = let a = ok-inj h in let b = ok-inj g in (rw (← a, ← b) refl, rw (← b) refl)
  collect-agree (k ∷ keys) h g =
      let (j, ej, h') = >>=-eq-ok (jwk_of env k) _ h in
      let (a, ea, g') = >>=-eq-ok (aqua_key_of env k) _ g in
      let (js, ejs, h'') = >>=-eq-ok (collect (jwk_of env) keys) _ h' in
      let (rest, er, g'') = >>=-eq-ok (collect (aqua_key_of env) keys) _ g' in
      let (kid, did) = keys_agree k ej ea in
      let (kids, dids) = collect-agree keys ejs er in
      let js_is = ok-inj h'' in
      let rest_is = ok-inj g'' in
      (rw (← js_is, ← rest_is) (cons_eq kid kids), rw (← rest_is) (cons_eq did dids))

  -- The two documents of a registry at one time name the same keys in the same order: the `kid` of
  -- each JWK is the thumbprint that the identity document gives, next to its DID, and the DIDs listed
  -- are the ones of these keys.
  pub documents_agree :
      (registry : KeyRegistry) (now : ℕ) {jwks : Jwks} {identity : AquaIdentity}
      → jwks_at env registry now ≡ ok jwks
      → identity_at env registry now ≡ ok identity
      → (map (λ (j : Jwk). j.kid) jwks.keys ≡ map (λ (a : AquaKey). a.thumbprint) identity.keys)
        × (identity.dids ≡ map (λ (a : AquaKey). a.did) identity.keys)
  unfolding jwks_at identity_at
  documents_agree registry now h g =
      let (ks, e, h') = >>=-eq-ok (collect (jwk_of env) (active registry now)) _ h in
      let (aqua_keys, e', g') = >>=-eq-ok (collect (aqua_key_of env) (active registry now)) _ g in
      let (kids, dids) = collect-agree (active registry now) e e' in
      let a = ok-inj h' in let b = ok-inj g' in rw (← a, ← b) (kids, dids)

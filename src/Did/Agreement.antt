-- ===== src/Did/Agreement.antt =====
-- The format check of src/did_format.rs against the verifiers: what the module's invariant says, and
-- where it stops short.
use aqua_auth.Prelude.{
  ℕ, ◌≡◌, refl, sym, ◌∙◌, ◌≢◌, ◌⊎◌, inl, inr, Bool, true, [], ◌∷◌, ◌++◌, Option, none, some, Result,
  ok, err, arith, ap, ◌>>=◌, >>=-eq-ok, ok_or, length, Option-cases,
}
use aqua_auth.Env.{Env}
use aqua_auth.Errors.{CryptoError, DidFault, invalid_did}
use aqua_auth.Text.{
  Text, Bytes, codes, text_eq, split, split_once, cut, strip_prefix, starts_with, as_bytes,
}
use aqua_auth.Text.Laws.{text_eq→eq}
use aqua_auth.Did.Parse.{
  parse_did_namespace, address_from_did, pubkey_from_ed25519_did, pubkey_from_p256_did, to_array,
}
use aqua_auth.Did.Key.{
  KeyType, ed25519, p256, decode_multibase_key, key_of_bytes, verify_with_key, verify_p256,
  p256_signature,
}
use aqua_auth.Did.Suite
use aqua_auth.Did.Suite.{Suite, find_cipher_suite, namespace}
use aqua_auth.Did.Method
use aqua_auth.Did.Aqua.{multihash_from_aqua_did, aqua_did_binds_pubkey}
use aqua_auth.Did.Peer.{extract_z_body}
use aqua_auth.Did.Method.{
  Method, pkh, key, peer, aqua, split_namespace, key_body, find_did_method, verify_with_public_key,
  verify_caip122_with_public_key, verify_caip122,
}
use aqua_auth.Did.Format.{
  check_key_length, validate_multibase_key_body, validate_pkh, validate_for,
  validate_did_well_formed,
}

split-cut : (c : ℕ) (s : Text) → (split c s).0 ≡ (cut c s).0
unfolding split cut
split-cut c [] = refl
split-cut c (d ∷ s) = ground (arith, split-cut c s)

split_once-split :
    (c : ℕ) (s : Text) {h t : Text} → split_once c s ≡ some (h, t) → (split c s).0 ≡ h
unfolding split_once
split_once-split c s {h} {t} e = ground (arith, split-cut c s)

-- `parse_did_namespace` and `split_namespace` read the same namespace.
pub namespace_agrees :
    (did ns remainder : Text)
    → split_namespace did ≡ ok (ns, remainder)
    → parse_did_namespace did ≡ ok ns
unfolding split_namespace parse_did_namespace
namespace_agrees did ns remainder h = elim (Option-cases (strip_prefix (codes "did:pkh:") did)) [
  | inl e ↦ ground arith
  | inr (rest, e) ↦ rw e (ground (arith, split_once-split b':' rest {h = ns} {t = remainder}))
]

pub find_cipher_suite_sound :
    (ns : Text) (s : Suite) → find_cipher_suite ns ≡ some s → ns ≡ namespace s
unfolding find_cipher_suite
find_cipher_suite_sound ns s h = sym (text_eq→eq (namespace s) ns (ground arith))

module _ (env : Env) (did message : Text) (signature : Bytes) where
  eip155_parses :
      (b : Bool)
      → Suite.verify env Suite.eip155 did message signature ≡ ok b
      → (a : Bytes) × (address_from_did env did ≡ ok a)
  unfolding Suite.verify
  eip155_parses b h = let (a, e, rest) = >>=-eq-ok (address_from_did env did) _ h in (a, e)

  ed25519_parses :
      (b : Bool)
      → Suite.verify env Suite.ed25519 did message signature ≡ ok b
      → (a : Bytes) × (pubkey_from_ed25519_did env did ≡ ok a)
  unfolding Suite.verify
  ed25519_parses b h = let (a, e, rest) = >>=-eq-ok (pubkey_from_ed25519_did env did) _ h in (a, e)

  p256_parses :
      (b : Bool)
      → Suite.verify env Suite.p256 did message signature ≡ ok b
      → (a : Bytes) × (pubkey_from_p256_did env did ≡ ok a)
  unfolding Suite.verify
  p256_parses b h = let (a, e, rest) = >>=-eq-ok (pubkey_from_p256_did env did) _ h in (a, e)

  pkh_validates :
      (s : Suite) (b : Bool)
      → parse_did_namespace did ≡ ok (namespace s)
      → Suite.verify env s did message signature ≡ ok b
      → validate_pkh env did ≡ ok tt
  unfolding validate_pkh namespace text_eq
  pkh_validates Suite.eip155 b e h = let (a, p) = eip155_parses b h in rw (e, p) refl
  pkh_validates Suite.ed25519 b e h = let (a, p) = ed25519_parses b h in rw (e, p) refl
  pkh_validates Suite.p256 b e h = let (a, p) = p256_parses b h in rw (e, p) refl

-- A `did:pkh` whose verifier gives any verdict passes the format check.
verify_pkh-validates :
    (env : Env) (did message : Text) (signature : Bytes) (b : Bool)
    → Method.verify env pkh did message signature ≡ ok b
    → validate_pkh env did ≡ ok tt
unfolding Method.verify
verify_pkh-validates env did message signature b h =
    let ((ns, remainder), split_ok, rest) = >>=-eq-ok (split_namespace did) _ h in
    let (s, found, verified) = >>=-eq-ok (ok_or (find_cipher_suite ns) _) _ rest in
    let is_ns : ns ≡ namespace s = find_cipher_suite_sound ns s (ground arith) in
    pkh_validates env did message signature s b
      (namespace_agrees did ns remainder split_ok ∙ ap ok is_ns) verified

-- Of an Ed25519 key the verifier asks for the same 32 bytes. Of a P-256 key it does not.
length_or_verdict :
    (env : Env) (kt : KeyType) (message : Text) (signature : Bytes) (b : Bool)
    → verify_with_key env kt message signature ≡ ok b
    → (check_key_length kt ≡ ok tt)
      ⊎ ((n : ℕ) × (check_key_length kt ≡ err (invalid_did (DidFault.p256_key_length n))))
unfolding verify_with_key check_key_length to_array
length_or_verdict env (ed25519 raw) message signature b h = inl (ground arith)
length_or_verdict env (p256 raw) message signature b h = ground arith

-- The two ways out of a check whose verifier gave a verdict.
abbrev PassesOrP256Length : Result CryptoError (Unit {0}) → Type 0
PassesOrP256Length r =
    (r ≡ ok tt) ⊎ ((n : ℕ) × (r ≡ err (invalid_did (DidFault.p256_key_length n))))

module _ (env : Env) (message : Text) (signature : Bytes) (b : Bool) where
  multibase_validates :
      (z_body : Text)
      → (decode_multibase_key env z_body >>= λ kt. verify_with_key env kt message signature) ≡ ok b
      → PassesOrP256Length (validate_multibase_key_body env z_body)
  unfolding validate_multibase_key_body
  multibase_validates z_body h =
      let (kt, decoded, verified) = >>=-eq-ok (decode_multibase_key env z_body) _ h in
      rw decoded (length_or_verdict env kt message signature b verified)

  verify-validates :
      (m : Method) (did : Text) (public_key : Option Bytes)
      → verify_with_public_key env m did message signature public_key ≡ ok b
      → PassesOrP256Length (validate_for env m did)
  unfolding verify_with_public_key Method.verify validate_for key_body aqua_did_binds_pubkey
  verify-validates pkh did pk h = inl (verify_pkh-validates env did message signature b h)
  verify-validates key did pk h = elim (Option-cases (strip_prefix (codes "did:key:z") did)) [
    | inl e ↦ ground arith
    | inr (z_body, e) ↦ rw e (multibase_validates z_body (rw e at h))
  ]
  verify-validates peer did pk h =
      let (z_body, found, verified) = >>=-eq-ok (extract_z_body did) _ h in
      rw found (multibase_validates z_body verified)
  verify-validates aqua did none h = cc
  verify-validates aqua did (some pk) h =
      let (bound, binds, verified) = >>=-eq-ok (aqua_did_binds_pubkey env did pk) _ h in
      let (claimed, parsed, rest) = >>=-eq-ok (multihash_from_aqua_did env did) _ binds in
      inl (rw parsed refl)

  -- Whatever DID the verifiers give a verdict on, true or false, passes the format check, or is a
  -- multibase P-256 key whose point is not 33 bytes long, which the check refuses by that length.
  pub verdict_validates :
      (did : Text) (public_key : Option Bytes)
      → verify_caip122_with_public_key env did message signature public_key ≡ ok b
      → (validate_did_well_formed env did ≡ ok tt)
        ⊎ ((n : ℕ) × (validate_did_well_formed env did
              ≡ err (invalid_did (DidFault.p256_key_length n))))
  unfolding verify_caip122_with_public_key validate_did_well_formed
  verdict_validates did pk h =
      let (m, found, verified) = >>=-eq-ok (ok_or (find_did_method env did) _) _ h in
      let is_m : find_did_method env did ≡ some m = ground arith in
      rw is_m (verify-validates m did pk verified)

-- `EncodedPoint::from_bytes` also reads points of other lengths than 33. Such a P-256 `did:key`,
-- under which a signature verifies, is refused by the format check though `verify_caip122` accepts.
pub long_point_diverges :
    (env : Env) (body message : Text) (raw signature sig : Bytes)
    → env.bs58_decode body ≡ some (0x80 ∷ 0x24 ∷ raw)
    → length raw ≢ 33
    → env.p256_encoded_point raw ≡ true
    → env.p256_verifying_key raw ≡ true
    → p256_signature env signature ≡ some sig
    → env.p256_verify raw (as_bytes message) sig ≡ true
    → (verify_caip122 env (codes "did:key:z" ++ body) message signature ≡ ok true)
      × (validate_did_well_formed env (codes "did:key:z" ++ body)
          ≡ err (invalid_did (DidFault.p256_key_length (length raw))))
unfolding verify_caip122 validate_did_well_formed Method.verify validate_for key_body starts_with
    strip_prefix decode_multibase_key key_of_bytes verify_with_key verify_p256
    validate_multibase_key_body check_key_length
long_point_diverges env body message raw signature sig decoded other point valid der verified =
    (rw (decoded, point, valid, der, verified) refl, rw decoded (ground arith))

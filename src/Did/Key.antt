-- ===== src/Did/Key.antt =====
-- src/key/mod.rs: the multibase and multicodec keys of `did:key` and `did:peer`.
use aqua_auth.Prelude.{
  Bool, [], ◌∷◌, Option, none, some, Result, ok, err, ◌>>=◌, ◌>>◌, ok_or, guard, ◌==◌, length, take,
}
use aqua_auth.Env.{Env}
use aqua_auth.Errors.{CryptoError, DidFault, SignatureFault, invalid_did, invalid_signature}
use aqua_auth.Text.{Text, Bytes, codes, strip_prefix, as_bytes}
use aqua_auth.Did.Parse.{strict_verifying_key, to_array}

abbrev pub ed25519_prefix : Bytes
ed25519_prefix = 0xED ∷ 0x01 ∷ []

abbrev pub p256_prefix : Bytes
p256_prefix = 0x80 ∷ 0x24 ∷ []

pub data KeyType : Type 0 where
  ed25519 p256 : Bytes → KeyType

unfoldable pub key_type_label : KeyType → Text
key_type_label (ed25519 raw) = codes "Ed25519"
key_type_label (p256 raw) = codes "P-256"

module _ (env : Env) where
  -- the check of `decode_multibase_key` on an Ed25519 key of 32 bytes; other lengths pass
  unfoldable pub strict_if_array : Bytes → Result CryptoError KeyType
  strict_if_array raw = elim (to_array 32 raw) [
    | none ↦ ok (ed25519 raw)
    | some key ↦ strict_verifying_key env key >> ok (ed25519 raw)
  ]

  -- the match on the multicodec prefix
  unfoldable pub key_of_bytes : Bytes → Result CryptoError KeyType
  unfolding strict_if_array
  key_of_bytes bytes = elim (strip_prefix ed25519_prefix bytes) [
    | some raw ↦ strict_if_array raw
    | none ↦ elim (strip_prefix p256_prefix bytes) [
      | some raw ↦ ok (p256 raw)
      | none ↦ err (invalid_did (DidFault.unknown_multicodec (take 2 bytes)))
    ]
  ]

  unfoldable pub decode_multibase_key : Text → Result CryptoError KeyType
  decode_multibase_key z_body = do
    bytes ← ok_or (env.bs58_decode z_body) (invalid_did DidFault.base58_decode)
    key_of_bytes bytes

  -- `Signature::from_der(s).or_else(|_| Signature::from_slice(s))`
  unfoldable pub p256_signature : Bytes → Option Bytes
  p256_signature signature = elim (env.p256_from_der signature) [
    | some sig ↦ some sig
    | none ↦ env.p256_from_slice signature
  ]

  unfoldable pub verify_ed25519 : Bytes → Text → Bytes → Result CryptoError Bool
  verify_ed25519 key message signature = do
    guard (length signature == 64)
        (invalid_signature (SignatureFault.signature_length 64 (length signature)))
    sig ← ok_or (env.ed25519_signature signature) (invalid_signature SignatureFault.malformed)
    ok (env.ed25519_verify_strict key (as_bytes message) sig)

  unfoldable pub verify_p256 : Bytes → Text → Bytes → Result CryptoError Bool
  unfolding p256_signature
  verify_p256 raw message signature = do
    guard (env.p256_encoded_point raw) (invalid_signature SignatureFault.invalid_point)
    guard (env.p256_verifying_key raw) (invalid_signature SignatureFault.invalid_public_key)
    sig ← ok_or (p256_signature signature) (invalid_signature SignatureFault.malformed)
    ok (env.p256_verify raw (as_bytes message) sig)

  unfoldable pub verify_with_key : KeyType → Text → Bytes → Result CryptoError Bool
  verify_with_key (ed25519 raw) message signature = do
    key_bytes ←
        ok_or (to_array 32 raw)
          (invalid_signature (SignatureFault.public_key_length 32 (length raw)))
    strict_verifying_key env key_bytes
    verify_ed25519 key_bytes message signature
  verify_with_key (p256 raw) message signature = verify_p256 raw message signature

  -- the body of a `did:key` behind its multibase prefix
  unfoldable pub ed25519_of : KeyType → Result CryptoError Bytes
  ed25519_of (ed25519 raw) = ok_or (to_array 32 raw) (invalid_did (DidFault.byte_length 32))
  ed25519_of (p256 raw) = err (invalid_did (DidFault.expected_key_type (codes "P-256")))

  unfoldable pub ed25519_pubkey_from_did_key : Text → Result CryptoError Bytes
  ed25519_pubkey_from_did_key did = do
    z_body ←
        ok_or (strip_prefix (codes "did:key:z") did)
          (invalid_did (DidFault.expected_prefix (codes "did:key:z") did))
    key ← decode_multibase_key z_body
    ed25519_of key

  unfoldable pub p256_of : KeyType → Result CryptoError Bytes
  p256_of (ed25519 raw) = err (invalid_did (DidFault.expected_key_type (codes "Ed25519")))
  p256_of (p256 raw) = do
    compressed ← ok_or (to_array 33 raw) (invalid_did (DidFault.p256_key_length (length raw)))
    guard (env.p256_sec1 compressed) (invalid_did DidFault.p256_not_on_curve)
    ok compressed

  unfoldable pub p256_pubkey_from_did_key : Text → Result CryptoError Bytes
  p256_pubkey_from_did_key did = do
    z_body ←
        ok_or (strip_prefix (codes "did:key:z") did)
          (invalid_did (DidFault.expected_prefix (codes "did:key:z") did))
    key ← decode_multibase_key z_body
    p256_of key

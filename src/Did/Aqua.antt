-- ===== src/Did/Aqua.antt =====
-- src/aqua/codec.rs: the identifier of `did:aqua`, its grammar, and the binding of a key to it.
use aqua_auth.Prelude.{
  ℕ, Bool, false, not, [], ◌∷◌, ◌++◌, none, some, Result, ok, ◌>>=◌, ◌>>◌, ok_or, guard, ◌==◌,
  get_elem?,
}
use aqua_auth.Env.{Env}
use aqua_auth.Errors.{CryptoError, DidFault, invalid_did}
use aqua_auth.Text.{Text, Bytes, codes, text_eq, byte_len, as_bytes, strip_prefix, contains_any}
use aqua_auth.Did.Parse.{to_array}

abbrev pub multihash_sha2_256 : ℕ
multihash_sha2_256 = 0x12

abbrev pub multihash_digest_len : ℕ
multihash_digest_len = 0x20

-- `raw.get(i) == Some(&b)`
unfoldable pub byte_at_is : Bytes → ℕ → ℕ → Bool
byte_at_is raw i b = elim (get_elem? raw i) [ none ↦ false | some c ↦ c == b ]

module _ (env : Env) where
  -- the JSON form of the key that RFC 7638 hashes
  unfoldable pub jwk : Bytes → Text
  jwk pubkey =
      codes "{\"alg\":\"ML-DSA-87\",\"kty\":\"AKP\",\"pub\":\""
      ++ (env.base64url_encode pubkey ++ codes "\"}")

  unfoldable pub multihash_of_pubkey : Bytes → Bytes
  unfolding jwk
  multihash_of_pubkey pubkey =
      multihash_sha2_256 ∷ multihash_digest_len ∷ env.sha256 (as_bytes (jwk pubkey))

  unfoldable pub aqua_did_from_pubkey : Bytes → Text
  aqua_did_from_pubkey pubkey = codes "did:aqua:z" ++ env.bs58_encode (multihash_of_pubkey pubkey)

  unfoldable pub multihash_from_aqua_did : Text → Result CryptoError Bytes
  multihash_from_aqua_did did = do
    guard (not (contains_any (b'/' ∷ b'?' ∷ b'#' ∷ b';' ∷ []) did))
        (invalid_did DidFault.aqua_forbidden)
    guard (byte_len did == 56) (invalid_did (DidFault.aqua_length (byte_len did)))
    rest ← ok_or (strip_prefix (codes "did:aqua:") did) (invalid_did DidFault.aqua_prefix)
    body ← ok_or (strip_prefix (codes "z") rest) (invalid_did DidFault.aqua_multibase)
    raw ← ok_or (env.bs58_decode body) (invalid_did DidFault.aqua_base58)
    guard (byte_at_is raw 0 multihash_sha2_256) (invalid_did DidFault.aqua_code)
    guard (byte_at_is raw 1 multihash_digest_len) (invalid_did DidFault.aqua_digest_length)
    ok_or (to_array 34 raw) (invalid_did DidFault.aqua_size)

  unfoldable pub aqua_did_binds_pubkey : Text → Bytes → Result CryptoError Bool
  aqua_did_binds_pubkey did pubkey = do
    claimed ← multihash_from_aqua_did did
    derived ← multihash_from_aqua_did (aqua_did_from_pubkey pubkey)
    ok (text_eq claimed derived)

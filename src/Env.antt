-- ===== src/Env.antt =====
-- What the crate calls and does not define: the functions of the crates `hex`, `bs58`, `base64`,
-- `sha2`, `sha3`, `curve25519-dalek`, `ed25519-dalek`, `p256`, `k256` and `ml-dsa` at the places
-- where src/ calls them, and the build feature `did-aqua`. A key is given by its bytes. What a
-- theorem needs of these functions is a hypothesis of that theorem.
use aqua_auth.Prelude.{ℕ, Bool, Option}
use aqua_auth.Text.{Text, Bytes}

pub record Env : Type 0 where
  -- `cfg(feature = "did-aqua")`
  pub did_aqua : Bool
  pub hex_encode : Bytes → Text
  pub hex_decode : Text → Option Bytes
  pub bs58_encode : Bytes → Text
  pub bs58_decode : Text → Option Bytes
  pub base64url_encode : Bytes → Text
  pub sha256 : Bytes → Bytes
  pub keccak256 : Bytes → Bytes
  -- `CompressedEdwardsY(b).decompress()`, and the bytes of `point.compress()`
  pub ed25519_recompress : Bytes → Option Bytes
  pub ed25519_from_bytes : Bytes → Bool
  pub ed25519_is_weak : Bytes → Bool
  pub ed25519_is_torsion_free : Bytes → Bool
  -- `Signature::from_slice`, and `verify_strict(message, sig)` under a key
  pub ed25519_signature : Bytes → Option Bytes
  pub ed25519_verify_strict : Bytes → Bytes → Bytes → Bool
  -- `EncodedPoint::from_bytes`, `VerifyingKey::from_encoded_point`, `PublicKey::from_sec1_bytes`
  pub p256_encoded_point : Bytes → Bool
  pub p256_verifying_key : Bytes → Bool
  pub p256_sec1 : Bytes → Bool
  -- `Signature::from_der`, `Signature::from_slice`, `verify(message, sig)` under a key
  pub p256_from_der : Bytes → Option Bytes
  pub p256_from_slice : Bytes → Option Bytes
  pub p256_verify : Bytes → Bytes → Bytes → Bool
  -- `RecoveryId::from_byte`, `Signature::from_slice`, and `recover_from_prehash` followed by
  -- `to_encoded_point(false)`
  pub k256_recovery_id : ℕ → Option ℕ
  pub k256_from_slice : Bytes → Option Bytes
  pub k256_recover : Bytes → Bytes → ℕ → Option Bytes
  -- `Signature::<MlDsa87>::decode`, and `verify_with_context(message, b"", sig)` under a key
  pub ml_dsa_signature : Bytes → Option Bytes
  pub ml_dsa_verify : Bytes → Bytes → Bytes → Bool

-- ===== src/Errors.antt =====
-- src/crypto_error.rs and src/auth_error.rs. The text of an error is one constructor for each
-- message of the sources, with the values that are put into it; the text of an error of another
-- crate is left out.
use aqua_auth.Prelude.{ℕ}
use aqua_auth.Text.{Text, Bytes}

-- `HintDefect` of src/aqua/ml_dsa.rs
pub data HintDefect : Type 0 where
  cumulative_count_not_monotone cumulative_count_above_omega : HintDefect
  indices_not_strictly_increasing unused_hint_byte_non_zero : HintDefect

-- the messages of `InvalidDid`
pub data DidFault : Type 0 where
  expected_prefix : Text → Text → DidFault
  no_namespace missing_0x no_multibase_z no_verification_key unsupported_variant : Text → DidFault
  missing_chain_id missing_address : Text → DidFault
  hex_length : ℕ → ℕ → DidFault
  byte_length : ℕ → DidFault
  not_a_point non_canonical invalid_key weak_key not_torsion_free : DidFault
  base58_decode p256_not_on_curve : DidFault
  unknown_multicodec : Bytes → DidFault
  ed25519_key_length p256_key_length : ℕ → DidFault
  expected_key_type : Text → DidFault
  bare : Text → DidFault
  not_spki : DidFault
  aqua_forbidden aqua_prefix aqua_multibase aqua_base58 aqua_code aqua_digest_length aqua_size :
      DidFault
  aqua_length : ℕ → DidFault
  not_a_hint : Text → DidFault

-- the messages of `InvalidSignature`
pub data SignatureFault : Type 0 where
  signature_length : ℕ → ℕ → SignatureFault
  public_key_length : ℕ → ℕ → SignatureFault
  invalid_v invalid_recovery_id : ℕ → SignatureFault
  malformed ecrecover_failed invalid_point invalid_public_key : SignatureFault
  needs_public_key no_public_key did_not_verify : SignatureFault
  hint_encoding : HintDefect → SignatureFault
  auth_data_too_short rs_length : ℕ → SignatureFault
  rp_id_hash_mismatch user_not_present client_data challenge_encoding challenge_mismatch :
      SignatureFault
  missing_member type_mismatch : Text → SignatureFault
  origin_mismatch : Text → Text → SignatureFault

pub data CryptoError : Type 0 where
  unsupported_method : Text → CryptoError
  invalid_did : DidFault → CryptoError
  invalid_signature : SignatureFault → CryptoError
  verification_failed : CryptoError
  hex_decode : CryptoError

pub data AuthError : Type 0 where
  crypto : CryptoError → AuthError
  challenge_not_found challenge_expired session_not_found session_expired : AuthError
  session_store_full : ℕ → AuthError
  backend_unavailable : Text → AuthError

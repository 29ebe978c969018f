-- ===== src/HttpSig/Errors.antt =====
-- `HttpSigError` of src/http_sig/mod.rs. A reason that is only a sentence is one constructor.
use aqua_auth.Prelude.{ℕ}
use aqua_auth.Prelude.Int.{ℤ}
use aqua_auth.Errors.{CryptoError}
use aqua_auth.Text.{Text}

-- the reasons of `MalformedSignatureInput` and `MalformedSignature`
pub data Malformed : Type 0 where
  unparsable not_one_member not_inner_list component_params component_not_string : Malformed
  param_order not_canonical agent_not_covered no_label not_bytes not_item : Malformed
  not_an_integer not_a_string : Text → Malformed

pub data HttpSigError : Type 0 where
  invalid_target_uri unsupported_scheme unsupported_component missing_component :
      Text → HttpSigError
  duplicate_component invalid_component_value : Text → HttpSigError
  non_ascii_base structured_field : HttpSigError
  malformed_signature_input malformed_signature : Malformed → HttpSigError
  validity_too_long : ℕ → ℕ → HttpSigError
  validity_zero : HttpSigError
  invalid_window : ℤ → ℤ → HttpSigError
  profile_requires_ed25519 : Text → HttpSigError
  empty_thumbprint : HttpSigError
  tag_mismatch : Text → Text → HttpSigError
  alg_mismatch : Text → Text → Text → HttpSigError
  created_in_future : ℤ → ℤ → ℕ → HttpSigError
  expired : ℤ → ℤ → HttpSigError
  nonce_replayed sign_failed : HttpSigError
  crypto : CryptoError → HttpSigError

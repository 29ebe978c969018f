-- ===== src/WebAuthn/Assertion.antt =====
-- src/webauthn.rs: the check of a passkey assertion against a stored public key.
pub mod Accepted
use aqua_auth.Prelude.{
  ℕ, ◌/◌, ◌%◌, Bool, not, List, ◌++◌, Option, none, some, Result, ok, err, ◌>>=◌, ◌>>◌, ok_or,
  guard, map_err, if◌then◌else◌, ltb, ◌==◌, length, take, get_elem?,
}
use aqua_auth.Env.{Env}
use aqua_auth.Errors.{
  CryptoError, SignatureFault, invalid_signature, missing_member, client_data, rs_length,
  auth_data_too_short, type_mismatch, origin_mismatch, challenge_encoding, rp_id_hash_mismatch,
  user_not_present,
}
use aqua_auth.Text.{Text, Bytes, codes, text_eq, as_bytes}
use aqua_auth.WebAuthn.Web.{Web}

abbrev pub flag_up : ℕ
flag_up = 0x01

abbrev pub flag_uv : ℕ
flag_uv = 0x04

abbrev pub flag_be : ℕ
flag_be = 0x08

abbrev pub flag_bs : ℕ
flag_bs = 0x10

-- `flags & flag != 0`, for a flag of one bit
unfoldable pub has_flag : ℕ → ℕ → Bool
has_flag flags flag = flags / flag % 2 == 1

pub record AuthenticatorData : Type 0 where
  pub rp_id_hash : Bytes
  pub flags : ℕ

-- The byte at an offset, for an offset that is inside.
abbrev pub byte_at : Bytes → ℕ → ℕ
byte_at bytes i = elim (get_elem? bytes i) [ none ↦ 0 | some b ↦ b ]

-- The error is the length that its text names.
unfoldable pub parse_authenticator_data : Bytes → Result ℕ AuthenticatorData
parse_authenticator_data bytes = do
  guard (not (ltb (length bytes) 37)) (length bytes)
  ok (record { rp_id_hash = take 32 bytes; flags = byte_at bytes 32 })

unfoldable pub signed_payload : Env → Bytes → Bytes → Bytes
signed_payload env authenticator_data client_data_json =
    authenticator_data ++ env.sha256 client_data_json

pub record WebAuthnAssertionParams : Type 0 where
  pub credential_public_key : Bytes
  pub authenticator_data : Bytes
  pub client_data_json : Bytes
  pub signature : Bytes
  pub expected_challenge : Bytes
  pub expected_origin : Text
  pub expected_rp_id : Text

abbrev pub fault : SignatureFault → CryptoError
fault = invalid_signature

-- A member of the clientDataJSON that is a string.
unfoldable pub string_member : (Text → Option Text) → Text → Result CryptoError Text
string_member members name = ok_or (members name) (fault (missing_member name))

-- Steps 4 to 7, on the clientDataJSON.
unfoldable pub check_client_data : Web → WebAuthnAssertionParams → Result CryptoError (Unit {0})
check_client_data web params = do
  members ← ok_or (web.json_strings params.client_data_json) (fault client_data)
  cd_type ← string_member members (codes "type")
  guard (text_eq cd_type (codes "webauthn.get")) (fault (type_mismatch cd_type))
  cd_challenge ← string_member members (codes "challenge")
  decoded ← ok_or (web.base64url_decode_no_pad cd_challenge) (fault challenge_encoding)
  guard (text_eq decoded params.expected_challenge) (fault SignatureFault.challenge_mismatch)
  cd_origin ← string_member members (codes "origin")
  guard (text_eq cd_origin params.expected_origin)
      (fault (origin_mismatch params.expected_origin cd_origin))

-- Steps 8 and 9, on the signature.
unfoldable pub check_signature : Env → WebAuthnAssertionParams → Result CryptoError Bool
check_signature env params = do
  let payload = signed_payload env params.authenticator_data params.client_data_json
  guard (length params.signature == 64) (fault (rs_length (length params.signature)))
  guard (env.p256_encoded_point params.credential_public_key) (fault SignatureFault.invalid_point)
  guard (env.p256_verifying_key params.credential_public_key)
      (fault SignatureFault.invalid_public_key)
  sig ← ok_or (env.p256_from_slice params.signature) (fault SignatureFault.malformed)
  ok (env.p256_verify params.credential_public_key payload sig)

unfoldable pub verify_webauthn_assertion :
    Env → Web → WebAuthnAssertionParams → Result CryptoError Bool
verify_webauthn_assertion env web params = do
  auth_data ←
      map_err (λ n. fault (auth_data_too_short n))
        (parse_authenticator_data params.authenticator_data)
  guard (text_eq auth_data.rp_id_hash (env.sha256 (as_bytes params.expected_rp_id)))
      (fault rp_id_hash_mismatch)
  guard (has_flag auth_data.flags flag_up) (fault user_not_present)
  check_client_data web params
  check_signature env params

-- ===== src/WebAuthn/Ceremony.antt =====
-- src/webauthn_ceremony.rs: registration and login through the crate `webauthn-rs`, which is a
-- parameter with its state types. A random uuid is an argument.
pub mod Bound
pub mod Builder
use aqua_auth.Prelude.{
  ℕ, ◌%◌, Bool, true, false, List, [], ◌∷◌, Option, none, some, Result, ok, err, ◌>>=◌, ◌>>◌, ok_or,
  guard, if◌then◌else◌, ◌==◌, length, take, map,
}
use aqua_auth.Env.{Env}
use aqua_auth.Text.{Text, Bytes, codes, text_eq, as_bytes}
use aqua_auth.Did.Key.{p256_prefix}
use aqua_auth.Did.Parse.{encode_did_key}
use aqua_auth.WebAuthn.Store.{NewCredential}

-- The reasons of `BadRequest` and of `Internal`
pub data CeremonyError : Type 0 where
  finish_registration start_registration finish_authentication start_authentication : CeremonyError
  unsupported_curve not_ec2 wrong_caller : CeremonyError
  serialize_passkey deserialize_blob uuid_from_did : CeremonyError
  x_length : ℕ → CeremonyError
  invalid_origin : Text → CeremonyError
  no_origin webauthn_builder webauthn_build : CeremonyError

pub data CoseCurve : Type 0 where
  secp256r1 other_curve : CoseCurve

-- `COSEKeyType`
pub data CoseKey : Type 0 where
  ec2 : CoseCurve → Bytes → Bytes → CoseKey
  other_key : CoseKey

-- The types and functions of `webauthn-rs`, `uuid`, `sha3` and `serde_json` that the file calls.
pub record WebauthnRs : Type 1 where
  pub Passkey : Type 0
  pub RegistrationState : Type 0
  pub AuthenticationState : Type 0
  pub CreationOptions : Type 0
  pub RequestOptions : Type 0
  pub Attestation : Type 0
  pub Assertion : Type 0
  pub Uuid : Type 0
  pub uuid_from_slice : Bytes → Option Uuid
  pub sha3_256 : Bytes → Bytes
  pub start_passkey_registration :
      Uuid → Text → Text → Option (List Bytes) → Option (CreationOptions × RegistrationState)
  pub finish_passkey_registration : Attestation → RegistrationState → Option Passkey
  pub start_passkey_authentication : List Passkey → Option (RequestOptions × AuthenticationState)
  -- the credential id and the counter
  pub finish_passkey_authentication : Assertion → AuthenticationState → Option (Bytes × ℕ)
  pub cred_id : Passkey → Bytes
  pub public_key : Passkey → CoseKey
  pub to_blob : Passkey → Option Bytes
  pub from_blob : Bytes → Option Passkey

pub data RegisterMode : Type 0 where
  anonymous : RegisterMode
  second_factor : Text → List Bytes → RegisterMode

pub record FinishedRegistration : Type 0 where
  pub credential : NewCredential
  pub did : Text
  pub credential_id_hex : Text

pub record FinishedLogin : Type 0 where
  pub credential_id : Bytes
  pub counter : ℕ

-- `last().is_some_and(|b| b & 1 == 1)`
unfoldable pub last_is_odd : Bytes → Bool
last_is_odd [] = false
last_is_odd (b ∷ []) = b % 2 == 1
last_is_odd (b ∷ c ∷ bytes) = last_is_odd (c ∷ bytes)

unfoldable pub compressed_of : CoseKey → Result CeremonyError Bytes
compressed_of other_key = err not_ec2
compressed_of (ec2 other_curve x y) = err unsupported_curve
compressed_of (ec2 secp256r1 x y) = do
  guard (length x == 32) (x_length (length x))
  ok ((if last_is_odd y then 0x03 else 0x02) ∷ x)

-- `None` for an empty list of known credentials
unfoldable pub excluded : List Bytes → Option (List Bytes)
excluded [] = none
excluded (id ∷ ids) = some (id ∷ ids)

unfoldable pub did_key_from_p256_compressed : Env → Bytes → Text
did_key_from_p256_compressed env pubkey = encode_did_key env p256_prefix pubkey

module _ (rs : WebauthnRs) where
  pub record StartedRegistration : Type 0 where
    pub options : rs.CreationOptions
    pub state : rs.RegistrationState
    pub intended_did : Option Text

  unfoldable pub user_handle_for : Text → Bytes
  user_handle_for did = rs.sha3_256 (as_bytes did)

  unfoldable pub p256_compressed_from_passkey : rs.Passkey → Result CeremonyError Bytes
  unfolding compressed_of
  p256_compressed_from_passkey passkey = compressed_of (rs.public_key passkey)

  unfoldable pub p256_compressed_from_passkey_blob : Bytes → Result CeremonyError Bytes
  unfolding p256_compressed_from_passkey
  p256_compressed_from_passkey_blob blob = do
    passkey ← ok_or (rs.from_blob blob) deserialize_blob
    p256_compressed_from_passkey passkey

  unfoldable pub start_with :
      rs.Uuid → Text → Option (List Bytes) → Option Text → Result CeremonyError StartedRegistration
  start_with uuid username exclude intended_did = do
    (options, state) ←
        ok_or (rs.start_passkey_registration uuid username username exclude) start_registration
    ok (record { options = options; state = state; intended_did = intended_did })

  unfoldable pub register_start : RegisterMode → rs.Uuid → Result CeremonyError StartedRegistration
  unfolding start_with user_handle_for excluded
  register_start anonymous new_v4 = start_with new_v4 (codes "aqua passkey") none none
  register_start (second_factor did existing) new_v4 = do
    user_uuid ← ok_or (rs.uuid_from_slice (take 16 (user_handle_for did))) uuid_from_did
    start_with user_uuid did (excluded existing) (some did)

  unfoldable pub login_start :
      List rs.Passkey → Result CeremonyError (rs.RequestOptions × rs.AuthenticationState)
  login_start passkeys = ok_or (rs.start_passkey_authentication passkeys) start_authentication

  unfoldable pub login_finish :
      rs.Assertion → rs.AuthenticationState → Result CeremonyError FinishedLogin
  login_finish assertion state = do
    (id, counter) ← ok_or (rs.finish_passkey_authentication assertion state) finish_authentication
    ok (record { credential_id = id; counter = counter })

  module _ (env : Env) where
    -- the DID that a registration binds its credential to
    unfoldable pub bound_did : Bytes → Option Text → Option Text → Result CeremonyError Text
    bound_did public_key none completing_did = do
      pubkey ← p256_compressed_from_passkey_blob public_key
      ok (did_key_from_p256_compressed env pubkey)
    bound_did public_key (some intended) none = err wrong_caller
    bound_did public_key (some intended) (some c) = do
      guard (text_eq c intended) wrong_caller
      ok intended

    unfoldable pub register_finish :
        rs.Attestation
        → rs.RegistrationState
        → Option Text
        → Option Text
        → Option Text
        → Result CeremonyError FinishedRegistration
    register_finish attestation state intended_did completing_did label = do
      passkey ← ok_or (rs.finish_passkey_registration attestation state) finish_registration
      public_key ← ok_or (rs.to_blob passkey) serialize_passkey
      did ← bound_did public_key intended_did completing_did
      ok (record {
        credential = record {
          did = did;
          credential_id = rs.cred_id passkey;
          public_key = public_key;
          sign_count = 0;
          transports = [];
          label = label;
        };
        did = did;
        credential_id_hex = env.hex_encode (rs.cred_id passkey);
      })

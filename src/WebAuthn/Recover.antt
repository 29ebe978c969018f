-- ===== src/WebAuthn/Recover.antt =====
-- src/webauthn_recover.rs: the check of a passkey assertion without a stored key, which recovers
-- the two keys that the signature verifies under.
pub mod Accepted
use aqua_auth.Prelude.{
  ℕ, Bool, true, false, not, ◌&&◌, List, Option, none, some, Result, ok, err, ◌>>=◌, ◌>>◌, ok_or,
  guard, map_err, if◌then◌else◌,
}
use aqua_auth.Env.{Env}
use aqua_auth.Text.{Text, Bytes, codes, text_eq}
use aqua_auth.Did.Key.{p256_prefix}
use aqua_auth.Did.Parse.{encode_did_key}
use aqua_auth.WebAuthn.Web.{Web, ClientData}
use aqua_auth.WebAuthn.Policy.{AssertionPolicy, RpEntry, entry_for_rp_id_hash, allows_origin}
use aqua_auth.WebAuthn.Login.{LoginChallengeError, derive_login_challenge}
use aqua_auth.WebAuthn.Assertion.{
  AuthenticatorData, parse_authenticator_data, signed_payload, has_flag, flag_up, flag_uv, flag_be,
  flag_bs,
}

pub record AssertionResponseJson : Type 0 where
  pub authenticator_data : Text
  pub client_data_json : Text
  pub signature : Text
  pub user_handle : Option Text

-- `clientExtensionResults` is carried and never read.
pub record AssertionJson : Type 0 where
  pub id : Text
  pub raw_id : Text
  pub type_name : Text
  pub response : AssertionResponseJson

pub data ExpectedChallenge : Type 0 where
  exact : Bytes → ExpectedChallenge
  derived_login : Bytes → Text → ExpectedChallenge

-- The candidates are the compressed points for the even and the odd y.
pub record RecoveredAssertion : Type 0 where
  pub rp_id : Text
  pub origin : Text
  pub user_verified : Bool
  pub backup_eligible : Bool
  pub backup_state : Bool
  pub credential_id : Bytes
  pub user_handle : Option Bytes
  pub candidates : Bytes × Bytes

-- What is malformed
pub data Structure : Type 0 where
  credential_type member : Text → Structure
  id_mismatch client_data_json client_challenge : Structure
  auth_data_length : ℕ → Structure

pub data AssertionError : Type 0 where
  malformed : Structure → AssertionError
  rp_id_not_allowed origin_not_allowed cross_origin top_origin_present wrong_type : AssertionError
  challenge_mismatch user_presence_missing user_verification_missing bad_signature : AssertionError
  invalid_node_url : LoginChallengeError → AssertionError

module _ (env : Env) where
  -- `did_key_of`
  unfoldable pub did_key_of : Bytes → Text
  did_key_of point = encode_did_key env p256_prefix point

  unfoldable pub candidate_dids : RecoveredAssertion → Text × Text
  unfolding did_key_of
  candidate_dids a = (did_key_of a.candidates.0, did_key_of a.candidates.1)

-- `decode`, for the named member
unfoldable pub decode : Web → Text → Text → Result AssertionError Bytes
decode web name value = ok_or (web.base64url_decode value) (malformed (Structure.member name))

unfoldable pub decode_handle : Web → Option Text → Result AssertionError (Option Bytes)
decode_handle web none = ok none
decode_handle web (some h) = do bytes ← decode web (codes "userHandle") h; ok (some bytes)

-- The members of the assertion, decoded.
pub record Decoded : Type 0 where
  pub credential_id : Bytes
  pub auth_data_bytes : Bytes
  pub client_data_bytes : Bytes
  pub signature : Bytes
  pub user_handle : Option Bytes

unfoldable pub decode_members : Web → AssertionJson → Result AssertionError Decoded
decode_members web a = do
  guard (text_eq a.type_name (codes "public-key")) (malformed (credential_type a.type_name))
  credential_id ← decode web (codes "rawId") a.raw_id
  id ← decode web (codes "id") a.id
  guard (text_eq id credential_id) (malformed id_mismatch)
  auth_data_bytes ← decode web (codes "authenticatorData") a.response.authenticator_data
  client_data_bytes ← decode web (codes "clientDataJSON") a.response.client_data_json
  signature ← decode web (codes "signature") a.response.signature
  user_handle ← decode_handle web a.response.user_handle
  ok (record {
    credential_id = credential_id;
    auth_data_bytes = auth_data_bytes;
    client_data_bytes = client_data_bytes;
    signature = signature;
    user_handle = user_handle;
  })

module _ (env : Env) (web : Web) where
  -- `want`
  unfoldable pub wanted_challenge : ExpectedChallenge → Result AssertionError Bytes
  wanted_challenge (exact want) = ok want
  wanted_challenge (derived_login nonce node_url) =
      map_err invalid_node_url (derive_login_challenge env web nonce node_url)

  unfoldable pub check_challenge : ClientData → ExpectedChallenge → Result AssertionError (Unit {0})
  check_challenge client expected = do
    guard (text_eq client.type_name (codes "webauthn.get")) wrong_type
    challenge ← ok_or (web.base64url_decode client.challenge) (malformed client_challenge)
    want ← wanted_challenge expected
    guard (text_eq challenge want) challenge_mismatch

  -- the candidates, for the even and the odd y
  unfoldable pub recover_candidates : Bytes → Bytes → Bytes → Result AssertionError (Bytes × Bytes)
  recover_candidates signature auth_data_bytes client_data_bytes = do
    parsed ← ok_or (env.p256_from_der signature) bad_signature
    let sig = web.p256_normalize_s parsed
    let z = env.sha256 (signed_payload env auth_data_bytes client_data_bytes)
    even ← ok_or (web.p256_recover z sig false) bad_signature
    odd ← ok_or (web.p256_recover z sig true) bad_signature
    ok (even, odd)

  -- the checks that need no key, which find the relying party
  unfoldable pub check_ceremony :
      ClientData
      → AuthenticatorData
      → ExpectedChallenge
      → AssertionPolicy
      → Result AssertionError RpEntry
  check_ceremony client auth_data expected policy = do
    check_challenge client expected
    entry ← ok_or (entry_for_rp_id_hash policy auth_data.rp_id_hash) rp_id_not_allowed
    guard (allows_origin entry client.origin) origin_not_allowed
    guard (not (elim client.cross_origin [ none ↦ false | some b ↦ b ])) AssertionError.cross_origin
    guard (not client.top_origin) top_origin_present
    guard (has_flag auth_data.flags flag_up) user_presence_missing
    guard (not (policy.require_uv && not (has_flag auth_data.flags flag_uv)))
        user_verification_missing
    ok entry

  unfoldable pub verify_and_recover :
      AssertionJson → ExpectedChallenge → AssertionPolicy → Result AssertionError RecoveredAssertion
  verify_and_recover a expected policy = do
    d ← decode_members web a
    auth_data ←
        map_err (λ n. malformed (auth_data_length n)) (parse_authenticator_data d.auth_data_bytes)
    client ← ok_or (web.client_data d.client_data_bytes) (malformed Structure.client_data_json)
    entry ← check_ceremony client auth_data expected policy
    candidates ← recover_candidates d.signature d.auth_data_bytes d.client_data_bytes
    ok (record {
      rp_id = entry.rp_id;
      origin = client.origin;
      user_verified = has_flag auth_data.flags flag_uv;
      backup_eligible = has_flag auth_data.flags flag_be;
      backup_state = has_flag auth_data.flags flag_bs;
      credential_id = d.credential_id;
      user_handle = d.user_handle;
      candidates = candidates;
    })

-- ===== src/Tests/Passkeys.antt =====
-- Passkeys: concrete functions in the place of the crates', and witnesses.
use aqua_auth.Prelude.{
  ◌≡◌, ◌≢◌, ◌↔◌, refl, true, false, List, [], ◌∷◌, ◌++◌, none, some, ok, if◌then◌else◌,
}
use aqua_auth.Text.{Bytes, codes, is_ascii_alphanumeric}
use aqua_auth.Text.Ends.{ends_with, pieces, strip_suffix, replace_char}
use aqua_auth.Did.Principal.{from_proven_did_key}
use aqua_auth.Did.Parse.{encode_did_key}
use aqua_auth.Did.Key.{p256_of, p256_pubkey_from_did_key}
use aqua_auth.WebAuthn.Web.{Web, ClientData}
use aqua_auth.WebAuthn.Policy.{
  RpEntry, AssertionPolicy, AssertionPolicyBuilder, builder, listed, allows_origin,
  entry_for_rp_id_hash, is_plain_hostname, host_within_rp_id, push_new, scheme_allowed,
  validate_rp_id, normalise_origin, add_origins, add_related, add_rp, rp, rp_with_related_origins,
  require_uv, build,
}
use aqua_auth.WebAuthn.Policy.Built.{
  Call, rp_of, require_uv_of, IsGranted, IsValid, call, declare, built-IsValid, allowed-IsGranted,
}
use aqua_auth.WebAuthn.Login.{node_url_of, derive_login_challenge}
use aqua_auth.WebAuthn.Assertion.{
  WebAuthnAssertionParams, has_flag, parse_authenticator_data, signed_payload, string_member,
  check_client_data, check_signature, verify_webauthn_assertion,
}
use aqua_auth.WebAuthn.Assertion.Accepted.{IsAssertion, verify_webauthn_assertion-IsAssertion}
use aqua_auth.WebAuthn.Recover.{
  AssertionJson, exact, RecoveredAssertion, did_key_of, candidate_dids, decode, decode_handle,
  decode_members, wanted_challenge, check_challenge, recover_candidates, check_ceremony,
  verify_and_recover,
}
use aqua_auth.WebAuthn.Recover.Accepted.{IsRecovered, recover_iff}
use aqua_auth.WebAuthn.Select.{
  the_only, did_at, is_hinted, the_common, is_theirs, parse, pick, pending_recovery, select,
  resolve,
}
use aqua_auth.WebAuthn.Ceremony.{
  last_is_odd, compressed_of, excluded, did_key_from_p256_compressed, user_handle_for,
  p256_compressed_from_passkey, p256_compressed_from_passkey_blob, start_with, register_start,
  bound_did, register_finish,
}
use aqua_auth.Tests.Toy.{program, toy, replicate}

unfoldable pub passkeys : Unit {0}
unfolding program is_ascii_alphanumeric ends_with pieces strip_suffix replace_char
    from_proven_did_key encode_did_key p256_of p256_pubkey_from_did_key builder listed allows_origin
    entry_for_rp_id_hash is_plain_hostname host_within_rp_id push_new scheme_allowed validate_rp_id
    normalise_origin add_origins add_related add_rp rp rp_with_related_origins require_uv build call
    declare node_url_of derive_login_challenge has_flag parse_authenticator_data signed_payload
    string_member check_client_data check_signature verify_webauthn_assertion did_key_of
    candidate_dids decode decode_handle decode_members wanted_challenge check_challenge
    recover_candidates check_ceremony verify_and_recover the_only did_at is_hinted the_common
    is_theirs parse pick pending_recovery select resolve last_is_odd compressed_of excluded
    did_key_from_p256_compressed user_handle_for p256_compressed_from_passkey
    p256_compressed_from_passkey_blob start_with register_start bound_did register_finish
passkeys = tt

abbrev client : ClientData
client = record {
  type_name = codes "webauthn.get";
  challenge = codes "c";
  origin = codes "https://login.a.example";
  cross_origin = none;
  top_origin = false;
}

-- every URL is `https://login.a.example`, and base64url is the identity
abbrev pub web : Web
web = record {
  parse_url = λ t. some (record {
    scheme = codes "https";
    username = [];
    password = none;
    path = codes "/";
    query = none;
    fragment = none;
    host = some (codes "login.a.example");
    port_or_known_default = some 443;
    origin = codes "https://login.a.example";
  });
  is_ip = λ t. false;
  base64url_decode = λ t. some t;
  base64url_decode_no_pad = λ t. some t;
  client_data = λ b. some client;
  json_strings = λ b. some (λ name. some (codes "webauthn.get"));
  p256_normalize_s = λ s. s;
  p256_recover = λ z s odd. some (if odd then 3 ∷ s else 2 ∷ s);
  p256_from_spki = λ b. some b;
}

abbrev auth_data : Bytes
auth_data = replicate 32 b'a' ++ 0x05 ∷ replicate 4 0

abbrev assertion : Bytes → AssertionJson
assertion signature = record {
  id = codes "id";
  raw_id = codes "id";
  type_name = codes "public-key";
  response = record {
    authenticator_data = auth_data;
    client_data_json = codes "{}";
    signature = signature;
    user_handle = none;
  };
}

abbrev entry : RpEntry
entry = record {
  rp_id = codes "a.example";
  rp_id_hash = replicate 32 b'a';
  origins = codes "https://login.a.example" ∷ [];
}

abbrev pub policy : AssertionPolicy
policy = record { entries = entry ∷ []; require_uv = true }

abbrev pub recovered : Bytes → RecoveredAssertion
recovered signature = record {
  rp_id = codes "a.example";
  origin = codes "https://login.a.example";
  user_verified = true;
  backup_eligible = false;
  backup_state = false;
  credential_id = codes "id";
  user_handle = none;
  candidates = (2 ∷ signature, 3 ∷ signature);
}

recovers :
    verify_and_recover toy web (assertion (codes "s")) (exact (codes "c")) policy
    ≡ ok (recovered (codes "s"))
unfolding passkeys
recovers = refl

recover_iff_example :
    (verify_and_recover toy web (assertion (codes "s")) (exact (codes "c")) policy
      ≡ ok (recovered (codes "s")))
    ↔ IsRecovered toy web (assertion (codes "s")) (exact (codes "c")) policy (recovered (codes "s"))
recover_iff_example =
    recover_iff toy web (assertion (codes "s")) (exact (codes "c")) policy (recovered (codes "s"))

abbrev params : WebAuthnAssertionParams
params = record {
  credential_public_key = replicate 33 2;
  authenticator_data = auth_data;
  client_data_json = codes "{}";
  signature = replicate 64 1;
  expected_challenge = codes "webauthn.get";
  expected_origin = codes "webauthn.get";
  expected_rp_id = codes "a.example";
}

verifies : verify_webauthn_assertion toy web params ≡ ok true
unfolding passkeys
verifies = refl

verify_webauthn_assertion-IsAssertion_example :
    (verify_webauthn_assertion toy web params ≡ ok true) ↔ IsAssertion toy web params
verify_webauthn_assertion-IsAssertion_example = verify_webauthn_assertion-IsAssertion toy web params

-- one relying party, and two calls of `require_uv`
abbrev calls : List Call
calls =
    require_uv_of false
    ∷ rp_of (codes "A.example.") (codes "https://login.a.example/" ∷ [])
    ∷ require_uv_of true
    ∷ []

abbrev built : AssertionPolicyBuilder
built = record { entries = entry ∷ []; require_uv = true }

declares : declare toy web calls builder ≡ ok built
unfolding passkeys
declares = refl

builds : build built ≡ ok policy
unfolding passkeys
builds = refl

built-IsValid_example :
    IsValid toy web calls policy.entries × (policy.entries ≢ []) × (policy.require_uv ≡ true)
built-IsValid_example = built-IsValid toy web calls built policy declares builds

finds : entry_for_rp_id_hash policy (replicate 32 b'a') ≡ some entry
unfolding passkeys
finds = refl

allows : allows_origin entry (codes "https://login.a.example") ≡ true
unfolding passkeys
allows = refl

allowed-IsGranted_example :
    IsGranted toy web calls (replicate 32 b'a') (codes "https://login.a.example")
allowed-IsGranted_example =
    allowed-IsGranted toy web calls built policy (replicate 32 b'a') entry
      (codes "https://login.a.example") declares builds finds allows

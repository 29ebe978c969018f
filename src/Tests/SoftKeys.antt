-- ===== src/Tests/SoftKeys.antt =====
-- The software passkey: an assertion on small inputs, and a witness.
use aqua_auth.Prelude.{
  ◌≡◌, ◌↔◌, refl, ◌⊎◌, inl, true, false, [], ◌∷◌, ◌++◌, none, some, ok, if◌then◌else◌, sym, length,
}
use aqua_auth.Text.{Text, Bytes, codes, text_eq, starts_with, as_bytes}
use aqua_auth.WebAuthn.Web.{Web, ClientData}
use aqua_auth.WebAuthn.Recover.{
  AssertionJson, exact, RecoveredAssertion, candidate_dids, verify_and_recover,
}
use aqua_auth.WebAuthn.SoftPasskey.{
  SigningKey, Crates, SoftPasskey, AssertOpts, opts_for, text_of_bool, cross_origin_member,
  or_rp_id, be_bytes, cbor_text, cbor_bytes, id_len, did, b64_option, authenticator_data,
  client_data_json, shaped_signature, assert_raw, assert, attested_data, attestation_object,
  attestation_none, AttestationJson,
}
use aqua_auth.WebAuthn.SoftPasskey.Laws.{
  some-inj, members_before, object, client_members, IsFaithful, IsAcceptable,
}
use aqua_auth.WebAuthn.SoftPasskey.Accepted.{assert_iff}
use aqua_auth.Tests.Toy.{toy, replicate}
use aqua_auth.Tests.Passkeys
use aqua_auth.Tests.Passkeys.{passkeys}

unfoldable soft_keys : Unit {0}
unfolding passkeys starts_with text_of_bool cross_origin_member or_rp_id be_bytes cbor_text
    cbor_bytes id_len did b64_option authenticator_data client_data_json shaped_signature assert_raw
    assert attested_data attestation_object attestation_none
soft_keys = tt

abbrev key : SigningKey
key = record {
  sign = λ m. 5 ∷ [];
  compressed = replicate 33 2;
  x = some (replicate 32 3);
  y = some (replicate 32 4);
  public_key_der = some (replicate 91 6);
}

abbrev crates : Crates
crates = record {
  to_der = λ s. s;
  negate_s = λ s. some s;
  json_string = λ s. some (b'"' ∷ (s ++ codes "\""));
}

abbrev passkey : SoftPasskey
passkey = record {
  key = key;
  credential_id = codes "id";
  rp_id = codes "a.example";
  user_handle = some (codes "u");
}

abbrev opts : AssertOpts
opts = record (opts_for (codes "challenge") (codes "https://login.a.example")) { high_s = true }

abbrev printed : Text
printed =
    codes
      "{\"type\":\"webauthn.get\",\"challenge\":\"challenge\",\"origin\":\"https://login.a.example\",\"crossOrigin\":false}"

prints :
    client_data_json toy crates opts.type_name opts.challenge opts.origin opts.cross_origin
    ≡ some printed
unfolding soft_keys
prints = refl

abbrev client : ClientData
client = record {
  type_name = codes "webauthn.get";
  challenge = codes "challenge";
  origin = codes "https://login.a.example";
  cross_origin = some false;
  top_origin = false;
}

-- reads one text, and recovers the key of the passkey and another
abbrev web : Web
web = record Passkeys.web {
  base64url_decode = λ t. some t;
  client_data = λ b. if text_eq b printed then some client else none;
  p256_normalize_s = λ s. s;
  p256_recover = λ z s odd. some (if odd then replicate 33 3 else replicate 33 2);
}

reads_back :
    (type_text challenge_text origin_text : Text)
    → crates.json_string opts.type_name ≡ some type_text
    → crates.json_string (toy.base64url_encode opts.challenge) ≡ some challenge_text
    → crates.json_string opts.origin ≡ some origin_text
    → web.client_data
        (as_bytes (object (client_members type_text challenge_text origin_text opts.cross_origin)))
      ≡ some client
unfolding soft_keys members_before object
reads_back type_text challenge_text origin_text typed challenged placed =
    rw (← some-inj typed, ← some-inj challenged, ← some-inj placed) refl

digest-length : (b : Bytes) → length (toy.sha256 b) ≡ 32
digest-length b = refl

faithful : IsFaithful toy web crates passkey.key opts
faithful = record {
  base64 = λ b. refl;
  digest_length = digest-length;
  der = λ s. refl;
  normal = λ s. refl;
  negated = λ s t h. sym (some-inj h);
  plain = λ b. refl;
  json = reads_back;
  recovers = λ payload. (replicate 33 2, replicate 33 3, refl, refl, inl refl);
}

-- the assertion, with `s` for the text of its client data
abbrev asserted : AssertionJson
asserted = record {
  id = codes "id";
  raw_id = codes "id";
  type_name = codes "public-key";
  response = record {
    authenticator_data = replicate 32 b'a' ++ 0x05 ∷ replicate 4 0;
    client_data_json = printed;
    signature = 5 ∷ [];
    user_handle = some (codes "u");
  };
}

asserts : assert toy crates web passkey opts ≡ some asserted
unfolding soft_keys
asserts = refl

abbrev passkey_did : Text
passkey_did = codes "did:key:z" ++ (0x80 ∷ 0x24 ∷ replicate 33 2)

named : did toy passkey ≡ some passkey_did
unfolding soft_keys
named = refl

assert_iff_example :
    ((r : RecoveredAssertion) × (verify_and_recover toy web asserted
          (exact (codes "challenge"))
          Passkeys.policy
        ≡ ok r)
      × (r.credential_id ≡ codes "id")
      × (((candidate_dids toy r).0 ≡ passkey_did) ⊎ ((candidate_dids toy r).1 ≡ passkey_did)))
    ↔ IsAcceptable toy passkey opts (codes "challenge") Passkeys.policy
assert_iff_example =
    assert_iff toy web crates passkey opts faithful (codes "challenge") Passkeys.policy asserts
      named

-- the answer of `create()` is made without a panic, and its client data starts as it should
attests :
    (a : AttestationJson) × (attestation_none toy crates passkey
        (codes "challenge")
        (codes "https://login.a.example")
      ≡ some a)
    × (starts_with (codes "{\"type\":\"webauthn.create\"") a.client_data_json ≡ true)
unfolding soft_keys
attests = (_, refl, refl)

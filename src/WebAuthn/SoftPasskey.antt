-- ===== src/WebAuthn/SoftPasskey.antt =====
-- src/webauthn_testkit.rs: a software passkey, browser and authenticator at once. Its key and what it
-- calls of p256 and serde_json are parameters; `none` is a panic.
pub mod Laws
pub mod Accepted
use aqua_auth.Prelude.{
  ℕ, ◌+◌, ◌/◌, ◌%◌, Bool, true, false, [], ◌∷◌, ◌++◌, Option, none, some, if◌then◌else◌, ltb, leb,
  ◌==◌, length,
}
use aqua_auth.Env.{Env}
use aqua_auth.Text.{Text, Bytes, codes, as_bytes}
use aqua_auth.Did.Key.{p256_prefix}
use aqua_auth.Did.Parse.{encode_did_key}
use aqua_auth.WebAuthn.Web.{Web}
use aqua_auth.WebAuthn.Assertion.{signed_payload, flag_up, flag_uv}
use aqua_auth.WebAuthn.Recover.{AssertionJson}

-- `FLAG_AT`
abbrev pub flag_at : ℕ
flag_at = 0x40

-- `p256::ecdsa::SigningKey`: its signature, as the fixed bytes of r and s, and its public key, as
-- the compressed point, the coordinates of the uncompressed one, and the SubjectPublicKeyInfo
pub record SigningKey : Type 0 where
  pub sign : Bytes → Bytes
  pub compressed : Bytes
  pub x : Option Bytes
  pub y : Option Bytes
  pub public_key_der : Option Bytes

-- `Signature::to_der`; `Signature::from_scalars(r, -s)`; and `serde_json::to_string` of a `str`
pub record Crates : Type 0 where
  pub to_der : Bytes → Bytes
  pub negate_s : Bytes → Option Bytes
  pub json_string : Text → Option Text

pub record SoftPasskey : Type 0 where
  pub key : SigningKey
  pub credential_id : Bytes
  pub rp_id : Text
  pub user_handle : Option Bytes

pub record AssertOpts : Type 0 where
  pub challenge : Bytes
  pub origin : Text
  pub flags : ℕ
  pub cross_origin : Option Bool
  pub rp_id_override : Option Text
  pub type_name : Text
  pub high_s : Bool

-- `AssertOpts::new`; the flags have no bit in common
abbrev pub opts_for : Bytes → Text → AssertOpts
opts_for challenge origin = record {
  challenge = challenge;
  origin = origin;
  flags = flag_up + flag_uv;
  cross_origin = some false;
  rp_id_override = none;
  type_name = codes "webauthn.get";
  high_s = false;
}

-- `new_seeded`, with what it draws
abbrev pub new_seeded : SigningKey → Bytes → Bytes → Text → SoftPasskey
new_seeded key credential_id user_handle rp_id = record {
  key = key;
  credential_id = credential_id;
  rp_id = rp_id;
  user_handle = some user_handle;
}

unfoldable pub text_of_bool : Bool → Text
text_of_bool true = codes "true"
text_of_bool false = codes "false"

-- the member `crossOrigin`, if there is one
unfoldable pub cross_origin_member : Option Bool → Text
unfolding text_of_bool
cross_origin_member none = []
cross_origin_member (some c) = codes ",\"crossOrigin\":" ++ text_of_bool c

unfoldable pub or_rp_id : Option Text → Text → Text
or_rp_id none rp_id = rp_id
or_rp_id (some other) rp_id = other

-- `to_be_bytes` of a `u16`
unfoldable pub be_bytes : ℕ → Bytes
be_bytes n = n / 256 ∷ n % 256 ∷ []

unfoldable pub cbor_text : Bytes → Text → Option Bytes
cbor_text out s =
    if ltb (length (as_bytes s)) 24
    then some (out ++ (0x60 + length (as_bytes s)) ∷ as_bytes s)
    else none

unfoldable pub cbor_bytes : Bytes → Bytes → Option Bytes
unfolding be_bytes
cbor_bytes out bytes =
    if leb (length bytes) 23
    then some (out ++ (0x40 + length bytes) ∷ bytes)
    else if leb (length bytes) 0xff
    then some (out ++ 0x58 ∷ length bytes ∷ bytes)
    else if ltb (length bytes) 65536
    then some (out ++ 0x59 ∷ (be_bytes (length bytes) ++ bytes))
    else none

-- `id_len`
unfoldable pub id_len : Bytes → Option ℕ
id_len credential_id = if leb (length credential_id) 1023 then some (length credential_id) else none

infixl 5 ◌>>=◌
-- a chain of steps that may panic
abbrev pub ◌>>=◌ {ℓ κ} : {A : Type ℓ} {B : Type κ} → Option A → (A → Option B) → Option B
none >>= next = none
some a >>= next = next a

module _ (env : Env) where
  unfoldable pub did : SoftPasskey → Option Text
  did pk =
      if length pk.key.compressed == 33
      then some (encode_did_key env p256_prefix pk.key.compressed)
      else none

  unfoldable pub b64_option : Option Bytes → Option Text
  b64_option none = none
  b64_option (some bytes) = some (env.base64url_encode bytes)

  unfoldable pub authenticator_data : Text → ℕ → Bytes → Bytes
  authenticator_data rp_id flags attested =
      env.sha256 (as_bytes rp_id) ++ flags ∷ 0 ∷ 0 ∷ 0 ∷ 0 ∷ attested

  module _ (crates : Crates) where
    unfoldable pub client_data_json : Text → Bytes → Text → Option Bool → Option Bytes
    unfolding cross_origin_member
    client_data_json type_name challenge origin cross_origin = do
      type_text ← crates.json_string type_name
      origin_text ← crates.json_string origin
      some (
          as_bytes (
            codes "{\"type\":"
            ++ (type_text
                ++ (codes ",\"challenge\":\""
                    ++ (env.base64url_encode challenge
                        ++ (codes "\",\"origin\":"
                            ++ (origin_text
                                ++ (cross_origin_member cross_origin ++ codes "}"))))))))

    module _ (web : Web) where
      -- the signature of `assert_raw`, in the form that is asked for
      unfoldable pub shaped_signature : SigningKey → Bytes → Bool → Option Bytes
      shaped_signature key payload high_s =
          let low = web.p256_normalize_s (key.sign payload) in
          if high_s then crates.negate_s low else some low

      unfoldable pub assert_raw : SoftPasskey → Bytes → Bytes → Bool → Option AssertionJson
      unfolding b64_option
      assert_raw pk auth_data client_data high_s = do
        signature ← shaped_signature pk.key (signed_payload env auth_data client_data) high_s
        some (record {
          id = env.base64url_encode pk.credential_id;
          raw_id = env.base64url_encode pk.credential_id;
          type_name = codes "public-key";
          response = record {
            authenticator_data = env.base64url_encode auth_data;
            client_data_json = env.base64url_encode client_data;
            signature = env.base64url_encode (crates.to_der signature);
            user_handle = b64_option pk.user_handle;
          };
        })

      unfoldable pub assert : SoftPasskey → AssertOpts → Option AssertionJson
      unfolding or_rp_id
      assert pk o = do
        client_data ← client_data_json o.type_name o.challenge o.origin o.cross_origin
        assert_raw pk (authenticator_data (or_rp_id o.rp_id_override pk.rp_id) o.flags [])
            client_data o.high_s

-- The answer of `create()`; its constant members are left out.
pub record AttestationJson : Type 0 where
  pub id : Text
  pub raw_id : Text
  pub client_data_json : Text
  pub authenticator_data : Text
  pub public_key : Text
  pub attestation_object : Text

module _ (env : Env) (crates : Crates) where
  -- the attested credential data: no AAGUID, the credential ID and the COSE key
  unfoldable pub attested_data : SoftPasskey → Option Bytes
  unfolding id_len be_bytes
  attested_data pk = do
    x ← pk.key.x
    y ← pk.key.y
    n ← id_len pk.credential_id
    let head =
        0
        ∷ 0
        ∷ 0
        ∷ 0
        ∷ 0
        ∷ 0
        ∷ 0
        ∷ 0
        ∷ 0
        ∷ 0
        ∷ 0
        ∷ 0
        ∷ 0
        ∷ 0
        ∷ 0
        ∷ 0
        ∷ (be_bytes n ++ pk.credential_id)
    with_x ← cbor_bytes (head ++ 0xa5 ∷ 0x01 ∷ 0x02 ∷ 0x03 ∷ 0x26 ∷ 0x20 ∷ 0x01 ∷ 0x21 ∷ []) x
    cbor_bytes (with_x ++ 0x22 ∷ []) y

  unfoldable pub attestation_object : Bytes → Option Bytes
  attestation_object auth_data = do
    o1 ← cbor_text (0xa3 ∷ []) (codes "fmt")
    o2 ← cbor_text o1 (codes "none")
    o3 ← cbor_text o2 (codes "attStmt")
    o4 ← cbor_text (o3 ++ 0xa0 ∷ []) (codes "authData")
    cbor_bytes o4 auth_data

  unfoldable pub attestation_none : SoftPasskey → Bytes → Text → Option AttestationJson
  unfolding attested_data attestation_object
  attestation_none pk challenge origin = do
    attested ← attested_data pk
    let auth_data = authenticator_data env pk.rp_id (flag_up + flag_uv + flag_at) attested
    object ← attestation_object auth_data
    client_data ←
        client_data_json env crates (codes "webauthn.create") challenge origin (some false)
    spki ← pk.key.public_key_der
    some (record {
      id = env.base64url_encode pk.credential_id;
      raw_id = env.base64url_encode pk.credential_id;
      client_data_json = env.base64url_encode client_data;
      authenticator_data = env.base64url_encode auth_data;
      public_key = env.base64url_encode spki;
      attestation_object = env.base64url_encode object;
    })

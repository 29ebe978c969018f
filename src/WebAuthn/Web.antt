-- ===== src/WebAuthn/Web.antt =====
-- What the passkey code calls of other crates, as parameters: `url`, `serde_json`, `base64`, `p256`
-- and the parser of IP addresses. The record types are the views of their values that src/ reads.
use aqua_auth.Prelude.{ℕ, Bool, Option}
use aqua_auth.Text.{Text, Bytes}

-- A parsed `url::Url` by its accessors; `origin` is `origin().ascii_serialization()`.
pub record Url : Type 0 where
  pub scheme : Text
  pub username : Text
  pub password : Option Text
  pub path : Text
  pub query : Option Text
  pub fragment : Option Text
  pub host : Option Text
  pub port_or_known_default : Option ℕ
  pub origin : Text

-- `ClientData` of src/webauthn_recover.rs, which serde derives a parser for
pub record ClientData : Type 0 where
  pub type_name : Text
  pub challenge : Text
  pub origin : Text
  pub cross_origin : Option Bool
  pub top_origin : Bool

pub record Web : Type 0 where
  -- `Url::parse`
  pub parse_url : Text → Option Url
  -- `parse::<IpAddr>().is_ok()`
  pub is_ip : Text → Bool
  -- `B64URL.decode`, and `URL_SAFE_NO_PAD.decode`
  pub base64url_decode : Text → Option Bytes
  pub base64url_decode_no_pad : Text → Option Bytes
  -- `serde_json::from_slice` to `ClientData`; and to a `Value`, by its members that are strings
  pub client_data : Bytes → Option ClientData
  pub json_strings : Bytes → Option (Text → Option Text)
  -- `normalize_s().unwrap_or(sig)`
  pub p256_normalize_s : Bytes → Bytes
  -- `VerifyingKey::recover_from_prehash` for a y parity, as the compressed point
  pub p256_recover : Bytes → Bytes → Bool → Option Bytes
  -- `PublicKey::from_public_key_der`, as the compressed point
  pub p256_from_spki : Bytes → Option Bytes

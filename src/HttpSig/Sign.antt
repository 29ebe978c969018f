-- ===== src/HttpSig/Sign.antt =====
-- src/http_sig/sign.rs. The clock reading `created` and the random bytes of the nonce are arguments,
-- and the signer is its DID and its function, where `none` is a failure.
pub mod RoundTrip
use aqua_auth.Prelude.{
  ℕ, ◌<◌, Bool, true, false, not, ◌&&◌, [], Option, none, some, Result, ok, err, ◌>>=◌, ◌>>◌, ok_or,
  guard, if◌then◌else◌, ltb, ◌==◌,
}
use aqua_auth.Prelude.Int.{ℤ, pos}
use aqua_auth.Env.{Env}
use aqua_auth.Text.{Text, Bytes, codes, text_eq, trim}
use aqua_auth.HttpSig.Errors.{
  HttpSigError, validity_zero, validity_too_long, profile_requires_ed25519, empty_thumbprint,
  sign_failed,
}
use aqua_auth.HttpSig.Fields.{Sfv}
use aqua_auth.HttpSig.Base.{
  RequestParts, SignatureParams, covered_components, signature_input_header, signature_header,
  build_signature_base,
}
use aqua_auth.HttpSig.Verify.{max_validity, saturating_add, alg_for_did}

pub record Signer : Type 0 where
  pub signer_did : Text
  pub sign : Text → Option Bytes

pub data Profile : Type 0 where
  aqua_internal : Profile
  web_bot_auth : Text → Profile

pub record SignedHeaders : Type 0 where
  pub signature_input : Text
  pub signature : Text

-- `Duration`
pub record Duration : Type 0 where
  pub secs : ℕ
  pub nanos : ℕ

-- `validity > MAX_VALIDITY` compares the nanoseconds too
unfoldable pub validity_seconds : Duration → Result HttpSigError ℤ
validity_seconds validity = do
  guard (not (validity.secs == 0)) validity_zero
  guard (not (ltb max_validity validity.secs)) (validity_too_long validity.secs max_validity)
  guard (not ((validity.secs == max_validity) && ltb 0 validity.nanos))
      (validity_too_long validity.secs max_validity)
  ok (pos validity.secs)

module _ (env : Env) (sfv : Sfv) where
  -- `keyid`, `alg` and `tag`
  unfoldable pub profile_parameters : Profile → Text → Result HttpSigError (Text × Text × Text)
  profile_parameters aqua_internal did = do
    alg ← alg_for_did env sfv did
    ok (did, alg, codes "aqua-auth")
  profile_parameters (web_bot_auth jwk_thumbprint) did = do
    alg ← alg_for_did env sfv did
    guard (text_eq alg (codes "ed25519")) (profile_requires_ed25519 did)
    guard (not (text_eq (trim jwk_thumbprint) [])) empty_thumbprint
    ok (trim jwk_thumbprint, codes "ed25519", codes "web-bot-auth")

  unfoldable pub sign_request_at :
      Signer → RequestParts → Profile → Duration → ℤ → Bytes → Result HttpSigError SignedHeaders
  sign_request_at signer parts profile validity created nonce_bytes = do
    window ← validity_seconds validity
    (keyid, alg, tag) ← profile_parameters profile signer.signer_did
    let params : SignatureParams = record {
      covered = covered_components parts;
      created = created;
      expires = saturating_add created window;
      keyid = keyid;
      alg = alg;
      nonce = env.base64url_encode nonce_bytes;
      tag = tag;
    }
    base ← build_signature_base sfv parts params
    signature ← ok_or (signer.sign base) sign_failed
    input_header ← signature_input_header sfv (codes "sig1") params
    header ← signature_header sfv (codes "sig1") signature
    ok (record { signature_input = input_header; signature = header })

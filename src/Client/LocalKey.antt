-- ===== src/Client/LocalKey.antt =====
-- src/local_key.rs and `FnSigner` of src/signer.rs: signers over a key of this machine and over a
-- function. The crates' keys are types of the record `KeyFiles`.
use aqua_auth.Prelude.{Option, none, some, Result, ok, ◌>>=◌, ok_or}
use aqua_auth.Env.{Env}
use aqua_auth.Text.{Text, Bytes, as_bytes}
use aqua_auth.Did.Key.{ed25519_prefix, p256_prefix}
use aqua_auth.Did.Parse.{encode_did_key}
use aqua_auth.Client.{Signer}

-- `fs::read_to_string`, and the keys of `ed25519-dalek` and `p256` with what is called on them
pub record KeyFiles : Type 1 where
  pub Ed25519Key : Type 0
  pub P256Key : Type 0
  pub read_to_string : Text → Option Text
  pub ed25519_from_pkcs8_pem : Text → Option Ed25519Key
  pub p256_from_pkcs8_pem : Text → Option P256Key
  -- the bytes of the public key, and the compressed point
  pub ed25519_verifying_key : Ed25519Key → Bytes
  pub p256_compressed_point : P256Key → Bytes
  pub ed25519_sign : Ed25519Key → Bytes → Bytes
  pub p256_sign : P256Key → Bytes → Bytes

pub data LocalKeyError : Type 0 where
  io : Text → LocalKeyError
  pkcs8_ed25519 pkcs8_p256 : LocalKeyError

-- `FnSigner`
unfoldable pub fn_signer : {W : Type 0} → Text → (Text → Option Bytes) → Signer W
fn_signer did sign = record {
  signer_did = did;
  sign = λ message w. (w, sign message);
  public_key = none;
}

module _ (files : KeyFiles) where
  pub data LocalKey : Type 0 where
    ed25519_key : files.Ed25519Key → LocalKey
    p256_key : files.P256Key → LocalKey

  pub record LocalKeySigner : Type 0 where
    pub local_key : LocalKey
    pub did : Text

  unfoldable pub sign : LocalKey → Text → Bytes
  sign (ed25519_key k) message = files.ed25519_sign k (as_bytes message)
  sign (p256_key k) message = files.p256_sign k (as_bytes message)

  -- `Signer for LocalKeySigner`, which offers no public key
  unfoldable pub local_signer : {W : Type 0} → LocalKeySigner → Signer W
  local_signer s = record {
    signer_did = s.did;
    sign = λ message w. (w, some (sign s.local_key message));
    public_key = none;
  }

  unfoldable pub read_pem : Text → Result LocalKeyError Text
  read_pem path = ok_or (files.read_to_string path) (io path)

  module _ (env : Env) where
    unfoldable pub ed25519_from_pem : Text → Result LocalKeyError LocalKeySigner
    ed25519_from_pem pem = do
      k ← ok_or (files.ed25519_from_pkcs8_pem pem) pkcs8_ed25519
      ok (record {
        local_key = ed25519_key k;
        did = encode_did_key env ed25519_prefix (files.ed25519_verifying_key k);
      })

    unfoldable pub p256_from_pem : Text → Result LocalKeyError LocalKeySigner
    p256_from_pem pem = do
      k ← ok_or (files.p256_from_pkcs8_pem pem) pkcs8_p256
      ok (record {
        local_key = p256_key k;
        did = encode_did_key env p256_prefix (files.p256_compressed_point k);
      })

    unfoldable pub ed25519_from_pem_file : Text → Result LocalKeyError LocalKeySigner
    ed25519_from_pem_file path = do pem ← read_pem path; ed25519_from_pem pem

    unfoldable pub p256_from_pem_file : Text → Result LocalKeyError LocalKeySigner
    p256_from_pem_file path = do pem ← read_pem path; p256_from_pem pem

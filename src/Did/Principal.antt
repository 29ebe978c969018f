-- ===== src/Did/Principal.antt =====
-- src/principal.rs: the authenticated identity, and the two ways to it.
use aqua_auth.Prelude.{Option, none, Result, ok, err, ◌>>=◌, ◌>>◌, ok_or, if◌then◌else◌}
use aqua_auth.Env.{Env}
use aqua_auth.Errors.{CryptoError, SignatureFault, invalid_signature, unsupported_method}
use aqua_auth.Text.{Text, Bytes}
use aqua_auth.Did.Format.{validate_did_well_formed}
use aqua_auth.Did.Method
use aqua_auth.Did.Method.{find_did_method, verify_caip122_with_public_key}

pub record Principal : Type 0 where
  pub did : Text

-- `from_proven_did_key`
unfoldable pub from_proven_did_key : Text → Principal
from_proven_did_key did = record { did = did }

module _ (env : Env) where
  unfoldable pub from_trusted_did : Text → Result CryptoError Principal
  from_trusted_did did = do validate_did_well_formed env did; ok (record { did = did })

  unfoldable pub method_label : Principal → Result CryptoError Text
  method_label p = do
    method ← ok_or (find_did_method env p.did) (unsupported_method p.did)
    Method.method_label env method p.did

  unfoldable pub canonical_subject : Principal → Result CryptoError Text
  canonical_subject p = do
    method ← ok_or (find_did_method env p.did) (unsupported_method p.did)
    Method.canonical_subject env method p.did

  unfoldable pub authenticate_with_public_key :
      Text → Text → Bytes → Option Bytes → Result CryptoError Principal
  unfolding from_trusted_did
  authenticate_with_public_key did message signature public_key = do
    validate_did_well_formed env did
    verified ← verify_caip122_with_public_key env did message signature public_key
    if verified then from_trusted_did did else err (invalid_signature SignatureFault.did_not_verify)

  unfoldable pub authenticate : Text → Text → Bytes → Result CryptoError Principal
  unfolding authenticate_with_public_key
  authenticate did message signature = authenticate_with_public_key did message signature none

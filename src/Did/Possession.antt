-- ===== src/Did/Possession.antt =====
-- What a `Principal` from `authenticate_with_public_key` (src/principal.rs) stands for.
use aqua_auth.Prelude.{◌≡◌, refl, sym, ◌∙◌, ◌↔◌, true, Option, none, some, ok, arith, ap, length}
use aqua_auth.Env.{Env}
use aqua_auth.Text.{Text, Bytes, as_bytes}
use aqua_auth.Did.Aqua.{aqua_did_binds_pubkey}
use aqua_auth.Did.MlDsa
use aqua_auth.Did.Format.{validate_did_well_formed}
use aqua_auth.Did.Method.{
  aqua, find_did_method, verify_caip122_with_public_key, verify_with_public_key,
}
use aqua_auth.Did.Principal.{Principal, from_trusted_did, authenticate_with_public_key}

module _ (env : Env) (did message : Text) (signature : Bytes) (public_key : Option Bytes) where
  possession_fwd :
      {p : Principal}
      → authenticate_with_public_key env did message signature public_key ≡ ok p
      → (p.did ≡ did)
        × (validate_did_well_formed env did ≡ ok tt)
        × (verify_caip122_with_public_key env did message signature public_key ≡ ok true)
  unfolding authenticate_with_public_key from_trusted_did
  possession_fwd h = ground arith

  possession_bwd :
      validate_did_well_formed env did ≡ ok tt
      → verify_caip122_with_public_key env did message signature public_key ≡ ok true
      → authenticate_with_public_key env did message signature public_key
        ≡ ok (record { did = did })
  unfolding authenticate_with_public_key from_trusted_did
  possession_bwd v h = rw (v, h) refl

  -- A login yields a principal exactly when the DID is well formed and its verifier accepts the
  -- signature, and the principal then names the DID that signed and no other.
  pub authenticate_iff :
      (p : Principal)
      → (authenticate_with_public_key env did message signature public_key ≡ ok p) ↔ (
          (p.did ≡ did)
          × (validate_did_well_formed env did ≡ ok tt)
          × (verify_caip122_with_public_key env did message signature public_key ≡ ok true))
  authenticate_iff p = (
    λ h. possession_fwd h,
    λ (e, v, h). possession_bwd v h ∙ ap (λ (d : Text). ok (record { did = d })) (sym e),
  )

ml_dsa_key_length :
    (env : Env) (key signature message : Bytes)
    → MlDsa.verify env key signature message ≡ ok true
    → length key ≡ MlDsa.public_key_bytes
unfolding MlDsa.verify
ml_dsa_key_length env key signature message h = ground arith

aqua_verify_binds :
    (env : Env) (did message : Text) (signature : Bytes) (public_key : Option Bytes)
    → verify_with_public_key env aqua did message signature public_key ≡ ok true
    → (key : Bytes) × (public_key ≡ some key)
      × (aqua_did_binds_pubkey env did key ≡ ok true)
      × (MlDsa.verify env key signature (as_bytes message) ≡ ok true)
unfolding verify_with_public_key
aqua_verify_binds env did message signature none h = cc
aqua_verify_binds env did message signature (some key) h = (key, refl, ground arith, ground arith)

-- A `did:aqua` login that succeeds had a key, the key hashes to the DID, it has the length of an
-- ML-DSA-87 key, and the ML-DSA verifier accepted the signature under that very key.
pub aqua_login_binds :
    (env : Env) (did message : Text) (signature : Bytes) (public_key : Option Bytes) {p : Principal}
    → find_did_method env did ≡ some aqua
    → authenticate_with_public_key env did message signature public_key ≡ ok p
    → (key : Bytes) × (public_key ≡ some key)
      × (aqua_did_binds_pubkey env did key ≡ ok true)
      × (MlDsa.verify env key signature (as_bytes message) ≡ ok true)
      × (length key ≡ MlDsa.public_key_bytes)
unfolding verify_caip122_with_public_key
aqua_login_binds env did message signature public_key method h =
    let verified = (authenticate_iff env did message signature public_key _).0 h in
    let dispatched : verify_with_public_key env aqua did message signature public_key ≡ ok true =
      rw method at (verified.2) in
    let (key, supplied, bound, accepted) =
      aqua_verify_binds env did message signature public_key dispatched in
    (
      key,
      supplied,
      bound,
      accepted,
      ml_dsa_key_length env key signature (as_bytes message) accepted,
    )

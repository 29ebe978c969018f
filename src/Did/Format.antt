-- ===== src/Did/Format.antt =====
-- src/did_format.rs: the format check of a DID, without any signature.
use aqua_auth.Prelude.{Result, ok, err, ◌>>=◌, ◌>>◌, ok_or, guard, if◌then◌else◌, ◌==◌, length}
use aqua_auth.Env.{Env}
use aqua_auth.Errors.{CryptoError, DidFault, unsupported_method, invalid_did}
use aqua_auth.Text.{Text, codes, text_eq, strip_prefix}
use aqua_auth.Did.Parse.{
  parse_did_namespace, address_from_did, pubkey_from_ed25519_did, pubkey_from_p256_did,
}
use aqua_auth.Did.Key.{KeyType, ed25519, p256, decode_multibase_key}
use aqua_auth.Did.Aqua.{multihash_from_aqua_did}
use aqua_auth.Did.Peer.{extract_z_body}
use aqua_auth.Did.Method.{Method, pkh, key, peer, aqua, find_did_method}

unfoldable pub check_key_length : KeyType → Result CryptoError (Unit {0})
check_key_length (ed25519 raw) =
    guard (length raw == 32) (invalid_did (DidFault.ed25519_key_length (length raw)))
check_key_length (p256 raw) =
    guard (length raw == 33) (invalid_did (DidFault.p256_key_length (length raw)))

module _ (env : Env) where
  unfoldable pub validate_multibase_key_body : Text → Result CryptoError (Unit {0})
  unfolding check_key_length
  validate_multibase_key_body z_body = do kt ← decode_multibase_key env z_body; check_key_length kt

  unfoldable pub validate_pkh : Text → Result CryptoError (Unit {0})
  validate_pkh did = do
    ns ← parse_did_namespace did
    if text_eq ns (codes "eip155")
        then address_from_did env did >> ok tt
        else if text_eq ns (codes "ed25519")
        then pubkey_from_ed25519_did env did >> ok tt
        else if text_eq ns (codes "p256")
        then pubkey_from_p256_did env did >> ok tt
        else err (unsupported_method ns)

  -- the match on the method's name
  unfoldable pub validate_for : Method → Text → Result CryptoError (Unit {0})
  unfolding validate_pkh
  validate_for pkh did = validate_pkh did
  validate_for key did = do
    z_body ←
        ok_or (strip_prefix (codes "did:key:z") did) (invalid_did (DidFault.no_multibase_z did))
    validate_multibase_key_body z_body
  validate_for peer did = do z_body ← extract_z_body did; validate_multibase_key_body z_body
  validate_for aqua did = multihash_from_aqua_did env did >> ok tt

  unfoldable pub validate_did_well_formed : Text → Result CryptoError (Unit {0})
  validate_did_well_formed did = do
    method ← ok_or (find_did_method env did) (unsupported_method did)
    validate_for method did

-- ===== src/Did/Method.antt =====
-- The registry of DID methods: src/did_method.rs, src/pkh/method.rs, src/key/mod.rs,
-- src/peer/mod.rs and src/aqua/mod.rs. A `dyn DIDMethod` is one of the four registered methods.
pub mod Display
use aqua_auth.Prelude.{
  Bool, false, ◌||◌, List, [], ◌∷◌, ◌++◌, Option, none, Result, ok, err, ◌>>=◌, ◌>>◌, ok_or,
  if◌then◌else◌, find,
}
use aqua_auth.Env.{Env}
use aqua_auth.Errors.{
  CryptoError, DidFault, SignatureFault, unsupported_method, invalid_did, invalid_signature,
}
use aqua_auth.Text.{Text, Bytes, codes, text_eq, as_bytes, strip_prefix, starts_with, split_once}
use aqua_auth.Did.Parse.{checksummed_address}
use aqua_auth.Did.Key.{key_type_label, decode_multibase_key, verify_with_key}
use aqua_auth.Did.Aqua.{multihash_from_aqua_did, aqua_did_binds_pubkey}
use aqua_auth.Did.MlDsa
use aqua_auth.Did.Peer.{extract_z_body}
use aqua_auth.Did.Suite
use aqua_auth.Did.Suite.{find_cipher_suite, parse_did_parts}

pub data Method : Type 0 where
  pkh key peer aqua : Method

unfoldable pub method_name : Method → Text
method_name pkh = codes "pkh"
method_name key = codes "key"
method_name peer = codes "peer"
method_name aqua = codes "aqua"

unfoldable pub supports_did : Method → Text → Bool
unfolding method_name
supports_did peer did =
    starts_with (codes "did:peer:0z") did || starts_with (codes "did:peer:2.") did
supports_did m did = starts_with (codes "did:" ++ (method_name m ++ codes ":")) did

-- `split_namespace` of src/pkh/method.rs
unfoldable pub split_namespace : Text → Result CryptoError (Text × Text)
split_namespace did = do
  rest ←
      ok_or (strip_prefix (codes "did:pkh:") did)
        (invalid_did (DidFault.expected_prefix (codes "did:pkh:") did))
  ok_or (split_once b':' rest) (invalid_did (DidFault.no_namespace did))

-- the body of a `did:key` behind `did:key:z`
unfoldable pub key_body : Text → Result CryptoError Text
key_body did = ok_or (strip_prefix (codes "did:key:z") did) (invalid_did (DidFault.bare did))

unfoldable pub pkh_label : Text → Result CryptoError Text
pkh_label ns =
    if text_eq ns (codes "eip155")
    then ok (codes "Ethereum")
    else if text_eq ns (codes "ed25519")
    then ok (codes "Ed25519")
    else if text_eq ns (codes "p256")
    then ok (codes "P-256")
    else err (unsupported_method ns)

module _ (env : Env) where
  abbrev pub all_did_methods : List Method
  all_did_methods = pkh ∷ key ∷ peer ∷ (if env.did_aqua then aqua ∷ [] else [])

  unfoldable pub find_did_method : Text → Option Method
  unfolding supports_did
  find_did_method did = find (λ m. supports_did m did) all_did_methods

  -- `method_label`, of each method
  unfoldable pub pkh_method_label : Text → Result CryptoError Text
  unfolding pkh_label
  pkh_method_label did = do (ns, remainder) ← split_namespace did; pkh_label ns

  unfoldable pub key_method_label : Text → Result CryptoError Text
  key_method_label did = do
    z_body ← key_body did
    kt ← decode_multibase_key env z_body
    ok (key_type_label kt)

  unfoldable pub peer_method_label : Text → Result CryptoError Text
  peer_method_label did = do
    z_body ← extract_z_body did
    kt ← decode_multibase_key env z_body
    ok (key_type_label kt)

  unfoldable pub aqua_method_label : Text → Result CryptoError Text
  aqua_method_label did = do multihash_from_aqua_did env did; ok (codes "ML-DSA-87")

  unfoldable pub method_label : Method → Text → Result CryptoError Text
  unfolding pkh_method_label key_method_label peer_method_label aqua_method_label
  method_label pkh did = pkh_method_label did
  method_label key did = key_method_label did
  method_label peer did = peer_method_label did
  method_label aqua did = aqua_method_label did

  -- `address_for_message`, of each method
  unfoldable pub pkh_address : Text → Result CryptoError Text
  pkh_address did = do
    (ns, remainder) ← split_namespace did
    suite ← ok_or (find_cipher_suite ns) (unsupported_method ns)
    (address, chain) ← parse_did_parts suite remainder
    if text_eq ns (codes "eip155") then checksummed_address env did else ok address

  unfoldable pub key_address : Text → Result CryptoError Text
  key_address did = ok_or (strip_prefix (codes "did:key:") did) (invalid_did (DidFault.bare did))

  unfoldable pub peer_address : Text → Result CryptoError Text
  peer_address did = do body ← extract_z_body did; ok (codes "z" ++ body)

  unfoldable pub aqua_address : Text → Result CryptoError Text
  aqua_address did = do
    multihash_from_aqua_did env did
    ok_or (strip_prefix (codes "did:aqua:") did) (invalid_did (DidFault.bare did))

  unfoldable pub address_for_message : Method → Text → Result CryptoError Text
  unfolding pkh_address key_address peer_address aqua_address
  address_for_message pkh did = pkh_address did
  address_for_message key did = key_address did
  address_for_message peer did = peer_address did
  address_for_message aqua did = aqua_address did

  unfoldable pub pkh_chain_id : Text → Result CryptoError (Option Text)
  pkh_chain_id did = do
    (ns, remainder) ← split_namespace did
    suite ← ok_or (find_cipher_suite ns) (unsupported_method ns)
    (address, chain) ← parse_did_parts suite remainder
    ok chain

  unfoldable pub chain_id : Method → Text → Result CryptoError (Option Text)
  unfolding pkh_chain_id
  chain_id pkh did = pkh_chain_id did
  chain_id m did = ok none

  unfoldable pub aqua_canonical_subject : Text → Result CryptoError Text
  aqua_canonical_subject did = do multihash_from_aqua_did env did; ok did

  unfoldable pub canonical_subject : Method → Text → Result CryptoError Text
  unfolding aqua_canonical_subject
  canonical_subject aqua did = aqua_canonical_subject did
  canonical_subject m did = ok did

  -- `verify`, of each method
  unfoldable pub pkh_verify : Text → Text → Bytes → Result CryptoError Bool
  pkh_verify did message signature = do
    (ns, remainder) ← split_namespace did
    suite ← ok_or (find_cipher_suite ns) (unsupported_method ns)
    Suite.verify env suite did message signature

  unfoldable pub key_verify : Text → Text → Bytes → Result CryptoError Bool
  key_verify did message signature = do
    z_body ← key_body did
    kt ← decode_multibase_key env z_body
    verify_with_key env kt message signature

  unfoldable pub peer_verify : Text → Text → Bytes → Result CryptoError Bool
  peer_verify did message signature = do
    z_body ← extract_z_body did
    kt ← decode_multibase_key env z_body
    verify_with_key env kt message signature

  unfoldable pub aqua_verify : Text → Text → Bytes → Result CryptoError Bool
  aqua_verify did message signature = err (invalid_signature SignatureFault.needs_public_key)

  unfoldable pub verify : Method → Text → Text → Bytes → Result CryptoError Bool
  unfolding pkh_verify key_verify peer_verify aqua_verify
  verify pkh did message signature = pkh_verify did message signature
  verify key did message signature = key_verify did message signature
  verify peer did message signature = peer_verify did message signature
  verify aqua did message signature = aqua_verify did message signature

  unfoldable pub aqua_verify_with_public_key :
      Text → Text → Bytes → Option Bytes → Result CryptoError Bool
  aqua_verify_with_public_key did message signature public_key = do
    pk ← ok_or public_key (invalid_signature SignatureFault.no_public_key)
    bound ← aqua_did_binds_pubkey env did pk
    if bound then MlDsa.verify env pk signature (as_bytes message) else ok false

  -- `AquaMethod` overrides the default, which ignores the key
  unfoldable pub verify_with_public_key :
      Method → Text → Text → Bytes → Option Bytes → Result CryptoError Bool
  unfolding verify aqua_verify_with_public_key
  verify_with_public_key aqua did message signature public_key =
      aqua_verify_with_public_key did message signature public_key
  verify_with_public_key m did message signature public_key = verify m did message signature

  -- `verify_caip122` and `verify_caip122_with_public_key` of src/lib.rs
  unfoldable pub verify_caip122 : Text → Text → Bytes → Result CryptoError Bool
  unfolding find_did_method
  verify_caip122 did message signature = do
    method ← ok_or (find_did_method did) (unsupported_method did)
    verify method did message signature

  unfoldable pub verify_caip122_with_public_key :
      Text → Text → Bytes → Option Bytes → Result CryptoError Bool
  unfolding find_did_method
  verify_caip122_with_public_key did message signature public_key = do
    method ← ok_or (find_did_method did) (unsupported_method did)
    verify_with_public_key method did message signature public_key

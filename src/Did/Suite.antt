-- ===== src/Did/Suite.antt =====
-- The cipher suites of `did:pkh`: src/cipher_suite.rs, src/pkh/eip155.rs, src/key/ed25519.rs and
-- src/key/p256.rs. A `dyn CipherSuite` is one of the three registered suites.
use aqua_auth.Prelude.{
  ℕ, ◌-◌, Bool, true, false, ◌∷◌, [], ◌++◌, Option, none, some, Result, ok, List, ◌>>=◌, ◌>>◌,
  ok_or, guard, ◌==◌, leb, length, take, get_elem?, find,
}
use aqua_auth.Env.{Env}
use aqua_auth.Errors.{CryptoError, DidFault, SignatureFault, invalid_did, invalid_signature}
use aqua_auth.Text.{Text, Bytes, codes, text_eq, byte_len, as_bytes, split_once}
use aqua_auth.Text.Decimal.{decimal}
use aqua_auth.Did.Parse.{
  address_from_did, address_from_verifying_key, pubkey_from_ed25519_did, pubkey_from_p256_did,
  strict_verifying_key,
}
use aqua_auth.Did.Key.{verify_ed25519, verify_p256}

pub data Suite : Type 0 where
  eip155 ed25519 p256 : Suite

unfoldable pub namespace : Suite → Text
namespace eip155 = codes "eip155"
namespace ed25519 = codes "ed25519"
namespace p256 = codes "p256"

unfoldable pub has_chain_id : Suite → Bool
has_chain_id eip155 = true
has_chain_id ed25519 = false
has_chain_id p256 = false

abbrev pub all_cipher_suites : List Suite
all_cipher_suites = eip155 ∷ ed25519 ∷ p256 ∷ []

unfoldable pub find_cipher_suite : Text → Option Suite
unfolding namespace
find_cipher_suite name = find (λ s. text_eq (namespace s) name) all_cipher_suites

-- the address and the chain id in the part of a DID behind the namespace
unfoldable pub parse_did_parts : Suite → Text → Result CryptoError (Text × Option Text)
parse_did_parts eip155 remainder = do
  (chain_num, address) ←
      ok_or (split_once b':' remainder) (invalid_did (DidFault.missing_address remainder))
  ok (address, some (codes "eip155:" ++ chain_num))
parse_did_parts ed25519 remainder = ok (remainder, none)
parse_did_parts p256 remainder = ok (remainder, none)

module _ (env : Env) where
  -- the EIP-191 prehash of a message
  unfoldable pub prehash : Text → Bytes
  prehash message = env.keccak256 (
      0x19
      ∷ (as_bytes (codes "Ethereum Signed Message:\n" ++ decimal (byte_len message))
          ++ as_bytes message))

  -- the recovery byte, `v - 27`, where `checked_sub` refuses a smaller `v`
  unfoldable pub recovery_id : ℕ → Result CryptoError ℕ
  recovery_id v = do
    guard (leb 27 v) (invalid_signature (SignatureFault.invalid_v v))
    ok_or (env.k256_recovery_id (v - 27))
        (invalid_signature (SignatureFault.invalid_recovery_id (v - 27)))

  unfoldable pub verify_eip155 : Text → Text → Bytes → Result CryptoError Bool
  unfolding recovery_id prehash
  verify_eip155 did message signature = do
    expected_addr ← address_from_did env did
    guard (length signature == 65)
        (invalid_signature (SignatureFault.signature_length 65 (length signature)))
    v ← ok_or (get_elem? signature 64) (invalid_signature SignatureFault.malformed)
    rec_id ← recovery_id v
    sig ←
        ok_or (env.k256_from_slice (take 64 signature)) (invalid_signature SignatureFault.malformed)
    recovered ←
        ok_or (env.k256_recover (prehash message) sig rec_id)
          (invalid_signature SignatureFault.ecrecover_failed)
    ok (text_eq (address_from_verifying_key env recovered) expected_addr)

  unfoldable pub verify : Suite → Text → Text → Bytes → Result CryptoError Bool
  unfolding verify_eip155
  verify eip155 did message signature = verify_eip155 did message signature
  verify ed25519 did message signature = do
    pubkey_bytes ← pubkey_from_ed25519_did env did
    strict_verifying_key env pubkey_bytes
    verify_ed25519 env pubkey_bytes message signature
  verify p256 did message signature = do
    pubkey_bytes ← pubkey_from_p256_did env did
    verify_p256 env pubkey_bytes message signature

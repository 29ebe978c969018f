-- ===== src/Did/Parse.antt =====
-- src/did.rs, and `strict_verifying_key` of src/key/ed25519.rs.
use aqua_auth.Prelude.{
  ℕ, suc, ◌+◌, ◌/◌, ◌%◌, not, [], ◌∷◌, ◌++◌, Option, none, some, Result, ok, err, ◌>>=◌, ◌>>◌,
  ok_or, guard, if◌then◌else◌, ◌==◌, leb, length, drop, get_elem?,
}
use aqua_auth.Env.{Env}
use aqua_auth.Errors.{CryptoError, DidFault, unsupported_method, invalid_did, hex_decode}
use aqua_auth.Text.{
  Text, Bytes, codes, text_eq, byte_len, as_bytes, strip_prefix, split, rsplit_once, trim,
  trim_end_matches, is_ascii_digit, to_upper,
}

unfoldable pub parse_did_namespace : Text → Result CryptoError Text
parse_did_namespace did = do
  rest ←
      ok_or (strip_prefix (codes "did:pkh:") did)
        (invalid_did (DidFault.expected_prefix (codes "did:pkh:") did))
  ok (split b':' rest).0

-- `rsplit(c).next()`
unfoldable pub last_piece : ℕ → Text → Text
last_piece c s = elim (rsplit_once c s) [ none ↦ s | some (head, tail) ↦ tail ]

-- `try_into` to an array of `n` bytes
unfoldable pub to_array : ℕ → Bytes → Option Bytes
to_array n bytes = if length bytes == n then some bytes else none

module _ (env : Env) where
  -- The checks that the three `did:pkh` parsers share: `2 * n` characters of hex, `n` bytes.
  unfoldable pub hex_array : ℕ → Text → Result CryptoError Bytes
  hex_array n hex_str = do
    guard (byte_len hex_str == n + n) (invalid_did (DidFault.hex_length (n + n) (byte_len hex_str)))
    bytes ← ok_or (env.hex_decode hex_str) hex_decode
    ok_or (to_array n bytes) (invalid_did (DidFault.byte_length n))

  unfoldable pub address_from_did : Text → Result CryptoError Bytes
  unfolding hex_array
  address_from_did did = do
    rest ←
        ok_or (strip_prefix (codes "did:pkh:eip155:") did)
          (invalid_did (DidFault.expected_prefix (codes "did:pkh:eip155:") did))
    hex_str ←
        ok_or (strip_prefix (codes "0x") (last_piece b':' rest))
          (invalid_did (DidFault.missing_0x did))
    hex_array 20 hex_str

  -- src/key/ed25519.rs
  unfoldable pub strict_verifying_key : Bytes → Result CryptoError Bytes
  strict_verifying_key bytes = do
    recompressed ← ok_or (env.ed25519_recompress bytes) (invalid_did DidFault.not_a_point)
    guard (text_eq recompressed bytes) (invalid_did DidFault.non_canonical)
    guard (env.ed25519_from_bytes bytes) (invalid_did DidFault.invalid_key)
    guard (not (env.ed25519_is_weak bytes)) (invalid_did DidFault.weak_key)
    guard (env.ed25519_is_torsion_free bytes) (invalid_did DidFault.not_torsion_free)
    ok bytes

  unfoldable pub pubkey_from_ed25519_did : Text → Result CryptoError Bytes
  unfolding hex_array
  pubkey_from_ed25519_did did = do
    hex_str ←
        ok_or (strip_prefix (codes "did:pkh:ed25519:0x") did)
          (invalid_did (DidFault.expected_prefix (codes "did:pkh:ed25519:0x") did))
    key ← hex_array 32 hex_str
    strict_verifying_key key
    ok key

  unfoldable pub pubkey_from_p256_did : Text → Result CryptoError Bytes
  unfolding hex_array
  pubkey_from_p256_did did = do
    hex_str ←
        ok_or (strip_prefix (codes "did:pkh:p256:0x") did)
          (invalid_did (DidFault.expected_prefix (codes "did:pkh:p256:0x") did))
    hex_array 33 hex_str

  -- the address of a key given by its uncompressed encoding
  unfoldable pub address_from_verifying_key : Bytes → Bytes
  address_from_verifying_key point = drop 12 (env.keccak256 (drop 1 point))

  -- the nibble of the hash at the `i`-th hex digit; a hash has 32 bytes, so the index is in range
  unfoldable pub nibble : Bytes → ℕ → ℕ
  nibble hash i = elim (get_elem? hash (i / 2)) [
    | none ↦ 0
    | some b ↦ if i % 2 == 0 then b / 16 % 16 else b % 16
  ]

  unfoldable pub checksum_from : Bytes → ℕ → Text → Text
  checksum_from hash i [] = []
  checksum_from hash i (c ∷ s) =
      (if is_ascii_digit c then c else if leb 8 (nibble hash i) then to_upper c else c)
      ∷ checksum_from hash (suc i) s

  unfoldable pub eip55_checksum : Bytes → Text
  eip55_checksum addr =
      let lower = env.hex_encode addr in checksum_from (env.keccak256 (as_bytes lower)) 0 lower

  unfoldable pub checksummed_address : Text → Result CryptoError Text
  checksummed_address did = do addr ← address_from_did did; ok (codes "0x" ++ eip55_checksum addr)

  unfoldable pub identifier_from_did : Text → Result CryptoError Text
  identifier_from_did did = do
    ns ← parse_did_namespace did
    if text_eq ns (codes "eip155")
        then checksummed_address did
        else if text_eq ns (codes "ed25519")
        then (do pk ← pubkey_from_ed25519_did did; ok (codes "0x" ++ env.hex_encode pk))
        else if text_eq ns (codes "p256")
        then (do pk ← pubkey_from_p256_did did; ok (codes "0x" ++ env.hex_encode pk))
        else err (unsupported_method ns)

  -- `did:key:z` and the base58btc form of the prefix and the key
  unfoldable pub encode_did_key : Bytes → Bytes → Text
  encode_did_key prefix pubkey = codes "did:key:z" ++ env.bs58_encode (prefix ++ pubkey)

unfoldable pub identifier_from_message : Text → Option Text
identifier_from_message message = elim (split b'\n' message).1 [
  | [] ↦ none
  | line ∷ rest ↦
      let id = trim (trim_end_matches (λ c. c == b'\r') line) in
      elim id [ [] ↦ none | c ∷ s ↦ some (c ∷ s) ]
]

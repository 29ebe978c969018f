-- ===== src/Did/Method/Display.antt =====
-- `display_label` and `has_chain_id` of the DID methods. A slice of a text that does not end at a
-- character panics: `none`.
use aqua_auth.Prelude.{
  ℕ, zero, suc, ◌-◌, Bool, true, false, [], ◌∷◌, ◌++◌, Option, none, some, Result, ok, err,
  if◌then◌else◌, ltb, leb, length,
}
use aqua_auth.Env.{Env}
use aqua_auth.Errors.{CryptoError}
use aqua_auth.Text.{Text, codes, text_eq, byte_len, utf8_char}
use aqua_auth.Did.Key.{key_type_label, decode_multibase_key}
use aqua_auth.Did.Aqua.{multihash_from_aqua_did}
use aqua_auth.Did.Peer.{extract_z_body}
use aqua_auth.Did.Suite.{Suite, eip155, find_cipher_suite}
use aqua_auth.Did.Method.{Method, pkh, key, peer, aqua, split_namespace, key_body, pkh_address}

-- `&s[..n]`, for bytes
unfoldable pub slice_to : ℕ → Text → Option Text
unfolding utf8_char
slice_to zero s = some []
slice_to (suc n) [] = none
slice_to (suc n) (c ∷ s) =
    let rest = slice_to (suc n - length (utf8_char c)) s in
    if leb (length (utf8_char c)) (suc n)
    then elim rest [ none ↦ none | some r ↦ some (c ∷ r) ]
    else none

-- `&s[n..]`
unfoldable pub slice_from : ℕ → Text → Option Text
unfolding utf8_char
slice_from zero s = some s
slice_from (suc n) [] = none
slice_from (suc n) (c ∷ s) =
    let rest = slice_from (suc n - length (utf8_char c)) s in
    if leb (length (utf8_char c)) (suc n) then rest else none

abbrev smaller : ℕ → ℕ → ℕ
smaller m n = if leb m n then m else n

-- the first and the last characters of a long address
unfoldable pub shorten : Text → Option Text
unfolding slice_to slice_from byte_len
shorten address =
    if ltb 12 (byte_len address)
    then elim (slice_to 6 address) [
      | none ↦ none
      | some head ↦ elim (slice_from (byte_len address - 4) address) [
        | none ↦ none
        | some tail ↦ some (head ++ (codes "..." ++ tail))
      ]
    ]
    else some address

unfoldable pub pkh_tag : Text → Text
pkh_tag ns =
    if text_eq ns (codes "eip155")
    then codes "Ethereum"
    else if text_eq ns (codes "ed25519")
    then codes "Ed25519"
    else if text_eq ns (codes "p256")
    then codes "P-256"
    else ns

-- a label with its tag in parentheses, unless a slice panicked
abbrev tagged : Option Text → Text → Option (Result CryptoError Text)
tagged none tag = none
tagged (some short) tag = some (ok (short ++ (codes " (" ++ (tag ++ codes ")"))))

-- `z` and the first eight bytes of the body
unfoldable pub short_body : Text → Option Text
unfolding slice_to byte_len
short_body z_body = elim (slice_to (smaller (byte_len z_body) 8) z_body) [
  | none ↦ none
  | some short ↦ some (codes "z" ++ (short ++ codes "..."))
]

-- the first nine bytes of the identifier
unfoldable pub short_aqua : Text → Option Text
unfolding slice_to slice_from byte_len
short_aqua did = elim (slice_from 9 did) [
  | none ↦ none
  | some body ↦ elim (slice_to (smaller (byte_len body) 9) body) [
    | none ↦ none
    | some short ↦ some (short ++ codes "...")
  ]
]

-- `has_chain_id` of the suites
abbrev suite_has_chain_id : Suite → Bool
suite_has_chain_id eip155 = true
suite_has_chain_id s = false

unfoldable pub pkh_has_chain_id : Text → Bool
pkh_has_chain_id did = elim (split_namespace did) [
  | err e ↦ false
  | ok (ns, remainder) ↦ elim (find_cipher_suite ns) [
    | none ↦ false
    | some suite ↦ suite_has_chain_id suite
  ]
]

unfoldable pub has_chain_id : Method → Text → Bool
unfolding pkh_has_chain_id
has_chain_id pkh did = pkh_has_chain_id did
has_chain_id m did = false

module _ (env : Env) where
  unfoldable pub pkh_display_label : Text → Option (Result CryptoError Text)
  unfolding shorten pkh_tag
  pkh_display_label did = elim (split_namespace did) [
    | err e ↦ some (err e)
    | ok (ns, remainder) ↦ elim (pkh_address env did) [
      | err e ↦ some (err e)
      | ok address ↦ tagged (shorten address) (pkh_tag ns)
    ]
  ]

  unfoldable pub key_display_label : Text → Option (Result CryptoError Text)
  unfolding short_body
  key_display_label did = elim (key_body did) [
    | err e ↦ some (err e)
    | ok z_body ↦ elim (decode_multibase_key env z_body) [
      | err e ↦ some (err e)
      | ok kt ↦ tagged (short_body z_body) (key_type_label kt)
    ]
  ]

  unfoldable pub peer_display_label : Text → Option (Result CryptoError Text)
  unfolding short_body
  peer_display_label did = elim (extract_z_body did) [
    | err e ↦ some (err e)
    | ok z_body ↦ elim (decode_multibase_key env z_body) [
      | err e ↦ some (err e)
      | ok kt ↦ tagged (short_body z_body) (codes "peer/" ++ key_type_label kt)
    ]
  ]

  unfoldable pub aqua_display_label : Text → Option (Result CryptoError Text)
  unfolding short_aqua
  aqua_display_label did = elim (multihash_from_aqua_did env did) [
    | err e ↦ some (err e)
    | ok multihash ↦ tagged (short_aqua did) (codes "ML-DSA-87")
  ]

  unfoldable pub display_label : Method → Text → Option (Result CryptoError Text)
  unfolding pkh_display_label key_display_label peer_display_label aqua_display_label
  display_label pkh did = pkh_display_label did
  display_label key did = key_display_label did
  display_label peer did = peer_display_label did
  display_label aqua did = aqua_display_label did

-- ===== src/Did/Peer.antt =====
-- `extract_z_body` of src/peer/mod.rs: the key of a `did:peer` of variant 0 or 2.
use aqua_auth.Prelude.{List, [], ◌∷◌, Option, none, some, Result, err, ◌>>=◌, ok_or, if◌then◌else◌}
use aqua_auth.Errors.{CryptoError, DidFault, invalid_did}
use aqua_auth.Text.{Text, codes, strip_prefix, starts_with, split, split_once}

-- the loop over the components: the first that begins with `V` and holds a `z`
unfoldable pub first_key : List Text → Option Text
first_key [] = none
first_key (component ∷ rest) =
    let later = first_key rest in
    if starts_with (codes "V") component
    then elim (split_once b'z' component) [ some (head, tail) ↦ some tail | none ↦ later ]
    else later

unfoldable pub extract_z_body : Text → Result CryptoError Text
unfolding first_key
extract_z_body did = do
  body ← ok_or (strip_prefix (codes "did:peer:") did) (invalid_did (DidFault.bare did))
  elim (strip_prefix (codes "0") body) [
    | some rest ↦ ok_or (strip_prefix (codes "z") rest) (invalid_did (DidFault.no_multibase_z did))
    | none ↦ elim (strip_prefix (codes "2") body) [
      | some rest ↦
          let (piece, others) = split b'.' rest in
          ok_or (first_key (piece ∷ others)) (invalid_did (DidFault.no_verification_key did))
      | none ↦ err (invalid_did (DidFault.unsupported_variant did))
    ]
  ]

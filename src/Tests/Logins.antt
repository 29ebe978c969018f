-- ===== src/Tests/Logins.antt =====
-- Logins: witnesses of what is proved of principals and of the format check.
use aqua_auth.Prelude.{ℕ, ◌≡◌, ◌≢◌, ◌↔◌, refl, ◌⊎◌, true, ◌++◌, none, some, ok, err, length}
use aqua_auth.Errors.{DidFault, invalid_did}
use aqua_auth.Text.{Text, Bytes, codes, as_bytes}
use aqua_auth.Did.Aqua.{aqua_did_binds_pubkey}
use aqua_auth.Did.MlDsa
use aqua_auth.Did.MlDsa.{hint_encoding_is_canonical}
use aqua_auth.Did.MlDsa.Hints.{hint_gate_total}
use aqua_auth.Did.Method.{aqua, find_did_method, split_namespace, verify_caip122_with_public_key}
use aqua_auth.Did.Format.{validate_did_well_formed}
use aqua_auth.Did.Principal.{authenticate_with_public_key}
use aqua_auth.Did.Possession.{authenticate_iff, aqua_login_binds}
use aqua_auth.Did.Agreement.{verdict_validates}
use aqua_auth.Did.Method.{pkh_address, split_namespace}
use aqua_auth.Did.Suite.{find_cipher_suite, parse_did_parts, namespace}
use aqua_auth.Did.Method.Display.{slice_to, slice_from, shorten, pkh_tag, pkh_display_label}
use aqua_auth.Text.{utf8_char, byte_len, split_once}
use aqua_auth.Tests.Toy.{program, toy, ed25519_did, aqua_did, replicate}

abbrev hello : Text
hello = codes "hello"

abbrev signature : Bytes
signature = replicate 64 1

login :
    authenticate_with_public_key toy ed25519_did hello signature none
    ≡ ok (record { did = ed25519_did })
unfolding program
login = refl

authenticate_iff_example :
    (authenticate_with_public_key toy ed25519_did hello signature none
      ≡ ok (record { did = ed25519_did }))
    ↔ ((ed25519_did ≡ ed25519_did)
        × (validate_did_well_formed toy ed25519_did ≡ ok tt)
        × (verify_caip122_with_public_key toy ed25519_did hello signature none ≡ ok true))
authenticate_iff_example =
    authenticate_iff toy ed25519_did hello signature none (record { did = ed25519_did })

accepted : verify_caip122_with_public_key toy ed25519_did hello signature none ≡ ok true
unfolding program
accepted = refl

verdict_validates_example :
    (validate_did_well_formed toy ed25519_did ≡ ok tt)
    ⊎ ((n : ℕ) × (validate_did_well_formed toy ed25519_did
          ≡ err (invalid_did (DidFault.p256_key_length n))))
verdict_validates_example = verdict_validates toy hello signature true ed25519_did none accepted

abbrev point : Bytes
point = replicate 65 4

splits : split_namespace (codes "did:pkh:eip155:1:0xab") ≡ ok (codes "eip155", codes "1:0xab")
unfolding program
splits = refl

abbrev public_key : Bytes
public_key = replicate 2592 7

abbrev aqua_signature : Bytes
aqua_signature = replicate 4627 0

aqua_method : find_did_method toy aqua_did ≡ some aqua
unfolding program
aqua_method = refl

aqua_login :
    authenticate_with_public_key toy aqua_did hello aqua_signature (some public_key)
    ≡ ok (record { did = aqua_did })
unfolding program
aqua_login = refl

aqua_login_binds_example :
    (key : Bytes) × (some public_key ≡ some key)
    × (aqua_did_binds_pubkey toy aqua_did key ≡ ok true)
    × (MlDsa.verify toy key aqua_signature (as_bytes hello) ≡ ok true)
    × (length key ≡ MlDsa.public_key_bytes)
aqua_login_binds_example =
    aqua_login_binds toy aqua_did hello aqua_signature (some public_key) aqua_method aqua_login

hint_gate_total_example : hint_encoding_is_canonical aqua_signature ≢ none
hint_gate_total_example = hint_gate_total aqua_signature refl

-- A `did:pkh` whose address has a letter of two bytes across the sixth: the display panics.
display_panics : pkh_display_label toy (codes "did:pkh:ed25519:a" ++ replicate 7 0xe9) ≡ none
unfolding program utf8_char slice_to slice_from shorten pkh_tag pkh_display_label pkh_address
    split_namespace find_cipher_suite parse_did_parts namespace split_once byte_len
display_panics = refl

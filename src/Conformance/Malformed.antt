-- ===== src/Conformance/Malformed.antt =====
-- The table of malformed DIDs of aqua-auth-testkit/src/conformance/cases_nonce_and_did.rs against the
-- format check of src/did_format.rs.
use aqua_auth.Prelude.{
  ℕ, ◌+◌, ◌≡◌, refl, inl, inr, false, [], ◌∷◌, ◌++◌, none, All, arith, drop, ◌==◌, Bool-cases,
}
use aqua_auth.Env.{Env}
use aqua_auth.Text.{
  Text, Bytes, codes, starts_with, text_eq, strip_prefix, split, rsplit_once, contains, byte_len,
}
use aqua_auth.Errors.{DidFault, invalid_did, hex_decode}
use aqua_auth.Message.{Chrono}
use aqua_auth.Did.Key.{decode_multibase_key}
use aqua_auth.Did.Parse.{
  parse_did_namespace, last_piece, hex_array, address_from_did, pubkey_from_ed25519_did,
  pubkey_from_p256_did,
}
use aqua_auth.Did.Method.{find_did_method}
use aqua_auth.Did.Format.{
  validate_did_well_formed, validate_for, validate_pkh, validate_multibase_key_body,
}
use aqua_auth.WebAuthn.Web.{Web}
use aqua_auth.Peer.{PeerState, Readings}
use aqua_auth.Conformance.{Target, pass}
use aqua_auth.Conformance.Refused.{Draws, malformed_dids, spec_7_5_did_well_formed}
use aqua_auth.Conformance.Refusals.{IsMalformed, malformed_dids_conform}
use aqua_auth.Conformance.Reference.{reference}

-- What the crates `hex` and `bs58` do with the bytes that the case draws: two digits for each byte,
-- none of them an `x` or a colon, no digit `z`, and no `0` in base58.
pub record IsDrawn (env : Env) (d : Draws) : Type 0 where
  pub short_ed25519 : byte_len (env.hex_encode d.short_ed25519) ≡ 62
  pub long_ed25519 : byte_len (env.hex_encode d.long_ed25519) ≡ 66
  pub bare_ed25519 : contains b'x' (env.hex_encode d.bare_ed25519) ≡ false
  pub spoiled_ed25519 : env.hex_decode (b'z' ∷ drop 1 (env.hex_encode d.spoiled_ed25519)) ≡ none
  pub short_p256 : byte_len (env.hex_encode d.short_p256) ≡ 64
  pub short_eip155 : byte_len (env.hex_encode d.short_eip155) ≡ 38
  pub one_piece : contains b':' (env.hex_encode d.short_eip155) ≡ false
  pub no_base58 : env.bs58_decode (codes "6Mk0OIl0000CORRUPTEDMULTIBASE0000") ≡ none

rsplit_once-absent : (c : ℕ) (s : Text) → contains c s ≡ false → rsplit_once c s ≡ none
unfolding rsplit_once contains
rsplit_once-absent c [] h = refl
rsplit_once-absent c (d ∷ s) h = elim (Bool-cases (d == c)) [
  | inl here ↦ absurd (ground (arith, h, here))
  | inr other ↦
      let later : contains c s ≡ false = (rw other at (h)) in
      rw (rsplit_once-absent c s later, other) refl
]

last_piece-chain :
    (t : Text) → contains b':' t ≡ false → last_piece b':' (codes "1:0x" ++ t) ≡ codes "0x" ++ t
unfolding last_piece rsplit_once
last_piece-chain t whole = rw (last_piece, rsplit_once, rsplit_once-absent b':' t whole) refl

no_0x : (t : Text) → contains b'x' t ≡ false → strip_prefix (codes "0x") t ≡ none
unfolding contains strip_prefix
no_0x [] h = refl
no_0x (c ∷ []) h = ground (arith, h)
no_0x (c ∷ d ∷ t) h = ground (arith, h)

module _ (env : Env) where
  module _ (t : Text) where
    ed25519_length :
        (n : ℕ)
        → byte_len t ≡ n
        → (n == 64) ≡ false
        → IsMalformed env (codes "did:pkh:ed25519:0x" ++ t)
    unfolding validate_did_well_formed find_did_method validate_for validate_pkh parse_did_namespace
        strip_prefix split starts_with text_eq pubkey_from_ed25519_did hex_array
    ed25519_length n e h = record {
      error = invalid_did (DidFault.hex_length 64 n);
      refused = rw (e, h) refl;
    }

    p256_length :
        (n : ℕ)
        → byte_len t ≡ n
        → (n == 66) ≡ false
        → IsMalformed env (codes "did:pkh:p256:0x" ++ t)
    unfolding validate_did_well_formed find_did_method validate_for validate_pkh parse_did_namespace
        strip_prefix split starts_with text_eq pubkey_from_p256_did hex_array
    p256_length n e h = record {
      error = invalid_did (DidFault.hex_length 66 n);
      refused = rw (e, h) refl;
    }

    eip155_length :
        (n : ℕ)
        → contains b':' t ≡ false
        → byte_len t ≡ n
        → (n == 40) ≡ false
        → IsMalformed env (codes "did:pkh:eip155:1:0x" ++ t)
    unfolding validate_did_well_formed find_did_method validate_for validate_pkh parse_did_namespace
        strip_prefix split starts_with text_eq address_from_did hex_array
    eip155_length n whole e h = record {
      error = invalid_did (DidFault.hex_length 40 n);
      refused = rw (last_piece-chain t whole, e, h) refl;
    }

    ed25519_bare : contains b'x' t ≡ false → IsMalformed env (codes "did:pkh:ed25519:" ++ t)
    unfolding validate_did_well_formed find_did_method validate_for validate_pkh parse_did_namespace
        strip_prefix split starts_with text_eq pubkey_from_ed25519_did hex_array
    ed25519_bare h = record {
      error =
          invalid_did
            (DidFault.expected_prefix (codes "did:pkh:ed25519:0x") (codes "did:pkh:ed25519:" ++ t));
      refused = rw (no_0x t h) refl;
    }

    ed25519_no_hex : env.hex_decode t ≡ none → IsMalformed env (codes "did:pkh:ed25519:0x" ++ t)
    unfolding validate_did_well_formed find_did_method validate_for validate_pkh parse_did_namespace
        strip_prefix split starts_with text_eq pubkey_from_ed25519_did hex_array
    ed25519_no_hex h = elim (Bool-cases (byte_len t == 64)) [
      | inl same ↦ record { error = hex_decode; refused = rw (same, h) refl }
      | inr other ↦ ed25519_length (byte_len t) refl other
    ]

    did_key_no_base58 : env.bs58_decode t ≡ none → IsMalformed env (codes "did:key:z" ++ t)
    unfolding validate_did_well_formed find_did_method validate_for validate_multibase_key_body
        decode_multibase_key strip_prefix starts_with
    did_key_no_base58 h = record { error = invalid_did DidFault.base58_decode; refused = rw h refl }

  -- Every DID of the table is malformed.
  table-IsMalformed : (d : Draws) → IsDrawn env d → All (IsMalformed env) (malformed_dids env d)
  unfolding malformed_dids
  table-IsMalformed d drawn = (
    ed25519_length (env.hex_encode d.short_ed25519) 62 drawn.short_ed25519 refl,
    (
      ed25519_length (env.hex_encode d.long_ed25519) 66 drawn.long_ed25519 refl,
      (
        ed25519_bare (env.hex_encode d.bare_ed25519) drawn.bare_ed25519,
        (
          ed25519_no_hex (b'z' ∷ drop 1 (env.hex_encode d.spoiled_ed25519)) drawn.spoiled_ed25519,
          (
            p256_length (env.hex_encode d.short_p256) 64 drawn.short_p256 refl,
            (
              eip155_length (env.hex_encode d.short_eip155) 38 drawn.one_piece drawn.short_eip155
                  refl,
              (did_key_no_base58 (codes "6Mk0OIl0000CORRUPTEDMULTIBASE0000") drawn.no_base58, tt),
            ),
          ),
        ),
      ),
    ),
  )

  -- The reference server passes the case of malformed DIDs with seven requests and keeps its state,
  -- whatever bytes are drawn, if they have the lengths of the case and `hex` and `bs58` treat them as
  -- documented.
  pub drawn_dids_conform :
      {T : Type 0} (chrono : Chrono T) (readings : ℕ → Readings T) (target : Target) (web : Web)
      (draws : Draws) (random : Text → Bytes) (w : PeerState × ℕ)
      → IsDrawn env draws
      → spec_7_5_did_well_formed env web (reference env chrono readings) target draws random w
        ≡ ((w.0, w.1 + 7), pass)
  drawn_dids_conform chrono readings target web draws random w drawn =
      malformed_dids_conform env chrono readings target web draws random w
        (table-IsMalformed draws drawn)

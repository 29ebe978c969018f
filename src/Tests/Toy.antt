-- ===== src/Tests/Toy.antt =====
-- Concrete functions in the place of the crates', simple enough to compute with, and test data.
use aqua_auth.Prelude.{
  ℕ, zero, suc, ◌+◌, true, false, [], ◌∷◌, ◌++◌, some, if◌then◌else◌, ◌==◌, length, take,
}
use aqua_auth.Prelude.Int.{pos, ◌+ℤ◌}
use aqua_auth.Env.{Env}
use aqua_auth.Text.{Text, Bytes, codes}
use aqua_auth.Message.{Chrono, build_message, message_text, chain_line}
use aqua_auth.Text.{
  utf8_char, as_bytes, byte_len, text_eq, text_le, strip_prefix, starts_with, contains,
  contains_any, cut, split_once, rsplit_once, split, is_ascii,
}
use aqua_auth.Table.{get, contains_key, remove, insert, retain}
use aqua_auth.Table.Minimum.{entry_le, min_from, min_by}
use aqua_auth.Table.Bounded.{remove_min, make_room}
use aqua_auth.Did.Key.{
  strict_if_array, key_of_bytes, decode_multibase_key, p256_signature, verify_ed25519, verify_p256,
  verify_with_key, key_type_label,
}
use aqua_auth.Did.Parse.{to_array, strict_verifying_key}
use aqua_auth.Did.Method.{
  method_name, supports_did, split_namespace, key_body, find_did_method, method_label,
  address_for_message, chain_id, verify, verify_with_public_key, verify_caip122,
  verify_caip122_with_public_key,
}
use aqua_auth.Did.Format.{
  check_key_length, validate_multibase_key_body, validate_pkh, validate_for,
  validate_did_well_formed,
}
use aqua_auth.Did.Principal.{from_trusted_did, authenticate_with_public_key}
use aqua_auth.Did.MlDsa
use aqua_auth.Did.MlDsa.{
  walk_cuts, is_increasing, walk_windows, unused_are_zero, check_hint, hint_encoding_is_canonical,
  gated,
}
use aqua_auth.Did.Aqua.{
  byte_at_is, jwk, multihash_of_pubkey, aqua_did_from_pubkey, multihash_from_aqua_did,
  aqua_did_binds_pubkey,
}
use aqua_auth.Challenge
use aqua_auth.HttpSig.Replay
use aqua_auth.Session.Store.{older_or_same, insert_sorted, sort}
use aqua_auth.Session.Store
use aqua_auth.Session.InMemory
use aqua_auth.Text.Decimal.{parse_u16, parse_digits, decimal, digits}
use aqua_auth.Text.{
  is_ascii_digit, split_once_text, before_any, trim, trim_start_matches, trim_end_matches,
  is_whitespace, to_ascii_lowercase, to_lower,
}
use aqua_auth.HttpSig.Base.{
  contains_name, covered_components, default_port, host_and_port, without_user_info, join_port,
  authority_from_uri, agent_value, component_value, base_lines, check_signature_agent_coverage,
  all_strings, parameters_of, serialize_signature_params, signature_input_header, signature_header,
  build_signature_base,
}
use aqua_auth.HttpSig.Verify
use aqua_auth.HttpSig.Sign
use aqua_auth.HttpSig.Sign.RoundTrip.{signed_params}
use aqua_auth.Did.Principal.{authenticate}
use aqua_auth.Prelude.Int.{◌-ℤ◌}

unfoldable pub program : Unit {0}
unfolding utf8_char as_bytes byte_len text_eq text_le strip_prefix starts_with contains contains_any
    cut split_once rsplit_once split is_ascii get contains_key remove insert retain entry_le
    min_from min_by remove_min make_room strict_if_array key_of_bytes decode_multibase_key
    p256_signature verify_ed25519 verify_p256 verify_with_key key_type_label to_array
    strict_verifying_key method_name supports_did split_namespace key_body find_did_method
    method_label address_for_message chain_id verify verify_with_public_key verify_caip122
    verify_caip122_with_public_key check_key_length validate_multibase_key_body validate_pkh
    validate_for validate_did_well_formed from_trusted_did authenticate_with_public_key
    build_message message_text chain_line ◌+ℤ◌ walk_cuts is_increasing walk_windows unused_are_zero
    check_hint hint_encoding_is_canonical gated MlDsa.verify byte_at_is jwk multihash_of_pubkey
    aqua_did_from_pubkey multihash_from_aqua_did aqua_did_binds_pubkey Challenge.now_secs
    Challenge.as_u64 Challenge.as_i64 Challenge.cleanup_expired Challenge.room_for_one
    Challenge.new_challenge Challenge.create Challenge.validate older_or_same insert_sorted sort
    Store.create Store.admit Store.new_session Store.enforce_per_did_cap InMemory.insert
    InMemory.remove InMemory.entries_for_did InMemory.sessions_for_did InMemory.purge_expired
    parse_u16 parse_digits is_ascii_digit decimal digits split_once_text before_any trim
    trim_start_matches trim_end_matches is_whitespace to_ascii_lowercase to_lower contains_name
    covered_components default_port host_and_port without_user_info join_port authority_from_uri
    agent_value component_value base_lines check_signature_agent_coverage all_strings parameters_of
    serialize_signature_params signature_input_header signature_header build_signature_base
    Verify.saturating_add Verify.covered_of Verify.parameter Verify.integer_param
    Verify.string_param Verify.same_names Verify.params_of_entry Verify.params_of_dictionary
    Verify.member Verify.signature_of_entry Verify.check_tag Verify.check_window Verify.alg_of_label
    Verify.alg_for_did Verify.parse_signature_input Verify.parse_signature Verify.verify_signature
    Verify.verify_request_at Sign.validity_seconds Sign.profile_parameters Sign.sign_request_at
    signed_params authenticate ◌-ℤ◌ Replay.cleanup_expired_at Replay.room_for_one
    Replay.record_vacant Replay.check_and_record_at
program = tt

abbrev pub replicate : ℕ → ℕ → Bytes
replicate zero b = []
replicate (suc n) b = b ∷ replicate n b

-- Base58 is replaced by a form that has the lengths of the two identifiers: 34 bytes take 46 letters.
abbrev pub toy : Env
toy = record {
  did_aqua = true;
  hex_encode = λ b. b;
  hex_decode = λ t. some t;
  bs58_encode = λ b. if length b == 34 then b ++ replicate 12 b'a' else b;
  bs58_decode = λ t. some (if length t == 46 then take 34 t else t);
  base64url_encode = λ b. b;
  sha256 = λ b. replicate 32 b'a';
  keccak256 = λ b. replicate 32 b'a';
  ed25519_recompress = λ b. some b;
  ed25519_from_bytes = λ b. true;
  ed25519_is_weak = λ b. false;
  ed25519_is_torsion_free = λ b. true;
  ed25519_signature = λ b. some b;
  ed25519_verify_strict = λ k m s. length s == 64;
  p256_encoded_point = λ b. true;
  p256_verifying_key = λ b. true;
  p256_sec1 = λ b. true;
  p256_from_der = λ b. some b;
  p256_from_slice = λ b. some b;
  p256_verify = λ k m s. true;
  k256_recovery_id = λ v. some v;
  k256_from_slice = λ b. some b;
  k256_recover = λ m s v. some m;
  ml_dsa_signature = λ b. some b;
  ml_dsa_verify = λ k m s. true;
}

-- times are seconds
abbrev pub seconds : Chrono ℕ
seconds = record {
  plus_seconds = λ t n. elim n [ pos k ↦ t + k | _ ↦ t ];
  timestamp = λ t. pos t;
  format = λ t. t ∷ [];
}

abbrev pub ed25519_did : Text
ed25519_did = codes "did:key:z" ++ (0xed ∷ 0x01 ∷ replicate 32 b'k')

abbrev pub aqua_did : Text
aqua_did = codes "did:aqua:z" ++ (0x12 ∷ 0x20 ∷ replicate 44 b'a')

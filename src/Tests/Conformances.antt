-- ===== src/Tests/Conformances.antt =====
-- The conformance suite: the gate and the single-use case on small inputs, and witnesses.
use aqua_auth.Prelude.{
  ℕ, ◌≡◌, ◌≢◌, ◌↔◌, ◌-◌, refl, Bool, false, [], ◌∷◌, none, some, ok, err, map, ◌++◌, if◌then◌else◌,
}
use aqua_auth.Env.{Env}
use aqua_auth.Text.{Text, codes, contains, text_eq, strip_prefix, to_ascii_lowercase}
use aqua_auth.Text.Ends.{strip_suffix}
use aqua_auth.Client.{Signer}
use aqua_auth.Peer.{PeerState}
use aqua_auth.Conformance.{
  Target, remote_not_allowed, pass, fail, unbracketed, is_loopback_host, check_host, new_target,
  with_paths, challenge_url, session_url, is_success, string_member, fetch_challenge, post_session,
  signable, sign_challenge, login,
}
use aqua_auth.Conformance.Cases.{
  has_token, session_accepted, outcome_of, verdict_on, stopped, settled, spec_7_3_nonce_single_use,
}
use aqua_auth.Conformance.Gate.{IsGated, new_target-IsGated}
use aqua_auth.Conformance.Reference.{
  status_code, challenge_response, session_response, reference, single_use_conforms,
}
use aqua_auth.Conformance.Refused.{
  Draws, spec_7_5_did_well_formed, spec_7_5_valid_did_spellings_accepted, all_challenged,
  verdict_if, signature_corruptions, decode_hex_body, flip_first, prefixed, flip_one_bit,
  truncate_by_one_byte, append_one_byte, zero_of_same_length,
}
use aqua_auth.Conformance.Malformed.{IsDrawn, drawn_dids_conform}
use aqua_auth.Tests.Toy.{seconds, replicate}
use aqua_auth.Tests.Passkeys.{web}
use aqua_auth.Tests.Peers.{peers, shifted, hexed, state, readings, signature, signer}

unfoldable conformances : Unit {0}
unfolding peers unbracketed is_loopback_host check_host new_target challenge_url session_url
    is_success string_member fetch_challenge post_session signable sign_challenge login has_token
    session_accepted outcome_of verdict_on stopped settled spec_7_3_nonce_single_use status_code
    challenge_response session_response reference
conformances = tt

abbrev ip_is_loopback : Text → Bool
ip_is_loopback = text_eq (codes "127.0.0.1")

abbrev target : Target
target = record {
  base_url = codes "http://127.0.0.1";
  challenge_path = codes "/auth/challenge";
  session_path = codes "/auth/session";
}

bracketed : unbracketed (codes "[::1]") ≡ codes "::1"
unfolding conformances strip_prefix strip_suffix
bracketed = refl

remote :
    check_host ip_is_loopback (codes "a.example") false
    ≡ err (remote_not_allowed (codes "a.example"))
unfolding conformances strip_prefix strip_suffix to_ascii_lowercase
remote = refl

-- a challenge path may start with what ends a URL's user
moved_host :
    challenge_url (with_paths target (codes "@evil.example/x") (codes "/auth/session"))
    ≡ codes "http://127.0.0.1@evil.example/x"
unfolding conformances
moved_host = refl

new_target-IsGated_example :
    (new_target ip_is_loopback web (some (codes "1")) (codes "https://a.example/") ≡ ok target)
    ↔ IsGated ip_is_loopback web (some (codes "1")) (codes "https://a.example/") target
new_target-IsGated_example =
    new_target-IsGated ip_is_loopback web (some (codes "1")) (codes "https://a.example/") target

abbrev world_signer : Signer (PeerState × ℕ)
world_signer = record {
  signer_did = signer.signer_did;
  sign = λ t w. (w, some signature);
  public_key = none;
}

conforming :
    (spec_7_3_nonce_single_use hexed web
      (reference hexed seconds (λ n. readings))
      target
      world_signer
      (state, 0)).1
    ≡ pass
unfolding conformances
conforming = refl

abbrev after_case : PeerState × ℕ
after_case =
    (spec_7_3_nonce_single_use hexed web (reference hexed seconds (λ n. readings)) target
      world_signer (state, 0)).0

single_use_conforms_example :
    (spec_7_3_nonce_single_use hexed web
      (reference hexed seconds (λ n. readings))
      target
      world_signer
      (state, 0)).1
    ≢ fail
single_use_conforms_example =
    single_use_conforms hexed seconds (λ n. readings) target web world_signer (state, 0)

-- no base58, and no hex digit `z`
abbrev strict_digits : Env
strict_digits = record hexed {
  hex_decode = λ t. if contains b'z' t then none else some (map (λ c. c - 1000) t);
  bs58_decode = λ t. none;
}

abbrev draws : Draws
draws = record {
  short_ed25519 = replicate 31 1;
  long_ed25519 = replicate 33 1;
  bare_ed25519 = replicate 32 1;
  spoiled_ed25519 = replicate 32 1;
  short_p256 = replicate 32 1;
  short_eip155 = replicate 19 1;
}

drawn : IsDrawn strict_digits draws
unfolding conformances
drawn = record {
  short_ed25519 = refl;
  long_ed25519 = refl;
  bare_ed25519 = refl;
  spoiled_ed25519 = refl;
  short_p256 = refl;
  short_eip155 = refl;
  one_piece = refl;
  no_base58 = refl;
}

drawn_dids_conform_example :
    spec_7_5_did_well_formed strict_digits web
      (reference strict_digits seconds (λ n. readings))
      target
      draws
      (λ did. signature)
      (state, 0)
    ≡ ((state, 7), pass)
drawn_dids_conform_example =
    drawn_dids_conform strict_digits seconds (λ n. readings) target web draws (λ did. signature)
      (state, 0) drawn

-- a valid spelling is given a challenge
spelling :
    (spec_7_5_valid_did_spellings_accepted
      (reference hexed seconds (λ n. readings))
      target
      (signer.signer_did ∷ [])
      (state, 0)).1
    ≡ pass
unfolding conformances all_challenged verdict_if spec_7_5_valid_did_spellings_accepted
spelling = refl

-- the corruptions of a signature
corrupted :
    map (λ corrupt. corrupt (codes "0x" ++ shifted (4 ∷ 7 ∷ []))) (signature_corruptions hexed)
    ≡ (codes "0x" ++ shifted (5 ∷ 7 ∷ []))
      ∷ (codes "0x" ++ shifted (4 ∷ []))
      ∷ (codes "0x" ++ shifted (4 ∷ 7 ∷ 0xaa ∷ []))
      ∷ (codes "0x" ++ shifted (0 ∷ 0 ∷ []))
      ∷ codes "0xthis-is-not-hex-at-all"
      ∷ []
unfolding conformances decode_hex_body flip_first prefixed flip_one_bit truncate_by_one_byte
    append_one_byte zero_of_same_length
corrupted = refl

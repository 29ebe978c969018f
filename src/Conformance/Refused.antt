-- ===== src/Conformance/Refused.antt =====
-- The cases of aqua-auth-testkit/src/conformance that expect a refusal: of DIDs in
-- cases_nonce_and_did.rs, and of signatures and keys in cases_signature.rs. What a case draws at
-- random is an argument.
use aqua_auth.Prelude.{
  ◌+◌, ◌-◌, ◌%◌, Bool, true, false, not, ◌&&◌, List, [], ◌∷◌, ◌++◌, none, some, Result, ok, err,
  map_err, ok_or, guard, if◌then◌else◌, ◌==◌, map, length, take, drop, and_then,
}
use aqua_auth.Env.{Env}
use aqua_auth.Text.{Text, Bytes, codes, strip_prefix}
use aqua_auth.WebAuthn.Web.{Web}
use aqua_auth.Client.{Signer, hex_text}
use aqua_auth.Conformance.{
  Target, Outcome, pass, fail, HttpResponse, Http, is_success, string_member, fetch_challenge,
  post_session, sign_challenge,
}
use aqua_auth.Conformance.Cases.{
  failed, skipped, session_accepted, verdict_on, stopped, settled, foreign_request,
}

-- where a DID was refused
pub data RefusedAt : Type 0 where
  at_challenge at_session : RefusedAt

-- why it was not
pub data Breach : Type 0 where
  unanswered no_nonce both_accepted : Breach

unfoldable pub is_refused : Result Breach RefusedAt → Bool
is_refused (ok place) = true
is_refused (err breach) = false

unfoldable pub verdict_if : Bool → Outcome
verdict_if true = pass
verdict_if false = fail

-- the random bytes of the malformed DIDs
pub record Draws : Type 0 where
  pub short_ed25519 : Bytes
  pub long_ed25519 : Bytes
  pub bare_ed25519 : Bytes
  pub spoiled_ed25519 : Bytes
  pub short_p256 : Bytes
  pub short_eip155 : Bytes

module _ (env : Env) where
  -- `chars[0] = 'z'`, of 64 characters
  unfoldable pub malformed_dids : Draws → List Text
  malformed_dids d =
      (codes "did:pkh:ed25519:0x" ++ env.hex_encode d.short_ed25519)
      ∷ (codes "did:pkh:ed25519:0x" ++ env.hex_encode d.long_ed25519)
      ∷ (codes "did:pkh:ed25519:" ++ env.hex_encode d.bare_ed25519)
      ∷ (codes "did:pkh:ed25519:0x" ++ b'z' ∷ drop 1 (env.hex_encode d.spoiled_ed25519))
      ∷ (codes "did:pkh:p256:0x" ++ env.hex_encode d.short_p256)
      ∷ (codes "did:pkh:eip155:1:0x" ++ env.hex_encode d.short_eip155)
      ∷ codes "did:key:z6Mk0OIl0000CORRUPTEDMULTIBASE0000"
      ∷ []

  unfoldable pub decode_hex_body : Text → Bytes
  decode_hex_body signature =
      let digits : Text = elim (strip_prefix (codes "0x") signature) [
        | none ↦ signature
        | some d ↦ d
      ] in
      elim (env.hex_decode digits) [ none ↦ [] | some bytes ↦ bytes ]

  -- `*first ^= 0x01` on a byte
  unfoldable pub flip_first : Bytes → Bytes
  flip_first [] = []
  flip_first (b ∷ bytes) = (if b % 2 == 0 then b + 1 else b - 1) ∷ bytes

  unfoldable pub prefixed : Bytes → Text
  prefixed bytes = codes "0x" ++ env.hex_encode bytes

  unfoldable pub flip_one_bit : Text → Text
  unfolding decode_hex_body flip_first prefixed
  flip_one_bit signature = prefixed (flip_first (decode_hex_body signature))

  unfoldable pub truncate_by_one_byte : Text → Text
  unfolding decode_hex_body prefixed
  truncate_by_one_byte signature =
      let bytes = decode_hex_body signature in prefixed (take (length bytes - 1) bytes)

  unfoldable pub append_one_byte : Text → Text
  unfolding decode_hex_body prefixed
  append_one_byte signature = prefixed (decode_hex_body signature ++ 0xaa ∷ [])

  unfoldable pub zero_of_same_length : Text → Text
  unfolding decode_hex_body prefixed
  zero_of_same_length signature = prefixed (map (λ b. 0) (decode_hex_body signature))

  abbrev pub non_hex_garbage : Text → Text
  non_hex_garbage signature = codes "0xthis-is-not-hex-at-all"

  abbrev pub signature_corruptions : List (Text → Text)
  signature_corruptions =
      flip_one_bit ∷ truncate_by_one_byte ∷ append_one_byte ∷ zero_of_same_length ∷ non_hex_garbage
      ∷ []

module _ (env : Env) (web : Web) {W : Type 0} (http : Http W) (target : Target) where
  -- the part behind the challenge
  unfoldable pub refused_at_session : Text → Bytes → HttpResponse → W → W × Result Breach RefusedAt
  unfolding foreign_request session_accepted
  refused_at_session did random challenge w =
      and_then (w, ok_or (string_member (codes "nonce") challenge) no_nonce)
        (λ nonce w1.
          let (w2, posted) =
            post_session http target (foreign_request env web did nonce random) w1 in
          and_then (w2, map_err (λ e. unanswered) posted)
            (λ response w3.
              (w3, if session_accepted response then err both_accepted else ok at_session)))

  unfoldable pub refused_at_either_endpoint : Text → Bytes → W → W × Result Breach RefusedAt
  unfolding refused_at_session
  refused_at_either_endpoint did random w =
      let (w1, fetched) = fetch_challenge http target did w in
      and_then (w1, map_err (λ e. unanswered) fetched)
        (λ challenge w2.
          if is_success challenge
          then refused_at_session did random challenge w2
          else (w2, ok at_challenge))

  unfoldable pub spec_7_4_unsupported_namespace_refused : Bytes → Bytes → W → W × Outcome
  unfolding is_refused verdict_if refused_at_either_endpoint
  spec_7_4_unsupported_namespace_refused key random w =
      let (w1, refused) =
        refused_at_either_endpoint (codes "did:pkh:solana:0x" ++ env.hex_encode key) random w in
      (w1, verdict_if (is_refused refused))

  -- whether each DID is refused; `random` is what the probe of a DID draws
  unfoldable pub all_refused : (Text → Bytes) → List Text → W → W × Bool
  unfolding is_refused refused_at_either_endpoint
  all_refused random [] w = (w, true)
  all_refused random (did ∷ dids) w =
      let (w1, refused) = refused_at_either_endpoint did (random did) w in
      let (w2, rest) = all_refused random dids w1 in (w2, is_refused refused && rest)

  unfoldable pub spec_7_5_did_well_formed : Draws → (Text → Bytes) → W → W × Outcome
  unfolding all_refused verdict_if malformed_dids
  spec_7_5_did_well_formed draws random w =
      let (w1, refused) = all_refused random (malformed_dids env draws) w in
      (w1, verdict_if refused)

  -- the probe of one corruption: whether nothing goes wrong
  unfoldable pub corruption_refused : (Text → Text) → Signer W → W → W × Bool
  corruption_refused corrupt signer w =
      let (w1, posted) = and_then (fetch_challenge http target signer.signer_did w) (λ challenge w1.
        and_then (sign_challenge env web challenge signer w1) (λ body w2.
          post_session http target (record body { signature = corrupt body.signature }) w2)) in
      (w1, elim posted [ err e ↦ false | ok response ↦ not (session_accepted response) ])

  unfoldable pub corruptions_refused : List ((Text → Text) × Signer W) → W → W × Bool
  unfolding corruption_refused
  corruptions_refused [] w = (w, true)
  corruptions_refused ((corrupt, signer) ∷ rows) w =
      let (w1, refused) = corruption_refused corrupt signer w in
      let (w2, rest) = corruptions_refused rows w1 in (w2, refused && rest)

  -- the rows are the corruptions, each with the signer that is generated for it
  unfoldable pub spec_7_6_signature_invalid_refused :
      List ((Text → Text) × Signer W) → W → W × Outcome
  unfolding corruptions_refused verdict_if
  spec_7_6_signature_invalid_refused rows w =
      let (w1, refused) = corruptions_refused rows w in (w1, verdict_if refused)

  unfoldable pub spec_6_3_public_key_binding : Signer W → Signer W → W → W × Outcome
  unfolding stopped settled verdict_on
  spec_6_3_public_key_binding signer_a signer_b w = settled (
      and_then (stopped skipped (fetch_challenge http target signer_a.signer_did w))
        (λ challenge w1.
          and_then (w1, guard (is_success challenge) skipped)
            (λ u w2.
              and_then (stopped failed (sign_challenge env web challenge signer_a w2)) (λ body w3.
                and_then (w3, ok_or signer_b.public_key failed)
                  (λ key w4.
                    and_then
                      (stopped failed (
                        post_session http target
                          (record body { public_key = some (hex_text env web key) }) w4))
                      (λ response w5. (w5, ok (verdict_on response))))))))

module _ {W : Type 0} (http : Http W) (target : Target) where
  -- whether a challenge is given to each DID
  unfoldable pub all_challenged : List Text → W → W × Bool
  all_challenged [] w = (w, true)
  all_challenged (did ∷ dids) w =
      let (w1, fetched) = fetch_challenge http target did w in
      let (w2, rest) = all_challenged dids w1 in
      (w2, (elim fetched [ err e ↦ false | ok response ↦ is_success response ]) && rest)

  -- the DIDs are those of the signers
  unfoldable pub spec_7_5_valid_did_spellings_accepted : List Text → W → W × Outcome
  unfolding all_challenged verdict_if
  spec_7_5_valid_did_spellings_accepted dids w =
      let (w1, given) = all_challenged dids w in (w1, verdict_if given)

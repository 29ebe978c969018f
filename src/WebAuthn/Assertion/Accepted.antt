-- ===== src/WebAuthn/Assertion/Accepted.antt =====
-- What an assertion that verifies under a stored key (src/webauthn.rs) stands for.
use aqua_auth.Prelude.{
  ◌≤◌, ◌≡◌, ◌↔◌, refl, ap, ◌∙◌, true, not, Option, some, ok, >>=-eq-ok, guard, guard-eq-ok,
  ok_or-eq-ok, map_err-eq-ok, ok-inj, ok_or, map_err, ltb, ◌==◌, ==_iff, length, take, arith,
}
use aqua_auth.Env.{Env}
use aqua_auth.Text.{Text, Bytes, codes, text_eq, as_bytes}
use aqua_auth.Text.Laws.{text_eq→eq, text_eq_refl}
use aqua_auth.WebAuthn.Web.{Web}
use aqua_auth.WebAuthn.Assertion.{
  AuthenticatorData, parse_authenticator_data, signed_payload, has_flag, flag_up, byte_at,
  WebAuthnAssertionParams, string_member, check_client_data, check_signature,
  verify_webauthn_assertion,
}

-- The members of the clientDataJSON.
pub record IsClientData (web : Web) (params : WebAuthnAssertionParams) : Type 0 where
  pub members : Text → Option Text
  pub challenge : Text
  pub parses : web.json_strings params.client_data_json ≡ some members
  pub is_get : members (codes "type") ≡ some (codes "webauthn.get")
  pub has_challenge : members (codes "challenge") ≡ some challenge
  pub challenge_same : web.base64url_decode_no_pad challenge ≡ some params.expected_challenge
  pub origin_same : members (codes "origin") ≡ some params.expected_origin

pub record IsAssertion (env : Env) (web : Web) (params : WebAuthnAssertionParams) : Type 0 where
  pub sig : Bytes
  pub long_enough : 37 ≤ length params.authenticator_data
  pub rp_id_hash : take 32 params.authenticator_data ≡ env.sha256 (as_bytes params.expected_rp_id)
  pub user_present : has_flag (byte_at params.authenticator_data 32) flag_up ≡ true
  pub client_data : IsClientData web params
  pub signature_length : length params.signature ≡ 64
  pub point : env.p256_encoded_point params.credential_public_key ≡ true
  pub key : env.p256_verifying_key params.credential_public_key ≡ true
  pub signature_parses : env.p256_from_slice params.signature ≡ some sig
  pub verifies :
      env.p256_verify params.credential_public_key
        (signed_payload env params.authenticator_data params.client_data_json)
        sig
      ≡ true

module _ (env : Env) (web : Web) (params : WebAuthnAssertionParams) where
  check_client_data-IsClientData : check_client_data web params ≡ ok tt → IsClientData web params
  unfolding check_client_data string_member
  check_client_data-IsClientData h =
      let (members, e1, h1) = >>=-eq-ok (ok_or (web.json_strings params.client_data_json) _) _ h in
      let (cd_type, e2, h2) = >>=-eq-ok (ok_or (members (codes "type")) _) _ h1 in
      let (u3, e3, h3) = >>=-eq-ok (guard (text_eq cd_type (codes "webauthn.get")) _) _ h2 in
      let (challenge, e4, h4) = >>=-eq-ok (ok_or (members (codes "challenge")) _) _ h3 in
      let (decoded, e5, h5) = >>=-eq-ok (ok_or (web.base64url_decode_no_pad challenge) _) _ h4 in
      let (u6, e6, h6) = >>=-eq-ok (guard (text_eq decoded params.expected_challenge) _) _ h5 in
      let (origin, e7, h7) = >>=-eq-ok (ok_or (members (codes "origin")) _) _ h6 in
      record {
        members = members;
        challenge = challenge;
        parses = ok_or-eq-ok _ _ e1;
        is_get = ok_or-eq-ok _ _ e2 ∙ ap some (text_eq→eq _ _ (guard-eq-ok _ _ e3));
        has_challenge = ok_or-eq-ok _ _ e4;
        challenge_same = ok_or-eq-ok _ _ e5 ∙ ap some (text_eq→eq _ _ (guard-eq-ok _ _ e6));
        origin_same = ok_or-eq-ok _ _ e7 ∙ ap some (text_eq→eq _ _ (guard-eq-ok _ _ h7));
      }

  client_data-ok : IsClientData web params → check_client_data web params ≡ ok tt
  unfolding check_client_data string_member text_eq
  client_data-ok i =
      let e1 = i.parses in
      let e2 = i.is_get in
      let e3 = i.has_challenge in
      let e4 = i.challenge_same in
      let e5 = i.origin_same in
      rw
        (
          check_client_data,
          e1,
          string_member,
          e2,
          e3,
          e4,
          e5,
          text_eq_refl params.expected_challenge,
          text_eq_refl params.expected_origin,
        )
        refl

  -- the head of the authenticator data
  parse-eq :
      {head : AuthenticatorData}
      → parse_authenticator_data params.authenticator_data ≡ ok head
      → (37 ≤ length params.authenticator_data)
        × (take 32 params.authenticator_data ≡ head.rp_id_hash)
        × (byte_at params.authenticator_data 32 ≡ head.flags)
  unfolding parse_authenticator_data
  parse-eq h =
      let (u, e, h1) = >>=-eq-ok (guard (not (ltb (length params.authenticator_data) 37)) _) _ h in
      let enough = guard-eq-ok _ _ e in
      let same = ok-inj h1 in
      (ground (arith, enough), ap (λ x. x.rp_id_hash) same, ap (λ x. x.flags) same)

  parse-ok :
      37 ≤ length params.authenticator_data
      → parse_authenticator_data params.authenticator_data
        ≡ ok (record {
          rp_id_hash = take 32 params.authenticator_data;
          flags = byte_at params.authenticator_data 32;
        })
  unfolding parse_authenticator_data
  parse-ok h =
      let enough : not (ltb (length params.authenticator_data) 37) ≡ true = ground arith in
      rw (parse_authenticator_data, enough) refl

  accepted : verify_webauthn_assertion env web params ≡ ok true → IsAssertion env web params
  unfolding verify_webauthn_assertion check_signature
  accepted h =
      let (head, e1, h1) =
        >>=-eq-ok (map_err _ (parse_authenticator_data params.authenticator_data)) _ h in
      let (u2, e2, h2) =
        >>=-eq-ok (guard (text_eq head.rp_id_hash (env.sha256 (as_bytes params.expected_rp_id))) _)
          _ h1 in
      let (u3, e3, h3) = >>=-eq-ok (guard (has_flag head.flags flag_up) _) _ h2 in
      let (u4, e4, h4) = >>=-eq-ok (check_client_data web params) _ h3 in
      let (u5, e5, h5) = >>=-eq-ok (guard (length params.signature == 64) _) _ h4 in
      let (u6, e6, h6) =
        >>=-eq-ok (guard (env.p256_encoded_point params.credential_public_key) _) _ h5 in
      let (u7, e7, h7) =
        >>=-eq-ok (guard (env.p256_verifying_key params.credential_public_key) _) _ h6 in
      let (sig, e8, h8) = >>=-eq-ok (ok_or (env.p256_from_slice params.signature) _) _ h7 in
      let (long_enough, hash, flags) = parse-eq (map_err-eq-ok _ _ e1) in
      record {
        sig = sig;
        long_enough = long_enough;
        rp_id_hash = hash ∙ text_eq→eq _ _ (guard-eq-ok _ _ e2);
        user_present = ap (λ f. has_flag f flag_up) flags ∙ guard-eq-ok _ _ e3;
        client_data = check_client_data-IsClientData e4;
        signature_length = (==_iff _ _).0 (guard-eq-ok _ _ e5);
        point = guard-eq-ok _ _ e6;
        key = guard-eq-ok _ _ e7;
        signature_parses = ok_or-eq-ok _ _ e8;
        verifies = ok-inj h8;
      }

  accepts : IsAssertion env web params → verify_webauthn_assertion env web params ≡ ok true
  unfolding verify_webauthn_assertion check_signature
  accepts i =
      let e1 = parse-ok i.long_enough in
      let e2 = i.rp_id_hash in
      let e3 = i.user_present in
      let e4 = client_data-ok i.client_data in
      let e5 = (==_iff _ _).1 i.signature_length in
      let e6 = i.point in
      let e7 = i.key in
      let e8 = i.signature_parses in
      let e9 = i.verifies in
      rw
        (
          verify_webauthn_assertion,
          e1,
          e2,
          text_eq_refl (env.sha256 (as_bytes params.expected_rp_id)),
          e3,
          e4,
          check_signature,
          e5,
          e6,
          e7,
          e8,
          e9,
        )
        refl

  -- The assertion verifies exactly when it is long enough, for the relying party, with the user
  -- present, a `webauthn.get` over the challenge at the origin, and signed by the stored key.
  pub verify_webauthn_assertion-IsAssertion :
      (verify_webauthn_assertion env web params ≡ ok true) ↔ IsAssertion env web params
  verify_webauthn_assertion-IsAssertion = (accepted, accepts)

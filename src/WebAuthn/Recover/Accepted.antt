-- ===== src/WebAuthn/Recover/Accepted.antt =====
-- What a recovered assertion (src/webauthn_recover.rs) stands for.
use aqua_auth.Prelude.{
  ◌≡◌, ◌≢◌, ◌↔◌, refl, sym, ap, ◌∙◌, Bool, true, false, not, ◌&&◌, Option, none, some, ok,
  >>=-eq-ok, guard, ok-inj, guard-eq-ok, ok_or-eq-ok, map_err-eq-ok, ok_or, map_err, arith,
}
use aqua_auth.Env.{Env}
use aqua_auth.Text.{Bytes, codes, text_eq}
use aqua_auth.Text.Laws.{text_eq→eq, text_eq_refl}
use aqua_auth.WebAuthn.Web.{Web, ClientData}
use aqua_auth.WebAuthn.Policy.{AssertionPolicy, RpEntry, entry_for_rp_id_hash, allows_origin}
use aqua_auth.WebAuthn.Assertion.{
  AuthenticatorData, parse_authenticator_data, signed_payload, has_flag, flag_up, flag_uv, flag_be,
  flag_bs,
}
use aqua_auth.WebAuthn.Recover.{
  AssertionJson, ExpectedChallenge, RecoveredAssertion, Decoded, decode_members, wanted_challenge,
  check_challenge, check_ceremony, recover_candidates, verify_and_recover,
}

-- The signature is over the payload, and the candidates are the keys that it recovers to.
pub record IsCandidates (env : Env) (web : Web) (d : Decoded) (candidates : Bytes × Bytes)
    : Type 0 where
  pub sig : Bytes
  pub parsed : env.p256_from_der d.signature ≡ some sig
  pub even :
      web.p256_recover
        (env.sha256 (signed_payload env d.auth_data_bytes d.client_data_bytes))
        (web.p256_normalize_s sig)
        false
      ≡ some candidates.0
  pub odd :
      web.p256_recover
        (env.sha256 (signed_payload env d.auth_data_bytes d.client_data_bytes))
        (web.p256_normalize_s sig)
        true
      ≡ some candidates.1

-- what is handed out
abbrev pub outcome :
    Decoded → AuthenticatorData → ClientData → RpEntry → Bytes × Bytes → RecoveredAssertion
outcome d auth_data client entry candidates = record {
  rp_id = entry.rp_id;
  origin = client.origin;
  user_verified = has_flag auth_data.flags flag_uv;
  backup_eligible = has_flag auth_data.flags flag_be;
  backup_state = has_flag auth_data.flags flag_bs;
  credential_id = d.credential_id;
  user_handle = d.user_handle;
  candidates = candidates;
}

-- What the ceremony asks: a `webauthn.get` over the wanted challenge, for a relying party and an
-- origin of the policy, in no frame of another page, with the user present and, where the policy
-- asks for it, verified.
pub record IsCeremony (env : Env) (web : Web) (client : ClientData) (auth_data : AuthenticatorData)
    (expected : ExpectedChallenge) (policy : AssertionPolicy) (entry : RpEntry) : Type 0 where
  pub want : Bytes
  pub is_get : client.type_name ≡ codes "webauthn.get"
  pub challenge_wanted : wanted_challenge env web expected ≡ ok want
  pub challenge_same : web.base64url_decode client.challenge ≡ some want
  pub entry_found : entry_for_rp_id_hash policy auth_data.rp_id_hash ≡ some entry
  pub origin_listed : allows_origin entry client.origin ≡ true
  pub same_origin : client.cross_origin ≢ some true
  pub no_top_origin : client.top_origin ≡ false
  pub user_present : has_flag auth_data.flags flag_up ≡ true
  pub user_verified : (policy.require_uv && not (has_flag auth_data.flags flag_uv)) ≡ false

-- All that is asked of an assertion `a`, and what comes out of it.
pub record IsRecovered (env : Env) (web : Web) (a : AssertionJson) (expected : ExpectedChallenge)
    (policy : AssertionPolicy) (r : RecoveredAssertion) : Type 0 where
  pub d : Decoded
  pub auth_data : AuthenticatorData
  pub client : ClientData
  pub entry : RpEntry
  pub decoded : decode_members web a ≡ ok d
  pub auth_data_parses : parse_authenticator_data d.auth_data_bytes ≡ ok auth_data
  pub client_parses : web.client_data d.client_data_bytes ≡ some client
  pub ceremony : IsCeremony env web client auth_data expected policy entry
  pub candidates_recovered : IsCandidates env web d r.candidates
  pub result : r ≡ outcome d auth_data client entry r.candidates

cross_origin-ne :
    (o : Option Bool) → not (elim o [ none ↦ false | some b ↦ b ]) ≡ true → o ≢ some true
cross_origin-ne none h = λ e. ground (arith, e)
cross_origin-ne (some b) h = λ e. ground (arith, e, h)

ne-cross_origin :
    (o : Option Bool) → o ≢ some true → not (elim o [ none ↦ false | some b ↦ b ]) ≡ true
ne-cross_origin none h = refl
ne-cross_origin (some true) h = absurd (h refl)
ne-cross_origin (some false) h = refl

not-eq-true : (b : Bool) → not b ≡ true → b ≡ false
not-eq-true true h = cc
not-eq-true false h = refl

module _ (env : Env) (web : Web) where
  challenge-eq :
      (client : ClientData) (expected : ExpectedChallenge)
      → check_challenge env web client expected ≡ ok tt
      → (want : Bytes) × (client.type_name ≡ codes "webauthn.get")
        × (wanted_challenge env web expected ≡ ok want)
        × (web.base64url_decode client.challenge ≡ some want)
  unfolding check_challenge
  challenge-eq client expected h =
      let (u, e1, h1) = >>=-eq-ok (guard (text_eq client.type_name (codes "webauthn.get")) _) _ h in
      let (challenge, e2, h2) = >>=-eq-ok (ok_or (web.base64url_decode client.challenge) _) _ h1 in
      let (want, e3, h3) = >>=-eq-ok (wanted_challenge env web expected) _ h2 in
      let same = text_eq→eq challenge want (guard-eq-ok _ _ h3) in
      (want, text_eq→eq _ _ (guard-eq-ok _ _ e1), e3, ok_or-eq-ok _ _ e2 ∙ ap some same)

  recover_candidates-IsCandidates :
      (d : Decoded) {candidates : Bytes × Bytes}
      → recover_candidates env web d.signature d.auth_data_bytes d.client_data_bytes ≡ ok candidates
      → IsCandidates env web d candidates
  unfolding recover_candidates
  recover_candidates-IsCandidates d h =
      let (sig, e1, h1) = >>=-eq-ok (ok_or (env.p256_from_der d.signature) _) _ h in
      let z = env.sha256 (signed_payload env d.auth_data_bytes d.client_data_bytes) in
      let (even, e2, h2) =
        >>=-eq-ok (ok_or (web.p256_recover z (web.p256_normalize_s sig) false) _) _ h1 in
      let (odd, e3, h3) =
        >>=-eq-ok (ok_or (web.p256_recover z (web.p256_normalize_s sig) true) _) _ h2 in
      let pair = ok-inj h3 in
      record {
        sig = sig;
        parsed = ok_or-eq-ok _ _ e1;
        even = ok_or-eq-ok _ _ e2 ∙ ap (λ p. some p.0) pair;
        odd = ok_or-eq-ok _ _ e3 ∙ ap (λ p. some p.1) pair;
      }

  candidates-ok :
      (d : Decoded) (candidates : Bytes × Bytes)
      → IsCandidates env web d candidates
      → recover_candidates env web d.signature d.auth_data_bytes d.client_data_bytes ≡ ok candidates
  unfolding recover_candidates
  candidates-ok d candidates c =
      let e1 = c.parsed in
      let e2 = c.even in let e3 = c.odd in rw (recover_candidates, e1, e2, e3) refl

  challenge-ok :
      (client : ClientData) (expected : ExpectedChallenge) {want : Bytes}
      → client.type_name ≡ codes "webauthn.get"
      → wanted_challenge env web expected ≡ ok want
      → web.base64url_decode client.challenge ≡ some want
      → check_challenge env web client expected ≡ ok tt
  unfolding check_challenge
  challenge-ok client expected {want} e1 e2 e3 =
      rw (check_challenge, e1, text_eq_refl (codes "webauthn.get"), e3, e2, text_eq_refl want) refl

  module _ (client : ClientData) (auth_data : AuthenticatorData) (expected : ExpectedChallenge)
      (policy : AssertionPolicy) (entry : RpEntry) where
    check_ceremony-IsCeremony :
        check_ceremony env web client auth_data expected policy ≡ ok entry
        → IsCeremony env web client auth_data expected policy entry
    unfolding check_ceremony
    check_ceremony-IsCeremony h =
        let (u4, e4, h4) = >>=-eq-ok (check_challenge env web client expected) _ h in
        let (found, e5, h5) =
          >>=-eq-ok (ok_or (entry_for_rp_id_hash policy auth_data.rp_id_hash) _) _ h4 in
        let (u6, e6, h6) = >>=-eq-ok (guard (allows_origin found client.origin) _) _ h5 in
        let (u7, e7, h7) =
          >>=-eq-ok (guard (not (elim client.cross_origin [ none ↦ false | some b ↦ b ])) _) _ h6 in
        let (u8, e8, h8) = >>=-eq-ok (guard (not client.top_origin) _) _ h7 in
        let (u9, e9, h9) = >>=-eq-ok (guard (has_flag auth_data.flags flag_up) _) _ h8 in
        let (u10, e10, h10) =
          >>=-eq-ok (guard (not (policy.require_uv && not (has_flag auth_data.flags flag_uv))) _) _
            h9 in
        let (want, is_get, wanted, same) = challenge-eq client expected e4 in
        let same_entry = ok-inj h10 in
        record {
          want = want;
          is_get = is_get;
          challenge_wanted = wanted;
          challenge_same = same;
          entry_found = ok_or-eq-ok _ _ e5 ∙ ap some same_entry;
          origin_listed = rw (sym same_entry) (guard-eq-ok _ _ e6);
          same_origin = cross_origin-ne client.cross_origin (guard-eq-ok _ _ e7);
          no_top_origin = not-eq-true client.top_origin (guard-eq-ok _ _ e8);
          user_present = guard-eq-ok _ _ e9;
          user_verified = not-eq-true _ (guard-eq-ok _ _ e10);
        }

    ceremony-ok :
        IsCeremony env web client auth_data expected policy entry
        → check_ceremony env web client auth_data expected policy ≡ ok entry
    unfolding check_ceremony
    ceremony-ok i =
        let e4 = challenge-ok client expected i.is_get i.challenge_wanted i.challenge_same in
        let e5 = i.entry_found in
        let e6 = i.origin_listed in
        let e7 = ne-cross_origin client.cross_origin i.same_origin in
        let e8 = i.no_top_origin in
        let e9 = i.user_present in
        let e10 = i.user_verified in rw (check_ceremony, e4, e5, e6, e7, e8, e9, e10) refl

  module _ (a : AssertionJson) (expected : ExpectedChallenge) (policy : AssertionPolicy)
      (r : RecoveredAssertion) where
    recovered :
        verify_and_recover env web a expected policy ≡ ok r
        → IsRecovered env web a expected policy r
    unfolding verify_and_recover
    recovered h =
        let (d, e1, h1) = >>=-eq-ok (decode_members web a) _ h in
        let (head, e2, h2) =
          >>=-eq-ok (map_err _ (parse_authenticator_data d.auth_data_bytes)) _ h1 in
        let (client, e3, h3) = >>=-eq-ok (ok_or (web.client_data d.client_data_bytes) _) _ h2 in
        let (entry, e4, h4) = >>=-eq-ok (check_ceremony env web client head expected policy) _ h3 in
        let (candidates, e5, h5) =
          >>=-eq-ok (recover_candidates env web d.signature d.auth_data_bytes d.client_data_bytes) _
            h4 in
        let result = ok-inj h5 in
        record {
          d = d;
          auth_data = head;
          client = client;
          entry = entry;
          decoded = e1;
          auth_data_parses = map_err-eq-ok _ _ e2;
          client_parses = ok_or-eq-ok _ _ e3;
          ceremony = check_ceremony-IsCeremony client head expected policy entry e4;
          candidates_recovered =
              recover_candidates-IsCandidates d (e5 ∙ ap (λ x. ok x.candidates) result);
          result = sym result ∙ ap (λ x. outcome d head client entry x.candidates) result;
        }

    recovers :
        IsRecovered env web a expected policy r
        → verify_and_recover env web a expected policy ≡ ok r
    unfolding verify_and_recover
    recovers i =
        let e1 = i.decoded in
        let e2 = i.auth_data_parses in
        let e3 = i.client_parses in
        let e4 = ceremony-ok i.client i.auth_data expected policy i.entry i.ceremony in
        let e5 = candidates-ok i.d r.candidates i.candidates_recovered in
        rw (verify_and_recover, e1, e2, e3, e4, e5) (ap ok (sym i.result))

    -- An assertion is accepted exactly when it is a `webauthn.get` over the wanted challenge, for a
    -- relying party and an origin of the policy, neither cross-origin nor below another page, with
    -- the user present and, where the policy asks for it, verified, and with a signature that
    -- recovers the two candidates.
    pub recover_iff :
        (verify_and_recover env web a expected policy ≡ ok r)
        ↔ IsRecovered env web a expected policy r
    recover_iff = (recovered, recovers)

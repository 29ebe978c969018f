-- ===== src/Conformance/Cases.antt =====
-- Cases of aqua-auth-testkit/src/conformance: cases_nonce_and_did.rs and cases_signature.rs. A case
-- is its outcome; its id, reference and title are constants. The signers that it generates and the
-- random bytes that it draws are arguments.
use aqua_auth.Prelude.{
  Bool, true, false, not, ◌&&◌, ◌||◌, [], ◌∷◌, Option, none, some, Result, ok, err, map_err, guard,
  if◌then◌else◌, answered, and_then,
}
use aqua_auth.Env.{Env}
use aqua_auth.Text.{Text, Bytes, codes, text_eq}
use aqua_auth.WebAuthn.Web.{Web}
use aqua_auth.Client.{SessionRequest, Signer, hex_text}
use aqua_auth.Conformance.{
  Target, Outcome, pass, fail, skip, HttpResponse, Http, LoginError, is_success, string_member,
  fetch_challenge, post_session, signable, sign_challenge, login,
}

-- `extract_token(..).is_some_and(|token| !token.is_empty())`
unfoldable pub has_token : Option Text → Bool
has_token none = false
has_token (some []) = false
has_token (some (c ∷ t)) = true

-- `accepted` is the same test
unfoldable pub session_accepted : HttpResponse → Bool
unfolding has_token
session_accepted response =
    is_success response && has_token (string_member (codes "token") response)

-- a case that returns before its verdict
pub data Stop : Type 0 where
  failed skipped : Stop

unfoldable pub outcome_of : Result Stop Outcome → Outcome
outcome_of (ok verdict) = verdict
outcome_of (err failed) = fail
outcome_of (err skipped) = skip

unfoldable pub verdict_on : HttpResponse → Outcome
unfolding session_accepted
verdict_on response = if session_accepted response then fail else pass

module _ {W : Type 0} where
  unfoldable pub stopped : {A : Type 0} → Stop → W × Result LoginError A → W × Result Stop A
  stopped stop (w, answer) = (w, map_err (λ e. stop) answer)

  unfoldable pub settled : W × Result Stop Outcome → W × Outcome
  settled (w, result) = (w, outcome_of result)

module _ (env : Env) (web : Web) where
  -- the request that B's signature on A's message makes
  unfoldable pub foreign_request : Text → Text → Bytes → SessionRequest
  foreign_request did nonce signature = record {
    did = did;
    nonce = nonce;
    signature = hex_text env web signature;
    public_key = none;
  }

module _ (env : Env) (web : Web) {W : Type 0} (http : Http W) (target : Target) where
  unfoldable pub spec_7_3_nonce_single_use : Signer W → W → W × Outcome
  unfolding stopped settled verdict_on
  spec_7_3_nonce_single_use signer w = settled (
      and_then (stopped skipped (login env web http target signer w)) (λ flow w1.
        and_then (w1, guard (session_accepted flow.session_response) skipped)
          (λ u w2.
            and_then (stopped failed (post_session http target flow.session_request w2))
              (λ replay w3. (w3, ok (verdict_on replay))))))

  unfoldable pub spec_7_1_unknown_nonce_refused : Signer W → Bytes → W → W × Outcome
  unfolding stopped settled verdict_on
  spec_7_1_unknown_nonce_refused signer random w = settled (
      and_then (stopped failed (fetch_challenge http target signer.signer_did w)) (λ challenge w1.
        and_then (stopped failed (sign_challenge env web challenge signer w1)) (λ body w2.
          and_then
            (stopped failed
              (post_session http target (record body { nonce = hex_text env web random }) w2))
            (λ response w3. (w3, ok (verdict_on response))))))

  unfoldable pub spec_7_6_wrong_key_refused : Signer W → Signer W → W → W × Outcome
  unfolding stopped settled verdict_on foreign_request
  spec_7_6_wrong_key_refused signer_a signer_b w = settled (
      and_then (stopped failed (fetch_challenge http target signer_a.signer_did w)) (λ challenge w1.
        and_then (stopped failed (w1, signable challenge)) (λ offered w2.
          and_then (stopped failed (answered LoginError.sign (signer_b.sign offered.0 w2)))
            (λ signature_b w3.
              and_then
                (stopped failed (
                  post_session http target
                    (foreign_request env web signer_a.signer_did offered.1 signature_b) w3))
                (λ response w4. (w4, ok (verdict_on response)))))))

  -- one direction of the probe: whether nothing goes wrong
  unfoldable pub direction_refused : Signer W → Text → Text → W → W × Bool
  unfolding foreign_request
  direction_refused signer message nonce w =
      let (w1, posted) =
        and_then (answered LoginError.sign (signer.sign message w)) (λ signature w2.
          post_session http target (foreign_request env web signer.signer_did nonce signature)
            w2) in
      (w1, elim posted [ err e ↦ false | ok response ↦ not (session_accepted response) ])

  unfoldable pub spec_7_7_message_binding : Signer W → W → W × Outcome
  unfolding stopped settled direction_refused
  spec_7_7_message_binding signer w = settled (
      and_then (stopped failed (fetch_challenge http target signer.signer_did w)) (λ challenge_a w1.
        and_then (stopped failed (fetch_challenge http target signer.signer_did w1))
          (λ challenge_b w2. and_then (stopped failed (w2, signable challenge_a)) (λ a w3.
            and_then (stopped failed (w3, signable challenge_b)) (λ b w4.
              and_then (w4, guard (not (text_eq a.0 b.0 || text_eq a.1 b.1)) failed)
                (λ u w5.
                  let (w6, first) = direction_refused signer b.0 a.1 w5 in
                  let (w7, second) = direction_refused signer a.0 b.1 w6 in
                  (w7, ok (if first && second then pass else fail))))))))

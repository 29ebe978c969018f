-- ===== src/Conformance/Verdicts.antt =====
-- What a pass of the cases of aqua-auth-testkit/src/conformance says about the server.
use aqua_auth.Prelude.{
  ◌≡◌, refl, ap, ◌∙◌, ◌↔◌, inl, inr, true, false, some, Result, ok, err, guard, arith, answered,
  and_then-eq-ok, answered-eq-ok, returned-eq-ok, guard-eq-ok, Bool-cases,
}
use aqua_auth.Env.{Env}
use aqua_auth.Text.{Text, Bytes}
use aqua_auth.WebAuthn.Web.{Web}
use aqua_auth.Client.{Signer}
use aqua_auth.Conformance.{
  Target, Outcome, pass, HttpResponse, Http, LoginError, LoginFlow, session_url, challenge_url,
  fetch_challenge, post_session, signable, login,
}
use aqua_auth.Conformance.Cases.{
  Stop, failed, skipped, session_accepted, outcome_of, verdict_on, stopped, settled,
  foreign_request, spec_7_3_nonce_single_use, spec_7_6_wrong_key_refused,
}

verdict-pass :
    (response : HttpResponse) → verdict_on response ≡ pass → session_accepted response ≡ false
unfolding verdict_on
verdict-pass response h = elim (Bool-cases (session_accepted response)) [
  | inl taken ↦ absurd (ground (arith, h, taken))
  | inr refused ↦ refused
]

outcome-pass : (r : Result Stop Outcome) → outcome_of r ≡ pass → r ≡ ok pass
unfolding outcome_of
outcome-pass (ok verdict) h = ap (λ (o : Outcome). ok o) h
outcome-pass (err failed) h = absurd (ground (arith, h))
outcome-pass (err skipped) h = absurd (ground (arith, h))

module _ {W : Type 0} where
  settled-pass : (m : W × Result Stop Outcome) {w : W} → settled m ≡ (w, pass) → m ≡ (w, ok pass)
  unfolding settled
  settled-pass (v, r) h =
      let verdict = outcome-pass r (ap (λ (x : W × Outcome). x.1) h) in
      let world = ap (λ (x : W × Outcome). x.0) h in rw (verdict, world) refl

  stopped-eq-ok :
      {A : Type 0} (stop : Stop) (m : W × Result LoginError A) {w : W} {a : A}
      → stopped stop m ≡ (w, ok a)
      → m ≡ (w, ok a)
  unfolding stopped
  stopped-eq-ok stop (v, ok b) h = let (world, value) = returned-eq-ok h in rw (world, value) refl
  stopped-eq-ok stop (v, err e) h = absurd (ground (arith, ap (λ x. x.1) h))

  offered-parts :
      (v : W) (challenge : HttpResponse) {w : W} {offer : Text × Text}
      → stopped failed (v, signable challenge) ≡ (w, ok offer)
      → (v ≡ w) × (signable challenge ≡ ok offer)
  offered-parts v challenge h =
      let same = stopped-eq-ok failed (v, signable challenge) h in
      (ap (λ x. x.0) same, ap (λ x. x.1) same)

module _ (env : Env) (web : Web) {W : Type 0} (http : Http W) (target : Target) where
  -- What a pass of the single-use case stands for: a login was accepted, and the very request that
  -- it sent, posted again, was answered and not accepted.
  pub record IsSingleUse (signer : Signer W) (w w' : W) : Type 0 where
    pub flow : LoginFlow
    pub w1 : W
    pub replay : HttpResponse
    pub logged_in : login env web http target signer w ≡ (w1, ok flow)
    pub accepted : session_accepted flow.session_response ≡ true
    pub replayed : http.post (session_url target) flow.session_request w1 ≡ (w', some replay)
    pub refused : session_accepted replay ≡ false

  -- The case passes exactly when a login was accepted and the replay of its request was answered
  -- and refused.
  pub replay_verdict_iff :
      (signer : Signer W) (w w' : W)
      → (spec_7_3_nonce_single_use env web http target signer w ≡ (w', pass))
        ↔ IsSingleUse signer w w'
  unfolding spec_7_3_nonce_single_use post_session stopped settled outcome_of verdict_on
  replay_verdict_iff signer w w' = (forward, backward)
    where
      forward :
          spec_7_3_nonce_single_use env web http target signer w ≡ (w', pass)
          → IsSingleUse signer w w'
      forward h =
          let (w1, flow, done, h1) =
            and_then-eq-ok (stopped skipped (login env web http target signer w)) _
              (settled-pass _ h) in
          let (w2, u, taken, h2) =
            and_then-eq-ok (w1, guard (session_accepted flow.session_response) skipped) _ h1 in
          let (w3, replay, posted, h3) =
            and_then-eq-ok (stopped failed (post_session http target flow.session_request w2)) _
              h2 in
          let (same, passes) = returned-eq-ok h3 in
          let here : w1 ≡ w2 = ap (λ (x : W × Result Stop (Unit {0})). x.0) taken in
          let sent = answered-eq-ok LoginError.http _ (stopped-eq-ok failed _ posted) in
          record {
            flow = flow;
            w1 = w1;
            replay = replay;
            logged_in = stopped-eq-ok skipped _ done;
            accepted = guard-eq-ok _ _ (ap (λ (x : W × Result Stop (Unit {0})). x.1) taken);
            replayed =
                ap (http.post (session_url target) flow.session_request) here
                ∙ sent
                ∙ ap (λ x. (x, some replay)) same;
            refused = verdict-pass replay passes;
          }

      backward :
          IsSingleUse signer w w'
          → spec_7_3_nonce_single_use env web http target signer w ≡ (w', pass)
      backward i =
          rw (spec_7_3_nonce_single_use, i.logged_in, i.accepted, i.replayed, i.refused) refl

  -- What a pass of the wrong-key case stands for: a challenge was offered to A, B signed its message,
  -- and the request with A's DID and B's signature was answered and not accepted.
  pub record IsImpostorRefused (signer_a signer_b : Signer W) (w w' : W) : Type 0 where
    pub challenge : HttpResponse
    pub message : Text
    pub nonce : Text
    pub signature : Bytes
    pub response : HttpResponse
    pub w1 : W
    pub w2 : W
    pub fetched : http.get (challenge_url target) signer_a.signer_did w ≡ (w1, some challenge)
    pub offered : signable challenge ≡ ok (message, nonce)
    pub signed : signer_b.sign message w1 ≡ (w2, some signature)
    pub answered_with :
        http.post
          (session_url target)
          (foreign_request env web signer_a.signer_did nonce signature)
          w2
        ≡ (w', some response)
    pub refused : session_accepted response ≡ false

  -- The case passes exactly when the impostor's request was made and refused.
  pub wrong_key_iff :
      (signer_a signer_b : Signer W) (w w' : W)
      → (spec_7_6_wrong_key_refused env web http target signer_a signer_b w ≡ (w', pass))
        ↔ IsImpostorRefused signer_a signer_b w w'
  unfolding spec_7_6_wrong_key_refused post_session fetch_challenge stopped settled outcome_of
      verdict_on
  wrong_key_iff signer_a signer_b w w' = (forward, backward)
    where
      forward :
          spec_7_6_wrong_key_refused env web http target signer_a signer_b w ≡ (w', pass)
          → IsImpostorRefused signer_a signer_b w w'
      forward h =
          let (w1, challenge, fetched, h1) =
            and_then-eq-ok (stopped failed (fetch_challenge http target signer_a.signer_did w)) _
              (settled-pass _ h) in
          let (w1', offer, offered, h2) =
            and_then-eq-ok (stopped failed (w1, signable challenge)) _ h1 in
          let (w2, signature, signed, h3) =
            and_then-eq-ok (stopped failed (answered LoginError.sign (signer_b.sign offer.0 w1'))) _
              h2 in
          let (w3, response, posted, h4) =
            and_then-eq-ok
              (stopped failed (
                post_session http target
                  (foreign_request env web signer_a.signer_did offer.1 signature) w2))
              _ h3 in
          let (same, passes) = returned-eq-ok h4 in
          let (here, offer_is) = offered-parts w1 challenge offered in
          record {
            challenge = challenge;
            message = offer.0;
            nonce = offer.1;
            signature = signature;
            response = response;
            w1 = w1;
            w2 = w2;
            fetched = answered-eq-ok LoginError.http _ (stopped-eq-ok failed _ fetched);
            offered = offer_is;
            signed =
                ap (signer_b.sign offer.0) here
                ∙ answered-eq-ok LoginError.sign _ (stopped-eq-ok failed _ signed);
            answered_with =
                answered-eq-ok LoginError.http _ (stopped-eq-ok failed _ posted)
                ∙ ap (λ x. (x, some response)) same;
            refused = verdict-pass response passes;
          }

      backward :
          IsImpostorRefused signer_a signer_b w w'
          → spec_7_6_wrong_key_refused env web http target signer_a signer_b w ≡ (w', pass)
      backward i =
          rw
            (spec_7_6_wrong_key_refused, i.fetched, i.offered, i.signed, i.answered_with, i.refused)
            refl

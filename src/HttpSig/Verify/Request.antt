-- ===== src/HttpSig/Verify/Request.antt =====
-- `verify_request_at` of src/http_sig/verify.rs as a whole, with its replay guard.
use aqua_auth.Prelude.{
  ◌≡◌, ◌≢◌, refl, ap, sym, ◌∙◌, ◌⊎◌, ◌↔◌, inl, inr, Option, none, some, Result, ok, err, >>=-eq-ok,
  ◌>>◌, arith, Result-cases, Option-cases,
}
use aqua_auth.Prelude.Int.{ℤ}
use aqua_auth.Env.{Env}
use aqua_auth.Text.{Text}
use aqua_auth.Did.Principal.{Principal}
use aqua_auth.HttpSig.Errors.{HttpSigError}
use aqua_auth.HttpSig.Fields.{Sfv}
use aqua_auth.HttpSig.Base.{RequestParts, SignatureParams}
use aqua_auth.HttpSig.Verify.{VerifyOptions, verify_signature, verify_request_at}
use aqua_auth.HttpSig.Verify.Accepted.{IsAccepted, verified, accepted_verifies}
use aqua_auth.HttpSig.Replay.{NonceReplayGuard, check_and_record_at}
use aqua_auth.HttpSig.Replay.Once.{accepts_iff_unseen}

-- The guard, if there is one, takes the nonce.
abbrev pub PassesGuard : Option NonceReplayGuard → SignatureParams → ℤ → Type 0
PassesGuard none params now = Unit
PassesGuard (some g) params now = (check_and_record_at g params.nonce params.expires now).1 ≡ ok tt

pub honoured_once :
    (g : NonceReplayGuard) (nonce nonce' : Text) (expires_at expires_at' now now' : ℤ)
    → nonce ≡ nonce'
    → (check_and_record_at g nonce expires_at now).1 ≡ ok tt
    → (check_and_record_at (check_and_record_at g nonce expires_at now).0 nonce' expires_at' now').1
      ≢ ok tt
honoured_once g nonce nonce' expires_at expires_at' now now' same first = λ second.
    elim (accepts_iff_unseen g nonce expires_at now) [
      | inr (refused, seen) ↦ ground (
        arith,
        first,
        ap (λ (r : NonceReplayGuard × Result HttpSigError (Unit {0})). r.1) refused,
      )
      | inl (taken, unseen, remembered) ↦
          elim (accepts_iff_unseen (check_and_record_at g nonce expires_at now).0 nonce' expires_at'
            now') [
              | inr (refused, seen) ↦ ground (
                arith,
                second,
                ap (λ (r : NonceReplayGuard × Result HttpSigError (Unit {0})). r.1) refused,
              )
              | inl (taken', unseen', remembered') ↦ ground (arith, unseen', remembered, same)
            ]
    ]

module _ (env : Env) (sfv : Sfv) (parts : RequestParts) (signature_input signature : Text)
    (opts : VerifyOptions) (now : ℤ) where
  pub outcome_failed :
      (e : HttpSigError)
      → verify_signature env sfv parts signature_input signature opts now ≡ err e
      → verify_request_at env sfv parts signature_input signature opts now ≡ (opts, err e)
  unfolding verify_request_at
  outcome_failed e failed = rw (failed, verify_request_at) refl

  module _ (params : SignatureParams) (p : Principal)
      (passed : verify_signature env sfv parts signature_input signature opts now
        ≡ ok (params, p)) where
    outcome_unguarded :
        opts.replay_guard ≡ none
        → verify_request_at env sfv parts signature_input signature opts now ≡ (opts, ok p)
    unfolding verify_request_at
    outcome_unguarded absent = simp (passed, absent, verify_request_at)

    pub outcome_guarded :
        (g : NonceReplayGuard)
        → opts.replay_guard ≡ some g
        → verify_request_at env sfv parts signature_input signature opts now ≡ (
          record opts {
            replay_guard = some (check_and_record_at g params.nonce params.expires now).0;
          },
          (check_and_record_at g params.nonce params.expires now).1 >> ok p,
        )
    unfolding verify_request_at
    outcome_guarded g present = rw (passed, present, verify_request_at) refl

  -- Whatever the outcome, the guard is what it was, or the signature was accepted up to the guard and
  -- the nonce of that very signature was presented to the guard.
  pub guard_touched :
      {g : NonceReplayGuard}
      → opts.replay_guard ≡ some g
      → ((verify_request_at env sfv parts signature_input signature opts now).0 ≡ opts)
        ⊎ ((params : SignatureParams) × (principal : Principal) × IsAccepted env sfv parts
              signature_input signature opts now params principal
            × ((verify_request_at env sfv parts signature_input signature opts now).0.replay_guard
                ≡ some (check_and_record_at g params.nonce params.expires now).0))
  guard_touched {g} present =
      elim (Result-cases (verify_signature env sfv parts signature_input signature opts now)) [
        | inr (e, failed) ↦ inl (rw (outcome_failed e failed) refl)
        | inl ((params, p), passed) ↦ inr (
          params,
          p,
          verified env sfv parts signature_input signature opts now passed,
          rw (outcome_guarded params p passed g present) refl,
        )
      ]

  request_guarded :
      {g : NonceReplayGuard} {principal : Principal}
      → opts.replay_guard ≡ some g
      → (verify_request_at env sfv parts signature_input signature opts now).1 ≡ ok principal
      → (params : SignatureParams) × IsAccepted env sfv parts signature_input signature opts now
          params principal
        × ((check_and_record_at g params.nonce params.expires now).1 ≡ ok tt)
        × ((verify_request_at env sfv parts signature_input signature opts now).0.replay_guard
            ≡ some (check_and_record_at g params.nonce params.expires now).0)
  request_guarded {g} {principal} present h =
      elim (Result-cases (verify_signature env sfv parts signature_input signature opts now)) [
        | inr (e, failed) ↦ ground (
          arith,
          h,
          ap (λ (r : VerifyOptions × Result HttpSigError Principal). r.1) (outcome_failed e failed),
        )
        | inl ((params, p), passed) ↦
            let outcome = outcome_guarded params p passed g present in
            let answer : ((check_and_record_at g params.nonce params.expires now).1 >> ok p)
                ≡ ok principal =
              sym (ap (λ (r : VerifyOptions × Result HttpSigError Principal). r.1) outcome) ∙ h in
            let (u, recorded, same) =
              >>=-eq-ok (check_and_record_at g params.nonce params.expires now).1 _ answer in
            let eq : p ≡ principal = ground arith in
            (
              params,
              rw (← eq) (verified env sfv parts signature_input signature opts now passed),
              recorded,
              rw outcome refl,
            )
      ]

  -- A request is verified for a principal exactly when its signature meets all that the profile asks
  -- for, for that principal, and the guard, if there is one, takes its nonce.
  pub request_iff :
      (principal : Principal)
      → ((verify_request_at env sfv parts signature_input signature opts now).1 ≡ ok principal) ↔ (
          (params : SignatureParams) × IsAccepted env sfv parts signature_input signature opts now
            params principal
          × PassesGuard opts.replay_guard params now)
  request_iff principal = (λ h. forward h, λ (params, a, g). backward params a g)
    where
      forward :
          (verify_request_at env sfv parts signature_input signature opts now).1 ≡ ok principal
          → (params : SignatureParams) × IsAccepted env sfv parts signature_input signature opts now
              params principal
            × PassesGuard opts.replay_guard params now
      forward h = elim (Option-cases opts.replay_guard) [
        | inr (g, present) ↦
            let (params, a, recorded, kept) = request_guarded present h in
            (params, a, rw present recorded)
        | inl absent ↦
            elim (Result-cases
              (verify_signature env sfv parts signature_input signature opts now)) [
                | inr (e, failed) ↦ ground (
                  arith,
                  h,
                  ap (λ (r : VerifyOptions × Result HttpSigError Principal). r.1)
                      (outcome_failed e failed),
                )
                | inl ((params, p), passed) ↦
                    let answer : ok p ≡ ok principal =
                      sym (
                        ap (λ (r : VerifyOptions × Result HttpSigError Principal). r.1)
                          (outcome_unguarded params p passed absent))
                      ∙ h in
                    let eq : p ≡ principal = ground arith in
                    (
                      params,
                      rw (← eq) (verified env sfv parts signature_input signature opts now passed),
                      rw absent tt,
                    )
              ]
      ]

      backward :
          (params : SignatureParams)
          → IsAccepted env sfv parts signature_input signature opts now params principal
          → PassesGuard opts.replay_guard params now
          → (verify_request_at env sfv parts signature_input signature opts now).1 ≡ ok principal
      backward params a taken =
          let passed = accepted_verifies env sfv parts signature_input signature opts now a in
          elim (Option-cases opts.replay_guard) [
            | inl absent ↦ rw (outcome_unguarded params principal passed absent) refl
            | inr (g, present) ↦
                rw (outcome_guarded params principal passed g present)
                  (rw (rw present at (taken)) refl)
          ]

module _ (env : Env) (sfv : Sfv) where
  pub same_nonce :
      {parts parts' : RequestParts} {signature_input signature signature' : Text}
      {opts opts' : VerifyOptions} {now now' : ℤ} {params params' : SignatureParams}
      {principal principal' : Principal}
      → IsAccepted env sfv parts signature_input signature opts now params principal
      → IsAccepted env sfv parts' signature_input signature' opts' now' params' principal'
      → params.nonce ≡ params'.nonce
  same_nonce a b = ground (arith, a.input_parses, b.input_parses)

  -- After a verification with a guard, no request with the same `Signature-Input` is verified with
  -- the guard as it then is, whatever the request, the signature and the clock are.
  pub replayed_request :
      (parts parts' : RequestParts) (signature_input signature signature' : Text)
      (opts : VerifyOptions) (now now' : ℤ) (g : NonceReplayGuard)
      (principal principal' : Principal)
      → opts.replay_guard ≡ some g
      → (verify_request_at env sfv parts signature_input signature opts now).1 ≡ ok principal
      → (verify_request_at env sfv parts' signature_input signature'
          (verify_request_at env sfv parts signature_input signature opts now).0
          now').1
        ≢ ok principal'
  replayed_request parts parts' signature_input signature signature' opts now now' g principal
        principal' present first =
      λ second.
        let (params, a, recorded, kept) =
          request_guarded env sfv parts signature_input signature opts now present first in
        let (params', b, recorded', kept') =
          request_guarded env sfv parts' signature_input signature' _ now' kept second in
        let same : params.nonce ≡ params'.nonce = same_nonce a b in
        honoured_once g params.nonce params'.nonce params.expires params'.expires now now' same
          recorded recorded'

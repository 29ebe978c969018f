-- ===== src/HttpSig/Verify/Accepted.antt =====
-- What an accepted request signature (src/http_sig/verify.rs) stands for.
use aqua_auth.Prelude.{
  ◌≡◌, refl, ap, ◌∙◌, List, Result, ok, >>=-eq-ok, guard, arith, map_err, guard-eq-ok,
  map_err-eq-ok,
}
use mathlib.Core.Path.{subst}
use aqua_auth.Prelude.Int.{ℤ, pos, ◌≤ℤ◌, ◌<ℤ◌, ◌-ℤ◌}
use aqua_auth.Env.{Env}
use aqua_auth.Text.{Text, Bytes, text_eq, trim}
use aqua_auth.Text.Laws.{text_eq→eq, text_eq_refl}
use aqua_auth.Challenge.{as_i64}
use aqua_auth.Did.Principal.{Principal, authenticate}
use aqua_auth.HttpSig.Errors.{HttpSigError, crypto}
use aqua_auth.HttpSig.Fields.{Sfv}
use aqua_auth.HttpSig.Base.{
  RequestParts, SignatureParams, component_signature_agent, contains_name, is_some,
  check_signature_agent_coverage, signature_input_header, build_signature_base,
}
use aqua_auth.HttpSig.Verify.{
  VerifyOptions, max_validity, saturating_add, check_tag, check_window, alg_for_did,
  parse_signature_input, parse_signature, verify_signature,
}

-- Everything that the profile asks of a request signature at the time `now`.
pub record IsAccepted (env : Env) (sfv : Sfv) (parts : RequestParts)
    (signature_input signature : Text) (opts : VerifyOptions) (now : ℤ) (params : SignatureParams)
    (principal : Principal) : Type 0 where
  pub label : Text
  pub signature_bytes : Bytes
  pub base : Text
  pub input_parses : parse_signature_input env sfv signature_input ≡ ok (label, params)
  pub signature_parses : parse_signature env sfv signature label ≡ ok signature_bytes
  pub canonical : signature_input_header sfv label params ≡ ok (trim signature_input)
  pub agent_covered :
      contains_name component_signature_agent params.covered ≡ is_some parts.signature_agent
  pub tag_expected : params.tag ≡ opts.expected_tag
  pub window_open : params.created <ℤ params.expires
  pub window_short : params.expires -ℤ params.created ≤ℤ pos max_validity
  pub not_early : params.created ≤ℤ saturating_add now (as_i64 opts.clock_skew)
  pub not_late : now <ℤ params.expires
  pub alg_of_keyid : alg_for_did env sfv params.keyid ≡ ok params.alg
  pub base_built : build_signature_base sfv parts params ≡ ok base
  pub authenticated : authenticate env params.keyid base signature_bytes ≡ ok principal

agent-eq :
    (parts : RequestParts) (covered : List Text)
    → check_signature_agent_coverage parts covered ≡ ok tt
    → contains_name component_signature_agent covered ≡ is_some parts.signature_agent
unfolding check_signature_agent_coverage
agent-eq parts covered h = ground arith

window-eq :
    (params : SignatureParams) (opts : VerifyOptions) (now : ℤ)
    → check_window params opts now ≡ ok tt
    → (params.created <ℤ params.expires)
      × (params.expires -ℤ params.created ≤ℤ pos max_validity)
      × (params.created ≤ℤ saturating_add now (as_i64 opts.clock_skew))
      × (now <ℤ params.expires)
unfolding check_window
window-eq params opts now h = ground arith

tag-ok :
    (params : SignatureParams) (opts : VerifyOptions)
    → params.tag ≡ opts.expected_tag
    → check_tag params opts ≡ ok tt
unfolding check_tag
tag-ok params opts h = ground (arith, h, text_eq_refl opts.expected_tag)

agent-ok :
    (parts : RequestParts) (covered : List Text)
    → contains_name component_signature_agent covered ≡ is_some parts.signature_agent
    → check_signature_agent_coverage parts covered ≡ ok tt
unfolding check_signature_agent_coverage
agent-ok parts covered h = ground arith

window-ok :
    (params : SignatureParams) (opts : VerifyOptions) (now : ℤ)
    → params.created <ℤ params.expires
    → params.expires -ℤ params.created ≤ℤ pos max_validity
    → params.created ≤ℤ saturating_add now (as_i64 opts.clock_skew)
    → now <ℤ params.expires
    → check_window params opts now ≡ ok tt
unfolding check_window
window-ok params opts now h1 h2 h3 h4 = ground arith

module _ (env : Env) (sfv : Sfv) (parts : RequestParts) (signature_input signature : Text)
    (opts : VerifyOptions) (now : ℤ) where
  checked :
      {r : SignatureParams × Principal}
      → verify_signature env sfv parts signature_input signature opts now ≡ ok r
      → (q : SignatureParams × Principal) × IsAccepted env sfv parts signature_input signature opts
          now q.0 q.1
        × (◌≡◌ {A = Result HttpSigError (SignatureParams × Principal)} (ok q) (ok r))
  unfolding verify_signature check_tag
  checked h =
      let ((label, params), parses, h1) =
        >>=-eq-ok (parse_signature_input env sfv signature_input) _ h in
      let (bytes, sig, h2) = >>=-eq-ok (parse_signature env sfv signature label) _ h1 in
      let (u, agent, h3) = >>=-eq-ok (check_signature_agent_coverage parts params.covered) _ h2 in
      let (v, tagged, h4) = >>=-eq-ok (check_tag params opts) _ h3 in
      let (w, window, h5) = >>=-eq-ok (check_window params opts now) _ h4 in
      let (alg, alg_ok, h6) = >>=-eq-ok (alg_for_did env sfv params.keyid) _ h5 in
      let (x, same_alg, h7) = >>=-eq-ok (guard (text_eq alg params.alg) _) _ h6 in
      let (c, written, h8) = >>=-eq-ok (signature_input_header sfv label params) _ h7 in
      let (y, canon, h9) = >>=-eq-ok (guard (text_eq c (trim signature_input)) _) _ h8 in
      let (b, built, h10) = >>=-eq-ok (build_signature_base sfv parts params) _ h9 in
      let (p, auth, h11) =
        >>=-eq-ok (map_err crypto (authenticate env params.keyid b bytes)) _ h10 in
      let (created_before, short, early, late) = window-eq params opts now window in
      (
        (params, p),
        record {
          label = label;
          signature_bytes = bytes;
          base = b;
          input_parses = parses;
          signature_parses = sig;
          canonical = written ∙ ap ok (text_eq→eq c (trim signature_input) (guard-eq-ok _ _ canon));
          agent_covered = agent-eq parts params.covered agent;
          tag_expected = text_eq→eq params.tag opts.expected_tag (guard-eq-ok _ _ tagged);
          window_open = created_before;
          window_short = short;
          not_early = early;
          not_late = late;
          alg_of_keyid = alg_ok ∙ ap ok (text_eq→eq alg params.alg (guard-eq-ok _ _ same_alg));
          base_built = built;
          authenticated = map_err-eq-ok crypto _ auth;
        },
        h11,
      )

  pub verified :
      {params : SignatureParams} {principal : Principal}
      → verify_signature env sfv parts signature_input signature opts now ≡ ok (params, principal)
      → IsAccepted env sfv parts signature_input signature opts now params principal
  verified {params} {principal} h =
      let (q, accepted, same) = checked h in
      let eq : q ≡ (params, principal) = ground arith in
      subst
        (λ (x : SignatureParams × Principal).
          IsAccepted env sfv parts signature_input signature opts now x.0 x.1)
        eq accepted

  pub accepted_verifies :
      {params : SignatureParams} {principal : Principal}
      → IsAccepted env sfv parts signature_input signature opts now params principal
      → verify_signature env sfv parts signature_input signature opts now ≡ ok (params, principal)
  unfolding verify_signature
  accepted_verifies {params} {principal} a =
      rw
        (
          a.input_parses,
          a.signature_parses,
          agent-ok parts params.covered a.agent_covered,
          tag-ok params opts a.tag_expected,
          window-ok params opts now a.window_open a.window_short a.not_early a.not_late,
          a.alg_of_keyid,
          text_eq_refl params.alg,
          a.canonical,
          text_eq_refl (trim signature_input),
          a.base_built,
          a.authenticated,
        )
        refl

-- ===== src/Conformance/Refusals.antt =====
-- The reference server of aqua-auth-testkit/src/lib.rs under the cases of the conformance suite that
-- expect a DID to be refused.
use aqua_auth.Prelude.{
  ℕ, suc, ◌≡◌, refl, ap, inl, inr, Bool, true, List, [], ◌∷◌, ◌++◌, some, ok, err, All,
  Option-cases, arith, length, ◌+◌,
}
use aqua_auth.Env.{Env}
use aqua_auth.Text.{Text, Bytes, codes, starts_with, text_eq, strip_prefix, split}
use aqua_auth.Errors.{CryptoError, unsupported_method}
use aqua_auth.Message.{Chrono}
use aqua_auth.Did.Parse.{parse_did_namespace}
use aqua_auth.Did.Method.{find_did_method}
use aqua_auth.Did.Format.{validate_did_well_formed, validate_for, validate_pkh}
use aqua_auth.Challenge
use aqua_auth.WebAuthn.Web.{Web}
use aqua_auth.Peer.{PeerState, Readings, bad_request, challenge_handler}
use aqua_auth.Conformance.{Target, pass, fetch_challenge, is_success}
use aqua_auth.Conformance.Refused.{
  at_challenge, is_refused, verdict_if, Draws, malformed_dids, refused_at_either_endpoint,
  spec_7_4_unsupported_namespace_refused, all_refused, spec_7_5_did_well_formed,
}
use aqua_auth.Conformance.Reference.{reference, challenge_response, status_code}

-- The format check refuses a DID.
pub record IsMalformed (env : Env) (did : Text) : Type 0 where
  pub error : CryptoError
  pub refused : validate_did_well_formed env did ≡ err error

module _ (env : Env) {T : Type 0} (chrono : Chrono T) where
  -- no challenge is issued to a malformed DID, and the server stays as it is
  challenge-malformed :
      (s : PeerState) (did : Text) (r : Readings T)
      → IsMalformed env did
      → challenge_handler env chrono s (some did) r ≡ (s, err bad_request)
  unfolding challenge_handler Challenge.create
  challenge-malformed s did r bad = elim (Option-cases (find_did_method env did)) [
    | inl e ↦ rw (e, challenge_handler) refl
    | inr (method, e) ↦ rw (e, challenge_handler, Challenge.create, bad.refused) refl
  ]

module _ (env : Env) {T : Type 0} (chrono : Chrono T) (readings : ℕ → Readings T) (target : Target)
    (web : Web) where
  malformed_early :
      (did : Text) (random : Bytes) (w : PeerState × ℕ)
      → IsMalformed env did
      → refused_at_either_endpoint env web (reference env chrono readings) target did random w
        ≡ ((w.0, suc w.1), ok at_challenge)
  unfolding refused_at_either_endpoint fetch_challenge reference challenge_response status_code
      is_success
  malformed_early did random w bad =
      rw
        (
          refused_at_either_endpoint,
          fetch_challenge,
          reference,
          challenge-malformed env chrono w.0 did (readings w.1) bad,
        )
        refl

  probes_early :
      (random : Text → Bytes) (dids : List Text) (w : PeerState × ℕ)
      → All (IsMalformed env) dids
      → all_refused env web (reference env chrono readings) target random dids w
        ≡ ((w.0, w.1 + length dids), true)
  unfolding all_refused is_refused
  probes_early random [] w bad = ap (λ n. ((w.0, n), true)) (omega arith)
  probes_early random (did ∷ dids) w bad =
      rw (malformed_early did (random did) w bad.0, probes_early random dids (w.0, suc w.1) bad.1)
        (ap (λ n. ((w.0, n), true)) (omega arith))

  -- The reference server passes the case of malformed DIDs and keeps its state, whatever is drawn, if
  -- the format check refuses each DID of the table.
  pub malformed_dids_conform :
      (draws : Draws) (random : Text → Bytes) (w : PeerState × ℕ)
      → All (IsMalformed env) (malformed_dids env draws)
      → spec_7_5_did_well_formed env web (reference env chrono readings) target draws random w
        ≡ ((w.0, w.1 + 7), pass)
  unfolding spec_7_5_did_well_formed verdict_if malformed_dids
  malformed_dids_conform draws random w bad =
      ap (λ (x : (PeerState × ℕ) × Bool). (x.0, verdict_if x.1))
        (probes_early random (malformed_dids env draws) w bad)

  solana-IsMalformed : (key : Text) → IsMalformed env (codes "did:pkh:solana:0x" ++ key)
  unfolding validate_did_well_formed find_did_method validate_for validate_pkh parse_did_namespace
      strip_prefix split starts_with text_eq
  solana-IsMalformed key = record { error = unsupported_method (codes "solana"); refused = refl }

  -- The reference server passes the case of the unsupported namespace with one request, whatever is
  -- drawn, and keeps its state.
  pub solana_conforms :
      (key random : Bytes) (w : PeerState × ℕ)
      → spec_7_4_unsupported_namespace_refused env web
          (reference env chrono readings)
          target
          key
          random
          w
        ≡ ((w.0, suc w.1), pass)
  unfolding spec_7_4_unsupported_namespace_refused is_refused verdict_if
  solana_conforms key random w =
      rw
        (malformed_early (codes "did:pkh:solana:0x" ++ env.hex_encode key) random w
          (solana-IsMalformed (env.hex_encode key)))
        refl

-- ===== src/Peer/Signed.antt =====
-- What `sig_whoami_handler` (aqua-auth-testkit/src/lib.rs) answers to a signed request, and to the
-- same request again.
use aqua_auth.Prelude.{
  ◌≡◌, ◌≢◌, refl, ap, sym, ◌∙◌, ◌↔◌, inl, inr, Option, some, Result, ok, err, ◌>>=◌, ◌>>◌, ok_or,
  map_err, arith, Result-cases, >>=-eq-ok, ok_or-eq-ok, ok-inj,
}
use aqua_auth.Env.{Env}
use aqua_auth.Text.{Text, Bytes, codes}
use aqua_auth.Did.Principal.{Principal}
use aqua_auth.HttpSig.Errors.{HttpSigError}
use aqua_auth.HttpSig.Fields.{Sfv}
use aqua_auth.HttpSig.Base.{RequestParts, SignatureParams}
use aqua_auth.HttpSig.Replay.{NonceReplayGuard, check_and_record_at}
use aqua_auth.HttpSig.Verify.{VerifyOptions, verify_signature}
use aqua_auth.HttpSig.Verify.Accepted.{IsAccepted, verified, accepted_verifies}
use aqua_auth.HttpSig.Verify.Options.{aqua_internal, with_replay_guard}
use aqua_auth.HttpSig.Verify.Request.{outcome_failed, outcome_guarded, honoured_once, same_nonce}
use aqua_auth.Peer.{
  PeerState, Readings, Status, Received, bad_request, unauthorized, header_str, host_of,
  received_parts, signed_parts, guard_after, sig_whoami_handler,
}

-- an answer says that the guard took the nonce
taken :
    (check : Result HttpSigError (Unit {0})) (p : Principal) {did : Text}
    → (map_err (λ (e : HttpSigError). unauthorized) (check >> ok p)
        >>= (λ (principal : Principal). ok principal.did))
      ≡ ok did
    → (check ≡ ok tt) × (p ≡ record { did = did })
taken (ok u) p h = (refl, ap (λ (d : Text). record { did = d }) (ok-inj h))
taken (err e) p h = cc

module _ (env : Env) (sfv : Sfv) (to_str : Bytes → Option Text) {T : Type 0} (s : PeerState)
    (request : Received) (r : Readings T) where
  -- the policy of the handler: the Aqua profile, with the guard of the state
  abbrev policy : VerifyOptions
  policy = with_replay_guard aqua_internal s.replay_guard

  -- The parts that the request was received with: a host, the two headers, and the rest.
  pub record IsReceived (parts : RequestParts) (signature_input signature : Text) : Type 0 where
    pub host : Text
    pub host_named : host_of to_str request ≡ some host
    pub input_named :
        header_str to_str request.headers (codes "signature-input") ≡ some signature_input
    pub signature_named : header_str to_str request.headers (codes "signature") ≡ some signature
    pub parts_are : parts ≡ received_parts to_str s request host

  -- What an answer for a DID stands for: the signature meets all that the profile asks for, on the
  -- parts of the request as it was received, and the guard takes its nonce and remembers it.
  pub record IsSigned (did : Text) : Type 0 where
    pub parts : RequestParts
    pub signature_input : Text
    pub signature : Text
    pub params : SignatureParams
    pub received : IsReceived parts signature_input signature
    pub accepted :
        IsAccepted env sfv parts signature_input signature policy r.verified params
          (record { did = did })
    pub unseen :
        (check_and_record_at s.replay_guard params.nonce params.expires r.verified).1 ≡ ok tt
    pub remembered :
        (sig_whoami_handler to_str env sfv s request r).0.replay_guard
        ≡ (check_and_record_at s.replay_guard params.nonce params.expires r.verified).0

  named-IsReceived :
      {parts : RequestParts} {signature_input signature : Text}
      → signed_parts to_str s request ≡ ok (parts, signature_input, signature)
      → IsReceived parts signature_input signature
  unfolding signed_parts
  named-IsReceived named =
      let (host, host_named, h1) = >>=-eq-ok (ok_or (host_of to_str request) bad_request) _ named in
      let (input, input_named, h2) =
        >>=-eq-ok (ok_or (header_str to_str request.headers (codes "signature-input")) unauthorized)
          _ h1 in
      let (sig, signature_named, h3) =
        >>=-eq-ok (ok_or (header_str to_str request.headers (codes "signature")) unauthorized) _
          h2 in
      let same = ok-inj h3 in
      record {
        host = host;
        host_named = ok_or-eq-ok _ _ host_named;
        input_named =
            ok_or-eq-ok _ _ input_named ∙ ap (λ (x : RequestParts × Text × Text). some x.1) same;
        signature_named =
            ok_or-eq-ok _ _ signature_named
            ∙ ap (λ (x : RequestParts × Text × Text). some x.2) same;
        parts_are = sym (ap (λ (x : RequestParts × Text × Text). x.0) same);
      }

  received_named :
      {parts : RequestParts} {signature_input signature : Text}
      → IsReceived parts signature_input signature
      → signed_parts to_str s request ≡ ok (parts, signature_input, signature)
  unfolding signed_parts
  received_named n =
      rw (signed_parts, n.host_named, n.input_named, n.signature_named, n.parts_are) refl

  answered_refused :
      (parts : RequestParts) (signature_input signature : Text) (e : HttpSigError)
      → signed_parts to_str s request ≡ ok (parts, signature_input, signature)
      → verify_signature env sfv parts signature_input signature policy r.verified ≡ err e
      → sig_whoami_handler to_str env sfv s request r ≡ (s, err unauthorized)
  unfolding sig_whoami_handler guard_after
  answered_refused parts signature_input signature e named failed =
      rw
        (
          sig_whoami_handler,
          named,
          outcome_failed env sfv parts signature_input signature policy r.verified e failed,
        )
        refl

  answered_signed :
      (parts : RequestParts) (signature_input signature : Text) (params : SignatureParams)
      (p : Principal)
      → signed_parts to_str s request ≡ ok (parts, signature_input, signature)
      → verify_signature env sfv parts signature_input signature policy r.verified ≡ ok (params, p)
      → sig_whoami_handler to_str env sfv s request r ≡ (
        record s {
          replay_guard =
              (check_and_record_at s.replay_guard params.nonce params.expires r.verified).0;
        },
        map_err
              (λ (e : HttpSigError). unauthorized)
              ((check_and_record_at s.replay_guard params.nonce params.expires r.verified).1
                >> ok p)
            >>= (λ (principal : Principal). ok principal.did),
      )
  unfolding sig_whoami_handler guard_after
  answered_signed parts signature_input signature params p named passed =
      rw
        (
          sig_whoami_handler,
          named,
          outcome_guarded env sfv parts signature_input signature policy r.verified params p passed
              s.replay_guard refl,
        )
        refl

  abbrev answer : PeerState × Result Status Text → Result Status Text
  answer outcome = outcome.1

  abbrev guard_of : PeerState × Result Status Text → NonceReplayGuard
  guard_of outcome = outcome.0.replay_guard

  unnamed_refused :
      (status : Status)
      → signed_parts to_str s request ≡ err status
      → sig_whoami_handler to_str env sfv s request r ≡ (s, err status)
  unfolding sig_whoami_handler
  unnamed_refused status missing = rw (sig_whoami_handler, missing) refl

  answered-IsSigned :
      {did : Text} → (sig_whoami_handler to_str env sfv s request r).1 ≡ ok did → IsSigned did
  answered-IsSigned {did = did} h = elim (Result-cases (signed_parts to_str s request)) [
    | inr (status, missing) ↦ absurd (ground (arith, h, ap answer (unnamed_refused status missing)))
    | inl ((parts, signature_input, signature), named) ↦
        elim (Result-cases
          (verify_signature env sfv parts signature_input signature policy r.verified)) [
            | inr (e, failed) ↦
                let refused = answered_refused parts signature_input signature e named failed in
                absurd (ground (arith, h, ap answer refused))
            | inl ((params, p), passed) ↦
                let outcome =
                  answered_signed parts signature_input signature params p named passed in
                let (recorded, same) =
                  taken
                    (check_and_record_at s.replay_guard params.nonce params.expires r.verified).1 p
                    (sym (ap answer outcome) ∙ h) in
                record {
                  parts = parts;
                  signature_input = signature_input;
                  signature = signature;
                  params = params;
                  received = named-IsReceived named;
                  accepted =
                      rw (← same)
                        (verified env sfv parts signature_input signature policy r.verified passed);
                  unseen = recorded;
                  remembered = ap guard_of outcome;
                }
          ]
  ]

  IsSigned-answered :
      {did : Text} → IsSigned did → (sig_whoami_handler to_str env sfv s request r).1 ≡ ok did
  IsSigned-answered {did = did} i =
      let passed =
        accepted_verifies env sfv i.parts i.signature_input i.signature policy r.verified
          i.accepted in
      ap answer (
        answered_signed i.parts i.signature_input i.signature i.params (record { did = did })
          (received_named i.received) passed)
      ∙ rw i.unseen refl

  -- A signed request is answered with a DID exactly when it has a host and the two headers, its
  -- signature meets all that the Aqua profile asks for on the parts of the request as they were
  -- received, for the principal of that DID, and the guard takes the nonce of the signature, which
  -- it then remembers.
  pub sig_whoami_handler-IsSigned :
      (did : Text) → ((sig_whoami_handler to_str env sfv s request r).1 ≡ ok did) ↔ IsSigned did
  sig_whoami_handler-IsSigned did = (λ h. answered-IsSigned h, λ i. IsSigned-answered i)

module _ (env : Env) (sfv : Sfv) (to_str : Bytes → Option Text) {T : Type 0} where
  -- After an answer with a DID, no request with the same `Signature-Input` is answered with a DID by
  -- the state that the first one left, whatever its method, path, host and signature are, and
  -- whenever it comes.
  pub resent_refused :
      (s : PeerState) (request again : Received) (r r' : Readings T) (did did' : Text)
      → header_str to_str again.headers (codes "signature-input")
        ≡ header_str to_str request.headers (codes "signature-input")
      → (sig_whoami_handler to_str env sfv s request r).1 ≡ ok did
      → (sig_whoami_handler to_str env sfv
          (sig_whoami_handler to_str env sfv s request r).0
          again
          r').1
        ≢ ok did'
  resent_refused s request again r r' did did' same first = λ second.
      let s' = (sig_whoami_handler to_str env sfv s request r).0 in
      let i = answered-IsSigned env sfv to_str s request r first in
      let j = answered-IsSigned env sfv to_str s' again r' second in
      let input : j.signature_input ≡ i.signature_input =
        ground (arith, j.received.input_named, i.received.input_named, same) in
      let nonce = same_nonce env sfv i.accepted (rw input at (j.accepted)) in
      honoured_once s.replay_guard i.params.nonce j.params.nonce i.params.expires j.params.expires
        r.verified r'.verified nonce i.unseen (rw i.remembered at (j.unseen))

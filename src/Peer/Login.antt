-- ===== src/Peer/Login.antt =====
-- What `session_handler` (aqua-auth-testkit/src/lib.rs) answers, and why.
use aqua_auth.Prelude.{
  ◌≤◌, ◌<◌, ◌≡◌, refl, ap, sym, ◌∙◌, ◌↔◌, ◌⊎◌, inl, inr, Option, none, some, Result, ok, err, ◌>>=◌,
  map_err, arith, leb, Option-cases, Result-cases, Bool-cases, >>=-eq-ok, >>=-eq-err, map_err-eq-ok,
  map_err-eq-err, ok-inj,
}
use aqua_auth.Env.{Env}
use aqua_auth.Errors.{AuthError, session_store_full}
use aqua_auth.Text.{Text, Bytes}
use aqua_auth.Table.{get}
use aqua_auth.Challenge.{Challenge}
use aqua_auth.Session.Backend.{Session}
use aqua_auth.Session.InMemory.{in_memory}
use aqua_auth.Session.InMemory.Laws.{in_memory_laws, in_memory-insert_ok}
use aqua_auth.Session.Store
use aqua_auth.Session.Lifetime.{create_full_iff}
use aqua_auth.Client.{SessionRequest, SessionResponse}
use aqua_auth.Peer.{
  PeerState, Readings, Status, not_found, unauthorized, service_unavailable, proven, response_of,
  open_session, session_handler,
}
use aqua_auth.Peer.Handled.{
  IsProof, spent, proven-IsProof, proof_proven, proven-err, handled_unknown, handled_late,
  handled_refused, handled_proven,
}

module _ (env : Env) {T : Type 0} (s : PeerState) (request : SessionRequest) (r : Readings T) where
  -- The session that the store creates for a DID at these readings.
  abbrev pub session_for_did : Text → Result AuthError Session
  session_for_did did =
      (Store.create in_memory env s.limits did r.token_bytes r.sessions_swept r.created
        s.sessions).1

  -- the nonce is that of a pending challenge, in time, and the request proves the DID for it
  pub record IsProven : Type 0 where
    pub stored : Challenge
    pub pending : get request.nonce s.challenges.challenges ≡ some stored
    pub in_time : r.presented < stored.expires_at
    pub signature : Bytes
    pub public_key : Option Bytes
    pub proof : IsProof env stored request signature public_key

  -- what a session stands for
  pub record IsLogin (response : SessionResponse) : Type 0 where
    pub proven : IsProven
    pub session : Session
    pub created : session_for_did request.did ≡ ok session
    pub answered : response ≡ response_of session

  -- what the handler comes down to
  handled-cases :
      ((get request.nonce s.challenges.challenges ≡ none)
        × (session_handler env s request r ≡ (s, err not_found)))
      ⊎ (session_handler env s request r ≡ (spent s request.nonce, err unauthorized))
      ⊎ (IsProven
          × (session_handler env s request r
              ≡ open_session env (spent s request.nonce) (record { did = request.did }) r))
  handled-cases = elim (Option-cases (get request.nonce s.challenges.challenges)) [
    | inl absent ↦ inl (absent, handled_unknown env s request r absent)
    | inr (stored, pending) ↦ elim (Bool-cases (leb stored.expires_at r.presented)) [
      | inl late ↦ inr (inl (handled_late env s request r stored pending (ground arith)))
      | inr early ↦
          let live : r.presented < stored.expires_at = ground arith in
          elim (Result-cases (proven env stored request)) [
            | inr (status, refused) ↦
                let same = proven-err env stored request refused in
                inr (
                  inl (
                    handled_refused env s request r stored pending live
                      (refused ∙ ap (λ (x : Status). err x) same)))
            | inl (principal, accepted) ↦
                let (named, signature, public_key, proof) =
                  proven-IsProof env stored request accepted in
                inr (
                  inr (
                    record {
                      stored = stored;
                      pending = pending;
                      in_time = live;
                      signature = signature;
                      public_key = public_key;
                      proof = proof;
                    },
                    handled_proven env s request r stored pending (record { did = request.did })
                        live (proof_proven env stored request signature public_key proof),
                  ))
          ]
    ]
  ]

  pub handled_with_proof :
      IsProven
      → session_handler env s request r
        ≡ open_session env (spent s request.nonce) (record { did = request.did }) r
  handled_with_proof p =
      handled_proven env s request r p.stored p.pending (record { did = request.did }) p.in_time
        (proof_proven env p.stored request p.signature p.public_key p.proof)

  abbrev answer : PeerState × Result Status SessionResponse → Result Status SessionResponse
  answer outcome = outcome.1

  pub open_session-answer :
      (open_session env (spent s request.nonce) (record { did = request.did }) r).1 ≡ (
        map_err (λ e. service_unavailable) (session_for_did request.did)
        >>= (λ session. ok (response_of session)))
  unfolding open_session
  open_session-answer = refl

  -- A request is answered with a session exactly when its nonce is that of a pending challenge, in
  -- time, the challenge was issued to the DID of the request, the signature that the request carries
  -- is accepted for that DID on the message of that very challenge, and the session store creates the
  -- session for that DID that the answer gives.
  pub session_handler-IsLogin :
      (response : SessionResponse)
      → ((session_handler env s request r).1 ≡ ok response) ↔ IsLogin response
  session_handler-IsLogin response = (forward, backward)
    where
      forward : (session_handler env s request r).1 ≡ ok response → IsLogin response
      forward h = elim handled-cases [
        | inl (absent, same) ↦ absurd (ground (arith, h, ap answer same))
        | inr (inl same) ↦ absurd (ground (arith, h, ap answer same))
        | inr (inr (p, same)) ↦
            let (session, created, rest) =
              >>=-eq-ok (map_err (λ e. service_unavailable) (session_for_did request.did)) _
                (sym open_session-answer ∙ sym (ap answer same) ∙ h) in
            record {
              proven = p;
              session = session;
              created = map_err-eq-ok _ _ created;
              answered = sym (ok-inj rest);
            }
      ]

      backward : IsLogin response → (session_handler env s request r).1 ≡ ok response
      backward l =
          ap answer (handled_with_proof l.proven)
          ∙ open_session-answer
          ∙ rw (l.created) (ap (λ (x : SessionResponse). ok x) (sym l.answered))

  -- The two errors that are not 401: 404 exactly when no challenge with the nonce is pending, and 503
  -- exactly when the request is proven but the unexpired sessions fill the store.
  pub session_handler_refuses :
      (((session_handler env s request r).1 ≡ err not_found)
        ↔ (get request.nonce s.challenges.challenges ≡ none))
      × (((session_handler env s request r).1 ≡ err service_unavailable) ↔ (
          IsProven
          × (s.limits.max_sessions
              ≤ in_memory.len (in_memory.purge_expired r.sessions_swept s.sessions).0)))
  session_handler_refuses =
      ((missing, λ absent. ap answer (handled_unknown env s request r absent)), (full, refused))
    where
      full_store :
          (e : AuthError)
          → session_for_did request.did ≡ err e
          → s.limits.max_sessions
            ≤ in_memory.len (in_memory.purge_expired r.sessions_swept s.sessions).0
      full_store e h =
          ((create_full_iff in_memory in_memory_laws env s.limits request.did r.token_bytes
              r.sessions_swept r.created s.sessions in_memory-insert_ok e).0
            h).1

      opened_err :
          {status : Status}
          → (session_handler env s request r).1 ≡ err status
          → session_handler env s request r
            ≡ open_session env (spent s request.nonce) (record { did = request.did }) r
          → (status ≡ service_unavailable)
            × (s.limits.max_sessions
                ≤ in_memory.len (in_memory.purge_expired r.sessions_swept s.sessions).0)
      opened_err h same =
          elim (>>=-eq-err (map_err (λ e. service_unavailable) (session_for_did request.did)) _
            (sym open_session-answer ∙ sym (ap answer same) ∙ h)) [
              | inl failed ↦
                  let (e, cause, status_is) = map_err-eq-err _ _ failed in
                  (status_is, full_store e cause)
              | inr (session, created, rest) ↦ absurd (ground (arith, rest))
            ]

      missing :
          (session_handler env s request r).1 ≡ err not_found
          → get request.nonce s.challenges.challenges ≡ none
      missing h = elim handled-cases [
        | inl (absent, same) ↦ absent
        | inr (inl same) ↦ absurd (ground (arith, h, ap answer same))
        | inr (inr (p, same)) ↦ absurd (ground (arith, (opened_err h same).0))
      ]

      full :
          (session_handler env s request r).1 ≡ err service_unavailable
          → IsProven
            × (s.limits.max_sessions
                ≤ in_memory.len (in_memory.purge_expired r.sessions_swept s.sessions).0)
      full h = elim handled-cases [
        | inl (absent, same) ↦ absurd (ground (arith, h, ap answer same))
        | inr (inl same) ↦ absurd (ground (arith, h, ap answer same))
        | inr (inr (p, same)) ↦ (p, (opened_err h same).1)
      ]

      refused :
          IsProven
            × (s.limits.max_sessions
                ≤ in_memory.len (in_memory.purge_expired r.sessions_swept s.sessions).0)
          → (session_handler env s request r).1 ≡ err service_unavailable
      refused (p, filled) =
          let failed =
            (create_full_iff in_memory in_memory_laws env s.limits request.did r.token_bytes
                r.sessions_swept r.created s.sessions in_memory-insert_ok
                (session_store_full s.limits.max_sessions)).1
              (refl, filled) in
          ap answer (handled_with_proof p) ∙ open_session-answer ∙ rw failed refl

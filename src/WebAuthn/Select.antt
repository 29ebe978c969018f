-- ===== src/WebAuthn/Select.antt =====
-- src/webauthn_select.rs: which of the two recovered keys logs in.
pub mod Proven
pub mod Canonical
use aqua_auth.Prelude.{
  ℕ, zero, suc, Bool, true, false, not, ◌||◌, List, [], ◌∷◌, Option, none, some, Result, ok, err,
  ◌>>=◌, ◌>>◌, ok_or, if◌then◌else◌, keep, any, map_err,
}
use aqua_auth.Env.{Env}
use aqua_auth.Errors.{CryptoError, DidFault, invalid_did, not_spki, not_a_hint}
use aqua_auth.Text.{Text, Bytes, text_eq}
use aqua_auth.Did.Key.{p256_pubkey_from_did_key}
use aqua_auth.Did.Principal.{Principal, from_proven_did_key}
use aqua_auth.WebAuthn.Web.{Web}
use aqua_auth.WebAuthn.Recover.{RecoveredAssertion, candidate_dids, did_key_of}

-- `DidHint(String)`
pub record DidHint : Type 0 where
  pub as_str : Text

pub data SelectedBy : Type 0 where
  hint known_principal intersection : SelectedBy

pub data SelectionError : Type 0 where
  credential_mismatch no_common_candidate ambiguous : SelectionError

pub record PendingRecovery : Type 0 where
  pub candidates : DidHint × DidHint
  pub credential_id : Bytes

pub data Selection : Type 0 where
  selected : Principal → SelectedBy → Selection
  need_second_assertion : PendingRecovery → Selection

-- `DidHint(did)`
abbrev pub hint_of : Text → DidHint
hint_of did = record { as_str = did }

-- the index of the single `true`, if exactly one is set
unfoldable pub the_only : Bool × Bool → Option ℕ
the_only (true, false) = some 0
the_only (false, true) = some 1
the_only (true, true) = none
the_only (false, false) = none

-- `dids[i]`, for an index of `the_only`
unfoldable pub did_at : Text × Text → ℕ → Text
did_at dids zero = dids.0
did_at dids (suc i) = dids.1

-- whether one of the hints is the DID
unfoldable pub is_hinted : List DidHint → Text → Bool
is_hinted hints did = any (λ h. text_eq h.as_str did) hints

-- `common` as far as it is taken: none, one or more
unfoldable pub the_common : List DidHint → Result SelectionError Principal
the_common [] = err no_common_candidate
the_common (one ∷ []) = ok (from_proven_did_key one.as_str)
the_common (one ∷ two ∷ rest) = err ambiguous

-- `theirs.iter().any(|t| t == c.as_str())`
unfoldable pub is_theirs : Text × Text → DidHint → Bool
is_theirs theirs c = text_eq theirs.0 c.as_str || text_eq theirs.1 c.as_str

module _ (env : Env) where
  -- `DidHint::parse`
  unfoldable pub parse : Text → Option DidHint
  parse s = elim (p256_pubkey_from_did_key env s) [
    | err e ↦ none
    | ok point ↦ if text_eq (did_key_of env point) s then some (hint_of s) else none
  ]

  unfoldable pub from_spki_der : Web → Bytes → Result CryptoError DidHint
  from_spki_der web spki = do
    point ← ok_or (web.p256_from_spki spki) (invalid_did not_spki)
    ok (hint_of (did_key_of env point))

  unfoldable pub try_from : Text → Result CryptoError DidHint
  try_from s = ok_or (parse s) (invalid_did (not_a_hint s))

  unfoldable pub pick : RecoveredAssertion → ℕ → SelectedBy → Selection
  pick a i by = selected (from_proven_did_key (did_at (candidate_dids env a) i)) by

  unfoldable pub pending_recovery : RecoveredAssertion → PendingRecovery
  pending_recovery a =
      let dids = candidate_dids env a in
      record { candidates = (hint_of dids.0, hint_of dids.1); credential_id = a.credential_id }

  unfoldable pub select : RecoveredAssertion → List DidHint → Bool × Bool → Selection
  unfolding pick pending_recovery
  select a hints known =
      let dids = candidate_dids env a in
      elim (the_only (is_hinted hints dids.0, is_hinted hints dids.1)) [
        | some i ↦ pick a i SelectedBy.hint
        | none ↦ elim (the_only known) [
          | some i ↦ pick a i known_principal
          | none ↦ need_second_assertion (pending_recovery a)
        ]
      ]

  unfoldable pub resolve : PendingRecovery → RecoveredAssertion → Result SelectionError Principal
  resolve p second =
      let theirs = candidate_dids env second in
      if text_eq second.credential_id p.credential_id
      then the_common (keep (is_theirs theirs) (p.candidates.0 ∷ p.candidates.1 ∷ []))
      else err credential_mismatch

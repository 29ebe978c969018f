-- ===== src/WebAuthn/Select/Proven.antt =====
-- Which keys the selection of src/webauthn_select.rs can log in.
use aqua_auth.Prelude.{
  ℕ, zero, suc, ◌≡◌, ◌↔◌, ◌⊎◌, inl, inr, refl, sym, ap, ◌∙◌, Bool, true, false, List, ◌∷◌, Option,
  none, some, ok, arith, Bool-cases, Option-cases, ok-inj,
}
use aqua_auth.Env.{Env}
use aqua_auth.Text.{Text, text_eq}
use aqua_auth.Text.Laws.{text_eq→eq, text_eq_refl, text_eq_iff, ne→text_eq}
use aqua_auth.Did.Principal.{Principal, from_proven_did_key}
use aqua_auth.WebAuthn.Recover.{RecoveredAssertion, candidate_dids}
use aqua_auth.WebAuthn.Select.{
  DidHint, hint_of, SelectedBy, PendingRecovery, Selection, selected, need_second_assertion,
  the_only, did_at, is_hinted, the_common, is_theirs, pick, pending_recovery, select, resolve,
}

-- One of two DIDs
abbrev pub IsOneOf : Text × Text → Text → Type 0
IsOneOf dids did = (dids.0 ≡ did) ⊎ (dids.1 ≡ did)

-- `one` is in `theirs`, and `other` is not
abbrev pub IsOnly : Text × Text → Text → Text → Type 0
IsOnly theirs one other = IsOneOf theirs one × ¬ IsOneOf theirs other

is_theirs→IsOneOf :
    (theirs : Text × Text) (did : Text) → is_theirs theirs (hint_of did) ≡ true → IsOneOf theirs did
unfolding is_theirs
is_theirs→IsOneOf theirs did h = elim (Bool-cases (text_eq theirs.0 did)) [
  | inl e ↦ inl (text_eq→eq _ _ e)
  | inr e ↦ inr (text_eq→eq _ _ (ground (arith, e, h)))
]

IsOneOf→is_theirs :
    (theirs : Text × Text) (did : Text) → IsOneOf theirs did → is_theirs theirs (hint_of did) ≡ true
unfolding is_theirs
IsOneOf→is_theirs theirs did (inl e) = rw (is_theirs, e, text_eq_refl did) refl
IsOneOf→is_theirs theirs did (inr e) =
    let yes : text_eq theirs.1 did ≡ true = rw (e, text_eq_refl did) refl in ground (arith, yes)

not_IsOneOf :
    (theirs : Text × Text) (did : Text)
    → is_theirs theirs (hint_of did) ≡ false
    → ¬ IsOneOf theirs did
not_IsOneOf theirs did h = λ i. ground (arith, h, IsOneOf→is_theirs theirs did i)

not_theirs :
    (theirs : Text × Text) (did : Text)
    → ¬ IsOneOf theirs did
    → is_theirs theirs (hint_of did) ≡ false
not_theirs theirs did refuted = elim (Bool-cases (is_theirs theirs (hint_of did))) [
  | inl e ↦ absurd (refuted (is_theirs→IsOneOf theirs did e))
  | inr e ↦ e
]

-- the principal that is selected
abbrev principal_of : Selection → Option Principal
principal_of (selected p by) = some p
principal_of (need_second_assertion pending) = none

abbrev pending_of : Selection → Option PendingRecovery
pending_of (selected p by) = none
pending_of (need_second_assertion pending) = some pending

module _ (env : Env) (a : RecoveredAssertion) where
  pick-eq :
      (i : ℕ) (by : SelectedBy)
      → pick env a i by ≡ selected (from_proven_did_key (did_at (candidate_dids env a) i)) by
  unfolding pick
  pick-eq i by = refl

  select-cases :
      (hints : List DidHint) (known : Bool × Bool)
      → ((i : ℕ) × (by : SelectedBy) × (select env a hints known ≡ pick env a i by))
        ⊎ (select env a hints known ≡ need_second_assertion (pending_recovery env a))
  unfolding select
  select-cases hints known =
      let dids = candidate_dids env a in
      elim (Option-cases (the_only (is_hinted hints dids.0, is_hinted hints dids.1))) [
        | inr (i, e) ↦ inl (i, SelectedBy.hint, rw (select, e) refl)
        | inl e ↦ elim (Option-cases (the_only known)) [
          | inr (i, k) ↦ inl (i, SelectedBy.known_principal, rw (select, e, k) refl)
          | inl k ↦ inr (rw (select, e, k) refl)
        ]
      ]

  did_at-IsOneOf : (i : ℕ) → IsOneOf (candidate_dids env a) (did_at (candidate_dids env a) i)
  unfolding did_at
  did_at-IsOneOf zero = inl refl
  did_at-IsOneOf (suc i) = inr refl

  pick-IsOneOf :
      (i : ℕ) (by by' : SelectedBy) {p : Principal}
      → pick env a i by ≡ selected p by'
      → IsOneOf (candidate_dids env a) p.did
  unfolding pick from_proven_did_key
  pick-IsOneOf i by by' {p} h =
      let same : ◌≡◌ {A = Option Principal}
          (some (from_proven_did_key (did_at (candidate_dids env a) i))) (some p) =
        ap principal_of h in
      let did_eq : did_at (candidate_dids env a) i ≡ p.did = ground (arith, same) in
      rw (sym did_eq) (did_at-IsOneOf i)

  pending-eq :
      (hints : List DidHint) (known : Bool × Bool) {pending : PendingRecovery}
      → select env a hints known ≡ need_second_assertion pending
      → pending_recovery env a ≡ pending
  pending-eq hints known {pending} h = elim (select-cases hints known) [
    | inl (i, by, e) ↦
        let both : ◌≡◌ {A = Option PendingRecovery} none (some pending) =
          ap pending_of (sym (pick-eq i by) ∙ sym e ∙ h) in
        absurd (ground (arith, both))
    | inr e ↦
        let both : ◌≡◌ {A = Option PendingRecovery} (some (pending_recovery env a)) (some pending) =
          ap pending_of (sym e ∙ h) in
        ground (arith, both)
  ]

  -- The keys that a selection logs in are candidates.
  pub select-IsOneOf :
      (hints : List DidHint) (known : Bool × Bool) {p : Principal} {by : SelectedBy}
      → select env a hints known ≡ selected p by
      → IsOneOf (candidate_dids env a) p.did
  select-IsOneOf hints known {p} {by} h = elim (select-cases hints known) [
    | inl (i, by', e) ↦ pick-IsOneOf i by' by (sym e ∙ h)
    | inr e ↦ absurd (ground (arith, ap principal_of (sym e ∙ h)))
  ]

-- The two assertions are by one credential and share exactly one key, which is `p`.
pub record IsResolved (env : Env) (a second : RecoveredAssertion) (p : Principal) : Type 0 where
  pub same_credential : second.credential_id ≡ a.credential_id
  pub only_one :
      (p ≡ from_proven_did_key (candidate_dids env a).0)
        × IsOnly (candidate_dids env second) (candidate_dids env a).0 (candidate_dids env a).1
      ⊎ (p ≡ from_proven_did_key (candidate_dids env a).1)
        × IsOnly (candidate_dids env second) (candidate_dids env a).1 (candidate_dids env a).0

module _ (env : Env) (a second : RecoveredAssertion) where
  resolved :
      {p : Principal}
      → resolve env (pending_recovery env a) second ≡ ok p
      → IsResolved env a second p
  unfolding resolve pending_recovery the_common
  resolved {p} h =
      let theirs = candidate_dids env second in
      let mine = candidate_dids env a in
      elim (Bool-cases (text_eq second.credential_id a.credential_id)) [
        | inr s ↦ absurd (ground (arith, rw (resolve, s) at (h)))
        | inl s ↦ elim (Bool-cases (is_theirs theirs (hint_of mine.0))) [
          | inl e0 ↦ elim (Bool-cases (is_theirs theirs (hint_of mine.1))) [
            | inl e1 ↦ absurd (ground (arith, rw (resolve, s, e0, e1) at (h)))
            | inr e1 ↦ record {
              same_credential = text_eq→eq _ _ s;
              only_one = inl (
                sym (ok-inj (rw (resolve, s, e0, e1) at (h))),
                (is_theirs→IsOneOf theirs mine.0 e0, not_IsOneOf theirs mine.1 e1),
              );
            }
          ]
          | inr e0 ↦ elim (Bool-cases (is_theirs theirs (hint_of mine.1))) [
            | inl e1 ↦ record {
              same_credential = text_eq→eq _ _ s;
              only_one = inr (
                sym (ok-inj (rw (resolve, s, e0, e1) at (h))),
                (is_theirs→IsOneOf theirs mine.1 e1, not_IsOneOf theirs mine.0 e0),
              );
            }
            | inr e1 ↦ absurd (ground (arith, rw (resolve, s, e0, e1) at (h)))
          ]
        ]
      ]

  resolves :
      {p : Principal}
      → IsResolved env a second p
      → resolve env (pending_recovery env a) second ≡ ok p
  unfolding resolve pending_recovery the_common
  resolves {p} r =
      let theirs = candidate_dids env second in
      let mine = candidate_dids env a in
      let same_id : text_eq second.credential_id a.credential_id ≡ true =
        (text_eq_iff _ _).1 r.same_credential in
      elim r.only_one [
        | inl (same, (one, other)) ↦
            rw
              (
                resolve,
                same_id,
                IsOneOf→is_theirs theirs mine.0 one,
                not_theirs theirs mine.1 other,
                same,
              )
              refl
        | inr (same, (one, other)) ↦
            rw
              (
                resolve,
                same_id,
                IsOneOf→is_theirs theirs mine.1 one,
                not_theirs theirs mine.0 other,
                same,
              )
              refl
      ]

  -- The second assertion resolves the first exactly when it is by the same credential and exactly
  -- one candidate of the first is a candidate of the second, which is then the principal.
  pub resolve_iff :
      (p : Principal)
      → (resolve env (pending_recovery env a) second ≡ ok p) ↔ IsResolved env a second p
  resolve_iff p = (resolved, resolves)

IsResolved→IsOneOf :
    (env : Env) (a second : RecoveredAssertion) (p : Principal)
    → IsResolved env a second p
    → IsOneOf (candidate_dids env a) p.did × IsOneOf (candidate_dids env second) p.did
unfolding from_proven_did_key
IsResolved→IsOneOf env a second p r = elim r.only_one [
  | inl (same, (one, other)) ↦
      let did_eq : p.did ≡ (candidate_dids env a).0 = ap (λ q. q.did) same in
      (inl (sym did_eq), rw did_eq one)
  | inr (same, (one, other)) ↦
      let did_eq : p.did ≡ (candidate_dids env a).1 = ap (λ q. q.did) same in
      (inr (sym did_eq), rw did_eq one)
]

-- When a second assertion was asked for, whoever it logs in is a candidate of both assertions, which
-- are by one credential.
pub two_prompts :
    (env : Env) (a second : RecoveredAssertion) (hints : List DidHint) (known : Bool × Bool)
    (pending : PendingRecovery) (p : Principal)
    → select env a hints known ≡ need_second_assertion pending
    → resolve env pending second ≡ ok p
    → (second.credential_id ≡ a.credential_id)
      × IsOneOf (candidate_dids env a) p.did
      × IsOneOf (candidate_dids env second) p.did
two_prompts env a second hints known pending p h r =
    let same = pending-eq env a hints known h in
    let is_resolved = resolved env a second (ap (λ x. resolve env x second) same ∙ r) in
    let (mine, theirs) = IsResolved→IsOneOf env a second p is_resolved in
    (is_resolved.same_credential, mine, theirs)

-- A hint that names no candidate changes nothing.
pub foreign_hint :
    (env : Env) (a : RecoveredAssertion) (h : DidHint) (hints : List DidHint) (known : Bool × Bool)
    → ¬ IsOneOf (candidate_dids env a) h.as_str
    → select env a (h ∷ hints) known ≡ select env a hints known
unfolding select is_hinted
foreign_hint env a h hints known foreign =
    let dids = candidate_dids env a in
    let e0 = ne→text_eq h.as_str dids.0 (λ e. foreign (inl (sym e))) in
    let e1 = ne→text_eq h.as_str dids.1 (λ e. foreign (inr (sym e))) in
    rw (select, is_hinted, e0, e1) refl

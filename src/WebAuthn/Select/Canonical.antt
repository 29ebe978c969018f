-- ===== src/WebAuthn/Select/Canonical.antt =====
-- The one spelling of a hint (`DidHint::parse` of src/webauthn_select.rs).
use aqua_auth.Prelude.{
  ◌≡◌, ◌↔◌, inl, inr, sym, ap, ◌∙◌, Option, some, ok, arith, Bool-cases, Result-cases, ok-inj,
}
use aqua_auth.Env.{Env}
use aqua_auth.Text.{Text, Bytes, text_eq}
use aqua_auth.Text.Laws.{text_eq→eq}
use aqua_auth.Did.Key.{p256_pubkey_from_did_key}
use aqua_auth.WebAuthn.Recover.{did_key_of}
use aqua_auth.WebAuthn.Select.{DidHint, hint_of, parse}

-- A hint is the spelling of a key that reads back.
pub parsed-eq :
    (env : Env) (s : Text) {h : DidHint}
    → parse env s ≡ some h
    → (point : Bytes) × (p256_pubkey_from_did_key env s ≡ ok point)
      × (did_key_of env point ≡ s)
      × (h.as_str ≡ s)
unfolding parse
parsed-eq env s {h} e = elim (Result-cases (p256_pubkey_from_did_key env s)) [
  | inr (f, failed) ↦ absurd (ground (arith, rw (parse, failed) at (e)))
  | inl (point, read) ↦ elim (Bool-cases (text_eq (did_key_of env point) s)) [
    | inr other ↦ absurd (ground (arith, rw (parse, read, other) at (e)))
    | inl same ↦
        let found : ◌≡◌ {A = Option DidHint} (some (hint_of s)) (some h) =
          rw (parse, read, same) at (e) in
        let hint_eq : hint_of s ≡ h = ground (arith, found) in
        (point, read, text_eq→eq _ _ same, ap (λ x. x.as_str) (sym hint_eq))
  ]
]

-- Two texts that parse as hints are the same hint exactly when they name the same key.
pub hints_by_key :
    (env : Env) (s t : Text) (h k : DidHint)
    → parse env s ≡ some h
    → parse env t ≡ some k
    → (h.as_str ≡ k.as_str) ↔ (p256_pubkey_from_did_key env s ≡ p256_pubkey_from_did_key env t)
hints_by_key env s t h k hs ht =
    let (p, read_s, spelled_s, hint_s) = parsed-eq env s hs in
    let (q, read_t, spelled_t, hint_t) = parsed-eq env t ht in
    (
      (λ e. ap (λ u. p256_pubkey_from_did_key env u) (sym hint_s ∙ e ∙ hint_t)),
      (λ e.
          let same_point : p ≡ q = ok-inj (sym read_s ∙ e ∙ read_t) in
          hint_s ∙ sym spelled_s ∙ ap (λ x. did_key_of env x) same_point ∙ spelled_t ∙ sym hint_t),
    )

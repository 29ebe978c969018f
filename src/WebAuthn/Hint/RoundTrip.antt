-- ===== src/WebAuthn/Hint/RoundTrip.antt =====
-- The hint cookie of src/webauthn_hint.rs reads back.
use aqua_auth.Prelude.{
  ℕ, ◌≡◌, refl, ap, sym, ◌∙◌, inl, inr, true, false, not, List, [], ◌∷◌, ◌++◌, Option, none, some,
  arith, if◌then◌else◌, ◌==◌, Option-cases, all,
}
use aqua_auth.Env.{Env}
use aqua_auth.Text.{
  Text, Bytes, codes, text_eq, contains, cut, split_once, strip_prefix, trim, trim_start_matches,
  trim_end_matches, is_whitespace, is_ascii_alphanumeric, is_ascii_digit,
}
use aqua_auth.Text.Ends.{pieces}
use aqua_auth.Text.Decimal.{decimal}
use aqua_auth.Text.Pieces.{
  pieces-append, pieces-none, cut-append, split_once-append, trim-none, all-append, all-weaken,
  all-contains,
}
use aqua_auth.Did.Parse.{encode_did_key}
use aqua_auth.Did.Principal.{Principal}
use aqua_auth.WebAuthn.Recover.{did_key_of}
use aqua_auth.WebAuthn.Select.{DidHint, parse}
use aqua_auth.WebAuthn.Select.Canonical.{parsed-eq}
use aqua_auth.WebAuthn.Hint.{
  HintCookieConfig, hint_cookie_name, domain_attribute, attributes, header, hint_set_cookie,
  unquote, hint_of_pair, collect, hints_from_cookie_header,
}

-- Base58 is letters and digits.
abbrev pub HasPlainBase58 : Env → Type 0
HasPlainBase58 env = (b : Bytes) → all is_ascii_alphanumeric (env.bs58_encode b) ≡ true

not_space : (c : ℕ) → is_ascii_alphanumeric c ≡ true → not (is_whitespace c) ≡ true
unfolding is_ascii_alphanumeric is_ascii_digit is_whitespace
not_space c h = ground arith

not_semicolon : (c : ℕ) → is_ascii_alphanumeric c ≡ true → not (c == b';') ≡ true
unfolding is_ascii_alphanumeric is_ascii_digit
not_semicolon c h = ground arith

module _ (env : Env) (plain : HasPlainBase58 env) (point : Bytes) where
  did_key-no_space : all (λ c. not (is_whitespace c)) (did_key_of env point) ≡ true
  unfolding did_key_of encode_did_key is_whitespace
  did_key-no_space =
      all-append _ (codes "did:key:z") (env.bs58_encode _) refl
        (all-weaken is_ascii_alphanumeric _ (env.bs58_encode _) not_space (plain _))

  did_key-no_semicolon : contains b';' (did_key_of env point) ≡ false
  unfolding did_key_of encode_did_key
  did_key-no_semicolon = all-contains b';' _ (
      all-append _ (codes "did:key:z") (env.bs58_encode _) refl
        (all-weaken is_ascii_alphanumeric _ (env.bs58_encode _) not_semicolon (plain _)))

  unquote-did_key : unquote (did_key_of env point) ≡ did_key_of env point
  unfolding unquote did_key_of encode_did_key strip_prefix
  unquote-did_key = refl

-- the cookie as a browser sends it: what stands before the attributes
abbrev pub cookie_pair : Text → Text
cookie_pair set_cookie = (cut b';' set_cookie).0

attribute_head :
    (domain : Option Text) (tail : Text)
    → (rest : Text) × (domain_attribute domain ++ b';' ∷ tail ≡ b';' ∷ rest)
unfolding domain_attribute
attribute_head none tail = (tail, refl)
attribute_head (some d) tail = (codes " Domain=" ++ d ++ b';' ∷ tail, refl)

attributes-eq : (cfg : HintCookieConfig) (n : ℕ) → (rest : Text) × (attributes cfg n ≡ b';' ∷ rest)
unfolding attributes
attributes-eq cfg n = attribute_head cfg.domain (
    codes " Path=/; Max-Age="
    ++ (decimal n ++ ((if cfg.secure then codes "; Secure" else []) ++ codes "; SameSite=Lax")))

module _ (env : Env) where
  collect-append : (xs ys : List Text) → collect env (xs ++ ys) ≡ collect env xs ++ collect env ys
  unfolding collect
  collect-append [] ys = refl
  collect-append (x ∷ xs) ys = elim (Option-cases (hint_of_pair env x)) [
    | inl e ↦ rw (collect, e, collect-append xs ys) refl
    | inr (h, e) ↦ rw (collect, e, collect-append xs ys) refl
  ]

  module _ (plain : HasPlainBase58 env) (cfg : HintCookieConfig) (p : Principal) (h : DidHint)
      (parses : parse env p.did ≡ some h) where
    cookie_pair-eq : cookie_pair (hint_set_cookie p cfg) ≡ hint_cookie_name ++ b'=' ∷ p.did
    unfolding hint_set_cookie header contains
    cookie_pair-eq =
        let (point, read, spelled, same) = parsed-eq env p.did parses in
        let (rest, starts) = attributes-eq cfg cfg.max_age_secs in
        let no_semicolon : contains b';' p.did ≡ false =
          ap (contains b';') (sym spelled) ∙ did_key-no_semicolon env plain point in
        let whole : hint_set_cookie p cfg ≡ (hint_cookie_name ++ b'=' ∷ p.did) ++ b';' ∷ rest =
          ap (λ t. (hint_cookie_name ++ b'=' ∷ p.did) ++ t) starts in
        ap cookie_pair whole
        ∙ ap (λ r. r.0) (cut-append b';' (hint_cookie_name ++ b'=' ∷ p.did) rest no_semicolon)

    hint_of_pair-eq : hint_of_pair env (b' ' ∷ hint_cookie_name ++ b'=' ∷ p.did) ≡ some h
    unfolding hint_of_pair contains trim trim_start_matches trim_end_matches is_whitespace text_eq
    hint_of_pair-eq =
        let (point, read, spelled, same) = parsed-eq env p.did parses in
        let name : Text = b' ' ∷ hint_cookie_name in
        let halves : split_once b'=' (name ++ b'=' ∷ p.did) ≡ some (name, p.did) =
          split_once-append b'=' name p.did refl in
        let trimmed : trim p.did ≡ p.did = trim-none p.did (
          ap (all (λ c. not (is_whitespace c))) (sym spelled) ∙ did_key-no_space env plain point) in
        let bare : unquote p.did ≡ p.did =
          ap unquote (sym spelled) ∙ unquote-did_key env plain point ∙ spelled in
        rw (hint_of_pair, halves, trimmed, bare) parses

    -- The hint cookie that was set last reads back as the hint for the principal, behind whatever
    -- other cookies the header has, if base58 is letters and digits.
    pub hint_cookie_reads_back :
        (others : Text)
        → hints_from_cookie_header env
            (others ++ (codes "; " ++ cookie_pair (hint_set_cookie p cfg)))
          ≡ hints_from_cookie_header env others ++ h ∷ []
    unfolding hints_from_cookie_header collect contains
    hint_cookie_reads_back others =
        let pair : Text = b' ' ∷ hint_cookie_name ++ b'=' ∷ p.did in
        let (point, read, spelled, same) = parsed-eq env p.did parses in
        let no_semicolon : contains b';' p.did ≡ false =
          ap (contains b';') (sym spelled) ∙ did_key-no_semicolon env plain point in
        let one : collect env (pieces b';' pair) ≡ h ∷ [] =
          ap (collect env) (pieces-none b';' pair no_semicolon)
          ∙ rw (collect, hint_of_pair-eq) refl in
        ap (λ t. hints_from_cookie_header env (others ++ (codes "; " ++ t))) cookie_pair-eq
        ∙ ap (collect env) (pieces-append b';' others pair)
        ∙ collect-append (pieces b';' others) (pieces b';' pair)
        ∙ ap (λ t. collect env (pieces b';' others) ++ t) one

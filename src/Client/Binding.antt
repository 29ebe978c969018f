-- ===== src/Client/Binding.antt =====
-- What `signed_session_request` of src/client.rs asks of a message before it signs it.
use aqua_auth.Prelude.{
  ◌≡◌, ◌≢◌, ◌⊎◌, ◌↔◌, guard-eq-ok, ok_or-eq-ok, inl, inr, refl, sym, ap, ◌∙◌, true, false, [], ◌∷◌,
  ◌++◌, Option, none, some, ok, err, >>=-eq-ok, guard, ok_or, arith, Option-cases, Result-cases,
  get_elem?,
}
use aqua_auth.Env.{Env}
use aqua_auth.Text.{Text, codes, text_eq, to_ascii_lowercase, to_lower, starts_with}
use aqua_auth.Text.Laws.{text_eq→eq, text_eq_refl}
use aqua_auth.Did.Parse.{identifier_from_message}
use aqua_auth.WebAuthn.Web.{Web, Url}
use aqua_auth.Client.{
  ChallengeEnvelope, Signer, AuthClientError, uri_line, origin_text, origin_of, client_origin,
  message_origin, verify_uri_binding, expected_identifier, check_challenge, signed_session_request,
}

-- The message names the identifier of the DID and a URI with the origin that the client dials.
pub record IsBound (env : Env) (web : Web) (did base_url message : Text) : Type 0 where
  pub identifier : Text
  pub uri : Text
  pub origin : Text
  pub identifier_expected : expected_identifier env web did ≡ ok identifier
  pub identifier_named : identifier_from_message message ≡ some identifier
  pub uri_named : uri_line message ≡ some uri
  pub uri_origin : origin_of web uri ≡ some origin
  pub base_origin : origin_of web base_url ≡ some origin

-- No scheme of a parsed URL starts with `<`.
abbrev pub HasPlainSchemes : Web → Type 0
HasPlainSchemes web =
    (t : Text) (u : Url) → web.parse_url t ≡ some u → starts_with (codes "<") u.scheme ≡ false

starts_with-to_lower :
    (s : Text)
    → starts_with (codes "<") s ≡ false
    → starts_with (codes "<") (to_ascii_lowercase s) ≡ false
unfolding starts_with to_ascii_lowercase to_lower
starts_with-to_lower [] h = refl
starts_with-to_lower (c ∷ s) h = ground arith

starts_with-origin_text :
    (scheme host : Text) (port : Option _)
    → starts_with (codes "<") scheme ≡ false
    → starts_with (codes "<") (origin_text scheme host port) ≡ false
unfolding starts_with origin_text
starts_with-origin_text [] host none h = refl
starts_with-origin_text [] host (some p) h = refl
starts_with-origin_text (c ∷ s) host none h = ground arith
starts_with-origin_text (c ∷ s) host (some p) h = ground arith

module _ (web : Web) (plain : HasPlainSchemes web) where
  starts_with-origin_of :
      (raw : Text) {o : Text} → origin_of web raw ≡ some o → starts_with (codes "<") o ≡ false
  unfolding origin_of
  starts_with-origin_of raw {o} h = elim (Option-cases (web.parse_url raw)) [
    | inl e ↦ absurd (ground (arith, e, h))
    | inr (url, e) ↦ elim (Option-cases url.host) [
      | inl no_host ↦ absurd (ground (arith, e, no_host, h))
      | inr (host, e') ↦
          let lower =
            starts_with-origin_text (to_ascii_lowercase url.scheme) (to_ascii_lowercase host)
              url.port_or_known_default (starts_with-to_lower url.scheme (plain raw url e)) in
          ground (arith, e, e', h, lower)
    ]
  ]

module _ (web : Web) where
  message_origin-cases :
      (message : Text)
      → (message_origin web message ≡ codes "<message missing URI line>")
        ⊎ (((uri : Text) × (message_origin web message
                ≡ codes "<unparsable URI line: " ++ (uri ++ codes ">")))
            ⊎ ((uri : Text) × (o : Text) × (uri_line message ≡ some uri)
                × (origin_of web uri ≡ some o)
                × (message_origin web message ≡ o)))
  unfolding message_origin
  message_origin-cases message = elim (Option-cases (uri_line message)) [
    | inl e ↦ inl (rw (message_origin, e) refl)
    | inr (uri, e) ↦ elim (Option-cases (origin_of web uri)) [
      | inl e' ↦ inr (inl (uri, rw (message_origin, e, e') refl))
      | inr (o, e') ↦ inr (inr (uri, o, e, e', rw (message_origin, e, e') refl))
    ]
  ]

  client_origin-cases :
      (base_url : Text)
      → (client_origin web base_url ≡ codes "<unparsable base_url: " ++ (base_url ++ codes ">"))
        ⊎ ((o : Text) × (origin_of web base_url ≡ some o) × (client_origin web base_url ≡ o))
  unfolding client_origin
  client_origin-cases base_url = elim (Option-cases (origin_of web base_url)) [
    | inl e ↦ inl (rw (client_origin, e) refl)
    | inr (o, e) ↦ inr (o, e, rw (client_origin, e) refl)
  ]

  -- A text that starts with `<` is no origin.
  placeholder-ne :
      HasPlainSchemes web
      → (raw : Text) {o : Text} (t : Text) → origin_of web raw ≡ some o
      → o ≢ b'<' ∷ t
  unfolding starts_with
  placeholder-ne plain raw {o} t h = λ e.
      let no : starts_with (codes "<") o ≡ false = starts_with-origin_of web plain raw h in
      let yes : starts_with (codes "<") o ≡ true = rw e refl in cc

  -- The origins agree only when both are there.
  origins_agree :
      HasPlainSchemes web
      → (message base_url : Text) → message_origin web message ≡ client_origin web base_url
      → (uri : Text) × (o : Text) × (uri_line message ≡ some uri)
        × (origin_of web uri ≡ some o)
        × (origin_of web base_url ≡ some o)
  origins_agree plain message base_url same = elim (message_origin-cases message) [
    | inl m ↦ elim (client_origin-cases base_url) [
      | inl c ↦ absurd (ground (arith, ap (λ t. get_elem? t 1) (sym m ∙ same ∙ c)))
      | inr (o, e, c) ↦ absurd (placeholder-ne plain base_url _ e (sym c ∙ sym same ∙ m))
    ]
    | inr (inl (uri, m)) ↦ elim (client_origin-cases base_url) [
      | inl c ↦ absurd (ground (arith, ap (λ t. get_elem? t 12) (sym m ∙ same ∙ c)))
      | inr (o, e, c) ↦ absurd (placeholder-ne plain base_url _ e (sym c ∙ sym same ∙ m))
    ]
    | inr (inr (uri, o, u, e, m)) ↦ elim (client_origin-cases base_url) [
      | inl c ↦ absurd (placeholder-ne plain uri _ e (sym m ∙ same ∙ c))
      | inr (o', e', c) ↦ (uri, o, u, e, e' ∙ ap some (sym c ∙ sym same ∙ m))
    ]
  ]

module _ (env : Env) (web : Web) (did base_url message : Text) where
  checked :
      HasPlainSchemes web
      → check_challenge env web did base_url message ≡ ok tt
      → IsBound env web did base_url message
  unfolding check_challenge verify_uri_binding
  checked plain h =
      let (expected, e1, h1) = >>=-eq-ok (expected_identifier env web did) _ h in
      let (actual, e2, h2) = >>=-eq-ok (ok_or (identifier_from_message message) _) _ h1 in
      let (u, e3, h3) = >>=-eq-ok (guard (text_eq actual expected) _) _ h2 in
      let same = text_eq→eq actual expected (guard-eq-ok _ _ e3) in
      let (uri, o, named, theirs, ours) =
        origins_agree web plain message base_url (text_eq→eq _ _ (guard-eq-ok _ _ h3)) in
      record {
        identifier = expected;
        uri = uri;
        origin = o;
        identifier_expected = e1;
        identifier_named = ok_or-eq-ok _ _ e2 ∙ ap some same;
        uri_named = named;
        uri_origin = theirs;
        base_origin = ours;
      }

  passes :
      IsBound env web did base_url message → check_challenge env web did base_url message ≡ ok tt
  unfolding check_challenge verify_uri_binding message_origin client_origin
  passes b =
      let e1 = b.identifier_expected in
      let e2 = b.identifier_named in
      let e3 = b.uri_named in
      let e4 = b.uri_origin in
      let e5 = b.base_origin in
      rw
        (
          e1,
          e2,
          text_eq_refl b.identifier,
          message_origin,
          client_origin,
          e3,
          e4,
          e5,
          text_eq_refl b.origin,
        )
        refl

  -- The checks pass exactly on a message that is bound to the DID and to the origin that the client
  -- dials, when no scheme starts with `<`.
  pub check_challenge_iff :
      HasPlainSchemes web
      → (check_challenge env web did base_url message ≡ ok tt)
        ↔ IsBound env web did base_url message
  check_challenge_iff plain = (checked plain, passes)

-- A message is presented to the signer only when it is bound: otherwise the world is as it was, and
-- the answer is an error.
pub signed_session_request-IsBound :
    (env : Env) (web : Web) {W : Type 0}
    → HasPlainSchemes web
    → (envelope : ChallengeEnvelope) (base_url : Text) (signer : Signer W) (w : W)
    → ((e : AuthClientError) × (signed_session_request env web envelope base_url signer w
          ≡ (w, err e)))
      ⊎ IsBound env web signer.signer_did base_url envelope.message
unfolding signed_session_request
signed_session_request-IsBound env web plain envelope base_url signer w =
    elim (Result-cases (check_challenge env web signer.signer_did base_url envelope.message)) [
      | inl (u, e) ↦ inr (checked env web _ _ _ plain e)
      | inr (e, refused) ↦ inl (e, rw (signed_session_request, refused) refl)
    ]

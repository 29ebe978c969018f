-- ===== src/WebAuthn/Ceremony/Builder.antt =====
-- src/webauthn_ceremony.rs: build_webauthn, over the builder of the crate `webauthn-rs`.
use aqua_auth.Prelude.{
  ◌≡◌, ◌↔◌, refl, ap, List, [], ◌∷◌, Option, some, Result, ok, err, ◌>>=◌, ok_or, map, arith,
  >>=-eq-ok, ok_or-eq-ok, ok-inj,
}
use aqua_auth.Text.{Text}
use aqua_auth.WebAuthn.Web.{Web, Url}
use aqua_auth.WebAuthn.Ceremony.{
  CeremonyError, invalid_origin, no_origin, webauthn_builder, webauthn_build,
}

-- `WebauthnBuilder` of the crate
pub record BuilderRs : Type 1 where
  pub Builder : Type 0
  pub Webauthn : Type 0
  pub new_builder : Text → Url → Option Builder
  pub rp_name : Text → Builder → Builder
  pub append_allowed_origin : Url → Builder → Builder
  pub build : Builder → Option Webauthn

-- `WebauthnConfig`, without the lifetimes of challenges, which the builder does not read
pub record WebauthnConfig : Type 0 where
  pub rp_id : Text
  pub rp_name : Text
  pub allowed_origins : List Text

module _ (web : Web) where
  unfoldable pub parse_origins : List Text → Result CeremonyError (List Url)
  parse_origins [] = ok []
  parse_origins (o ∷ origins) =
      let rest = parse_origins origins in
      ok_or (web.parse_url o) (invalid_origin o) >>= (λ url. rest >>= (λ urls. ok (url ∷ urls)))

module _ (rs : BuilderRs) where
  unfoldable pub append_all : List Url → rs.Builder → rs.Builder
  append_all [] builder = builder
  append_all (origin ∷ origins) builder =
      append_all origins (rs.append_allowed_origin origin builder)

  unfoldable pub built_from : WebauthnConfig → List Url → Result CeremonyError rs.Webauthn
  unfolding append_all
  built_from config [] = err no_origin
  built_from config (first ∷ origins) = do
    builder ← ok_or (rs.new_builder config.rp_id first) webauthn_builder
    ok_or (rs.build (append_all origins (rs.rp_name config.rp_name builder))) webauthn_build

  unfoldable pub build_webauthn : Web → WebauthnConfig → Result CeremonyError rs.Webauthn
  unfolding parse_origins built_from
  build_webauthn web config = parse_origins web config.allowed_origins >>= built_from config

module _ (web : Web) where
  parsed :
      (origins : List Text) (urls : List Url)
      → parse_origins web origins ≡ ok urls
      → map web.parse_url origins ≡ map some urls
  unfolding parse_origins
  parsed [] urls h = ap (map some) (ok-inj h)
  parsed (o ∷ origins) urls h =
      let (url, first, h1) = >>=-eq-ok (ok_or (web.parse_url o) (invalid_origin o)) _ h in
      let (rest, others, h2) = >>=-eq-ok (parse_origins web origins) _ h1 in
      rw (ok_or-eq-ok _ _ first, parsed origins rest others) (ap (map some) (ok-inj h2))

  parses :
      (origins : List Text) (urls : List Url)
      → map web.parse_url origins ≡ map some urls
      → parse_origins web origins ≡ ok urls
  unfolding parse_origins
  parses [] [] h = refl
  parses [] (url ∷ urls) h = absurd (ground (arith, h))
  parses (o ∷ origins) [] h = absurd (ground (arith, h))
  parses (o ∷ origins) (url ∷ urls) h =
      let first : web.parse_url o ≡ some url = ground (arith, h) in
      let others : map web.parse_url origins ≡ map some urls = ground (arith, h) in
      rw (first, parses origins urls others) refl

  -- The origins parse exactly when each of them does, and they keep their order.
  pub parse_origins_iff :
      (origins : List Text) (urls : List Url)
      → (parse_origins web origins ≡ ok urls) ↔ (map web.parse_url origins ≡ map some urls)
  parse_origins_iff origins urls = (parsed origins urls, parses origins urls)

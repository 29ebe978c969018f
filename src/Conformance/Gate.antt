-- ===== src/Conformance/Gate.antt =====
-- Which servers the suite of aqua-auth-testkit/src/conformance/mod.rs may be pointed at.
use aqua_auth.Prelude.{
  ◌≡◌, refl, ap, sym, ◌⊎◌, ◌↔◌, inl, inr, Bool, true, false, Option, none, some, ok, ok_or, ◌==◌,
  >>=-eq-ok, guard-eq-ok, ok_or-eq-ok, ok-inj, Bool-cases,
}
use aqua_auth.Text.{Text, codes, text_eq, trim_end_matches}
use aqua_auth.Text.Laws.{text_eq→eq, text_eq_refl}
use aqua_auth.WebAuthn.Web.{Web, Url}
use aqua_auth.Conformance.{
  Target, TargetError, missing_host, default_challenge_path, default_session_path, is_loopback_host,
  check_host, new_target,
}

module _ (ip_is_loopback : Text → Bool) (web : Web) (allow_remote_env : Option Text)
    (base_url : Text) where
  -- What stands behind a target: its URL has a host, which is loopback unless the operator opted in,
  -- and the paths are the default ones.
  pub record IsGated (target : Target) : Type 0 where
    pub url : Url
    pub host : Text
    pub parses : web.parse_url base_url ≡ some url
    pub hosted : url.host ≡ some host
    pub allowed :
        (allow_remote_env ≡ some (codes "1")) ⊎ (is_loopback_host ip_is_loopback host ≡ true)
    pub built : target ≡ record {
      base_url = trim_end_matches (λ c. c == b'/') base_url;
      challenge_path = default_challenge_path;
      session_path = default_session_path;
    }

  opted_in : Option Text → Bool
  opted_in env = elim env [ none ↦ false | some v ↦ text_eq v (codes "1") ]

  checked :
      (env : Option Text) (host : Text)
      → check_host ip_is_loopback host (elim env [ none ↦ false | some v ↦ text_eq v (codes "1") ])
        ≡ ok tt
      → (env ≡ some (codes "1")) ⊎ (is_loopback_host ip_is_loopback host ≡ true)
  unfolding check_host
  checked none host h = inr (guard-eq-ok _ _ h)
  checked (some v) host h = elim (Bool-cases (text_eq v (codes "1"))) [
    | inl one ↦ inl (ap (λ (t : Text). some t) (text_eq→eq v (codes "1") one))
    | inr other ↦ inr (guard-eq-ok _ _ (rw other at (h)))
  ]

  checks :
      (env : Option Text) (host : Text)
      → (env ≡ some (codes "1")) ⊎ (is_loopback_host ip_is_loopback host ≡ true)
      → check_host ip_is_loopback host (elim env [ none ↦ false | some v ↦ text_eq v (codes "1") ])
        ≡ ok tt
  unfolding check_host
  checks env host (inl one) = rw (one, check_host, text_eq_refl (codes "1")) refl
  checks none host (inr local) = rw (check_host, local) refl
  checks (some v) host (inr local) = elim (Bool-cases (text_eq v (codes "1"))) [
    | inl one ↦ rw (check_host, one) refl
    | inr other ↦ rw (check_host, other, local) refl
  ]

  -- A target is built from a URL exactly when the URL parses and has a host, and the host is a
  -- loopback one or the operator set the variable to `1`; it then keeps the URL, without the slashes
  -- at its end, and has the default paths.
  pub new_target-IsGated :
      (target : Target)
      → (new_target ip_is_loopback web allow_remote_env base_url ≡ ok target) ↔ IsGated target
  unfolding new_target
  new_target-IsGated target = (forward, backward)
    where
      forward : new_target ip_is_loopback web allow_remote_env base_url ≡ ok target → IsGated target
      forward h =
          let (url, parsed, h1) =
            >>=-eq-ok (ok_or (web.parse_url base_url) TargetError.parse) _ h in
          let (host, hosted, h2) = >>=-eq-ok (ok_or url.host missing_host) _ h1 in
          let (u, passed, h3) = >>=-eq-ok (check_host ip_is_loopback host _) _ h2 in
          record {
            url = url;
            host = host;
            parses = ok_or-eq-ok _ _ parsed;
            hosted = ok_or-eq-ok _ _ hosted;
            allowed = checked allow_remote_env host passed;
            built = sym (ok-inj h3);
          }

      backward :
          IsGated target → new_target ip_is_loopback web allow_remote_env base_url ≡ ok target
      backward g =
          rw (new_target, g.parses, g.hosted, checks allow_remote_env g.host g.allowed)
            (ap (λ (t : Target). ok t) (sym g.built))

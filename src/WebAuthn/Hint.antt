-- ===== src/WebAuthn/Hint.antt =====
-- src/webauthn_hint.rs: the cookie that names the last principal of the browser.
pub mod RoundTrip
use aqua_auth.Prelude.{ℕ, Bool, not, List, [], ◌∷◌, ◌++◌, Option, none, some, if◌then◌else◌}
use aqua_auth.Env.{Env}
use aqua_auth.Text.{Text, codes, text_eq, split_once, strip_prefix, trim}
use aqua_auth.Text.Decimal.{decimal}
use aqua_auth.Text.Ends.{pieces, strip_suffix}
use aqua_auth.Did.Principal.{Principal}
use aqua_auth.WebAuthn.Select.{DidHint, parse}

abbrev pub hint_cookie_name : Text
hint_cookie_name = codes "aqua_did_hint"

abbrev pub hint_max_age_secs : ℕ
hint_max_age_secs = 34560000

pub record HintCookieConfig : Type 0 where
  pub domain : Option Text
  pub secure : Bool
  pub max_age_secs : ℕ

unfoldable pub for_rp_id : Text → HintCookieConfig
for_rp_id rp_id = record {
  domain = if text_eq rp_id (codes "localhost") then none else some rp_id;
  secure = Bool.true;
  max_age_secs = hint_max_age_secs;
}

-- the `Domain` attribute, if there is one
unfoldable pub domain_attribute : Option Text → Text
domain_attribute none = []
domain_attribute (some domain) = codes "; Domain=" ++ domain

-- what follows the value
unfoldable pub attributes : HintCookieConfig → ℕ → Text
unfolding domain_attribute
attributes cfg max_age_secs =
    domain_attribute cfg.domain
    ++ (codes "; Path=/; Max-Age="
        ++ (decimal max_age_secs
            ++ ((if cfg.secure then codes "; Secure" else []) ++ codes "; SameSite=Lax")))

unfoldable pub header : HintCookieConfig → Text → ℕ → Text
unfolding attributes
header cfg value max_age_secs =
    hint_cookie_name ++ codes "=" ++ value ++ attributes cfg max_age_secs

unfoldable pub hint_set_cookie : Principal → HintCookieConfig → Text
hint_set_cookie p cfg = header cfg p.did cfg.max_age_secs

unfoldable pub hint_clear_cookie : HintCookieConfig → Text
hint_clear_cookie cfg = header cfg [] 0

-- the value without quotes around it
unfoldable pub unquote : Text → Text
unquote value = elim (strip_prefix (codes "\"") value) [
  | none ↦ value
  | some v ↦ elim (strip_suffix (codes "\"") v) [ none ↦ value | some w ↦ w ]
]

module _ (env : Env) where
  -- one pair of the header
  unfoldable pub hint_of_pair : Text → Option DidHint
  hint_of_pair pair = elim (split_once b'=' pair) [
    | none ↦ none
    | some (name, value) ↦
        if text_eq (trim name) hint_cookie_name then parse env (unquote (trim value)) else none
  ]

  -- the hints of the pairs, in order
  unfoldable pub collect : List Text → List DidHint
  collect [] = []
  collect (pair ∷ pairs) =
      let rest = collect pairs in elim (hint_of_pair pair) [ none ↦ rest | some h ↦ h ∷ rest ]

  unfoldable pub hints_from_cookie_header : Text → List DidHint
  unfolding collect
  hints_from_cookie_header cookie_header = collect (pieces b';' cookie_header)

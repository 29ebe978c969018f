-- ===== src/WebAuthn/Policy.antt =====
-- src/webauthn_policy.rs: the relying parties and origins that a passkey assertion may come from.
pub mod Built
use aqua_auth.Prelude.{
  ℕ, Bool, true, false, not, ◌&&◌, ◌||◌, List, [], ◌∷◌, ◌++◌, Option, none, some, Result, ok, err,
  ◌>>=◌, ◌>>◌, ok_or, guard, if◌then◌else◌, any, all, find, ◌==◌, length,
}
use aqua_auth.Env.{Env}
use aqua_auth.Text.{
  Text, Bytes, codes, text_eq, as_bytes, starts_with, contains, trim, trim_end_matches,
  to_ascii_lowercase, is_ascii_alphanumeric,
}
use aqua_auth.Text.Ends.{ends_with, pieces}
use aqua_auth.WebAuthn.Web.{Web, Url}

-- The reasons that are texts of the source are one constructor each.
pub data Reason : Type 0 where
  not_bare_domain empty_label ip_literal single_label : Reason
  unparsable user_info not_an_origin no_host not_plain_host ip_related : Reason
  scheme_not_allowed : Text → Reason

pub data PolicyError : Type 0 where
  invalid_rp_id : Text → Reason → PolicyError
  invalid_origin : Text → Reason → PolicyError
  origin_outside_rp_id : Text → Text → PolicyError
  no_origins duplicate_rp_id : Text → PolicyError
  no_rp : PolicyError

pub record RpEntry : Type 0 where
  pub rp_id : Text
  pub rp_id_hash : Bytes
  pub origins : List Text

pub record AssertionPolicy : Type 0 where
  pub entries : List RpEntry
  pub require_uv : Bool

-- `AssertionPolicyBuilder`, which has the same fields
pub record AssertionPolicyBuilder : Type 0 where
  pub entries : List RpEntry
  pub require_uv : Bool

unfoldable pub builder : AssertionPolicyBuilder
builder = record { entries = []; require_uv = true }

-- `contains` of a list of texts
unfoldable pub listed : Text → List Text → Bool
listed t ts = any (λ u. text_eq u t) ts

unfoldable pub allows_origin : RpEntry → Text → Bool
unfolding listed
allows_origin e origin = listed origin e.origins

unfoldable pub entry_for_rp_id_hash : AssertionPolicy → Bytes → Option RpEntry
entry_for_rp_id_hash p h = find (λ e. text_eq e.rp_id_hash h) p.entries

unfoldable pub is_plain_hostname : Text → Bool
is_plain_hostname host =
    not (text_eq host []) && all (λ c. is_ascii_alphanumeric c || c == b'.' || c == b'-') host

unfoldable pub host_within_rp_id : Text → Text → Bool
host_within_rp_id raw rp_id =
    let host = to_ascii_lowercase (trim_end_matches (λ c. c == b'.') raw) in
    text_eq host rp_id || ends_with (b'.' ∷ rp_id) host

-- `if !normalised.contains(&origin) { normalised.push(origin) }`
unfoldable pub push_new : Text → List Text → List Text
unfolding listed
push_new origin normalised =
    if listed origin normalised then normalised else normalised ++ (origin ∷ [])

-- `http` is for `localhost` and the names below it
unfoldable pub scheme_allowed : Text → Text → Bool
scheme_allowed scheme host =
    text_eq scheme (codes "https")
    || text_eq scheme (codes "http")
      && (text_eq host (codes "localhost") || ends_with (codes ".localhost") host)

-- `is_some`
abbrev is_some : {A : Type 0} → Option A → Bool
is_some none = false
is_some (some a) = true

abbrev is_empty : List Text → Bool
is_empty [] = true
is_empty (x ∷ xs) = false

module _ (web : Web) where
  unfoldable pub validate_rp_id : Text → Result PolicyError Text
  unfolding is_plain_hostname
  validate_rp_id raw = do
    let r = to_ascii_lowercase (trim_end_matches (λ c. c == b'.') (trim raw))
    guard (is_plain_hostname r) (invalid_rp_id raw not_bare_domain)
    guard (not (starts_with (codes ".") r || any (λ label. text_eq label []) (pieces b'.' r)))
        (invalid_rp_id raw empty_label)
    guard (not (web.is_ip r)) (invalid_rp_id raw ip_literal)
    guard (contains b'.' r || text_eq r (codes "localhost")) (invalid_rp_id raw single_label)
    ok r

  -- the origin in the browser's form, and its lowercase host
  unfoldable pub normalise_origin : Text → Result PolicyError (Text × Text)
  unfolding is_plain_hostname scheme_allowed
  normalise_origin raw = do
    url ←
        ok_or (web.parse_url (trim_end_matches (λ c. c == b'/') (trim raw)))
          (invalid_origin raw unparsable)
    guard (text_eq url.username [] && not (is_some url.password)) (invalid_origin raw user_info)
    guard
        ((text_eq url.path [] || text_eq url.path (codes "/"))
          && not (is_some url.query)
          && not (is_some url.fragment))
        (invalid_origin raw not_an_origin)
    raw_host ← ok_or url.host (invalid_origin raw no_host)
    let host = to_ascii_lowercase raw_host
    guard (is_plain_hostname host) (invalid_origin raw not_plain_host)
    guard (scheme_allowed url.scheme host) (invalid_origin raw (scheme_not_allowed url.scheme))
    ok (url.origin, host)

  -- the loop over `origins`
  unfoldable pub add_origins : Text → List Text → List Text → Result PolicyError (List Text)
  unfolding push_new
  add_origins rp_id [] normalised = ok normalised
  add_origins rp_id (raw ∷ rest) normalised = do
    (origin, host) ← normalise_origin raw
    guard (host_within_rp_id host rp_id) (origin_outside_rp_id origin rp_id)
    add_origins rp_id rest (push_new origin normalised)

  -- the loop over `related_origins`
  unfoldable pub add_related : List Text → List Text → Result PolicyError (List Text)
  unfolding push_new
  add_related [] normalised = ok normalised
  add_related (raw ∷ rest) normalised = do
    (origin, host) ← normalise_origin raw
    guard (not (web.is_ip host)) (invalid_origin raw ip_related)
    add_related rest (push_new origin normalised)

  module _ (env : Env) where
    unfoldable pub add_rp :
        AssertionPolicyBuilder
        → Text
        → List Text
        → List Text
        → Result PolicyError AssertionPolicyBuilder
    add_rp b raw_id origins related_origins = do
      rp_id ← validate_rp_id raw_id
      guard (not (any (λ e. text_eq e.rp_id rp_id) b.entries)) (duplicate_rp_id rp_id)
      guard (not (is_empty origins && is_empty related_origins)) (no_origins rp_id)
      within ← add_origins rp_id origins []
      normalised ← add_related related_origins within
      ok (record b {
        entries =
            b.entries
            ++ (record {
              rp_id = rp_id;
              rp_id_hash = env.sha256 (as_bytes rp_id);
              origins = normalised;
            }
                ∷ []);
      })

    unfoldable pub rp :
        AssertionPolicyBuilder → Text → List Text → Result PolicyError AssertionPolicyBuilder
    rp b rp_id origins = add_rp b rp_id origins []

    unfoldable pub rp_with_related_origins :
        AssertionPolicyBuilder
        → Text
        → List Text
        → List Text
        → Result PolicyError AssertionPolicyBuilder
    rp_with_related_origins b rp_id origins related_origins = add_rp b rp_id origins related_origins

unfoldable pub require_uv : Bool → AssertionPolicyBuilder → AssertionPolicyBuilder
require_uv on b = record b { require_uv = on }

unfoldable pub build : AssertionPolicyBuilder → Result PolicyError AssertionPolicy
build b = do
  guard (not (length b.entries == 0)) no_rp
  ok (record { entries = b.entries; require_uv = b.require_uv })

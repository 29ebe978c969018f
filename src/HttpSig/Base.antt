-- ===== src/HttpSig/Base.antt =====
-- src/http_sig/base.rs: the signature base and the headers of this profile.
use aqua_auth.Prelude.{
  ℕ, Bool, true, false, not, ◌&&◌, List, [], ◌∷◌, ◌++◌, Option, none, some, Result, ok, err, ◌>>=◌,
  ◌>>◌, ok_or, guard, if◌then◌else◌, ◌==◌, any,
}
use aqua_auth.Prelude.Int.{ℤ}
use aqua_auth.Text.{
  Text, Bytes, codes, text_eq, strip_prefix, starts_with, contains_any, split_once, split_once_text,
  rsplit_once, before_any, trim, to_ascii_lowercase, is_ascii,
}
use aqua_auth.Text.Decimal.{decimal, parse_u16}
use aqua_auth.HttpSig.Fields.{Sfv, Parameters, integer, string}
use aqua_auth.HttpSig.Errors.{
  Malformed, HttpSigError, invalid_target_uri, unsupported_scheme, unsupported_component,
  missing_component, duplicate_component, invalid_component_value, non_ascii_base, structured_field,
  malformed_signature_input,
}

-- `RequestParts` of src/http_sig/mod.rs
pub record RequestParts : Type 0 where
  pub method : Text
  pub target_uri : Text
  pub signature_agent : Option Text

pub record SignatureParams : Type 0 where
  pub covered : List Text
  pub created : ℤ
  pub expires : ℤ
  pub keyid : Text
  pub alg : Text
  pub nonce : Text
  pub tag : Text

abbrev pub component_authority : Text
component_authority = codes "@authority"

abbrev pub component_signature_agent : Text
component_signature_agent = codes "signature-agent"

abbrev pub component_signature_params : Text
component_signature_params = codes "@signature-params"

abbrev pub allowed_components : List Text
allowed_components = component_authority ∷ component_signature_agent ∷ []

abbrev pub param_order : List Text
param_order =
    codes "created"
    ∷ codes "expires"
    ∷ codes "keyid"
    ∷ codes "alg"
    ∷ codes "nonce"
    ∷ codes "tag"
    ∷ []

-- `names.contains(&name)`
unfoldable pub contains_name : Text → List Text → Bool
contains_name name names = any (λ n. text_eq n name) names

-- `is_some`
abbrev pub is_some : {A : Type 0} → Option A → Bool
is_some none = false
is_some (some a) = true

unfoldable pub covered_components : RequestParts → List Text
covered_components parts =
    if is_some parts.signature_agent
    then component_authority ∷ component_signature_agent ∷ []
    else component_authority ∷ []

-- the default port of a scheme
unfoldable pub default_port : Text → Result HttpSigError ℕ
default_port scheme =
    if text_eq scheme (codes "http")
    then ok 80
    else if text_eq scheme (codes "https")
    then ok 443
    else err (unsupported_scheme scheme)

unfoldable pub without_user_info : Text → Text
without_user_info authority = elim (rsplit_once b'@' authority) [
  | some (user, host_port) ↦ host_port
  | none ↦ authority
]

-- the host and the port of an authority without user information
unfoldable pub host_and_port : Text → Text → Result HttpSigError (Text × Option Text)
host_and_port target_uri authority = elim (rsplit_once b']' authority) [
  | some (head, tail) ↦
      if starts_with (codes "[") authority
      then elim tail [
        | [] ↦ ok (head ++ codes "]", none)
        | c ∷ s ↦ do
          port ← ok_or (strip_prefix (codes ":") (c ∷ s)) (invalid_target_uri target_uri)
          ok (head ++ codes "]", some port)
      ]
      else err (invalid_target_uri target_uri)
  | none ↦ elim (split_once b':' authority) [
    | some (host, port) ↦ ok (host, some port)
    | none ↦ ok (authority, none)
  ]
]

-- the host, and the port unless it is the default one
unfoldable pub join_port : Text → ℕ → Text → Option Text → Result HttpSigError Text
join_port target_uri standard host none = ok host
join_port target_uri standard host (some port) = do
  p ← ok_or (parse_u16 port) (invalid_target_uri target_uri)
  if p == standard then ok host else ok (host ++ (codes ":" ++ decimal p))

unfoldable pub authority_from_uri : Text → Result HttpSigError Text
unfolding default_port host_and_port join_port without_user_info
authority_from_uri target_uri = do
  (scheme, rest) ← ok_or (split_once_text (codes "://") target_uri) (invalid_target_uri target_uri)
  standard ← default_port (to_ascii_lowercase scheme)
  let authority = before_any (b'/' ∷ b'?' ∷ b'#' ∷ []) rest
  let host_port = without_user_info authority
  guard (not (text_eq host_port [])) (invalid_target_uri target_uri)
  (host, port) ← host_and_port target_uri host_port
  let host' = to_ascii_lowercase host
  guard (not (text_eq host' []) && not (text_eq host' (codes "[]"))) (invalid_target_uri target_uri)
  join_port target_uri standard host' port

-- the value of the `Signature-Agent` header in the base
unfoldable pub agent_value : Option Text → Result HttpSigError Text
agent_value agent = do
  raw ← ok_or agent (missing_component component_signature_agent)
  guard (not (text_eq (trim raw) [])) (missing_component component_signature_agent)
  guard (not (contains_any (0xD ∷ 0xA ∷ []) (trim raw)))
      (invalid_component_value component_signature_agent)
  ok (trim raw)

unfoldable pub component_value : Text → RequestParts → Result HttpSigError Text
unfolding agent_value
component_value name parts =
    if text_eq name component_authority
    then authority_from_uri parts.target_uri
    else if text_eq name component_signature_agent
    then agent_value parts.signature_agent
    else err (unsupported_component name)

-- the loop of `build_signature_base` over the covered components; the list is `seen`
unfoldable pub base_lines : RequestParts → List Text → List Text → Result HttpSigError Text
unfolding contains_name
base_lines parts seen [] = ok []
base_lines parts seen (name ∷ names) = do
  guard (contains_name name allowed_components) (unsupported_component name)
  guard (not (contains_name name seen)) (duplicate_component name)
  value ← component_value name parts
  rest ← base_lines parts (seen ++ (name ∷ [])) names
  ok (codes "\"" ++ (name ++ (codes "\": " ++ (value ++ (codes "\n" ++ rest)))))

unfoldable pub check_signature_agent_coverage :
    RequestParts → List Text → Result HttpSigError (Unit {0})
unfolding contains_name
check_signature_agent_coverage parts covered =
    if is_some parts.signature_agent
    then guard (contains_name component_signature_agent covered)
        (malformed_signature_input Malformed.agent_not_covered)
    else guard (not (contains_name component_signature_agent covered))
        (missing_component component_signature_agent)

module _ (sfv : Sfv) where
  -- the checks that `write_params_inner_list` makes through `sf_string` and `sf_integer`; the keys
  -- are the constants of `param_order`
  unfoldable pub all_strings : List Text → Result HttpSigError (Unit {0})
  all_strings [] = ok tt
  all_strings (s ∷ rest) = guard (sfv.is_string s) structured_field >> all_strings rest

  unfoldable pub parameters_of : SignatureParams → Result HttpSigError Parameters
  unfolding all_strings
  parameters_of params = do
    all_strings params.covered
    guard (sfv.is_integer params.created) structured_field
    guard (sfv.is_integer params.expires) structured_field
    all_strings (params.keyid ∷ params.alg ∷ params.nonce ∷ params.tag ∷ [])
    ok (
        (codes "created", integer params.created)
        ∷ (codes "expires", integer params.expires)
        ∷ (codes "keyid", string params.keyid)
        ∷ (codes "alg", string params.alg)
        ∷ (codes "nonce", string params.nonce)
        ∷ (codes "tag", string params.tag)
        ∷ [])

  unfoldable pub serialize_signature_params : SignatureParams → Result HttpSigError Text
  serialize_signature_params params = do
    written ← parameters_of params
    ok_or (sfv.write_list params.covered written) structured_field

  unfoldable pub signature_input_header : Text → SignatureParams → Result HttpSigError Text
  signature_input_header label params = do
    guard (sfv.is_key label) structured_field
    written ← parameters_of params
    ok_or (sfv.write_dictionary label params.covered written) structured_field

  unfoldable pub signature_header : Text → Bytes → Result HttpSigError Text
  signature_header label signature = do
    guard (sfv.is_key label) structured_field
    ok_or (sfv.write_bytes label signature) structured_field

  unfoldable pub build_signature_base : RequestParts → SignatureParams → Result HttpSigError Text
  unfolding contains_name
  build_signature_base parts params = do
    lines ← base_lines parts [] params.covered
    guard (contains_name component_authority params.covered) (missing_component component_authority)
    written ← serialize_signature_params params
    let out = lines ++ (codes "\"" ++ (component_signature_params ++ (codes "\": " ++ written)))
    guard (is_ascii out) non_ascii_base
    ok out

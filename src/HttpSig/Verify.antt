-- ===== src/HttpSig/Verify.antt =====
-- src/http_sig/verify.rs, and `alg_for_did` of src/http_sig/mod.rs. The clock reading is an
-- argument. The guard of the options is the state of the call, returned beside the result.
pub mod Accepted
pub mod Options
pub mod Request
use aqua_auth.Prelude.{
  ℕ, ◌^◌, ◌-◌, Bool, true, false, not, List, [], ◌∷◌, ◌++◌, Option, none, some, Result, ok, err,
  ◌>>=◌, ◌>>◌, ok_or, guard, map_err, if◌then◌else◌, ◌==◌, length, map, find,
}
use aqua_auth.Prelude.Int.{ℤ, pos, negsuc, pos_part, ltb_ℤ, leb_ℤ, ◌+ℤ◌, ◌-ℤ◌}
use aqua_auth.Env.{Env}
use aqua_auth.Errors.{CryptoError, unsupported_method}
use aqua_auth.Text.{Text, Bytes, codes, text_eq, trim}
use aqua_auth.Challenge.{as_i64}
use aqua_auth.Did.Method.{find_did_method, method_label}
use aqua_auth.Did.Principal.{Principal, authenticate}
use aqua_auth.HttpSig.Errors.{
  Malformed, HttpSigError, unsupported_component, missing_component, malformed_signature_input,
  malformed_signature, validity_too_long, invalid_window, tag_mismatch, alg_mismatch,
  created_in_future, expired, crypto,
}
use aqua_auth.HttpSig.Fields.{
  Sfv, BareItem, Item, ListEntry, Dictionary, Parameters, item, inner_list, integer, string,
  byte_sequence,
}
use aqua_auth.HttpSig.Base.{
  RequestParts, SignatureParams, component_authority, allowed_components, param_order,
  contains_name, check_signature_agent_coverage, signature_input_header, build_signature_base,
}
use aqua_auth.HttpSig.Replay.{NonceReplayGuard, check_and_record_at}

abbrev pub max_validity : ℕ
max_validity = 86400

-- `clock_skew` in seconds
pub record VerifyOptions : Type 0 where
  pub expected_tag : Text
  pub clock_skew : ℕ
  pub replay_guard : Option NonceReplayGuard

-- `i64::saturating_add`
unfoldable pub saturating_add : ℤ → ℤ → ℤ
saturating_add a b =
    let sum = a +ℤ b in
    if ltb_ℤ (pos (2 ^ 63 - 1)) sum
    then pos (2 ^ 63 - 1)
    else if ltb_ℤ sum (negsuc (2 ^ 63 - 1))
    then negsuc (2 ^ 63 - 1)
    else sum

-- the loop over the items of the inner list
unfoldable pub covered_of : List Item → Result HttpSigError (List Text)
covered_of [] = ok []
covered_of (i ∷ items) = do
  guard (length i.item_params == 0) (malformed_signature_input Malformed.component_params)
  name ← string_of i.bare_item
  guard (contains_name name allowed_components) (unsupported_component name)
  rest ← covered_of items
  ok (name ∷ rest)
  where
    string_of : BareItem → Result HttpSigError Text
    string_of (string s) = ok s
    string_of other = err (malformed_signature_input Malformed.component_not_string)

-- `params.get(name)`
unfoldable pub parameter : Text → Parameters → Option BareItem
parameter name [] = none
parameter name ((k, v) ∷ rest) =
    let later = parameter name rest in if text_eq k name then some v else later

unfoldable pub integer_param : Parameters → Text → Result HttpSigError ℤ
unfolding parameter
integer_param params name = elim (parameter name params) [
  | some (integer n) ↦ ok n
  | other ↦ err (malformed_signature_input (Malformed.not_an_integer name))
]

unfoldable pub string_param : Parameters → Text → Result HttpSigError Text
unfolding parameter
string_param params name = elim (parameter name params) [
  | some (string s) ↦ ok s
  | other ↦ err (malformed_signature_input (Malformed.not_a_string name))
]

-- `present != PARAM_ORDER` on the keys
unfoldable pub same_names : List Text → List Text → Bool
same_names [] [] = true
same_names (a ∷ names) (b ∷ others) =
    let rest = same_names names others in if text_eq a b then rest else false
same_names names others = false

-- the inner list and the parameters of a member
unfoldable pub params_of_entry : ListEntry → Result HttpSigError SignatureParams
unfolding covered_of contains_name same_names integer_param string_param
params_of_entry (item i) = err (malformed_signature_input Malformed.not_inner_list)
params_of_entry (inner_list items params) = do
  covered ← covered_of items
  guard (contains_name component_authority covered) (missing_component component_authority)
  guard (same_names (map (λ (p : Text × BareItem). p.0) params) param_order)
      (malformed_signature_input Malformed.param_order)
  created ← integer_param params (codes "created")
  expires ← integer_param params (codes "expires")
  keyid ← string_param params (codes "keyid")
  alg ← string_param params (codes "alg")
  nonce ← string_param params (codes "nonce")
  tag ← string_param params (codes "tag")
  ok (record {
    covered = covered;
    created = created;
    expires = expires;
    keyid = keyid;
    alg = alg;
    nonce = nonce;
    tag = tag;
  })

-- exactly one member
unfoldable pub params_of_dictionary : Dictionary → Result HttpSigError (Text × SignatureParams)
unfolding params_of_entry
params_of_dictionary ((label, entry) ∷ []) = do params ← params_of_entry entry; ok (label, params)
params_of_dictionary members = err (malformed_signature_input Malformed.not_one_member)

-- `dict.get(label)`
unfoldable pub member : Text → Dictionary → Option ListEntry
member label [] = none
member label ((k, v) ∷ rest) =
    let later = member label rest in if text_eq k label then some v else later

unfoldable pub signature_of_entry : ListEntry → Result HttpSigError Bytes
signature_of_entry (inner_list items params) = err (malformed_signature Malformed.not_item)
signature_of_entry (item i) = elim i.bare_item [
  | byte_sequence b ↦ ok b
  | other ↦ err (malformed_signature Malformed.not_bytes)
]

unfoldable pub check_tag : SignatureParams → VerifyOptions → Result HttpSigError (Unit {0})
check_tag params opts =
    guard (text_eq params.tag opts.expected_tag) (tag_mismatch opts.expected_tag params.tag)

-- no `i64` overflows here: an `sfv` integer has at most 15 digits
unfoldable pub check_window : SignatureParams → VerifyOptions → ℤ → Result HttpSigError (Unit {0})
unfolding saturating_add
check_window params opts now = do
  guard (not (leb_ℤ params.expires params.created)) (invalid_window params.created params.expires)
  guard (not (ltb_ℤ (pos max_validity) (params.expires -ℤ params.created)))
      (validity_too_long (pos_part (params.expires -ℤ params.created)) max_validity)
  guard (not (ltb_ℤ (saturating_add now (as_i64 opts.clock_skew)) params.created))
      (created_in_future params.created now opts.clock_skew)
  guard (not (leb_ℤ params.expires now)) (expired params.expires now)

-- the names of the algorithms by the label of the DID method
unfoldable pub alg_of_label : Text → Result HttpSigError Text
alg_of_label label =
    if text_eq label (codes "Ed25519")
    then ok (codes "ed25519")
    else if text_eq label (codes "P-256")
    then ok (codes "ecdsa-p256-sha256")
    else if text_eq label (codes "Ethereum")
    then ok (codes "eip191-secp256k1")
    else err (crypto (unsupported_method label))

module _ (env : Env) (sfv : Sfv) where
  unfoldable pub alg_for_did : Text → Result HttpSigError Text
  alg_for_did did = do
    method ← ok_or (find_did_method env did) (crypto (unsupported_method did))
    label ← map_err crypto (method_label env method did)
    alg_of_label label

  unfoldable pub parse_signature_input : Text → Result HttpSigError (Text × SignatureParams)
  parse_signature_input header = do
    dict ← ok_or (sfv.parse_dictionary header) (malformed_signature_input Malformed.unparsable)
    params_of_dictionary dict

  unfoldable pub parse_signature : Text → Text → Result HttpSigError Bytes
  parse_signature header label = do
    dict ← ok_or (sfv.parse_dictionary header) (malformed_signature Malformed.unparsable)
    entry ← ok_or (member label dict) (malformed_signature Malformed.no_label)
    signature_of_entry entry

  -- `verify_request_at` up to the replay guard: the parameters and the principal
  unfoldable pub verify_signature :
      RequestParts
      → Text
      → Text
      → VerifyOptions
      → ℤ
      → Result HttpSigError (SignatureParams × Principal)
  verify_signature parts signature_input signature opts now = do
    (label, params) ← parse_signature_input signature_input
    signature_bytes ← parse_signature signature label
    check_signature_agent_coverage parts params.covered
    check_tag params opts
    check_window params opts now
    alg ← alg_for_did params.keyid
    guard (text_eq alg params.alg) (alg_mismatch params.keyid alg params.alg)
    canonical ← signature_input_header sfv label params
    guard (text_eq canonical (trim signature_input))
        (malformed_signature_input Malformed.not_canonical)
    base ← build_signature_base sfv parts params
    principal ← map_err crypto (authenticate env params.keyid base signature_bytes)
    ok (params, principal)

  unfoldable pub verify_request_at :
      RequestParts → Text → Text → VerifyOptions → ℤ → VerifyOptions × Result HttpSigError Principal
  verify_request_at parts signature_input signature opts now =
      elim (verify_signature parts signature_input signature opts now) [
        | err e ↦ (opts, err e)
        | ok (params, principal) ↦ elim opts.replay_guard [
          | none ↦ (opts, ok principal)
          | some guard ↦
              let (guard', recorded) = check_and_record_at guard params.nonce params.expires now in
              (record opts { replay_guard = some guard' }, recorded >> ok principal)
        ]
      ]

-- ===== src/HttpSig/Sign/RoundTrip.antt =====
-- A request that `sign_request_at` signs is one that `verify_request_at` verifies.
use aqua_auth.Prelude.{◌≡◌, List, [], ◌∷◌, map, some, ok, arith}
use aqua_auth.Prelude.Int.{ℤ, pos}
use aqua_auth.Env.{Env}
use aqua_auth.Text.{Text, Bytes, codes, text_eq}
use aqua_auth.HttpSig.Fields.{Sfv, Item, Parameters, inner_list, integer, string}
use aqua_auth.HttpSig.Base.{RequestParts, SignatureParams, covered_components, contains_name}
use aqua_auth.HttpSig.Sign.{Duration}
use aqua_auth.HttpSig.Verify.{saturating_add, covered_of}

-- the parameters as the structured field of the header carries them
abbrev pub parameter_list : SignatureParams → Parameters
parameter_list params =
    (codes "created", integer params.created)
    ∷ (codes "expires", integer params.expires)
    ∷ (codes "keyid", string params.keyid)
    ∷ (codes "alg", string params.alg)
    ∷ (codes "nonce", string params.nonce)
    ∷ (codes "tag", string params.tag)
    ∷ []

abbrev pub string_items : List Text → List Item
string_items = map (λ (name : Text). record { bare_item = string name; item_params = [] })

-- The header field reads as the inner list and parameters of `params` under the label `sig1`.
abbrev pub ReadsAs : Sfv → Text → SignatureParams → Type 0
ReadsAs sfv header params =
    sfv.parse_dictionary header
    ≡ some ((codes "sig1", inner_list (string_items params.covered) (parameter_list params)) ∷ [])

-- the parameters that the Aqua profile signs
unfoldable pub signed_params :
    Env → RequestParts → Text → Text → Duration → ℤ → Bytes → SignatureParams
signed_params env parts did alg validity created nonce_bytes = record {
  covered = covered_components parts;
  created = created;
  expires = saturating_add created (pos validity.secs);
  keyid = did;
  alg = alg;
  nonce = env.base64url_encode nonce_bytes;
  tag = codes "aqua-auth";
}

read_covered :
    (parts : RequestParts)
    → covered_of (string_items (covered_components parts)) ≡ ok (covered_components parts)
unfolding covered_of covered_components contains_name text_eq
read_covered parts = ground arith

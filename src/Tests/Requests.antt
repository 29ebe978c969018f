-- ===== src/Tests/Requests.antt =====
-- A signed request: witnesses.
use aqua_auth.Prelude.{◌≡◌, ◌↔◌, refl, [], ◌∷◌, none, some, ok, ◌==◌, if◌then◌else◌, true}
use aqua_auth.Prelude.Int.{pos}
use aqua_auth.Text.{Text, Bytes, codes}
use aqua_auth.Did.Principal.{Principal}
use aqua_auth.HttpSig.Fields.{Sfv, item, inner_list, byte_sequence}
use aqua_auth.HttpSig.Base.{RequestParts, SignatureParams, component_authority}
use aqua_auth.HttpSig.Sign.{Signer}
use aqua_auth.HttpSig.Sign.RoundTrip.{parameter_list, string_items}
use aqua_auth.HttpSig.Verify.{VerifyOptions, verify_request_at}
use aqua_auth.HttpSig.Verify.Accepted.{IsAccepted}
use aqua_auth.HttpSig.Verify.Request.{PassesGuard, request_iff}
use aqua_auth.Tests.Toy.{program, toy, ed25519_did, replicate}

abbrev parts : RequestParts
parts = record {
  method = codes "GET";
  target_uri = codes "https://a.b:443/x";
  signature_agent = none;
}

abbrev signature_bytes : Bytes
signature_bytes = replicate 64 1

abbrev params : SignatureParams
params = record {
  covered = component_authority ∷ [];
  created = pos 1000;
  expires = pos 1060;
  keyid = ed25519_did;
  alg = codes "ed25519";
  nonce = codes "n";
  tag = codes "aqua-auth";
}

-- `i` is the only `Signature-Input`, and a `Signature` is `s` and its bytes
abbrev pub fields : Sfv
fields = record {
  parse_dictionary = λ t. elim t [
    | [] ↦ none
    | c ∷ r ↦
        if c == b'i'
        then some
            ((codes "sig1", inner_list (string_items params.covered) (parameter_list params)) ∷ [])
        else some
            ((codes "sig1", item (record { bare_item = byte_sequence r; item_params = [] })) ∷ [])
  ];
  is_key = λ t. true;
  is_string = λ t. true;
  is_integer = λ n. true;
  write_list = λ names ps. some (codes "l");
  write_dictionary = λ label names ps. some (codes "i");
  write_bytes = λ label b. some (b's' ∷ b);
}

abbrev signer : Signer
signer = record { signer_did = ed25519_did; sign = λ base. some signature_bytes }

abbrev options : VerifyOptions
options = record {
  expected_tag = codes "aqua-auth";
  clock_skew = 60;
  replay_guard = some (record { seen = []; capacity = 2 });
}

abbrev principal : Principal
principal = record { did = ed25519_did }

abbrev pub header : Text
header = b's' ∷ signature_bytes

verifies :
    (verify_request_at toy fields parts (codes "i") header options (pos 1010)).1 ≡ ok principal
unfolding program
verifies = refl

request_iff_example :
    ((verify_request_at toy fields parts (codes "i") header options (pos 1010)).1 ≡ ok principal)
    ↔ ((ps : SignatureParams) × IsAccepted toy fields parts
          (codes "i")
          header
          options
          (pos 1010)
          ps
          principal
        × PassesGuard options.replay_guard ps (pos 1010))
request_iff_example = request_iff toy fields parts (codes "i") header options (pos 1010) principal

-- ===== src/WebAuthn/Options.antt =====
-- src/webauthn_options.rs: the options for the browser's `create()` and `get()`. The random user id
-- is an argument.
use aqua_auth.Prelude.{Bool, true, List, [], ◌∷◌, map}
use aqua_auth.Prelude.Int.{ℤ, negsuc}
use aqua_auth.Env.{Env}
use aqua_auth.Text.{Text, Bytes, codes}

abbrev pub passkey_user_name : Text
passkey_user_name = codes "inblock.io"

-- -7
abbrev pub cose_es256 : ℤ
cose_es256 = negsuc 6

abbrev pub public_key_type : Text
public_key_type = codes "public-key"

abbrev pub required : Text
required = codes "required"

pub record RelyingPartyJson : Type 0 where
  pub id : Text
  pub name : Text

pub record UserEntityJson : Type 0 where
  pub id : Text
  pub name : Text
  pub display_name : Text

pub record CredentialParameterJson : Type 0 where
  pub type_name : Text
  pub alg : ℤ

pub record AuthenticatorSelectionJson : Type 0 where
  pub resident_key : Text
  pub require_resident_key : Bool
  pub user_verification : Text

pub record CreationExtensionsJson : Type 0 where
  pub cred_props : Bool

pub record PublicKeyCreationOptionsJson : Type 0 where
  pub rp : RelyingPartyJson
  pub user : UserEntityJson
  pub challenge : Text
  pub pub_key_cred_params : List CredentialParameterJson
  pub authenticator_selection : AuthenticatorSelectionJson
  pub attestation : Text
  pub extensions : CreationExtensionsJson

pub record CreationOptionsJson : Type 0 where
  pub public_key : PublicKeyCreationOptionsJson

pub record CredentialDescriptorJson : Type 0 where
  pub type_name : Text
  pub id : Text

pub record PublicKeyRequestOptionsJson : Type 0 where
  pub challenge : Text
  pub rp_id : Text
  pub allow_credentials : List CredentialDescriptorJson
  pub user_verification : Text

pub record RequestOptionsJson : Type 0 where
  pub public_key : PublicKeyRequestOptionsJson

module _ (env : Env) where
  unfoldable pub creation_options : Text → Text → Text → Bytes → Bytes → CreationOptionsJson
  creation_options rp_id rp_name user_name challenge user_id = record {
    public_key = record {
      rp = record { id = rp_id; name = rp_name };
      user = record {
        id = env.base64url_encode user_id;
        name = user_name;
        display_name = user_name;
      };
      challenge = env.base64url_encode challenge;
      pub_key_cred_params = record { type_name = public_key_type; alg = cose_es256 } ∷ [];
      authenticator_selection = record {
        resident_key = required;
        require_resident_key = true;
        user_verification = required;
      };
      attestation = codes "none";
      extensions = record { cred_props = true };
    };
  }

  unfoldable pub descriptor : Bytes → CredentialDescriptorJson
  descriptor id = record { type_name = public_key_type; id = env.base64url_encode id }

  unfoldable pub request_options : Text → Bytes → List Bytes → RequestOptionsJson
  unfolding descriptor
  request_options rp_id challenge allow = record {
    public_key = record {
      challenge = env.base64url_encode challenge;
      rp_id = rp_id;
      allow_credentials = map descriptor allow;
      user_verification = required;
    };
  }

-- ===== src/WebAuthn/SoftPasskey/Laws.antt =====
-- What the software passkey relies on, what it is asked for, and lemmas on bytes at an offset.
use aqua_auth.Prelude.{
  ℕ, zero, suc, ◌≡◌, ◌≢◌, refl, ap, sym, ◌∙◌, ◌⊎◌, Bool, List, true, false, not, ◌&&◌, [], ◌∷◌,
  ◌++◌, Option, none, some, append_assoc, arith, length, take, get_elem?,
}
use aqua_auth.Env.{Env}
use aqua_auth.Text.{Text, Bytes, codes, as_bytes}
use aqua_auth.WebAuthn.Web.{Web}
use aqua_auth.WebAuthn.Policy.{AssertionPolicy, RpEntry, entry_for_rp_id_hash, allows_origin}
use aqua_auth.WebAuthn.Assertion.{has_flag, flag_up, flag_uv, byte_at}
use aqua_auth.WebAuthn.SoftPasskey.{
  SigningKey, Crates, SoftPasskey, AssertOpts, or_rp_id, client_data_json, cross_origin_member,
  text_of_bool, ◌>>=◌,
}

pub take-append : (n : ℕ) (xs ys : Bytes) → length xs ≡ n → take n (xs ++ ys) ≡ xs
take-append zero [] ys h = refl
take-append zero (x ∷ xs) ys h = absurd (omega (arith, h))
take-append (suc n) [] ys h = absurd (omega (arith, h))
take-append (suc n) (x ∷ xs) ys h = ap (λ t. x ∷ t) (take-append n xs ys (omega (arith, h)))

get_elem-append :
    (n : ℕ) (xs : Bytes) (y : ℕ) (ys : Bytes) → length xs ≡ n → get_elem? (xs ++ y ∷ ys) n ≡ some y
get_elem-append zero [] y ys h = refl
get_elem-append zero (x ∷ xs) y ys h = absurd (omega (arith, h))
get_elem-append (suc n) [] y ys h = absurd (omega (arith, h))
get_elem-append (suc n) (x ∷ xs) y ys h = get_elem-append n xs y ys (omega (arith, h))

pub byte_at-append :
    (n : ℕ) (xs : Bytes) (y : ℕ) (ys : Bytes) → length xs ≡ n → byte_at (xs ++ y ∷ ys) n ≡ y
byte_at-append n xs y ys h = rw (byte_at, get_elem-append n xs y ys h) refl

pub some-inj : {A : Type 0} {a b : A} → ◌≡◌ {A = Option A} (some a) (some b) → a ≡ b
some-inj h = ground (arith, h)

pub >>=-eq-some :
    {A B : Type 0} (first : Option A) (next : A → Option B) {b : B}
    → (first >>= next) ≡ some b
    → (a : A) × (first ≡ some a) × (next a ≡ some b)
>>=-eq-some none next h = cc
>>=-eq-some (some a) next h = (a, refl, h)

-- The text of a JSON object, by the grammar of RFC 8259: each member is its name, which needs no
-- escape, and the text of its value.
unfoldable pub members_before : List (Text × Text) → Text → Text
members_before [] rest = rest
members_before ((name, value) ∷ []) rest = b'"' ∷ (name ++ b'"' ∷ b':' ∷ (value ++ rest))
members_before ((name, value) ∷ m ∷ members) rest =
    b'"' ∷ (name ++ b'"' ∷ b':' ∷ (value ++ b',' ∷ members_before (m ∷ members) rest))

unfoldable pub object : List (Text × Text) → Text
unfolding members_before
object members = b'{' ∷ members_before members (codes "}")

-- the members of the client data of an assertion, with the texts of the three strings
abbrev pub client_members : Text → Text → Text → Option Bool → List (Text × Text)
client_members type_text challenge_text origin_text cross =
    (codes "type", type_text)
    ∷ (codes "challenge", challenge_text)
    ∷ (codes "origin", origin_text)
    ∷ elim cross [
      | none ↦ []
      | some true ↦ (codes "crossOrigin", codes "true") ∷ []
      | some false ↦ (codes "crossOrigin", codes "false") ∷ []
    ]

-- What the crates document of the functions that the passkey and the verifier call: base64url and
-- DER read back what they write, a digest has 32 bytes, the two forms of a signature have the same
-- normal form, which is a normal form; base64url needs no escape in a JSON string, and the client
-- data is read from the text of a JSON object with these members; and the key that signed is one of
-- the two that its signature recovers to.
pub record IsFaithful (env : Env) (web : Web) (crates : Crates) (key : SigningKey) (o : AssertOpts)
    : Type 0 where
  pub base64 : (b : Bytes) → web.base64url_decode (env.base64url_encode b) ≡ some b
  pub digest_length : (b : Bytes) → length (env.sha256 b) ≡ 32
  pub der : (s : Bytes) → env.p256_from_der (crates.to_der s) ≡ some s
  pub normal : (s : Bytes) → web.p256_normalize_s (web.p256_normalize_s s) ≡ web.p256_normalize_s s
  pub negated :
      (s t : Bytes) → crates.negate_s s ≡ some t → web.p256_normalize_s t ≡ web.p256_normalize_s s
  pub plain :
      (b : Bytes)
      → crates.json_string (env.base64url_encode b)
        ≡ some (b'"' ∷ (env.base64url_encode b ++ codes "\""))
  pub json :
      (type_text challenge_text origin_text : Text)
      → crates.json_string o.type_name ≡ some type_text
      → crates.json_string (env.base64url_encode o.challenge) ≡ some challenge_text
      → crates.json_string o.origin ≡ some origin_text
      → web.client_data
          (as_bytes (object (client_members type_text challenge_text origin_text o.cross_origin)))
        ≡ some (record {
          type_name = o.type_name;
          challenge = env.base64url_encode o.challenge;
          origin = o.origin;
          cross_origin = o.cross_origin;
          top_origin = false;
        })
  pub recovers :
      (payload : Bytes)
      → (even : Bytes) × (odd : Bytes) × (web.p256_recover
            (env.sha256 payload)
            (web.p256_normalize_s (key.sign payload))
            false
          ≡ some even)
        × (web.p256_recover (env.sha256 payload) (web.p256_normalize_s (key.sign payload)) true
            ≡ some odd)
        × ((even ≡ key.compressed) ⊎ (odd ≡ key.compressed))

abbrev program_text : Text → Text → Text → Option Bool → Text
program_text type_text challenge origin_text cross =
    codes "{\"type\":"
    ++ (type_text
        ++ (codes ",\"challenge\":\""
            ++ (challenge
                ++ (codes "\",\"origin\":"
                    ++ (origin_text ++ (cross_origin_member cross ++ codes "}"))))))

program_text-object :
    (type_text challenge origin_text : Text) (cross : Option Bool)
    → program_text type_text challenge origin_text cross
      ≡ object (client_members type_text (b'"' ∷ (challenge ++ codes "\"")) origin_text cross)
unfolding object members_before cross_origin_member text_of_bool
program_text-object type_text challenge origin_text none =
    rw (object, members_before, append_assoc challenge) refl
program_text-object type_text challenge origin_text (some true) =
    rw (object, members_before, append_assoc challenge) refl
program_text-object type_text challenge origin_text (some false) =
    rw (object, members_before, append_assoc challenge) refl

-- The client data of the passkey is the JSON object of its four members.
pub client_data_json-object :
    (env : Env) (crates : Crates) (o : AssertOpts) {bytes : Bytes}
    → client_data_json env crates o.type_name o.challenge o.origin o.cross_origin ≡ some bytes
    → (type_text : Text) × (origin_text : Text) × (crates.json_string o.type_name ≡ some type_text)
      × (crates.json_string o.origin ≡ some origin_text)
      × (bytes
          ≡ as_bytes (
              object (
                client_members type_text
                  (b'"' ∷ (env.base64url_encode o.challenge ++ codes "\""))
                  origin_text
                  o.cross_origin)))
unfolding client_data_json
client_data_json-object env crates o h =
    let (type_text, typed, h1) = >>=-eq-some (crates.json_string o.type_name) _ h in
    let (origin_text, placed, h2) = >>=-eq-some (crates.json_string o.origin) _ h1 in
    (
      type_text,
      origin_text,
      typed,
      placed,
      sym (some-inj h2)
          ∙ ap as_bytes (
              program_text-object type_text (env.base64url_encode o.challenge) origin_text
                o.cross_origin),
    )

-- The knobs of an assertion, as a policy wants them for a challenge.
pub record IsAcceptable (env : Env) (pk : SoftPasskey) (o : AssertOpts) (want : Bytes)
    (policy : AssertionPolicy) : Type 0 where
  pub entry : RpEntry
  pub same_challenge : o.challenge ≡ want
  pub is_get : o.type_name ≡ codes "webauthn.get"
  pub entry_found :
      entry_for_rp_id_hash policy (env.sha256 (as_bytes (or_rp_id o.rp_id_override pk.rp_id)))
      ≡ some entry
  pub origin_listed : allows_origin entry o.origin ≡ true
  pub same_origin : o.cross_origin ≢ some true
  pub user_present : has_flag o.flags flag_up ≡ true
  pub user_verified : (policy.require_uv && not (has_flag o.flags flag_uv)) ≡ false

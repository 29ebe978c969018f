-- ===== src/WebAuthn/SoftPasskey/Accepted.antt =====
-- When an assertion of the software passkey (src/webauthn_testkit.rs) is accepted by
-- `verify_and_recover` (src/webauthn_recover.rs), and for whom.
use aqua_auth.Prelude.{
  ◌≡◌, refl, ap, sym, ◌∙◌, ◌↔◌, ◌⊎◌, inl, inr, true, false, [], ◌∷◌, Option, none, some, ok, arith,
  length, length-append, ok-inj, Bool-cases, ltb, ◌==◌,
}
use aqua_auth.Env.{Env}
use aqua_auth.Text.{Text, Bytes, codes, as_bytes}
use aqua_auth.Text.Laws.{text_eq_refl}
use aqua_auth.Did.Key.{p256_prefix}
use aqua_auth.Did.Parse.{encode_did_key}
use aqua_auth.WebAuthn.Web.{Web, ClientData}
use aqua_auth.WebAuthn.Policy.{AssertionPolicy, RpEntry}
use aqua_auth.WebAuthn.Assertion.{AuthenticatorData, parse_authenticator_data, signed_payload}
use aqua_auth.WebAuthn.Recover.{
  AssertionJson, exact, RecoveredAssertion, Decoded, candidate_dids, did_key_of, decode,
  decode_handle, decode_members, wanted_challenge, verify_and_recover,
}
use aqua_auth.WebAuthn.Recover.Accepted.{IsCandidates, IsCeremony, outcome, recover_iff}
use aqua_auth.WebAuthn.SoftPasskey.{
  Crates, SoftPasskey, AssertOpts, or_rp_id, did, b64_option, authenticator_data, client_data_json,
  shaped_signature, assert_raw, assert,
}
use aqua_auth.WebAuthn.SoftPasskey.Laws.{
  take-append, byte_at-append, some-inj, >>=-eq-some, client_data_json-object, IsFaithful,
  IsAcceptable,
}

module _ (env : Env) (web : Web) (crates : Crates) (pk : SoftPasskey) (o : AssertOpts)
    (faithful : IsFaithful env web crates pk.key o) where
  abbrev auth_bytes : Bytes
  auth_bytes = authenticator_data env (or_rp_id o.rp_id_override pk.rp_id) o.flags []

  abbrev auth_data : AuthenticatorData
  auth_data = record {
    rp_id_hash = env.sha256 (as_bytes (or_rp_id o.rp_id_override pk.rp_id));
    flags = o.flags;
  }

  auth_data_parses : parse_authenticator_data auth_bytes ≡ ok auth_data
  unfolding parse_authenticator_data authenticator_data
  auth_data_parses =
      let hash = env.sha256 (as_bytes (or_rp_id o.rp_id_override pk.rp_id)) in
      let size = faithful.digest_length (as_bytes (or_rp_id o.rp_id_override pk.rp_id)) in
      let long : ltb (length auth_bytes) 37 ≡ false =
        ground (arith, size, length-append hash (o.flags ∷ 0 ∷ 0 ∷ 0 ∷ 0 ∷ [])) in
      rw
        (
          parse_authenticator_data,
          long,
          take-append 32 hash (o.flags ∷ 0 ∷ 0 ∷ 0 ∷ 0 ∷ []) size,
          byte_at-append 32 hash o.flags (0 ∷ 0 ∷ 0 ∷ 0 ∷ []) size,
        )
        refl

  -- what the verifier reads of an assertion with these two parts
  abbrev decoded : Bytes → Bytes → Decoded
  decoded client_bytes signature = record {
    credential_id = pk.credential_id;
    auth_data_bytes = auth_bytes;
    client_data_bytes = client_bytes;
    signature = crates.to_der signature;
    user_handle = pk.user_handle;
  }

  handle_decodes : (handle : Option Bytes) → decode_handle web (b64_option env handle) ≡ ok handle
  unfolding decode_handle decode b64_option
  handle_decodes none = refl
  handle_decodes (some h) = rw (decode_handle, decode, faithful.base64 h) refl

  abbrev client_of : ClientData
  client_of = record {
    type_name = o.type_name;
    challenge = env.base64url_encode o.challenge;
    origin = o.origin;
    cross_origin = o.cross_origin;
    top_origin = false;
  }

  -- the assertion with these two parts
  abbrev assertion : Bytes → Bytes → AssertionJson
  assertion client_bytes signature = record {
    id = env.base64url_encode pk.credential_id;
    raw_id = env.base64url_encode pk.credential_id;
    type_name = codes "public-key";
    response = record {
      authenticator_data = env.base64url_encode auth_bytes;
      client_data_json = env.base64url_encode client_bytes;
      signature = env.base64url_encode (crates.to_der signature);
      user_handle = b64_option env pk.user_handle;
    };
  }

  assertion_decodes :
      (client_bytes signature : Bytes)
      → decode_members web (assertion client_bytes signature) ≡ ok (decoded client_bytes signature)
  unfolding decode_members decode
  assertion_decodes client_bytes signature =
      rw
        (
          decode_members,
          decode,
          text_eq_refl (codes "public-key"),
          faithful.base64 pk.credential_id,
          text_eq_refl pk.credential_id,
          faithful.base64 auth_bytes,
          faithful.base64 client_bytes,
          faithful.base64 (crates.to_der signature),
          handle_decodes pk.user_handle,
        )
        refl

  client_parses :
      (client_bytes : Bytes)
      → client_data_json env crates o.type_name o.challenge o.origin o.cross_origin
        ≡ some client_bytes
      → web.client_data client_bytes ≡ some client_of
  client_parses client_bytes written =
      let (type_text, origin_text, typed, placed, same) =
        client_data_json-object env crates o written in
      ap web.client_data same
      ∙ faithful.json type_text _ origin_text typed (faithful.plain o.challenge) placed

  made :
      {a : AssertionJson}
      → assert env crates web pk o ≡ some a
      → (client_bytes : Bytes) × (signature : Bytes) × (web.client_data client_bytes
          ≡ some client_of)
        × (shaped_signature env crates web pk.key
              (signed_payload env auth_bytes client_bytes)
              o.high_s
            ≡ some signature)
        × (decode_members web a ≡ ok (decoded client_bytes signature))
  unfolding assert assert_raw
  made {a = a} h =
      let (client_bytes, written, h1) =
        >>=-eq-some (client_data_json env crates o.type_name o.challenge o.origin o.cross_origin) _
          h in
      let (signature, shaped, h2) =
        >>=-eq-some
          (shaped_signature env crates web pk.key (signed_payload env auth_bytes client_bytes)
            o.high_s)
          _ h1 in
      (
        client_bytes,
        signature,
        client_parses client_bytes written,
        shaped,
        rw (← some-inj h2) (assertion_decodes client_bytes signature),
      )

  normal_form :
      (payload signature : Bytes)
      → shaped_signature env crates web pk.key payload o.high_s ≡ some signature
      → web.p256_normalize_s signature ≡ web.p256_normalize_s (pk.key.sign payload)
  unfolding shaped_signature
  normal_form payload signature h = elim (Bool-cases o.high_s) [
    | inl high ↦
        faithful.negated (web.p256_normalize_s (pk.key.sign payload)) signature
          (rw (high, shaped_signature) at (h))
        ∙ faithful.normal (pk.key.sign payload)
    | inr low ↦
        let same : web.p256_normalize_s (pk.key.sign payload) ≡ signature =
          some-inj (rw (low, shaped_signature) at (h)) in
        rw (← same) (faithful.normal (pk.key.sign payload))
  ]

  -- the two keys, one of which is the passkey's
  recovered-IsCandidates :
      (client_bytes signature : Bytes)
      → shaped_signature env crates web pk.key (signed_payload env auth_bytes client_bytes) o.high_s
        ≡ some signature
      → (candidates : Bytes × Bytes) × IsCandidates env web
          (decoded client_bytes signature)
          candidates
        × ((candidates.0 ≡ pk.key.compressed) ⊎ (candidates.1 ≡ pk.key.compressed))
  recovered-IsCandidates client_bytes signature shaped =
      let payload = signed_payload env auth_bytes client_bytes in
      let (even, odd, is_even, is_odd, mine) = faithful.recovers payload in
      let same = normal_form payload signature shaped in
      (
        (even, odd),
        record {
          sig = signature;
          parsed = faithful.der signature;
          even = ap (λ n. web.p256_recover (env.sha256 payload) n false) same ∙ is_even;
          odd = ap (λ n. web.p256_recover (env.sha256 payload) n true) same ∙ is_odd;
        },
        mine,
      )

  did-compressed :
      {d : Text} → did env pk ≡ some d → encode_did_key env p256_prefix pk.key.compressed ≡ d
  unfolding did
  did-compressed h = elim (Bool-cases (length pk.key.compressed == 33)) [
    | inl size ↦ some-inj (rw (size, did) at (h))
    | inr size ↦ absurd (ground (arith, h, size))
  ]

  named_candidate :
      {d : Text} (candidates : Bytes × Bytes)
      → (candidates.0 ≡ pk.key.compressed) ⊎ (candidates.1 ≡ pk.key.compressed)
      → did env pk ≡ some d
      → (encode_did_key env p256_prefix candidates.0 ≡ d)
        ⊎ (encode_did_key env p256_prefix candidates.1 ≡ d)
  named_candidate candidates (inl even) named =
      inl (ap (encode_did_key env p256_prefix) even ∙ did-compressed named)
  named_candidate candidates (inr odd) named =
      inr (ap (encode_did_key env p256_prefix) odd ∙ did-compressed named)

  module _ (want : Bytes) (policy : AssertionPolicy) where
    acceptable-IsCeremony :
        (i : IsAcceptable env pk o want policy)
        → IsCeremony env web client_of auth_data (exact want) policy i.entry
    unfolding wanted_challenge
    acceptable-IsCeremony i = record {
      want = want;
      is_get = i.is_get;
      challenge_wanted = refl;
      challenge_same = faithful.base64 o.challenge ∙ ap (λ (b : Bytes). some b) i.same_challenge;
      entry_found = i.entry_found;
      origin_listed = i.origin_listed;
      same_origin = i.same_origin;
      no_top_origin = refl;
      user_present = i.user_present;
      user_verified = i.user_verified;
    }

    ceremony-IsAcceptable :
        {entry : RpEntry}
        → IsCeremony env web client_of auth_data (exact want) policy entry
        → IsAcceptable env pk o want policy
    unfolding wanted_challenge
    ceremony-IsAcceptable {entry = entry} c = record {
      entry = entry;
      same_challenge =
          some-inj (sym (faithful.base64 o.challenge) ∙ c.challenge_same)
          ∙ sym (ok-inj c.challenge_wanted);
      is_get = c.is_get;
      entry_found = c.entry_found;
      origin_listed = c.origin_listed;
      same_origin = c.same_origin;
      user_present = c.user_present;
      user_verified = c.user_verified;
    }

    module _ (a : AssertionJson) (client_bytes signature : Bytes)
        (client_parses : web.client_data client_bytes ≡ some client_of)
        (decodes : decode_members web a ≡ ok (decoded client_bytes signature)) where
      accepted-IsAcceptable :
          (r : RecoveredAssertion)
          → verify_and_recover env web a (exact want) policy ≡ ok r
          → IsAcceptable env pk o want policy
      accepted-IsAcceptable r accepted =
          let i = (recover_iff env web a (exact want) policy r).0 accepted in
          let same_d : i.d ≡ decoded client_bytes signature = ok-inj (sym i.decoded ∙ decodes) in
          let same_auth : i.auth_data ≡ auth_data = ok-inj (
            sym i.auth_data_parses
            ∙ ap (λ (d : Decoded). parse_authenticator_data d.auth_data_bytes) same_d
            ∙ auth_data_parses) in
          let same_client : i.client ≡ client_of = some-inj (
            sym i.client_parses
            ∙ ap (λ (d : Decoded). web.client_data d.client_data_bytes) same_d
            ∙ client_parses) in
          ceremony-IsAcceptable (rw (same_auth, same_client) at (i.ceremony))

      IsAcceptable-accepted :
          (candidates : Bytes × Bytes)
          → IsCandidates env web (decoded client_bytes signature) candidates
          → (i : IsAcceptable env pk o want policy)
          → verify_and_recover env web a (exact want) policy
            ≡ ok (outcome (decoded client_bytes signature) auth_data client_of i.entry candidates)
      IsAcceptable-accepted candidates recovered i =
          (recover_iff env web a (exact want) policy _).1 (record {
            d = decoded client_bytes signature;
            auth_data = auth_data;
            client = client_of;
            entry = i.entry;
            decoded = decodes;
            auth_data_parses = auth_data_parses;
            client_parses = client_parses;
            ceremony = acceptable-IsCeremony i;
            candidates_recovered = recovered;
            result = refl;
          })

    -- Where the crates do what they document, `IsFaithful`, an assertion that the software passkey
    -- makes is accepted, for a challenge and a policy, exactly when its knobs are those of a
    -- `webauthn.get` over that challenge, for a relying party and an origin of the policy, not
    -- cross-origin, with the user present and, where the policy asks for it, verified. The result then
    -- names the credential of the passkey, and the passkey's DID is one of the two candidates,
    -- whichever form of the signature was asked for.
    pub assert_iff :
        {a : AssertionJson} {d : Text}
        → assert env crates web pk o ≡ some a
        → did env pk ≡ some d
        → ((r : RecoveredAssertion) × (verify_and_recover env web a (exact want) policy ≡ ok r)
            × (r.credential_id ≡ pk.credential_id)
            × (((candidate_dids env r).0 ≡ d) ⊎ ((candidate_dids env r).1 ≡ d)))
          ↔ IsAcceptable env pk o want policy
    unfolding candidate_dids did_key_of
    assert_iff {a = a} {d = d} asserted named =
        let (client_bytes, signature, client_parses, shaped, decodes) = made asserted in
        let (candidates, recovered, mine) = recovered-IsCandidates client_bytes signature shaped in
        (
          λ (r, accepted, same_id, who).
              accepted-IsAcceptable a client_bytes signature client_parses decodes r accepted,
          λ i. (
            _,
            IsAcceptable-accepted a client_bytes signature client_parses decodes candidates
                recovered i,
            refl,
            named_candidate candidates mine named,
          ),
        )

-- ===== src/WebAuthn/Ceremony/Bound.antt =====
-- Which DID a registration (src/webauthn_ceremony.rs) binds its credential to.
use aqua_auth.Prelude.{
  ◌≡◌, refl, sym, ap, ◌∙◌, List, [], ◌∷◌, Option, none, some, ok, >>=-eq-ok, guard-eq-ok,
  ok_or-eq-ok, ok-inj, ok_or, guard, arith, length, ◌==◌, ==_iff, if◌then◌else◌,
}
use aqua_auth.Env.{Env}
use aqua_auth.Text.{Text, Bytes, text_eq}
use aqua_auth.Text.Laws.{text_eq→eq}
use aqua_auth.WebAuthn.Ceremony.{
  WebauthnRs, CoseKey, ec2, other_key, secp256r1, other_curve, second_factor, anonymous,
  StartedRegistration, FinishedRegistration, last_is_odd, compressed_of,
  did_key_from_p256_compressed, p256_compressed_from_passkey, p256_compressed_from_passkey_blob,
  start_with, register_start, bound_did, register_finish,
}

-- The compressed point of a P-256 key with coordinates `x` and `y`.
pub record IsCompressed (key : CoseKey) (point : Bytes) : Type 0 where
  pub x : Bytes
  pub y : Bytes
  pub key_eq : key ≡ ec2 secp256r1 x y
  pub x_length : length x ≡ 32
  pub point_eq : point ≡ (if last_is_odd y then 0x03 else 0x02) ∷ x

compressed_of-IsCompressed :
    (key : CoseKey) {point : Bytes} → compressed_of key ≡ ok point → IsCompressed key point
unfolding compressed_of
compressed_of-IsCompressed other_key h = absurd (ground (arith, h))
compressed_of-IsCompressed (ec2 other_curve x y) h = absurd (ground (arith, h))
compressed_of-IsCompressed (ec2 secp256r1 x y) h =
    let (u, e, h1) = >>=-eq-ok (guard (length x == 32) _) _ h in
    record {
      x = x;
      y = y;
      key_eq = refl;
      x_length = (==_iff _ _).0 (guard-eq-ok _ _ e);
      point_eq = sym (ok-inj h1);
    }

module _ (rs : WebauthnRs) (env : Env) where
  -- A finished registration: the crate accepted it, and all that is stored comes from its passkey.
  pub record IsFinished (attestation : rs.Attestation) (state : rs.RegistrationState)
      (intended completing : Option Text) (label : Option Text) (f : FinishedRegistration)
      : Type 0 where
    pub passkey : rs.Passkey
    pub blob : Bytes
    pub did : Text
    pub accepted : rs.finish_passkey_registration attestation state ≡ some passkey
    pub stored : rs.to_blob passkey ≡ some blob
    pub bound : bound_did rs env blob intended completing ≡ ok did
    pub result : f ≡ record {
      credential = record {
        did = did;
        credential_id = rs.cred_id passkey;
        public_key = blob;
        sign_count = 0;
        transports = [];
        label = label;
      };
      did = did;
      credential_id_hex = env.hex_encode (rs.cred_id passkey);
    }

  register_finish-IsFinished :
      (attestation : rs.Attestation) (state : rs.RegistrationState)
      (intended completing label : Option Text) {f : FinishedRegistration}
      → register_finish rs env attestation state intended completing label ≡ ok f
      → IsFinished attestation state intended completing label f
  unfolding register_finish
  register_finish-IsFinished attestation state intended completing label h =
      let (passkey, e1, h1) =
        >>=-eq-ok (ok_or (rs.finish_passkey_registration attestation state) _) _ h in
      let (blob, e2, h2) = >>=-eq-ok (ok_or (rs.to_blob passkey) _) _ h1 in
      let (did, e3, h3) = >>=-eq-ok (bound_did rs env blob intended completing) _ h2 in
      record {
        passkey = passkey;
        blob = blob;
        did = did;
        accepted = ok_or-eq-ok _ _ e1;
        stored = ok_or-eq-ok _ _ e2;
        bound = e3;
        result = sym (ok-inj h3);
      }

  bound-second :
      (blob : Bytes) (intended : Text) (completing : Option Text) {did : Text}
      → bound_did rs env blob (some intended) completing ≡ ok did
      → (completing ≡ some intended) × (did ≡ intended)
  unfolding bound_did
  bound-second blob intended none h = absurd (ground (arith, h))
  bound-second blob intended (some c) h =
      let (u, e, h1) = >>=-eq-ok (guard (text_eq c intended) _) _ h in
      (ap some (text_eq→eq _ _ (guard-eq-ok _ _ e)), sym (ok-inj h1))

  start-intended :
      (uuid : rs.Uuid) (name : Text) (exclude : Option (List Bytes)) (intended : Option Text)
      {started : StartedRegistration rs}
      → start_with rs uuid name exclude intended ≡ ok started
      → started.intended_did ≡ intended
  unfolding start_with
  start-intended uuid name exclude intended h =
      let (pair, e, h1) =
        >>=-eq-ok (ok_or (rs.start_passkey_registration uuid name name exclude) _) _ h in
      ap (λ x. x.intended_did) (sym (ok-inj h1))

  -- A second factor is bound to the DID that it was started for, and only when the caller that
  -- completes it is that DID.
  pub second_factor_binds :
      (did : Text) (existing : List Bytes) (uuid : rs.Uuid) (started : StartedRegistration rs)
      (attestation : rs.Attestation) (completing label : Option Text) (f : FinishedRegistration)
      → register_start rs (second_factor did existing) uuid ≡ ok started
      → register_finish rs env attestation started.state started.intended_did completing label
        ≡ ok f
      → (completing ≡ some did) × (f.did ≡ did) × (f.credential.did ≡ did)
  unfolding register_start
  second_factor_binds did existing uuid started attestation completing label f s h =
      let (user_uuid, e, started_eq) = >>=-eq-ok (ok_or (rs.uuid_from_slice _) _) _ s in
      let intended = start-intended _ did _ (some did) started_eq in
      let done =
        register_finish-IsFinished attestation started.state started.intended_did completing label
          h in
      let (caller, same) =
        bound-second done.blob did completing
          (ap (λ i. bound_did rs env done.blob i completing) (sym intended) ∙ done.bound) in
      (caller, ap (λ x. x.did) done.result ∙ same, ap (λ x. x.credential.did) done.result ∙ same)

  -- A registration without a session binds the DID of the key that the stored passkey reads back to,
  -- a P-256 key in compressed form, and starts the counter at 0.
  pub anonymous_binds :
      (uuid : rs.Uuid) (started : StartedRegistration rs) (attestation : rs.Attestation)
      (completing label : Option Text) (f : FinishedRegistration)
      → register_start rs anonymous uuid ≡ ok started
      → register_finish rs env attestation started.state started.intended_did completing label
        ≡ ok f
      → (passkey : rs.Passkey) × (point : Bytes) × (rs.from_blob f.credential.public_key
          ≡ some passkey)
        × IsCompressed (rs.public_key passkey) point
        × (f.did ≡ did_key_from_p256_compressed env point)
        × (f.credential.did ≡ f.did)
        × (f.credential.sign_count ≡ 0)
  unfolding register_start bound_did p256_compressed_from_passkey_blob p256_compressed_from_passkey
  anonymous_binds uuid started attestation completing label f s h =
      let intended = start-intended uuid _ none none s in
      let done =
        register_finish-IsFinished attestation started.state started.intended_did completing label
          h in
      let bound = ap (λ i. bound_did rs env done.blob i completing) (sym intended) ∙ done.bound in
      let (point, e, h1) = >>=-eq-ok (p256_compressed_from_passkey_blob rs done.blob) _ bound in
      let (passkey, e1, h2) = >>=-eq-ok (ok_or (rs.from_blob done.blob) _) _ e in
      (
        passkey,
        point,
        ap (λ x. rs.from_blob x.credential.public_key) done.result ∙ ok_or-eq-ok _ _ e1,
        compressed_of-IsCompressed (rs.public_key passkey) h2,
        ap (λ x. x.did) done.result ∙ sym (ok-inj h1),
        ap (λ x. x.credential.did) done.result ∙ sym (ap (λ x. x.did) done.result),
        ap (λ x. x.credential.sign_count) done.result,
      )

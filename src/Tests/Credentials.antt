-- ===== src/Tests/Credentials.antt =====
-- Selection, hints, stored credentials and registration: witnesses.
use aqua_auth.Prelude.{
  ◌≡◌, ◌↔◌, refl, true, false, List, [], ◌∷◌, ◌++◌, Option, none, some, ok, arith, all,
}
use aqua_auth.Env.{Env}
use aqua_auth.Text.{Text, Bytes, codes, is_ascii_alphanumeric}
use aqua_auth.Table
use aqua_auth.Did.Principal.{Principal, from_proven_did_key}
use aqua_auth.WebAuthn.Recover.{RecoveredAssertion, candidate_dids}
use aqua_auth.WebAuthn.Select.{
  hint_of, PendingRecovery, need_second_assertion, parse, pending_recovery, select, resolve,
}
use aqua_auth.WebAuthn.Select.Proven.{IsResolved, resolve_iff}
use aqua_auth.WebAuthn.Hint.{for_rp_id, hint_set_cookie, hints_from_cookie_header}
use aqua_auth.WebAuthn.Hint.RoundTrip.{cookie_pair, hint_cookie_reads_back}
use aqua_auth.WebAuthn.Store.{StoredCredential, InMemoryWebauthnStore}
use aqua_auth.WebAuthn.Store.Runs.{Call, updates, deletes, IsLater, run, credential_kept}
use aqua_auth.WebAuthn.Ceremony.{
  WebauthnRs, ec2, secp256r1, StartedRegistration, FinishedRegistration, anonymous, second_factor,
  did_key_from_p256_compressed, register_start, register_finish,
}
use aqua_auth.WebAuthn.Ceremony.Bound.{second_factor_binds}
use aqua_auth.Tests.Toy.{program, toy, replicate}
use aqua_auth.Tests.Passkeys.{passkeys, recovered}

-- The second assertion shares the first candidate.
abbrev second : RecoveredAssertion
second = record (recovered (codes "s")) { candidates = (2 ∷ codes "s", 3 ∷ codes "t") }

abbrev pending : PendingRecovery
pending = pending_recovery toy (recovered (codes "s"))

abbrev alice : Principal
alice = from_proven_did_key (candidate_dids toy second).0

asks : select toy (recovered (codes "s")) [] (true, true) ≡ need_second_assertion pending
unfolding passkeys
asks = refl

resolves : resolve toy pending second ≡ ok alice
unfolding passkeys
resolves = refl

resolve_iff_example :
    (resolve toy (pending_recovery toy (recovered (codes "s"))) second ≡ ok alice)
    ↔ IsResolved toy (recovered (codes "s")) second alice
resolve_iff_example = resolve_iff toy (recovered (codes "s")) second alice

-- Base58 of one key
abbrev base58 : Env
base58 = record toy {
  bs58_encode = λ b. codes "zz";
  bs58_decode = λ t. some (0x80 ∷ 0x24 ∷ replicate 33 2);
}

abbrev bob : Principal
bob = record { did = codes "did:key:zzz" }

parses : parse base58 (codes "did:key:zzz") ≡ some (hint_of (codes "did:key:zzz"))
unfolding passkeys
parses = refl

plain : (b : Bytes) → all is_ascii_alphanumeric (base58.bs58_encode b) ≡ true
unfolding passkeys
plain b = refl

hint_cookie_reads_back_example :
    hints_from_cookie_header base58 (
      codes "k=v"
      ++ (codes "; " ++ cookie_pair (hint_set_cookie bob (for_rp_id (codes "a.example")))))
    ≡ hints_from_cookie_header base58 (codes "k=v") ++ hint_of (codes "did:key:zzz") ∷ []
hint_cookie_reads_back_example =
    hint_cookie_reads_back base58 plain (for_rp_id (codes "a.example")) bob
      (hint_of (codes "did:key:zzz")) parses (codes "k=v")

abbrev credential : StoredCredential
credential = record {
  did = codes "alice";
  credential_id = codes "id";
  public_key = codes "k";
  sign_count = 3;
  transports = [];
  label = none;
  created_at = 7;
}

abbrev store : InMemoryWebauthnStore
store = record { creds = (codes "id", credential) ∷ []; poisoned = false }

holds : Table.get (codes "id") store.creds ≡ some credential
unfolding program
holds = refl

-- a counter that falls, and a delete by another
abbrev calls : List Call
calls = updates (codes "id") 2 ∷ deletes (codes "mallory") (codes "id") ∷ []

credential_kept_example :
    (c : StoredCredential) × (Table.get (codes "id") (run calls store).creds ≡ some c)
    × IsLater credential c
credential_kept_example =
    credential_kept calls store (codes "id") credential holds
      (tt, ((λ same. λ e. ground (arith, e)), tt))

-- A passkey is its blob, and every key is one P-256 key.
abbrev crate : WebauthnRs
crate = record {
  Passkey = Bytes;
  RegistrationState = Unit;
  AuthenticationState = Unit;
  CreationOptions = Unit;
  RequestOptions = Unit;
  Attestation = Bytes;
  Assertion = Bytes;
  Uuid = Bytes;
  uuid_from_slice = λ b. some b;
  sha3_256 = λ b. replicate 32 b'h';
  start_passkey_registration = λ uuid name shown exclude. some (tt, tt);
  finish_passkey_registration = λ a s. some a;
  start_passkey_authentication = λ ps. some (tt, tt);
  finish_passkey_authentication = λ a s. some (a, 0);
  cred_id = λ p. p;
  public_key = λ p. ec2 secp256r1 (replicate 32 4) (replicate 32 5);
  to_blob = λ p. some p;
  from_blob = λ b. some b;
}

abbrev started : Option Text → StartedRegistration crate
started intended = record { options = tt; state = tt; intended_did = intended }

abbrev finished : Text → FinishedRegistration
finished did = record {
  credential = record {
    did = did;
    credential_id = codes "p";
    public_key = codes "p";
    sign_count = 0;
    transports = [];
    label = none;
  };
  did = did;
  credential_id_hex = codes "p";
}

starts_second :
    register_start crate (second_factor (codes "alice") []) [] ≡ ok (started (some (codes "alice")))
unfolding passkeys
starts_second = refl

finishes_second :
    register_finish crate toy (codes "p") tt (some (codes "alice")) (some (codes "alice")) none
    ≡ ok (finished (codes "alice"))
unfolding passkeys
finishes_second = refl

second_factor_binds_example :
    (some (codes "alice") ≡ some (codes "alice"))
    × (codes "alice" ≡ codes "alice")
    × (codes "alice" ≡ codes "alice")
second_factor_binds_example =
    second_factor_binds crate toy (codes "alice") [] [] (started (some (codes "alice"))) (codes "p")
      (some (codes "alice")) none (finished (codes "alice")) starts_second finishes_second

abbrev own_did : Text
own_did = did_key_from_p256_compressed toy (3 ∷ replicate 32 4)

starts : register_start crate anonymous [] ≡ ok (started none)
unfolding passkeys
starts = refl

finishes : register_finish crate toy (codes "p") tt none none none ≡ ok (finished own_did)
unfolding passkeys
finishes = refl

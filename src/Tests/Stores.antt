-- ===== src/Tests/Stores.antt =====
-- The challenge store, the session store and the replay guard: witnesses.
use aqua_auth.Prelude.{
  ◌≡◌, ◌≢◌, ◌≤◌, ◌<◌, ◌↔◌, refl, ◌⊎◌, List, [], ◌∷◌, none, some, Result, ok, err, max, arith,
}
use mathlib.Core.List.{Memᴰ}
use aqua_auth.Prelude.Int.{pos}
use aqua_auth.Errors.{
  AuthError, challenge_not_found, backend_unavailable, session_store_full, session_not_found,
}
use aqua_auth.Text.{Text, codes}
use aqua_auth.Table.{Table, get, len}
use aqua_auth.Challenge.{Challenge, ChallengeStore, create, validate, cleanup_expired, now_secs}
use aqua_auth.Challenge.Capacity.{create_capacity, create_displaces}
use aqua_auth.Challenge.SingleUse
use aqua_auth.Challenge.SingleUse.{
  Call, create_for, validate_at, sweep_at, presented_once, validate-create,
}
use aqua_auth.Session.Backend.{Session, SessionBackend, BackendLaws}
use aqua_auth.Session.InMemory.{in_memory}
use aqua_auth.Session.InMemory.Laws
use aqua_auth.Session.InMemory.Laws.{in_memory_laws}
use aqua_auth.Session.Store
use aqua_auth.Session.Store.{Limits}
use aqua_auth.Session.Capacity.{create_keeps}
use aqua_auth.Session.Lifetime.{validate_iff, create_refuses_iff, room, inserted}
use aqua_auth.Session.Revoked
use aqua_auth.Session.Revoked.{revoked_forever, did_revoked_forever}
use aqua_auth.HttpSig.Replay.{NonceReplayGuard, check_and_record_at}
use aqua_auth.HttpSig.Replay.Once
use aqua_auth.HttpSig.Replay.Once.{
  accepts_iff_unseen, check_and_record-IsValid, check_displaces, replay_refused,
}
use aqua_auth.HttpSig.Errors.{nonce_replayed}
use aqua_auth.Tests.Toy.{program, toy, seconds, ed25519_did}

-- challenges

abbrev pending : Challenge
pending = record { did = ed25519_did; nonce = codes "0xa"; message = codes "m"; expires_at = 90 }

abbrev challenge_store : ChallengeStore
challenge_store = record {
  challenges = (codes "0xa", pending) ∷ [];
  ttl_secs = 300;
  domain = codes "d";
  uri = codes "u";
  max_challenges = 1;
}

create_capacity_example :
    len (create toy seconds challenge_store ed25519_did (codes "b") 10 10).0.challenges
    ≤ max (create toy seconds challenge_store ed25519_did (codes "b") 10 10).0.max_challenges 1
create_capacity_example =
    create_capacity toy seconds challenge_store ed25519_did (codes "b") 10 10 (omega arith)

create_displaces_example :
    (get
        (codes "0xa")
        (create toy seconds challenge_store ed25519_did (codes "b") 10 10).0.challenges
      ≡ some pending)
    ⊎ ((1 ≤ len (cleanup_expired (now_secs toy seconds 10) challenge_store.challenges))
        × ((x : Text × Challenge)
            → Memᴰ x (cleanup_expired (now_secs toy seconds 10) challenge_store.challenges)
            → 90 ≤ x.1.expires_at))
unfolding program
create_displaces_example =
    create_displaces toy seconds challenge_store ed25519_did (codes "b") 10 10 (codes "0xa") pending
      (refl, tt) refl (omega arith) (λ h. ground arith)

presented_once_example :
    (validate
      (SingleUse.run toy seconds
        (create_for ed25519_did (codes "b") 20 20 ∷ sweep_at 30 ∷ validate_at (codes "0xb") 40 ∷ [])
        (validate challenge_store (codes "0xa") 10).0)
      (codes "0xa")
      50).1
    ≡ err challenge_not_found
presented_once_example =
    presented_once toy seconds challenge_store (codes "0xa") 10 50
      (create_for ed25519_did (codes "b") 20 20 ∷ sweep_at 30 ∷ validate_at (codes "0xb") 40 ∷ [])
      ((λ h. ground arith), (tt, (tt, tt)))

-- the challenge that `create` returns at 10 from the random bytes `b`
abbrev drawn : ChallengeStore × Result AuthError Challenge
drawn = create toy seconds challenge_store ed25519_did (codes "b") 10 10

abbrev made : Challenge
made = elim drawn.1 [ ok c ↦ c | err e ↦ pending ]

creates : drawn.1 ≡ ok made
unfolding program
creates = refl

-- sessions

abbrev alice : Session
alice = record { did = codes "alice"; token = codes "t1"; valid_until = 90; created_at = 1 }

abbrev bob : Session
bob = record { did = codes "bob"; token = codes "t2"; valid_until = 80; created_at = 2 }

abbrev limits : Limits
limits = record { ttl_secs = 60; max_sessions = 2; max_sessions_per_did = 1 }

abbrev both : Table Session
both = (codes "t1", alice) ∷ (codes "t2", bob) ∷ []

absent : get (codes "t1") ((codes "t2", bob) ∷ []) ≡ none
unfolding program
absent = refl

both-IsValid : Laws.IsValid both
unfolding program
both-IsValid = record { unique = (absent, (refl, tt)); keyed = (refl, (refl, tt)) }

stored : get (codes "t1") both ≡ some alice
unfolding program
stored = refl

create_keeps_example :
    get (codes "t1") (Store.create in_memory toy limits (codes "carol") (codes "t3") 85 85 both).0
    ≡ some alice
create_keeps_example =
    create_keeps in_memory in_memory_laws toy limits (codes "carol") (codes "t3") 85 85 both
      (codes "t1") alice both-IsValid stored (omega arith) (λ h. ground arith) (λ h. ground arith)

validate_iff_example : ((Store.validate in_memory (codes "t1") 50 both).1 ≡ ok (codes "alice")) ↔ (
    (s : Session) × (get (codes "t1") both ≡ some s)
    × (s.did ≡ codes "alice")
    × (50 < s.valid_until))
validate_iff_example = validate_iff in_memory (codes "t1") (codes "alice") 50 both

abbrev carol : Session
carol = record { did = codes "carol"; token = codes "t3"; valid_until = 145; created_at = 85 }

admits : (Store.create in_memory toy limits (codes "carol") (codes "t3") 85 85 both).1 ≡ ok carol
unfolding program
admits = refl

abbrev down : AuthError
down = backend_unavailable (codes "down")

-- a backend that takes no session
abbrev read_only : SessionBackend (Table Session)
read_only = record in_memory { insert = λ s t. (t, err down) }

read_only_laws : BackendLaws read_only Laws.IsValid
read_only_laws = record {
  insert_valid = λ s t v. v;
  remove_valid = in_memory_laws.remove_valid;
  purge_valid = in_memory_laws.purge_valid;
  remove_all_valid = in_memory_laws.remove_all_valid;
  get-inserted = λ s t v done. absurd (ground (arith, done));
  get-insert_other = λ k s t v other. refl;
  get-remove = in_memory_laws.get-remove;
  get-purge = in_memory_laws.get-purge;
  get-remove_all = in_memory_laws.get-remove_all;
  get-token = λ k t {s} v e. in_memory_laws.get-token k t {s = s} v e;
  len-insert = λ s t. omega arith;
  len-remove = in_memory_laws.len-remove;
  len-purge = in_memory_laws.len-purge;
  for_did_stored = λ did t {s} v m. in_memory_laws.for_did_stored did t {s = s} v m;
  for_did-insert = λ did s t. omega arith;
  for_did-remove = in_memory_laws.for_did-remove;
  for_did-remove-lt = in_memory_laws.for_did-remove-lt;
  for_did-purge = in_memory_laws.for_did-purge;
}

-- a sweep makes room, and the insert fails
unavailable :
    (Store.create read_only toy limits (codes "carol") (codes "t3") 90 90 both).1 ≡ err down
unfolding program
unavailable = refl

create_refuses_iff_example :
    ((Store.create read_only toy limits (codes "carol") (codes "t3") 90 90 both).1 ≡ err down) ↔ (
      ((down ≡ session_store_full 2) × (2 ≤ len (in_memory.purge_expired 90 both).0))
      ⊎ ((read_only.len
              (room read_only read_only_laws toy limits (codes "carol") (codes "t3") 90 90 both)
            < 2)
          × ((inserted read_only read_only_laws toy limits (codes "carol") (codes "t3") 90 (
                room read_only read_only_laws toy limits (codes "carol") (codes "t3") 90 90 both)).1
              ≡ err down)))
create_refuses_iff_example =
    create_refuses_iff read_only read_only_laws toy limits (codes "carol") (codes "t3") 90 90 both
      down

abbrev later_calls : List Revoked.Call
later_calls = Revoked.create_for (codes "alice") (codes "t4") 50 50 ∷ Revoked.sweep_at 60 ∷ []

revoked_forever_example :
    (Store.validate in_memory
      (codes "t1")
      70
      (Revoked.run in_memory toy limits (Store.revoke in_memory (codes "t1") both).0 later_calls)).1
    ≡ err session_not_found
revoked_forever_example =
    revoked_forever in_memory in_memory_laws toy limits (codes "t1") later_calls both 70
      both-IsValid ((λ h. ground arith), (tt, tt))

-- nonces

abbrev guard : NonceReplayGuard
guard = record { seen = (codes "n1", pos 90) ∷ []; capacity = 2 }

guard-IsValid : Once.IsValid guard
unfolding program
guard-IsValid = record { positive = omega arith; bounded = omega arith; unique = (refl, tt) }

seen_n1 : get (codes "n1") guard.seen ≡ some (pos 90)
unfolding program
seen_n1 = refl

accepts_iff_unseen_example :
    (((check_and_record_at guard (codes "n2") (pos 99) (pos 10)).1 ≡ ok tt)
      × (get (codes "n2") guard.seen ≡ none)
      × (get (codes "n2") (check_and_record_at guard (codes "n2") (pos 99) (pos 10)).0.seen
          ≡ some (pos 99)))
    ⊎ ((check_and_record_at guard (codes "n2") (pos 99) (pos 10) ≡ (guard, err nonce_replayed))
        × (get (codes "n2") guard.seen ≢ none))
accepts_iff_unseen_example = accepts_iff_unseen guard (codes "n2") (pos 99) (pos 10)

check_and_record-IsValid_example :
    Once.IsValid (check_and_record_at guard (codes "n2") (pos 99) (pos 10)).0
check_and_record-IsValid_example =
    check_and_record-IsValid guard (codes "n2") (pos 99) (pos 10) guard-IsValid

-- ===== src/Challenge.antt =====
-- src/challenge.rs: the store of pending challenges. A method takes the clock readings and the
-- random bytes of its run, and returns the new store beside its result.
pub mod Capacity
pub mod SingleUse
use aqua_auth.Prelude.{
  ℕ, ◌+◌, ◌-◌, ◌^◌, Bool, true, false, arith, List, [], ◌∷◌, ◌++◌, Option, none, some, Result, ok,
  err, ◌>>=◌, if◌then◌else◌, ltb, leb, map_err, ◌≡◌,
}
use aqua_auth.Prelude.Int.{ℤ, pos, negsuc}
use aqua_auth.Env.{Env}
use aqua_auth.Errors.{AuthError, crypto, challenge_not_found, challenge_expired}
use aqua_auth.Text.{Text, Bytes, codes}
use aqua_auth.Table.{Table, get, insert, remove, retain, len}
use aqua_auth.Table.Minimum.{Rank}
use aqua_auth.Table.Bounded.{remove_min, make_room}
use aqua_auth.Did.Format.{validate_did_well_formed}
use aqua_auth.Message.{Chrono, MessageParams, build_message}

-- `Challenge` of src/types.rs
pub record Challenge : Type 0 where
  pub did : Text
  pub nonce : Text
  pub message : Text
  pub expires_at : ℕ

pub record ChallengeStore : Type 0 where
  pub challenges : Table Challenge
  pub ttl_secs : ℕ
  pub domain : Text
  pub uri : Text
  pub max_challenges : ℕ

abbrev pub default_max_challenges : ℕ
default_max_challenges = 8192

unfoldable pub with_capacity : ℕ → Text → Text → ℕ → ChallengeStore
with_capacity ttl_secs domain uri max_challenges = record {
  challenges = [];
  ttl_secs = ttl_secs;
  domain = domain;
  uri = uri;
  max_challenges = max_challenges;
}

-- `n as u64` of an `i64`, and `n as i64` of a `u64`
unfoldable pub as_u64 : ℤ → ℕ
as_u64 (pos n) = n
as_u64 (negsuc n) = 2 ^ 64 - 1 - n

unfoldable pub as_i64 : ℕ → ℤ
as_i64 n = if ltb n (2 ^ 63) then pos n else negsuc (2 ^ 64 - 1 - n)

-- `a.value().expires_at.cmp(&b.value().expires_at)`
abbrev pub expiry_le : Challenge → Challenge → Bool
expiry_le a b = leb a.expires_at b.expires_at

pub expiry_le_total : (a b : Challenge) → expiry_le a b ≡ false → expiry_le b a ≡ true
expiry_le_total a b h = ground arith

pub expiry_le_trans :
    (a b c : Challenge) → expiry_le a b ≡ true → expiry_le b c ≡ true → expiry_le a c ≡ true
expiry_le_trans a b c h k = ground arith

abbrev pub by_expiry : Rank Challenge
by_expiry = record { le = expiry_le; le_total = expiry_le_total; le_trans = expiry_le_trans }

-- `cleanup_expired` at the clock reading `now`
unfoldable pub cleanup_expired : ℕ → Table Challenge → Table Challenge
cleanup_expired now = retain (λ c. ltb now c.expires_at)

unfoldable pub evict_oldest : Table Challenge → Table Challenge
evict_oldest = remove_min by_expiry

-- the part of `create` that makes room, at the clock reading of `cleanup_expired`
unfoldable pub room_for_one : ℕ → ℕ → Table Challenge → Table Challenge
room_for_one max_challenges now = make_room by_expiry (λ c. ltb now c.expires_at) max_challenges

module _ (env : Env) {T : Type 0} (chrono : Chrono T) where
  -- `Utc::now().timestamp() as u64`
  unfoldable pub now_secs : T → ℕ
  now_secs now = as_u64 (chrono.timestamp now)

  -- the challenge that `create` builds at the time `now` from the random bytes
  unfoldable pub new_challenge : ChallengeStore → Text → Bytes → T → Result AuthError Challenge
  new_challenge s did nonce_bytes now = do
    let nonce = codes "0x" ++ env.hex_encode nonce_bytes
    let expires = chrono.plus_seconds now (as_i64 s.ttl_secs)
    message ← build_message env chrono (record {
      did = did;
      domain = s.domain;
      uri = s.uri;
      nonce = nonce;
      issued_at = now;
      expiration_time = expires;
    })
    ok (record {
      did = did;
      nonce = nonce;
      message = message;
      expires_at = as_u64 (chrono.timestamp expires);
    })

  -- `create`; `swept` is the clock reading of the sweep and `now` that of the challenge
  unfoldable pub create :
      ChallengeStore → Text → Bytes → T → T → ChallengeStore × Result AuthError Challenge
  create s did nonce_bytes swept now = elim (validate_did_well_formed env did) [
    | err e ↦ (s, err (crypto e))
    | ok u ↦
        let room = room_for_one s.max_challenges (now_secs swept) s.challenges in
        elim (new_challenge s did nonce_bytes now) [
          | err e ↦ (record s { challenges = room }, err e)
          | ok c ↦ (record s { challenges = insert c.nonce c room }, ok c)
        ]
  ]

-- `validate` at the clock reading `now`
unfoldable pub validate : ChallengeStore → Text → ℕ → ChallengeStore × Result AuthError Challenge
validate s nonce now = elim (get nonce s.challenges) [
  | none ↦ (s, err challenge_not_found)
  | some c ↦
      let s' = record s { challenges = remove nonce s.challenges } in
      if leb c.expires_at now then (s', err challenge_expired) else (s', ok c)
]

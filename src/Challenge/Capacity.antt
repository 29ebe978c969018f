-- ===== src/Challenge/Capacity.antt =====
-- How many challenges are pending, and which ones a new challenge displaces.
use aqua_auth.Prelude.{
  ◌≤◌, ◌<◌, max, ◌≡◌, ◌≢◌, ◌⊎◌, inl, inr, true, false, ◌++◌, some, ok, arith, ltb, lt→ltb,
  Result-cases, >>=-eq-ok,
}
use mathlib.Core.List.{Memᴰ}
use aqua_auth.Env.{Env}
use aqua_auth.Text.{Text, Bytes, codes, text_eq}
use aqua_auth.Text.Laws.{ne→text_eq}
use aqua_auth.Table.{Table, get, len, HasUniqueKeys}
use aqua_auth.Table.Laws.{len-insert-le, get-insert, insert-HasUniqueKeys}
use aqua_auth.Table.Minimum.{entry_le}
use aqua_auth.Table.Bounded.{len-make_room-lt, make_room-HasUniqueKeys, make_room_loses}
use aqua_auth.Did.Format.{validate_did_well_formed}
use aqua_auth.Message.{Chrono, build_message}
use aqua_auth.Challenge.{
  Challenge, ChallengeStore, by_expiry, cleanup_expired, room_for_one, now_secs, new_challenge,
  create,
}

module _ (env : Env) {T : Type 0} (chrono : Chrono T) where
  -- the key of a new challenge is `0x` and the hex form of the random bytes
  pub new_challenge-nonce :
      (s : ChallengeStore) (did : Text) (nonce_bytes : Bytes) (now : T) {c : Challenge}
      → new_challenge env chrono s did nonce_bytes now ≡ ok c
      → c.nonce ≡ codes "0x" ++ env.hex_encode nonce_bytes
  unfolding new_challenge
  new_challenge-nonce s did nonce_bytes now h =
      let (m, built, rest) = >>=-eq-ok (build_message env chrono _) _ h in ground arith

  -- `create` keeps the number of pending challenges within the capacity, where a capacity of 0
  -- counts as 1, whatever the clock reads and whatever the DID is.
  pub create_capacity :
      (s : ChallengeStore) (did : Text) (nonce_bytes : Bytes) (swept now : T)
      → len s.challenges ≤ max s.max_challenges 1
      → len (create env chrono s did nonce_bytes swept now).0.challenges
        ≤ max (create env chrono s did nonce_bytes swept now).0.max_challenges 1
  unfolding create room_for_one
  create_capacity s did nonce_bytes swept now h =
      elim (Result-cases (validate_did_well_formed env did)) [
        | inr (e, bad) ↦ rw (bad, create) h
        | inl (u, good) ↦ elim (Result-cases (new_challenge env chrono s did nonce_bytes now)) [
          | inr (e, failed) ↦ rw (good, failed, create) (omega (arith, room_lt))
          | inl (c, made) ↦
              rw (good, made, create)
                (omega (arith, room_lt, len-insert-le {V = Challenge} c.nonce c room))
        ]
      ]
    where
      room : Table Challenge
      room = room_for_one s.max_challenges (now_secs env chrono swept) s.challenges

      room_lt : len room < max s.max_challenges 1
      room_lt =
          len-make_room-lt by_expiry (λ c. ltb (now_secs env chrono swept) c.expires_at)
            s.max_challenges s.challenges h

  -- One entry for each nonce, whatever is called.
  pub create-HasUniqueKeys :
      (s : ChallengeStore) (did : Text) (nonce_bytes : Bytes) (swept now : T)
      → HasUniqueKeys s.challenges
      → HasUniqueKeys (create env chrono s did nonce_bytes swept now).0.challenges
  unfolding create room_for_one
  create-HasUniqueKeys s did nonce_bytes swept now u =
      elim (Result-cases (validate_did_well_formed env did)) [
        | inr (e, bad) ↦ rw (bad, create) u
        | inl (v, good) ↦ elim (Result-cases (new_challenge env chrono s did nonce_bytes now)) [
          | inr (e, failed) ↦ rw (good, failed, create) room
          | inl (c, made) ↦ rw (good, made, create) (insert-HasUniqueKeys c.nonce c _ room)
        ]
      ]
    where
      room : HasUniqueKeys (room_for_one s.max_challenges (now_secs env chrono swept) s.challenges)
      room =
          make_room-HasUniqueKeys by_expiry (λ c. ltb (now_secs env chrono swept) c.expires_at)
            s.max_challenges s.challenges u

  -- A pending challenge that is not expired at the sweep survives the creation of another one, or
  -- the store was full of unexpired challenges and it was among the ones that expire first.
  pub create_displaces :
      (s : ChallengeStore) (did : Text) (nonce_bytes : Bytes) (swept now : T) (nonce : Text)
      (c : Challenge)
      → HasUniqueKeys s.challenges
      → get nonce s.challenges ≡ some c
      → now_secs env chrono swept < c.expires_at
      → codes "0x" ++ env.hex_encode nonce_bytes ≢ nonce
      → (get nonce (create env chrono s did nonce_bytes swept now).0.challenges ≡ some c)
        ⊎ ((s.max_challenges ≤ len (cleanup_expired (now_secs env chrono swept) s.challenges))
            × ((x : Text × Challenge)
                → Memᴰ x (cleanup_expired (now_secs env chrono swept) s.challenges)
                → c.expires_at ≤ x.1.expires_at))
  unfolding create room_for_one cleanup_expired entry_le
  create_displaces s did nonce_bytes swept now nonce c u stored alive other = elim survives [
    | inr (full, least) ↦ inr (full, λ x m. ground (arith, least x m))
    | inl kept ↦ inl (elim (Result-cases (validate_did_well_formed env did)) [
      | inr (e, bad) ↦ rw (bad, create) stored
      | inl (v, good) ↦ elim (Result-cases (new_challenge env chrono s did nonce_bytes now)) [
        | inr (e, failed) ↦ rw (good, failed, create) kept
        | inl (c', made) ↦
            let fresh : text_eq c'.nonce nonce ≡ false =
              rw (new_challenge-nonce s did nonce_bytes now made) (ne→text_eq _ nonce other) in
            rw (good, made, create) (rw (get-insert, fresh) kept)
      ]
    ])
  ]
    where
      survives :
          (get nonce (room_for_one s.max_challenges (now_secs env chrono swept) s.challenges)
            ≡ some c)
          ⊎ ((s.max_challenges ≤ len (cleanup_expired (now_secs env chrono swept) s.challenges))
              × ((x : Text × Challenge)
                  → Memᴰ x (cleanup_expired (now_secs env chrono swept) s.challenges)
                  → entry_le by_expiry (nonce, c) x ≡ true))
      survives =
          make_room_loses by_expiry (λ d. ltb (now_secs env chrono swept) d.expires_at)
            s.max_challenges nonce s.challenges c u stored (lt→ltb _ _ alive)

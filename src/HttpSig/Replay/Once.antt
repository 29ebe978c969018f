-- ===== src/HttpSig/Replay/Once.antt =====
-- Bounded memory, and single use of a nonce while the guard remembers it.
use aqua_auth.Prelude.{
  ◌+◌, ◌≤◌, ◌<◌, ◌≡◌, ◌≢◌, refl, ◌⊎◌, inl, inr, false, List, [], ◌∷◌, none, some, ok, err, arith,
  Bool-cases, Option-cases, lt→ltb, ap, length,
}
use mathlib.Core.List.{Memᴰ}
use aqua_auth.Prelude.Int.{ℤ, ◌≤ℤ◌, ◌<ℤ◌, ltb_ℤ}
use aqua_auth.Text.{Text, text_eq}
use aqua_auth.Text.Laws.{ne→text_eq, text_eq_refl}
use aqua_auth.Table.{Table, get, contains_key, insert, len, HasUniqueKeys}
use aqua_auth.Table.Laws.{
  contains_key-of_get, get-of_contains_key, get-insert, len-insert-le, insert-HasUniqueKeys,
}
use aqua_auth.Table.Minimum.{entry_le}
use aqua_auth.Table.Bounded.{
  len-make_room-lt, make_room-HasUniqueKeys, get-make_room-none, make_room_below, make_room_loses,
}
use aqua_auth.HttpSig.Errors.{nonce_replayed}
use aqua_auth.HttpSig.Replay.{
  NonceReplayGuard, by_expires, cleanup_expired_at, room_for_one, check_and_record_at,
}

-- The guard is within its capacity, which is at least 1, and holds one entry for each nonce.
pub record IsValid (g : NonceReplayGuard) : Type 0 where
  pub positive : 0 < g.capacity
  pub bounded : len g.seen ≤ g.capacity
  pub unique : HasUniqueKeys g.seen

absent-contains_key : (k : Text) (t : Table ℤ) → get k t ≡ none → contains_key k t ≡ false
absent-contains_key k t h = elim (Bool-cases (contains_key k t)) [
  | inl e ↦ let (v, found) = get-of_contains_key k t e in cc
  | inr e ↦ e
]

module _ (g : NonceReplayGuard) (nonce : Text) (expires_at now : ℤ) where
  room : Table ℤ
  room = room_for_one g.capacity now g.seen

  -- a nonce is refused exactly when it is remembered, and the second look never finds it
  check_fresh :
      get nonce g.seen ≡ none
      → check_and_record_at g nonce expires_at now
        ≡ (record g { seen = insert nonce expires_at room }, ok tt)
  unfolding check_and_record_at room room_for_one
  check_fresh h =
      let gone = get-make_room-none by_expires (λ e. ltb_ℤ now e) g.capacity nonce g.seen h in
      rw (absent-contains_key nonce g.seen h, absent-contains_key nonce _ gone) refl

  check_seen :
      (e : ℤ)
      → get nonce g.seen ≡ some e
      → check_and_record_at g nonce expires_at now ≡ (g, err nonce_replayed)
  unfolding check_and_record_at
  check_seen e h = rw (contains_key-of_get nonce g.seen h) refl

-- The guard accepts a nonce exactly when it does not remember it; it then remembers it with the
-- `expires` given, and a refusal changes nothing.
pub accepts_iff_unseen :
    (g : NonceReplayGuard) (nonce : Text) (expires_at now : ℤ)
    → (((check_and_record_at g nonce expires_at now).1 ≡ ok tt)
        × (get nonce g.seen ≡ none)
        × (get nonce (check_and_record_at g nonce expires_at now).0.seen ≡ some expires_at))
      ⊎ ((check_and_record_at g nonce expires_at now ≡ (g, err nonce_replayed))
          × (get nonce g.seen ≢ none))
accepts_iff_unseen g nonce expires_at now = elim (Option-cases (get nonce g.seen)) [
  | inl fresh ↦ inl (
      rw (check_fresh g nonce expires_at now fresh)
        (refl, fresh, rw (get-insert, text_eq_refl nonce) refl))
  | inr (e, found) ↦ inr (check_seen g nonce expires_at now e found, λ h. cc)
]

-- The guard keeps its capacity and one entry for each nonce.
pub check_and_record-IsValid :
    (g : NonceReplayGuard) (nonce : Text) (expires_at now : ℤ)
    → IsValid g
    → IsValid (check_and_record_at g nonce expires_at now).0
unfolding room room_for_one
check_and_record-IsValid g nonce expires_at now v = elim (Option-cases (get nonce g.seen)) [
  | inr (e, found) ↦ rw (check_seen g nonce expires_at now e found) v
  | inl fresh ↦
      let alive = λ (e : ℤ). ltb_ℤ now e in
      let lt = len-make_room-lt by_expires alive g.capacity g.seen (omega (arith, v.bounded)) in
      let u = make_room-HasUniqueKeys by_expires alive g.capacity g.seen v.unique in
      rw (check_fresh g nonce expires_at now fresh) (record {
        positive = v.positive;
        bounded = omega (
          arith,
          lt,
          v.positive,
          len-insert-le {V = ℤ} nonce expires_at (room g nonce expires_at now),
        );
        unique = insert-HasUniqueKeys nonce expires_at _ u;
      })
]

-- A remembered nonce whose signature has not expired stays remembered when another nonce is
-- checked, or the guard was full of unexpired nonces and it was among those that expire first.
pub check_displaces :
    (g : NonceReplayGuard) (nonce : Text) (expires_at now : ℤ) (kept : Text) (e : ℤ)
    → IsValid g
    → get kept g.seen ≡ some e
    → now <ℤ e
    → nonce ≢ kept
    → (get kept (check_and_record_at g nonce expires_at now).0.seen ≡ some e)
      ⊎ ((g.capacity ≤ len (cleanup_expired_at now g.seen))
          × ((x : Text × ℤ) → Memᴰ x (cleanup_expired_at now g.seen) → e ≤ℤ x.1))
unfolding room room_for_one cleanup_expired_at entry_le
check_displaces g nonce expires_at now kept e v stored alive other =
    elim (Option-cases (get nonce g.seen)) [
      | inr (f, found) ↦ inl (rw (check_seen g nonce expires_at now f found) stored)
      | inl fresh ↦
          elim (make_room_loses by_expires (λ f. ltb_ℤ now f) g.capacity kept g.seen e v.unique
            stored (lt→ltb _ _ alive)) [
              | inr (full, least) ↦ inr (full, λ x m. ground (arith, least x m))
              | inl there ↦ inl (
                  rw (check_fresh g nonce expires_at now fresh)
                    (rw (get-insert, ne→text_eq nonce kept other) there))
            ]
    ]

-- A sequence of checks, each with its nonce, `expires` and clock reading.
unfoldable pub run : List (Text × ℤ × ℤ) → NonceReplayGuard → NonceReplayGuard
run [] g = g
run ((nonce, expires_at, now) ∷ calls) g = run calls (check_and_record_at g nonce expires_at now).0

check_below :
    (g : NonceReplayGuard) (nonce : Text) (expires_at now : ℤ) (kept : Text) (e : ℤ)
    → len g.seen < g.capacity
    → get kept g.seen ≡ some e
    → ((f : ℤ) × (get kept (check_and_record_at g nonce expires_at now).0.seen ≡ some f))
      × (len (check_and_record_at g nonce expires_at now).0.seen ≤ len g.seen + 1)
      × ((check_and_record_at g nonce expires_at now).0.capacity ≡ g.capacity)
unfolding room room_for_one
check_below g nonce expires_at now kept e below stored = elim (Option-cases (get nonce g.seen)) [
  | inr (f, found) ↦ rw (check_seen g nonce expires_at now f found) ((e, stored), omega arith, refl)
  | inl fresh ↦
      rw
        (
          check_fresh g nonce expires_at now fresh,
          make_room_below by_expires (λ f. ltb_ℤ now f) g.capacity g.seen below,
        )
        ((e, rw (get-insert, other fresh) stored), len-insert_le nonce expires_at g.seen, refl)
]
  where
    other : get nonce g.seen ≡ none → text_eq nonce kept ≡ false
    other fresh = ne→text_eq nonce kept (λ p. ground (arith, ap (λ (k : Text). get k g.seen) p))

    len-insert_le : (k : Text) (f : ℤ) (t : Table ℤ) → len (insert k f t) ≤ len t + 1
    len-insert_le k f t = len-insert-le k f t

-- While the guard has room for every check that follows, an accepted nonce is never honoured
-- again, expired or not.
pub replay_refused :
    (calls : List (Text × ℤ × ℤ)) (g : NonceReplayGuard) (nonce : Text) (e expires_at now : ℤ)
    → get nonce g.seen ≡ some e
    → len g.seen + length calls ≤ g.capacity
    → (check_and_record_at (run calls g) nonce expires_at now).1 ≡ err nonce_replayed
unfolding run
replay_refused [] g nonce e expires_at now stored fits =
    rw (check_seen g nonce expires_at now e stored) refl
replay_refused ((other, f, at) ∷ calls) g nonce e expires_at now stored fits =
    let ((e', kept), grown, same) = check_below g other f at nonce e (omega arith) stored in
    replay_refused calls (check_and_record_at g other f at).0 nonce e' expires_at now kept
      (omega arith)

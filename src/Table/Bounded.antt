-- ===== src/Table/Bounded.antt =====
-- Making room in a map of bounded size, as the stores do: sweep what is dead, and if the map is
-- still full remove its minimum.
use aqua_auth.Prelude.{
  ℕ, ◌≤◌, ◌<◌, max, ◌≡◌, refl, ap, ◌⊎◌, inl, inr, Bool, true, none, some, arith, if◌then◌else◌, leb,
  Bool-cases, Option-cases,
}
use mathlib.Core.List.{Memᴰ}
use aqua_auth.Text.{Text, text_eq}
use aqua_auth.Text.Laws.{text_eq→eq}
use aqua_auth.Table.{Table, get, remove, retain, len, HasUniqueKeys}
use aqua_auth.Table.Laws.{
  len-remove-lt, len-remove-le, len-retain-le, get-remove, get-retain, get-retain-none,
  remove-HasUniqueKeys, retain-HasUniqueKeys,
}
use aqua_auth.Table.Minimum.{
  Rank, min_by, min_by-Memᴰ, min_by-le, min_by-ne-none, get-Memᴰ-ne-none, get-Memᴰ, entry_le,
}

module _ {ℓ} {V : Type ℓ} (r : Rank V) where
  -- removes the key of the first minimum
  unfoldable pub remove_min : Table V → Table V
  remove_min t = elim (min_by r t) [ none ↦ t | some (k, v) ↦ remove k t ]

  -- `if len >= cap { retain(alive); if len >= cap { remove_min } }`
  unfoldable pub make_room : (V → Bool) → ℕ → Table V → Table V
  make_room alive cap t =
      if leb cap (len t)
      then (let t' = retain alive t in if leb cap (len t') then remove_min t' else t')
      else t

  len-remove_min-lt : (t : Table V) → 0 < len t → len (remove_min t) < len t
  unfolding remove_min
  len-remove_min-lt t h = elim (Option-cases (min_by r t)) [
    | inl e ↦ absurd (min_by-ne-none r t h e)
    | inr ((k, c), e) ↦ elim (Option-cases (get k t)) [
      | inl absent ↦ absurd (get-Memᴰ-ne-none (min_by-Memᴰ r t e) absent)
      | inr (v, present) ↦ rw (e, remove_min) (len-remove-lt k t present)
    ]
  ]

  len-remove_min-le : (t : Table V) → len (remove_min t) ≤ len t
  unfolding remove_min
  len-remove_min-le t = elim (Option-cases (min_by r t)) [
    | inl e ↦ rw (e, remove_min) (omega arith)
    | inr ((k, c), e) ↦ rw (e, remove_min) (len-remove-le k t)
  ]

  remove_min-HasUniqueKeys : (t : Table V) → HasUniqueKeys t → HasUniqueKeys (remove_min t)
  unfolding remove_min
  remove_min-HasUniqueKeys t u = elim (Option-cases (min_by r t)) [
    | inl e ↦ rw (e, remove_min) u
    | inr ((k, c), e) ↦ rw (e, remove_min) (remove-HasUniqueKeys k t u)
  ]

  get-remove_min-none : (j : Text) (t : Table V) → get j t ≡ none → get j (remove_min t) ≡ none
  unfolding remove_min
  get-remove_min-none j t h = elim (Option-cases (min_by r t)) [
    | inl e ↦ rw (e, remove_min) h
    | inr ((k, c), e) ↦ rw (e, remove_min) (ground (arith, get-remove j k t))
  ]

  -- What the removal of the minimum loses is the minimum.
  remove_min_loses :
      (j : Text) (t : Table V) (v : V)
      → HasUniqueKeys t
      → get j t ≡ some v
      → (get j (remove_min t) ≡ some v) ⊎ ((x : Text × V) → Memᴰ x t → entry_le r (j, v) x ≡ true)
  unfolding remove_min
  remove_min_loses j t v u h = elim (Option-cases (min_by r t)) [
    | inl e ↦ rw (e, remove_min) (inl h)
    | inr ((k, c), e) ↦ elim (Bool-cases (text_eq k j)) [
      | inl same ↦
          let key : k ≡ j = text_eq→eq k j same in
          let stored : get k t ≡ some c = get-Memᴰ (min_by-Memᴰ r t e) u in
          let value : c ≡ v = ground (arith, key, stored, h, ap (λ (x : Text). get x t) key) in
          inr (λ x m. rw (← key, ← value) (min_by-le r t e m))
      | inr other ↦ rw (e, remove_min) (inl (rw (get-remove, other) h))
    ]
  ]

  -- After making room there is a free slot; a map of capacity 0 counts as one of capacity 1.
  pub len-make_room-lt :
      (alive : V → Bool) (cap : ℕ) (t : Table V)
      → len t ≤ max cap 1
      → len (make_room alive cap t) < max cap 1
  unfolding make_room
  len-make_room-lt alive cap t h = ground (
    arith,
    len-retain-le alive t,
    len-remove_min-lt (retain alive t),
    len-remove_min-le (retain alive t),
  )

  pub make_room-HasUniqueKeys :
      (alive : V → Bool) (cap : ℕ) (t : Table V)
      → HasUniqueKeys t
      → HasUniqueKeys (make_room alive cap t)
  unfolding make_room
  make_room-HasUniqueKeys alive cap t u =
      let swept = retain-HasUniqueKeys alive t u in
      ground (arith, swept, remove_min-HasUniqueKeys (retain alive t) swept)

  pub get-make_room-none :
      (alive : V → Bool) (cap : ℕ) (j : Text) (t : Table V)
      → get j t ≡ none
      → get j (make_room alive cap t) ≡ none
  unfolding make_room
  get-make_room-none alive cap j t h =
      let swept = get-retain-none j alive t h in
      ground (arith, swept, get-remove_min-none j (retain alive t) swept)

  -- Below its capacity the map stays as it is.
  pub make_room_below :
      (alive : V → Bool) (cap : ℕ) (t : Table V) → len t < cap → make_room alive cap t ≡ t
  unfolding make_room
  make_room_below alive cap t h = ground arith

  -- A live value is lost only from a full map, and only if it is the minimum of the live values.
  pub make_room_loses :
      (alive : V → Bool) (cap : ℕ) (j : Text) (t : Table V) (v : V)
      → HasUniqueKeys t
      → get j t ≡ some v
      → alive v ≡ true
      → (get j (make_room alive cap t) ≡ some v)
        ⊎ ((cap ≤ len (retain alive t))
            × ((x : Text × V) → Memᴰ x (retain alive t) → entry_le r (j, v) x ≡ true))
  unfolding make_room
  make_room_loses alive cap j t v u h live = elim (Bool-cases (leb cap (len t))) [
    | inr below ↦ rw (below, make_room) (inl h)
    | inl full ↦
        let swept = retain-HasUniqueKeys alive t u in
        let kept : get j (retain alive t) ≡ some v = rw (get-retain j alive t u, h, live) refl in
        elim (Bool-cases (leb cap (len (retain alive t)))) [
          | inr below ↦ rw (full, below, make_room) (inl kept)
          | inl still ↦ elim (remove_min_loses j (retain alive t) v swept kept) [
            | inl there ↦ rw (full, still, make_room) (inl there)
            | inr least ↦ inr (ground arith, least)
          ]
        ]
  ]

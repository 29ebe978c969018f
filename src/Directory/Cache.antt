-- ===== src/Directory/Cache.antt =====
-- How long a directory document may be cached (`cache_seconds` of aqua-auth-directory/src/render.rs).
use aqua_auth.Prelude.{
  ℕ, ◌-◌, ◌≤◌, max, ◌≡◌, refl, ap, ◌⊎◌, inl, inr, List, [], ◌∷◌, map, some, arith, All, All-intro,
  sym, ◌∙◌, if◌then◌else◌, leb, Option-cases, Bool-cases,
}
use mathlib.Core.List.{Memᴰ}
use aqua_auth.Directory.{AdvertisedKey, min_of, unwrap_or, cache_seconds, min_cache_seconds}

module _ (now : ℕ) where
  abbrev remaining : AdvertisedKey → ℕ
  remaining k = k.exp - now

  min_of-some :
      (keys : List AdvertisedKey) {k : AdvertisedKey}
      → Memᴰ k keys
      → (n : ℕ) × (min_of (map remaining keys) ≡ some n) × (n ≤ k.exp - now)
  unfolding min_of
  min_of-some [] m = elim m [ ]
  min_of-some (x ∷ keys) {k} (Memᴰ.head p) =
      let same : k.exp ≡ x.exp = ap (λ (y : AdvertisedKey). y.exp) p in
      elim (Option-cases (min_of (map remaining keys))) [
        | inl e ↦ (remaining x, rw (e, min_of) refl, omega (arith, same))
        | inr (m, e) ↦ (
          if leb (remaining x) m then remaining x else m,
          rw (e, min_of) refl,
          ground (arith, same),
        )
      ]
  min_of-some (x ∷ keys) {k} (Memᴰ.tail m) =
      let (l, e, le) = min_of-some keys m in
      (if leb (remaining x) l then remaining x else l, rw (e, min_of) refl, ground (arith, le))

  min_of-attained :
      (keys : List AdvertisedKey) {n : ℕ}
      → min_of (map remaining keys) ≡ some n
      → (k : AdvertisedKey) × Memᴰ k keys × (n ≡ k.exp - now)
  unfolding min_of
  min_of-attained [] h = cc
  min_of-attained (x ∷ keys) {n} h = elim (Option-cases (min_of (map remaining keys))) [
    | inl e ↦ (x, Memᴰ.head refl, ground (arith, h, e))
    | inr (l, e) ↦ elim (Bool-cases (leb (remaining x) l)) [
      | inl first ↦ (x, Memᴰ.head refl, ground (arith, h, e, first))
      | inr later ↦
          let (k, m, same) = min_of-attained keys e in
          (k, Memᴰ.tail m, ground (arith, h, e, later, same))
    ]
  ]

  -- Each key of a list lasts at least as long as the least of them.
  min_of-All :
      (keys : List AdvertisedKey) {n : ℕ} (c : ℕ)
      → min_of (map remaining keys) ≡ some n
      → c ≤ max n min_cache_seconds
      → All (λ (k : AdvertisedKey). c ≤ max (k.exp - now) min_cache_seconds) keys
  unfolding unwrap_or
  min_of-All keys c e h =
      All-intro (λ (k : AdvertisedKey). c ≤ max (k.exp - now) min_cache_seconds) keys
        (λ k m.
          let (l, least, le) = min_of-some keys m in
          omega (arith, h, le, ap (unwrap_or 0) (sym e ∙ least)))

  -- The cache time is at least a minute, also when no key is advertised. Beyond that minute it lasts
  -- no longer than any of the advertised keys, and it is as long as one of them lasts.
  pub cache_seconds_lem :
      (keys : List AdvertisedKey)
      → (min_cache_seconds ≤ cache_seconds keys now)
        × All
            (λ (k : AdvertisedKey). cache_seconds keys now ≤ max (k.exp - now) min_cache_seconds)
            keys
        × ((cache_seconds keys now ≡ min_cache_seconds)
            ⊎ ((soonest : AdvertisedKey) × Memᴰ soonest keys
                × (cache_seconds keys now ≡ soonest.exp - now)))
  unfolding cache_seconds
  cache_seconds_lem [] = (omega arith, tt, inl refl)
  cache_seconds_lem (x ∷ keys) =
      let (n, e, le) = min_of-some (x ∷ keys) (Memᴰ.head refl) in
      let (soonest, there, same) = min_of-attained (x ∷ keys) e in
      let value : cache_seconds (x ∷ keys) now ≡ max n min_cache_seconds =
        rw (cache_seconds, e) refl in
      (
        omega (arith, value),
        min_of-All (x ∷ keys) _ e (omega (arith, value)),
        elim (Bool-cases (leb n 60)) [
          | inl short ↦ inl (ground (arith, value, short))
          | inr long ↦ inr (soonest, there, ground (arith, value, long, same))
        ],
      )

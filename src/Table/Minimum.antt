-- ===== src/Table/Minimum.antt =====
-- `iter().min_by(…)` as the stores use it: by a value's rank, ties broken by the key, so that the
-- result does not depend on the order of iteration.
use aqua_auth.Prelude.{
  ◌≡◌, refl, ap, ◌≢◌, ◌⊎◌, inl, inr, Bool, true, false, [], ◌∷◌, Option, none, some, arith,
  if◌then◌else◌, Bool-cases, ◌<◌,
}
use aqua_auth.Text.{Text, text_eq, text_le}
use mathlib.Core.List.{Memᴰ}
use aqua_auth.Text.Laws.{
  text_eq→eq, text_le_total, text_le_trans, text_le_refl, text_eq_iff, text_eq_refl,
}
use aqua_auth.Table.{Table, get, len, HasUniqueKeys}

-- A rank to compare values by: `le a b` is `a.cmp(b) != Greater`.
pub record Rank {ℓ} (V : Type ℓ) : Type ℓ where
  pub le : V → V → Bool
  pub le_total : (a b : V) → le a b ≡ false → le b a ≡ true
  pub le_trans : (a b c : V) → le a b ≡ true → le b c ≡ true → le a c ≡ true

module _ {ℓ} {V : Type ℓ} where
  pub get-Memᴰ-ne-none : {e : Text × V} {t : Table V} → Memᴰ e t → get e.0 t ≢ none
  unfolding get
  get-Memᴰ-ne-none {e} (Memᴰ.head {x = x} p) =
      ground (arith, text_eq_iff e.0 x.0, ap (λ (y : Text × V). y.0) p)
  get-Memᴰ-ne-none {e} (Memᴰ.tail m) = ground (arith, get-Memᴰ-ne-none m)

  -- With one entry for each key, the entry is what a lookup of its key finds.
  pub get-Memᴰ : {e : Text × V} {t : Table V} → Memᴰ e t → HasUniqueKeys t → get e.0 t ≡ some e.1
  unfolding get
  get-Memᴰ {e} (Memᴰ.head {x = x} p) u = rw p (rw (text_eq_refl x.0) refl)
  get-Memᴰ {e} (Memᴰ.tail {x = x} {xs = t} m) u = elim (Bool-cases (text_eq e.0 x.0)) [
    | inl same ↦ absurd (get-Memᴰ-ne-none m (rw (text_eq→eq e.0 x.0 same) u.0))
    | inr other ↦ rw other (get-Memᴰ m u.1)
  ]

module _ {ℓ} {V : Type ℓ} (r : Rank V) where
  -- `a.value().cmp(b.value()).then_with(|| a.key().cmp(b.key())) != Greater`
  unfoldable pub entry_le : Text × V → Text × V → Bool
  entry_le a b = if r.le a.1 b.1 then (if r.le b.1 a.1 then text_le a.0 b.0 else true) else false

  -- `min_by` keeps the earlier of two entries that compare equal.
  unfoldable pub min_from : Text × V → Table V → Text × V
  min_from best [] = best
  min_from best (e ∷ t) = min_from (if entry_le best e then best else e) t

  unfoldable pub min_by : Table V → Option (Text × V)
  min_by [] = none
  min_by (e ∷ t) = some (min_from e t)

  pub entry_le_refl : (a : Text × V) → entry_le a a ≡ true
  unfolding entry_le
  entry_le_refl a = ground (arith, text_le_refl a.0, r.le_total a.1 a.1)

  entry_le_total : (a b : Text × V) → entry_le a b ≡ false → entry_le b a ≡ true
  unfolding entry_le
  entry_le_total a b h =
      ground (arith, text_le_total a.0 b.0, r.le_total a.1 b.1, r.le_total b.1 a.1)

  pub entry_le_trans :
      (a b c : Text × V) → entry_le a b ≡ true → entry_le b c ≡ true → entry_le a c ≡ true
  unfolding entry_le
  entry_le_trans a b c h k = ground (
    arith,
    text_le_trans a.0 b.0 c.0,
    r.le_trans a.1 b.1 c.1,
    r.le_trans c.1 b.1 a.1,
    r.le_trans b.1 c.1 a.1,
    r.le_trans c.1 a.1 b.1,
  )

  min_from-le_best : (best : Text × V) (t : Table V) → entry_le (min_from best t) best ≡ true
  unfolding min_from
  min_from-le_best best [] = entry_le_refl best
  min_from-le_best best (e ∷ t) = elim (Bool-cases (entry_le best e)) [
    | inl h ↦ rw (h, min_from) (min_from-le_best best t)
    | inr h ↦
        rw (h, min_from)
          (entry_le_trans (min_from e t) e best (min_from-le_best e t) (entry_le_total best e h))
  ]

  min_from-le :
      (best : Text × V) (t : Table V) {e : Text × V}
      → Memᴰ e t
      → entry_le (min_from best t) e ≡ true
  unfolding min_from
  min_from-le best [] m = elim m [ ]
  min_from-le best (x ∷ t) {e} (Memᴰ.head p) = rw p (elim (Bool-cases (entry_le best x)) [
    | inl h ↦ rw (h, min_from) (entry_le_trans (min_from best t) best x (min_from-le_best best t) h)
    | inr h ↦ rw (h, min_from) (min_from-le_best x t)
  ])
  min_from-le best (x ∷ t) (Memᴰ.tail m) = min_from-le (if entry_le best x then best else x) t m

  mem_of_sum :
      {m : Text × V} (best : Text × V) (t : Table V) → (m ≡ best) ⊎ Memᴰ m t → Memᴰ m (best ∷ t)
  mem_of_sum best t (inl p) = Memᴰ.head p
  mem_of_sum best t (inr q) = Memᴰ.tail q

  min_from-mem :
      (best : Text × V) (t : Table V) → (min_from best t ≡ best) ⊎ Memᴰ (min_from best t) t
  unfolding min_from
  min_from-mem best [] = inl refl
  min_from-mem best (e ∷ t) = elim (Bool-cases (entry_le best e)) [
    | inl h ↦
        rw (h, min_from) (elim (min_from-mem best t) [ inl p ↦ inl p | inr q ↦ inr (Memᴰ.tail q) ])
    | inr h ↦ rw (h, min_from) (inr (mem_of_sum e t (min_from-mem e t)))
  ]

  -- The minimum is an entry of the map.
  pub min_by-Memᴰ : (t : Table V) {e : Text × V} → min_by t ≡ some e → Memᴰ e t
  unfolding min_by
  min_by-Memᴰ [] h = cc
  min_by-Memᴰ (x ∷ t) {e} h =
      let eq : min_from x t ≡ e = ground arith in rw (← eq) (mem_of_sum x t (min_from-mem x t))

  -- No entry of the map compares less than the minimum.
  pub min_by-le :
      (t : Table V) {e x : Text × V} → min_by t ≡ some e → Memᴰ x t → entry_le e x ≡ true
  unfolding min_by
  min_by-le [] h m = cc
  min_by-le (y ∷ t) {e} {x} h m =
      let eq : min_from y t ≡ e = ground arith in
      rw (← eq)
        (elim m [ Memᴰ.head p ↦ rw p (min_from-le_best y t) | Memᴰ.tail q ↦ min_from-le y t q ])

  pub min_by-ne-none : (t : Table V) → 0 < len t → min_by t ≢ none
  unfolding min_by
  min_by-ne-none [] h = absurd (omega arith)
  min_by-ne-none (x ∷ t) h = λ e. cc

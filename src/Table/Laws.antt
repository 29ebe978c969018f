-- ===== src/Table/Laws.antt =====
-- What can be read after each operation of a map, and what it does to the number of entries.
use aqua_auth.Prelude.{
  ◌+◌, ◌≤◌, ◌<◌, ◌≡◌, refl, Bool, true, false, [], ◌∷◌, none, some, arith, if◌then◌else◌, inl, inr,
  Bool-cases, length-keep-le,
}
use aqua_auth.Text.{Text, text_eq}
use aqua_auth.Text.Laws.{text_eq_refl, text_eq_iff, text_eq_comm}
use aqua_auth.Table.{Table, get, contains_key, remove, insert, retain, len, HasUniqueKeys}

module _ {ℓ} {V : Type ℓ} where
  pub get-remove :
      (j k : Text) (t : Table V) → get j (remove k t) ≡ (if text_eq k j then none else get j t)
  unfolding get remove
  get-remove j k [] = ground arith
  get-remove j k ((i, v) ∷ t) =
      ground (arith, get-remove j k t, text_eq_iff k i, text_eq_iff j i, text_eq_iff k j)

  -- A read after a write sees the written value at its key, and the old values elsewhere.
  pub get-insert :
      (j k : Text) (v : V) (t : Table V)
      → get j (insert k v t) ≡ (if text_eq k j then some v else get j t)
  unfolding get insert
  get-insert j k v t = ground (arith, get-remove j k t, text_eq_comm j k)

  pub contains_key-get : (k : Text) (t : Table V) → contains_key k t ≡ false → get k t ≡ none
  unfolding get contains_key
  contains_key-get k [] h = refl
  contains_key-get k ((i, v) ∷ t) h = ground (arith, contains_key-get k t)

  pub contains_key-of_get :
      (k : Text) (t : Table V) {v : V} → get k t ≡ some v → contains_key k t ≡ true
  unfolding get contains_key
  contains_key-of_get k [] h = cc
  contains_key-of_get k ((i, w) ∷ t) {v} h = ground (arith, contains_key-of_get k t {v = v})

  pub get-of_contains_key :
      (k : Text) (t : Table V) → contains_key k t ≡ true → (v : V) × (get k t ≡ some v)
  unfolding get contains_key
  get-of_contains_key k [] h = cc
  get-of_contains_key k ((i, w) ∷ t) h = elim (Bool-cases (text_eq k i)) [
    | inl e ↦ (w, rw e refl)
    | inr e ↦ rw e (get-of_contains_key k t (ground arith))
  ]

  pub remove_absent : (k : Text) (t : Table V) → get k t ≡ none → remove k t ≡ t
  unfolding get remove
  remove_absent k [] h = refl
  remove_absent k ((i, v) ∷ t) h = ground (arith, remove_absent k t)

  pub get-retain-none :
      (k : Text) (p : V → Bool) (t : Table V) → get k t ≡ none → get k (retain p t) ≡ none
  unfolding get retain
  get-retain-none k p [] h = refl
  get-retain-none k p ((i, v) ∷ t) h = ground (arith, get-retain-none k p t)

  -- `retain` keeps exactly the values that pass the test.
  pub get-retain :
      (k : Text) (p : V → Bool) (t : Table V)
      → HasUniqueKeys t
      → get k (retain p t) ≡ elim (get k t) [ none ↦ none | some v ↦ if p v then some v else none ]
  unfolding get retain
  get-retain k p [] u = refl
  get-retain k p ((i, v) ∷ t) (fresh, u) =
      ground (arith, get-retain k p t u, get-retain-none k p t, text_eq_iff k i)

  pub remove-HasUniqueKeys : (k : Text) (t : Table V) → HasUniqueKeys t → HasUniqueKeys (remove k t)
  unfolding remove
  remove-HasUniqueKeys k [] u = tt
  remove-HasUniqueKeys k ((i, v) ∷ t) (fresh, u) =
      ground (arith, remove-HasUniqueKeys k t u, get-remove i k t)

  pub insert-HasUniqueKeys :
      (k : Text) (v : V) (t : Table V) → HasUniqueKeys t → HasUniqueKeys (insert k v t)
  unfolding insert
  insert-HasUniqueKeys k v t u =
      ground (arith, remove-HasUniqueKeys k t u, get-remove k k t, text_eq_refl k)

  pub retain-HasUniqueKeys :
      (p : V → Bool) (t : Table V) → HasUniqueKeys t → HasUniqueKeys (retain p t)
  unfolding retain
  retain-HasUniqueKeys p [] u = tt
  retain-HasUniqueKeys p ((i, v) ∷ t) (fresh, u) =
      ground (arith, retain-HasUniqueKeys p t u, get-retain-none i p t)

  pub len-remove-le : (k : Text) (t : Table V) → len (remove k t) ≤ len t
  unfolding remove
  len-remove-le k t = length-keep-le _ t

  pub len-retain-le : (p : V → Bool) (t : Table V) → len (retain p t) ≤ len t
  unfolding retain
  len-retain-le p t = length-keep-le _ t

  -- Removing a key that is there frees a slot.
  pub len-remove-lt : (k : Text) (t : Table V) {v : V} → get k t ≡ some v → len (remove k t) < len t
  unfolding get remove
  len-remove-lt k [] h = cc
  len-remove-lt k ((i, w) ∷ t) {v} h = elim (Bool-cases (text_eq k i)) [
    | inl e ↦ rw e (omega (arith, len-remove-le k t))
    | inr e ↦ rw e (omega (arith, len-remove-lt k t {v = v} (ground arith)))
  ]

  pub len-insert-le : (k : Text) (v : V) (t : Table V) → len (insert k v t) ≤ len t + 1
  unfolding insert
  len-insert-le k v t = omega (arith, len-remove-le k t)

  pub len-insert_fresh :
      (k : Text) (v : V) (t : Table V) → get k t ≡ none → len (insert k v t) ≡ len t + 1
  unfolding insert
  len-insert_fresh k v t h = rw (remove_absent k t h) (omega arith)

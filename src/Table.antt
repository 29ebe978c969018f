-- ===== src/Table.antt =====
-- The hash maps of the sources (`DashMap<String, V>`, `HashMap<Vec<u8>, V>`): a list of entries, in
-- an iteration order that no theorem fixes, with one entry for each key while the map's own
-- operations are the only writers. Calls are taken one at a time.
pub mod Laws
pub mod Minimum
pub mod Bounded
use aqua_auth.Prelude.{
  ℕ, Bool, not, List, [], ◌∷◌, map, Option, none, some, length, keep, if◌then◌else◌, ◌≡◌,
}
use aqua_auth.Text.{Text, text_eq}

abbrev pub Table {ℓ} : Type ℓ → Type ℓ
Table V = List (Text × V)

module _ {ℓ} {V : Type ℓ} where
  unfoldable pub get : Text → Table V → Option V
  get k [] = none
  get k ((j, v) ∷ t) = if text_eq k j then some v else get k t

  unfoldable pub contains_key : Text → Table V → Bool
  contains_key k [] = Bool.false
  contains_key k ((j, v) ∷ t) = if text_eq k j then Bool.true else contains_key k t

  unfoldable pub remove : Text → Table V → Table V
  remove k = keep (λ e. not (text_eq k e.0))

  unfoldable pub insert : Text → V → Table V → Table V
  unfolding remove
  insert k v t = (k, v) ∷ remove k t

  -- `retain`, with a test on the value
  unfoldable pub retain : (V → Bool) → Table V → Table V
  retain p = keep (λ e. p e.1)

  abbrev pub len : Table V → ℕ
  len = length

  abbrev pub values : Table V → List V
  values = map (λ e. e.1)

  -- one entry for each key
  abbrev pub HasUniqueKeys : Table V → Type ℓ
  HasUniqueKeys [] = Unit
  HasUniqueKeys ((k, v) ∷ t) = (get k t ≡ none) × HasUniqueKeys t

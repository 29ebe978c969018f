-- ===== src/Session/Policy.antt =====
-- The two capacities of `SessionStore`, over any backend that keeps the laws.
use aqua_auth.Prelude.{
  ℕ, ◌<◌, max, ◌≡◌, ◌≢◌, refl, ap, ◌⊎◌, inl, inr, List, [], ◌∷◌, map, arith, ltb, length, suc,
  tests, Bool-cases,
}
use mathlib.Core.List.{Memᴰ}
use aqua_auth.Text.{Text}
use aqua_auth.Session.Backend.{Session, SessionBackend}
use aqua_auth.Session.Store.{older_or_same, insert_sorted, sort, enforce_per_did_cap}

mem_of_cons : {A : Type 0} {x y : A} {xs : List A} → Memᴰ y (x ∷ xs) → (y ≡ x) ⊎ Memᴰ y xs
mem_of_cons (Memᴰ.head p) = inl p
mem_of_cons (Memᴰ.tail q) = inr q

mem-insert_sorted :
    (x y : Text × ℕ) (xs : List (Text × ℕ)) → Memᴰ y (insert_sorted x xs) → (y ≡ x) ⊎ Memᴰ y xs
unfolding insert_sorted
mem-insert_sorted x y [] m = mem_of_cons m
mem-insert_sorted x y (z ∷ xs) m = elim (Bool-cases (older_or_same x z)) [
  | inl first ↦ mem_of_cons (rw (first, insert_sorted) at m)
  | inr after ↦ elim (mem_of_cons (rw (after, insert_sorted) at m)) [
    | inl p ↦ inr (Memᴰ.head p)
    | inr q ↦ elim (mem-insert_sorted x y xs q) [ inl p ↦ inl p | inr r ↦ inr (Memᴰ.tail r) ]
  ]
]

mem-sort : (y : Text × ℕ) (xs : List (Text × ℕ)) → Memᴰ y (sort xs) → Memᴰ y xs
unfolding sort
mem-sort y [] m = m
mem-sort y (x ∷ xs) m = elim (mem-insert_sorted x y (sort xs) m) [
  | inl p ↦ Memᴰ.head p
  | inr q ↦ Memᴰ.tail (mem-sort y xs q)
]

insert_sorted-ne-nil : (x : Text × ℕ) (xs : List (Text × ℕ)) → insert_sorted x xs ≢ []
unfolding insert_sorted
insert_sorted-ne-nil x [] = λ h. cc
insert_sorted-ne-nil x (y ∷ xs) = ground arith

sort-eq-nil : (xs : List (Text × ℕ)) → sort xs ≡ [] → xs ≡ []
unfolding sort
sort-eq-nil [] h = refl
sort-eq-nil (x ∷ xs) h = absurd (insert_sorted-ne-nil x (sort xs) h)

mem-map :
    (f : Session → Text × ℕ) (xs : List Session) {y : Text × ℕ}
    → Memᴰ y (map f xs)
    → (s : Session) × Memᴰ s xs × (y ≡ f s)
mem-map f [] m = elim m [ ]
mem-map f (x ∷ xs) m = elim (mem_of_cons m) [
  | inl p ↦ (x, Memᴰ.head refl, p)
  | inr q ↦ let (s, found, e) = mem-map f xs q in (s, Memᴰ.tail found, e)
]

List-cases : {A : Type 0} (xs : List A) → (xs ≡ []) ⊎ ((x : A) × (r : List A) × (xs ≡ x ∷ r))
List-cases [] = inl refl
List-cases (x ∷ r) = inr (x, r, refl)

length-map : (f : Session → Text × ℕ) (xs : List Session) → length (map f xs) ≡ length xs
length-map f [] = refl
length-map f (x ∷ xs) = ap suc (length-map f xs)

module _ {B : Type 0} (be : SessionBackend B) where
  -- Below its quota a DID keeps all its sessions; at the quota one of its own goes.
  pub enforce-cases :
      (cap : ℕ) (did : Text) (b : B)
      → ((length (be.sessions_for_did did b) < max cap 1) × (enforce_per_did_cap be cap did b ≡ b))
        ⊎ ((s : Session) × Memᴰ s (be.sessions_for_did did b)
            × (enforce_per_did_cap be cap did b ≡ (be.remove s.token b).0))
  unfolding enforce_per_did_cap
  enforce-cases cap did b = elim (Bool-cases (ltb (length entries) cap)) [
    | inl below ↦ inl (omega (tests, counted, below), rw (below, enforce_per_did_cap) refl)
    | inr above ↦ elim (List-cases (sort entries)) [
      | inl empty ↦ inl (
        omega (arith, counted, ap length (sort-eq-nil entries empty)),
        rw (above, empty, enforce_per_did_cap) refl,
      )
      | inr (x, r, e) ↦
          let (s, found, same) =
            mem-map pair (be.sessions_for_did did b) (mem-sort x entries (rw e (Memᴰ.head refl))) in
          inr (
            s,
            found,
            rw (above, e, enforce_per_did_cap) (ap (λ (y : Text × ℕ). (be.remove y.0 b).0) same),
          )
    ]
  ]
    where
      pair : Session → Text × ℕ
      pair s = (s.token, s.created_at)

      entries : List (Text × ℕ)
      entries = map pair (be.sessions_for_did did b)

      counted : length entries ≡ length (be.sessions_for_did did b)
      counted = length-map pair (be.sessions_for_did did b)

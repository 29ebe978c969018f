-- ===== src/Text/Ends.antt =====
-- More methods of `str`: those that look at the end of a text, all pieces of a `split`, and
-- `replace` of one character.
use aqua_auth.Prelude.{
  ℕ, ◌≡◌, ap, sym, inl, inr, Bool, true, ◌||◌, List, [], ◌∷◌, ◌++◌, Option, none, some, arith,
  if◌then◌else◌, ◌==◌, Bool-cases,
}
use aqua_auth.Text.{Text, text_eq, split}
use aqua_auth.Text.Laws.{text_eq→eq, text_eq_refl}

-- `ends_with`
unfoldable pub ends_with : Text → Text → Bool
ends_with suffix [] = text_eq suffix []
ends_with suffix (c ∷ s) = text_eq suffix (c ∷ s) || ends_with suffix s

-- `strip_suffix`
unfoldable pub strip_suffix : Text → Text → Option Text
strip_suffix suffix [] = if text_eq suffix [] then some [] else none
strip_suffix suffix (c ∷ s) =
    let later : Option Text = elim (strip_suffix suffix s) [
      | none ↦ none
      | some h ↦ some (c ∷ h)
    ] in
    if text_eq suffix (c ∷ s) then some [] else later

-- `split(c)` as the list of its pieces
unfoldable pub pieces : ℕ → Text → List Text
pieces c s = let (piece, others) = split c s in piece ∷ others

-- `replace` of a character by a text
unfoldable pub replace_char : ℕ → Text → Text → Text
replace_char c by [] = []
replace_char c by (d ∷ s) = if d == c then by ++ replace_char c by s else d ∷ replace_char c by s

pub ends_with_sound : (suffix s : Text) → ends_with suffix s ≡ true → (h : Text) × (s ≡ h ++ suffix)
unfolding ends_with
ends_with_sound suffix [] e = ([], sym (text_eq→eq suffix [] e))
ends_with_sound suffix (c ∷ s) e = elim (Bool-cases (text_eq suffix (c ∷ s))) [
  | inl here ↦ ([], sym (text_eq→eq suffix (c ∷ s) here))
  | inr later ↦
      let (h, same) = ends_with_sound suffix s (ground (arith, later, e)) in
      (c ∷ h, ap (λ (t : Text). c ∷ t) same)
]

pub ends_with-append : (h suffix : Text) → ends_with suffix (h ++ suffix) ≡ true
unfolding ends_with
ends_with-append [] [] = ground (arith, text_eq_refl [])
ends_with-append [] (c ∷ s) = ground (arith, text_eq_refl (c ∷ s))
ends_with-append (c ∷ h) suffix = ground (arith, ends_with-append h suffix)

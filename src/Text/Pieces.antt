-- ===== src/Text/Pieces.antt =====
-- `split`, `split_once` and `trim` on a text that is put together.
use aqua_auth.Prelude.{
  ℕ, ◌≡◌, ◌∙◌, refl, ap, inl, inr, Bool, true, false, not, [], ◌∷◌, ◌++◌, Option, none, some, arith,
  ◌==◌, ==_iff, Bool-cases, all,
}
use aqua_auth.Text.{
  Text, contains, split, cut, split_once, trim, trim_start_matches, trim_end_matches, is_whitespace,
}
use aqua_auth.Text.Ends.{pieces}

split-append :
    (c : ℕ) (a b : Text) → split c (a ++ c ∷ b) ≡ ((split c a).0, (split c a).1 ++ pieces c b)
unfolding split pieces
split-append c [] b = let hit : (c == c) ≡ true = (==_iff c c).1 refl in rw (split, hit) refl
split-append c (x ∷ a) b = elim (Bool-cases (x == c)) [
  | inl e ↦ rw (split, e, split-append c a b) refl
  | inr e ↦ rw (split, e, split-append c a b) refl
]

-- The pieces of two texts with a separator between them.
pub pieces-append : (c : ℕ) (a b : Text) → pieces c (a ++ c ∷ b) ≡ pieces c a ++ pieces c b
unfolding pieces
pieces-append c a b = rw (pieces, split-append c a b) refl

split-none : (c : ℕ) (s : Text) → contains c s ≡ false → split c s ≡ (s, [])
unfolding split contains
split-none c [] h = refl
split-none c (x ∷ s) h =
    let other : (x == c) ≡ false = ground (arith, h) in
    let rest : contains c s ≡ false = ground (arith, h, other) in
    rw (split, other, split-none c s rest) refl

-- A text without the separator is one piece.
pub pieces-none : (c : ℕ) (s : Text) → contains c s ≡ false → pieces c s ≡ s ∷ []
unfolding pieces
pieces-none c s h = rw (pieces, split-none c s h) refl

-- The first separator cuts.
pub cut-append : (c : ℕ) (a b : Text) → contains c a ≡ false → cut c (a ++ c ∷ b) ≡ (a, some b)
unfolding cut contains
cut-append c [] b h = let hit : (c == c) ≡ true = (==_iff c c).1 refl in rw (cut, hit) refl
cut-append c (x ∷ a) b h =
    let other : (x == c) ≡ false = ground (arith, h) in
    let rest : contains c a ≡ false = ground (arith, h, other) in
    rw (cut, other, cut-append c a b rest) refl

abbrev rejoin : Text × Option Text → Option (Text × Text)
rejoin (head, none) = none
rejoin (head, some t) = some (head, t)

pub split_once-append :
    (c : ℕ) (a b : Text) → contains c a ≡ false → split_once c (a ++ c ∷ b) ≡ some (a, b)
unfolding split_once
split_once-append c a b h = ap rejoin (cut-append c a b h)

pub trim_end-none :
    (p : ℕ → Bool) (s : Text) → all (λ c. not (p c)) s ≡ true → trim_end_matches p s ≡ s
unfolding trim_end_matches
trim_end-none p [] h = refl
trim_end-none p (x ∷ []) h =
    let own : p x ≡ false = ground (arith, h) in rw (trim_end_matches, own) refl
trim_end-none p (x ∷ y ∷ s) h =
    let own : p x ≡ false = ground (arith, h) in
    let rest : all (λ c. not (p c)) (y ∷ s) ≡ true = ground (arith, h, own) in
    rw (trim_end_matches, trim_end-none p (y ∷ s) rest) refl

-- A text without white space is its own trim.
pub trim-none : (s : Text) → all (λ c. not (is_whitespace c)) s ≡ true → trim s ≡ s
unfolding trim trim_start_matches
trim-none [] h = refl
trim-none (x ∷ s) h =
    let own : is_whitespace x ≡ false = ground (arith, h) in
    rw (trim, trim_end-none is_whitespace (x ∷ s) h, trim_start_matches, own) refl

pub all-append :
    (p : ℕ → Bool) (s t : Text) → all p s ≡ true → all p t ≡ true → all p (s ++ t) ≡ true
all-append p [] t h k = k
all-append p (x ∷ s) t h k = ground (arith, h, all-append p s t)

pub all-weaken :
    (p q : ℕ → Bool) (s : Text)
    → ((c : ℕ) → p c ≡ true → q c ≡ true)
    → all p s ≡ true
    → all q s ≡ true
all-weaken p q [] f h = refl
all-weaken p q (x ∷ s) f h =
    let own : p x ≡ true = ground (arith, h) in
    let rest : all p s ≡ true = ground (arith, h, own) in rw (f x own) (all-weaken p q s f rest)

pub all-contains : (c : ℕ) (s : Text) → all (λ d. not (d == c)) s ≡ true → contains c s ≡ false
unfolding contains
all-contains c [] h = refl
all-contains c (x ∷ s) h = ground (arith, h, all-contains c s)

-- A text without the separator is the first piece.
pub split-cut : (c : ℕ) (a b : Text) → contains c a ≡ false → split c (a ++ c ∷ b) ≡ (a, pieces c b)
split-cut c a b h = split-append c a b ∙ ap (λ s. (s.0, s.1 ++ pieces c b)) (split-none c a h)

pub pieces-cut :
    (c : ℕ) (a b : Text) → contains c a ≡ false → pieces c (a ++ c ∷ b) ≡ a ∷ pieces c b
unfolding pieces
pieces-cut c a b h = ap (λ s. s.0 ∷ s.1) (split-cut c a b h)

-- White space in front is taken off.
pub trim-space : (s : Text) → all (λ c. not (is_whitespace c)) s ≡ true → trim (b' ' ∷ s) ≡ s
unfolding trim trim_start_matches trim_end_matches is_whitespace
trim-space [] h = refl
trim-space (x ∷ s) h =
    let own : is_whitespace x ≡ false = ground (arith, h) in
    rw (trim, trim_end_matches, trim_end-none is_whitespace (x ∷ s) h, trim_start_matches, own) refl

-- ===== src/Text.antt =====
-- `String` and `str` as lists of code points, with the methods of the standard library that the
-- sources call on them. `byte_len` is `str::len`, and the order is that of the UTF-8 bytes, which
-- is the order of the code points.
pub mod Laws
pub mod Decimal
pub mod Ends
pub mod Pieces
use Prim.Native.Char.{code}
use Prim.Native.String.{String}
use aqua_auth.Prelude.{
  ℕ, zero, suc, ◌+◌, ◌-◌, ◌*◌, ◌/◌, ◌%◌, Bool, true, false, ◌&&◌, ◌||◌, not, List, [], ◌∷◌, ◌++◌,
  map, Option, none, some, compare, Ordering, ltb, leb, ◌==◌, if◌then◌else◌, length, any, all,
}

abbrev pub Text : Type 0
Text = List ℕ

abbrev pub Bytes : Type 0
Bytes = List ℕ

-- the code points of a literal
abbrev pub codes : String → Text
codes String.[] = []
codes (String.◌∷◌ c s) = code c ∷ codes s

-- UTF-8
unfoldable pub utf8_char : ℕ → Bytes
utf8_char c =
    if ltb c 0x80
    then c ∷ []
    else if ltb c 0x800
    then (0xC0 + c / 0x40) ∷ (0x80 + c % 0x40) ∷ []
    else if ltb c 0x10000
    then (0xE0 + c / 0x1000) ∷ (0x80 + c / 0x40 % 0x40) ∷ (0x80 + c % 0x40) ∷ []
    else (0xF0 + c / 0x40000)
      ∷ (0x80 + c / 0x1000 % 0x40)
      ∷ (0x80 + c / 0x40 % 0x40)
      ∷ (0x80 + c % 0x40)
      ∷ []

-- `str::as_bytes`
unfoldable pub as_bytes : Text → Bytes
unfolding utf8_char
as_bytes [] = []
as_bytes (c ∷ s) = utf8_char c ++ as_bytes s

-- `str::len`, in bytes
unfoldable pub byte_len : Text → ℕ
unfolding as_bytes
byte_len s = length (as_bytes s)

-- `==` on texts and on byte strings
unfoldable pub text_eq : Text → Text → Bool
text_eq [] [] = true
text_eq [] (d ∷ t) = false
text_eq (c ∷ s) [] = false
text_eq (c ∷ s) (d ∷ t) = c == d && text_eq s t

-- `str::cmp`
unfoldable pub text_le : Text → Text → Bool
text_le [] t = true
text_le (c ∷ s) [] = false
text_le (c ∷ s) (d ∷ t) =
    let rest = text_le s t in
    elim (compare c d) [ Ordering.lt ↦ true | Ordering.eq ↦ rest | Ordering.gt ↦ false ]

-- `strip_prefix`
unfoldable pub strip_prefix : Text → Text → Option Text
strip_prefix [] s = some s
strip_prefix (c ∷ p) [] = none
strip_prefix (c ∷ p) (d ∷ s) = let rest = strip_prefix p s in if c == d then rest else none

-- `starts_with`
unfoldable pub starts_with : Text → Text → Bool
starts_with [] s = true
starts_with (c ∷ p) [] = false
starts_with (c ∷ p) (d ∷ s) = c == d && starts_with p s

-- `contains` for one character, and for any of several
unfoldable pub contains : ℕ → Text → Bool
contains c s = any (λ d. d == c) s

unfoldable pub contains_any : List ℕ → Text → Bool
unfolding contains
contains_any cs s = any (λ d. contains d cs) s

-- the text before the first `c`, and the rest behind it if there is a `c`
unfoldable pub cut : ℕ → Text → Text × Option Text
cut c [] = ([], none)
cut c (d ∷ s) = let (head, rest) = cut c s in if d == c then ([], some s) else (d ∷ head, rest)

-- `split_once(c)`
unfoldable pub split_once : ℕ → Text → Option (Text × Text)
unfolding cut
split_once c s = let (head, rest) = cut c s in elim rest [ none ↦ none | some t ↦ some (head, t) ]

-- `split_once` at a text
unfoldable pub split_once_text : Text → Text → Option (Text × Text)
split_once_text sep [] = if text_eq sep [] then some ([], []) else none
split_once_text sep (c ∷ s) =
    let later = split_once_text sep s in
    elim (strip_prefix sep (c ∷ s)) [
      | some tail ↦ some ([], tail)
      | none ↦ elim later [ none ↦ none | some (head, tail) ↦ some (c ∷ head, tail) ]
    ]

-- `split` at any of several characters, the first piece
unfoldable pub before_any : List ℕ → Text → Text
unfolding contains
before_any cs [] = []
before_any cs (c ∷ s) = let rest = before_any cs s in if contains c cs then [] else c ∷ rest

-- `rsplit_once(c)`
unfoldable pub rsplit_once : ℕ → Text → Option (Text × Text)
rsplit_once c [] = none
rsplit_once c (d ∷ s) =
    let later = rsplit_once c s in
    elim later [
      | some (head, tail) ↦ some (d ∷ head, tail)
      | none ↦ if d == c then some ([], s) else none
    ]

-- `split(c)`: always at least one piece, given as the first and the others
unfoldable pub split : ℕ → Text → Text × List Text
split c [] = ([], [])
split c (d ∷ s) =
    let (piece, others) = split c s in if d == c then ([], piece ∷ others) else (d ∷ piece, others)

-- `char::is_whitespace`
unfoldable pub is_whitespace : ℕ → Bool
is_whitespace c =
    leb 0x9 c && leb c 0xD
    || c == 0x20
    || c == 0x85
    || c == 0xA0
    || c == 0x1680
    || leb 0x2000 c && leb c 0x200A
    || c == 0x2028
    || c == 0x2029
    || c == 0x202F
    || c == 0x205F
    || c == 0x3000

-- `trim_start_matches` and `trim_end_matches` for a test on characters
unfoldable pub trim_start_matches : (ℕ → Bool) → Text → Text
trim_start_matches p [] = []
trim_start_matches p (c ∷ s) = let rest = trim_start_matches p s in if p c then rest else c ∷ s

unfoldable pub trim_end_matches : (ℕ → Bool) → Text → Text
trim_end_matches p [] = []
trim_end_matches p (c ∷ s) = elim (trim_end_matches p s) [
  | [] ↦ if p c then [] else c ∷ []
  | d ∷ t ↦ c ∷ d ∷ t
]

-- `trim`
unfoldable pub trim : Text → Text
unfolding trim_start_matches trim_end_matches is_whitespace
trim s = trim_start_matches is_whitespace (trim_end_matches is_whitespace s)

-- `to_ascii_lowercase` and `to_ascii_uppercase`
unfoldable pub to_lower : ℕ → ℕ
to_lower c = if leb b'A' c && leb c b'Z' then c + 32 else c

unfoldable pub to_upper : ℕ → ℕ
to_upper c = if leb b'a' c && leb c b'z' then c - 32 else c

unfoldable pub to_ascii_lowercase : Text → Text
unfolding to_lower
to_ascii_lowercase s = map to_lower s

unfoldable pub is_ascii_digit : ℕ → Bool
is_ascii_digit c = leb b'0' c && leb c b'9'

unfoldable pub is_ascii_alphanumeric : ℕ → Bool
unfolding is_ascii_digit
is_ascii_alphanumeric c = is_ascii_digit c || leb b'a' c && leb c b'z' || leb b'A' c && leb c b'Z'

-- `is_ascii`
unfoldable pub is_ascii : Text → Bool
is_ascii s = all (λ c. ltb c 128) s

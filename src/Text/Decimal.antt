-- ===== src/Text/Decimal.antt =====
-- The decimal print of a number, as `{}` writes it, and `str::parse` to an unsigned integer.
use aqua_auth.Prelude.{
  ℕ, zero, suc, ◌+◌, ◌-◌, ◌*◌, ◌/◌, ◌%◌, [], ◌∷◌, Option, none, some, if◌then◌else◌, ◌==◌, ltb, leb,
}
use aqua_auth.Text.{Text, is_ascii_digit}

-- The digits of `n` in front of `out`; a number has fewer digits than its successor, so the fuel
-- of `decimal` suffices.
unfoldable pub digits : ℕ → ℕ → Text → Text
digits zero n out = out
digits (suc fuel) n out =
    let rest = digits fuel (n / 10) ((b'0' + n % 10) ∷ out) in
    if ltb n 10 then (b'0' + n) ∷ out else rest

unfoldable pub decimal : ℕ → Text
unfolding digits
decimal n = digits (suc n) n []

-- the value of the digits behind `n`, if all are digits and the value stays at most `limit`
unfoldable pub parse_digits : ℕ → ℕ → Text → Option ℕ
parse_digits limit n [] = some n
parse_digits limit n (c ∷ s) =
    let m = n * 10 + (c - b'0') in
    let rest = parse_digits limit m s in
    if is_ascii_digit c then (if leb m limit then rest else none) else none

-- `parse::<u16>()`: one leading `+` is accepted, an empty text and a lone `+` are not
unfoldable pub parse_u16 : Text → Option ℕ
unfolding parse_digits is_ascii_digit
parse_u16 [] = none
parse_u16 (c ∷ []) = parse_digits 65535 0 (c ∷ [])
parse_u16 (c ∷ d ∷ s) =
    if c == b'+' then parse_digits 65535 0 (d ∷ s) else parse_digits 65535 0 (c ∷ d ∷ s)

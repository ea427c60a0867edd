-- ===== src/Ingestion/Integers.antt =====
-- services/data-ingestion-service/internal/kis/message_parser.go: parseInt, with strconv.ParseInt for
-- base 10 and 64 bits.
pub mod Decimal
use aipx.Prelude.{
  ℕ, zero, suc, ◌+◌, ◌*◌, ◌-◌, ◌^◌, Bool, true, false, ◌&&◌, Option, none, some, List, [], ◌∷◌,
  if◌then◌else◌, leb, ltb, ◌==◌,
}
use aipx.Prelude.Int.{ℤ, pos, negsuc}
use aipx.Prelude.Text.{Text}

abbrev pub is_digit : ℕ → Bool
is_digit c = leb b'0' c && leb c b'9'

-- The digits of a number; none where there is any other character.
abbrev pub read_digits : ℕ → Text → Option ℕ
read_digits acc [] = some acc
read_digits acc (c ∷ cs) =
    let rest = read_digits (acc * 10 + (c - b'0')) cs in if is_digit c then rest else none

abbrev pub read_number : Text → Option ℕ
read_number [] = none
read_number (c ∷ cs) = read_digits 0 (c ∷ cs)

-- `strconv.ParseInt(s, 10, 64)`
abbrev pub parse_positive : Text → Option ℤ
parse_positive t = elim (read_number t) [
  | none ↦ none
  | some n ↦ if ltb n (2 ^ 63) then some (pos n) else none
]

abbrev pub negate : ℕ → ℤ
negate zero = pos 0
negate (suc n) = negsuc n

abbrev pub parse_negative : Text → Option ℤ
parse_negative t = elim (read_number t) [
  | none ↦ none
  | some n ↦ if leb n (2 ^ 63) then some (negate n) else none
]

abbrev pub parse_int_text : Text → Option ℤ
parse_int_text [] = none
parse_int_text (c ∷ cs) =
    if c == b'-'
    then parse_negative cs
    else if c == b'+'
    then parse_positive cs
    else parse_positive (c ∷ cs)

-- `parseInt`
unfoldable pub parse_int : Text → Option ℤ
parse_int [] = some (pos 0)
parse_int (c ∷ cs) = parse_int_text (c ∷ cs)

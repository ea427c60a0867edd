-- ===== src/Ingestion/Integers/Decimal.antt =====
-- How parseInt of message_parser.go reads a decimal number, up to the bounds of an int64.
use aipx.Prelude.{
  ℕ, zero, suc, ◌+◌, ◌*◌, ◌-◌, ◌/◌, ◌%◌, ◌^◌, ◌≤◌, ◌<◌, true, none, some, [], ◌∷◌, ◌++◌, ◌≡◌, refl,
  ap, ◌∙◌, arith, if◌then◌else◌, leb, ltb, Bool-cases, inl, inr,
}
use aipx.Prelude.Int.{pos}
use aipx.Prelude.Text.{Text, digits, decimal}
use aipx.Ingestion.Integers.{
  is_digit, read_digits, read_number, parse_positive, parse_negative, parse_int, negate,
}

-- One more digit behind.
read_digits_snoc :
    (acc n : ℕ) (cs : Text) (d : ℕ)
    → d < 10
    → read_digits acc cs ≡ some n
    → read_digits acc (cs ++ (b'0' + d) ∷ []) ≡ some (n * 10 + d)
read_digits_snoc acc n [] d small h = ground arith
read_digits_snoc acc n (c ∷ cs) d small h = elim (Bool-cases (is_digit c)) [
  | inl e ↦ rw e (read_digits_snoc (acc * 10 + (c - b'0')) n cs d small (rw e at h))
  | inr e ↦ absurd (none_some (rw e at h))
]
  where
    none_some : none ≡ some n → ⊥
    none_some h = cc

one_digit : (n : ℕ) → n < 10 → read_digits 0 ((b'0' + n) ∷ []) ≡ some n
one_digit n h = ground arith

read_digits-digits : (fuel n : ℕ) → n < fuel → read_digits 0 (digits fuel n) ≡ some n
read_digits-digits zero n h = elim h [ ]
read_digits-digits (suc fuel) n h = elim (Bool-cases (ltb n 10)) [
  | inl e ↦ rw e (one_digit n (ground arith))
  | inr e ↦ rw e (
      let big : 10 ≤ n = ground arith in
      let front = read_digits-digits fuel (n / 10) (omega arith) in
      let whole : n / 10 * 10 + n % 10 ≡ n = omega arith in
      read_digits_snoc 0 (n / 10) (digits fuel (n / 10)) (n % 10) (omega arith) front
      ∙ ap some whole)
]

-- A number is printed with a digit in front.
first_digit :
    (fuel n : ℕ) → n < fuel → (c : ℕ) × (cs : Text) × (digits fuel n ≡ c ∷ cs) × (is_digit c ≡ true)
first_digit zero n h = elim h [ ]
first_digit (suc fuel) n h = elim (Bool-cases (ltb n 10)) [
  | inl e ↦ (b'0' + n, [], rw e refl, ground arith)
  | inr e ↦
      let big : 10 ≤ n = ground arith in
      let (c, cs, same, digit) = first_digit fuel (n / 10) (omega arith) in
      (c, cs ++ (b'0' + n % 10) ∷ [], rw e (ap (λ l. l ++ (b'0' + n % 10) ∷ []) same), digit)
]

read_number-decimal : (n : ℕ) → read_number (decimal n) ≡ some n
read_number-decimal n =
    let (c, cs, same, digit) = first_digit (suc n) n (omega arith) in
    rw same (rw same at (read_digits-digits (suc n) n (omega arith)))

parse_int_digit :
    (t : Text) (c : ℕ) (cs : Text) → t ≡ c ∷ cs → is_digit c ≡ true → parse_int t ≡ parse_positive t
unfolding parse_int
parse_int_digit t c cs same digit = rw same (ground arith)

positive_read :
    (t : Text) (n : ℕ)
    → read_number t ≡ some n
    → parse_positive t ≡ (if ltb n (2 ^ 63) then some (pos n) else none)
positive_read t n h = rw (h, parse_positive) refl

negative_read :
    (t : Text) (n : ℕ)
    → read_number t ≡ some n
    → parse_int (b'-' ∷ t) ≡ (if leb n (2 ^ 63) then some (negate n) else none)
unfolding parse_int
negative_read t n h = rw (h, parse_negative) refl

-- `parseInt` reads back a number as it is printed in decimal, with or without a minus before it,
-- exactly where it lies within the bounds of an int64, and refuses it where it does not.
pub parse_int-decimal :
    (n : ℕ)
    → (parse_int (decimal n) ≡ (if ltb n (2 ^ 63) then some (pos n) else none))
      × (parse_int (b'-' ∷ decimal n) ≡ (if leb n (2 ^ 63) then some (negate n) else none))
parse_int-decimal n =
    let (c, cs, same, digit) = first_digit (suc n) n (omega arith) in
    let read = read_number-decimal n in
    (
      parse_int_digit (decimal n) c cs same digit ∙ positive_read (decimal n) n read,
      negative_read (decimal n) n read,
    )

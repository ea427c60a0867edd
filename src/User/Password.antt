-- ===== src/User/Password.antt =====
-- ValidatePasswordStrength of services/user-service/internal/auth/password.go, on the code points of a
-- password.
mod Tests
use aipx.Prelude.{
  ℕ, zero, suc, ◌+◌, ◌≤◌, Bool, true, false, ◌&&◌, ◌||◌, Option, none, some, List, [], ◌∷◌, ◌++◌,
  if◌then◌else◌, ltb, leb, ◌≡◌, ◌↔◌, refl, ◌∙◌, ap, arith, Bool-cases, inl, inr,
}
use aipx.Prelude.Text.{Text}

pub data Weakness : Type 0 where
  too_short too_long no_uppercase no_lowercase no_digit : Weakness

-- The bytes of a code point in UTF-8.
abbrev pub byte_width : ℕ → ℕ
byte_width c = if ltb c 128 then 1 else if ltb c 2048 then 2 else if ltb c 65536 then 3 else 4

-- `len(password)`
abbrev pub byte_length : Text → ℕ
byte_length [] = 0
byte_length (c ∷ cs) = byte_width c + byte_length cs

abbrev pub is_upper : ℕ → Bool
is_upper c = leb b'A' c && leb c b'Z'

abbrev pub is_lower : ℕ → Bool
is_lower c = leb b'a' c && leb c b'z'

abbrev pub is_digit : ℕ → Bool
is_digit c = leb b'0' c && leb c b'9'

-- `hasUpper`, `hasLower` and `hasDigit`
pub record Kinds : Type 0 where
  pub has_upper : Bool
  pub has_lower : Bool
  pub has_digit : Bool

-- The switch of the loop.
unfoldable pub see : ℕ → Kinds → Kinds
see c k =
    if is_upper c
    then record k { has_upper = true }
    else if is_lower c
    then record k { has_lower = true }
    else if is_digit c
    then record k { has_digit = true }
    else k

unfoldable pub see_all : Text → Kinds → Kinds
unfolding see
see_all [] k = k
see_all (c ∷ cs) k = see_all cs (see c k)

abbrev pub nothing_seen : Kinds
nothing_seen = record { has_upper = false; has_lower = false; has_digit = false }

-- `ValidatePasswordStrength`
unfoldable pub validate_password_strength : Text → Option Weakness
unfolding see_all
validate_password_strength password =
    let k = see_all password nothing_seen in
    if ltb (byte_length password) 8
    then some too_short
    else if ltb 128 (byte_length password)
    then some too_long
    else if k.has_upper
    then if k.has_lower then if k.has_digit then none else some no_digit else some no_lowercase
    else some no_uppercase

-- A code point of the text passes the test.
abbrev pub Contains : (ℕ → Bool) → Text → Type 0
Contains test t =
    (before : Text) × (c : ℕ) × (after : Text) × (t ≡ before ++ c ∷ after) × (test c ≡ true)

-- What the loop has seen at its end.
any : (ℕ → Bool) → Text → Bool
any test [] = false
any test (c ∷ cs) = test c || any test cs

any_iff : (test : ℕ → Bool) (t : Text) → (any test t ≡ true) ↔ Contains test t
unfolding any
any_iff test t = (found t, back t)
  where
    found : (t : Text) → any test t ≡ true → Contains test t
    found [] h = absurd cc
    found (c ∷ cs) h = elim (Bool-cases (test c)) [
      | inl e ↦ ([], c, cs, refl, e)
      | inr e ↦
          let h' = rw e at h in
          let (before, d, after, same, ok) = found cs h' in
          (c ∷ before, d, after, ap (λ r. c ∷ r) same, ok)
    ]

    back : (t : Text) → Contains test t → any test t ≡ true
    back t ([], c, after, same, ok) = rw (same, ok) refl
    back t (b ∷ before, c, after, same, ok) =
        let h = back (before ++ c ∷ after) (before, c, after, refl, ok) in rw same (ground arith)

see_kinds :
    (c : ℕ) (k : Kinds)
    → ((see c k).has_upper ≡ (k.has_upper || is_upper c))
      × ((see c k).has_lower ≡ (k.has_lower || is_lower c))
      × ((see c k).has_digit ≡ (k.has_digit || is_digit c))
unfolding see
see_kinds c k = (ground arith, ground arith, ground arith)

or_assoc : (a b c : Bool) → ((a || b) || c) ≡ (a || (b || c))
or_assoc a b c = ground arith

or_false : (a : Bool) → a ≡ (a || false)
or_false a = ground arith

see_all_kinds :
    (t : Text) (k : Kinds)
    → ((see_all t k).has_upper ≡ (k.has_upper || any is_upper t))
      × ((see_all t k).has_lower ≡ (k.has_lower || any is_lower t))
      × ((see_all t k).has_digit ≡ (k.has_digit || any is_digit t))
unfolding see_all any
see_all_kinds [] k = (or_false k.has_upper, or_false k.has_lower, or_false k.has_digit)
see_all_kinds (c ∷ cs) k =
    let (upper, lower, digit) = see_all_kinds cs (see c k) in
    let (up, low, dig) = see_kinds c k in
    (
      upper ∙ rw up (or_assoc k.has_upper (is_upper c) (any is_upper cs)),
      lower ∙ rw low (or_assoc k.has_lower (is_lower c) (any is_lower cs)),
      digit ∙ rw dig (or_assoc k.has_digit (is_digit c) (any is_digit cs)),
    )

strength :
    (t : Text) (u l d : Bool)
    → (see_all t nothing_seen).has_upper ≡ u
    → (see_all t nothing_seen).has_lower ≡ l
    → (see_all t nothing_seen).has_digit ≡ d
    → (validate_password_strength t ≡ none)
      ↔ ((8 ≤ byte_length t) × (byte_length t ≤ 128) × (u ≡ true) × (l ≡ true) × (d ≡ true))
unfolding validate_password_strength
strength t u l d hu hl hd = rw (validate_password_strength, hu, hl, hd) (ground arith)

-- A password is strong enough exactly where its bytes in UTF-8 are at least 8 and at most 128, and an
-- upper-case letter, a lower-case letter and a digit, of ASCII, stand in it.
pub validate_password_strength_iff :
    (t : Text)
    → (validate_password_strength t ≡ none) ↔ (
        (8 ≤ byte_length t)
        × (byte_length t ≤ 128)
        × Contains is_upper t
        × Contains is_lower t
        × Contains is_digit t)
validate_password_strength_iff t =
    let (upper, lower, digit) = see_all_kinds t nothing_seen in
    let h = strength t (any is_upper t) (any is_lower t) (any is_digit t) upper lower digit in
    (
      λ e.
          let (long, short, u, l, d) = h.0 e in
          (
            long,
            short,
            (any_iff is_upper t).0 u,
            (any_iff is_lower t).0 l,
            (any_iff is_digit t).0 d,
          ),
      λ (long, short, u, l, d). h.1 (
        long,
        short,
        (any_iff is_upper t).1 u,
        (any_iff is_lower t).1 l,
        (any_iff is_digit t).1 d,
      ),
    )

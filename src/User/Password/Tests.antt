-- ===== src/User/Password/Tests.antt =====
-- The strength of two passwords.
use aipx.Prelude.{◌≡◌, ◌↔◌, ◌≤◌, refl, none, some}
use aipx.Prelude.Text.{Text, codes}
use aipx.User.Password.{
  Contains, is_upper, is_lower, is_digit, byte_length, no_digit, validate_password_strength,
  validate_password_strength_iff,
}

abbrev fair : Text
fair = codes "Passw0rd"

fair_is_strong : validate_password_strength fair ≡ none
unfolding validate_password_strength
fair_is_strong = refl

no_digit_is_weak : validate_password_strength (codes "Password") ≡ some no_digit
unfolding validate_password_strength
no_digit_is_weak = refl

validate_password_strength_iff_example : (validate_password_strength fair ≡ none) ↔ (
    (8 ≤ byte_length fair)
    × (byte_length fair ≤ 128)
    × Contains is_upper fair
    × Contains is_lower fair
    × Contains is_digit fair)
validate_password_strength_iff_example = validate_password_strength_iff fair

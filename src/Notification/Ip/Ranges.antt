-- ===== src/Notification/Ip/Ranges.antt =====
-- The ranges of IPv4 that `validateIP` of url_validator.go blocks, by their first and last address.
use aipx.Prelude.{ℕ, ◌^◌, ◌<◌, true, ◌≡◌, ◌⊎◌, ◌↔◌, arith}
use aipx.Notification.Ip.{v4, quad, any_contains, validate_ip}

-- The address lies in none of the ranges.
abbrev pub IsPublic4 : ℕ → Type 0
IsPublic4 a =
    ((a < quad 10 0 0 0) ⊎ (quad 10 255 255 255 < a))
    × ((a < quad 172 16 0 0) ⊎ (quad 172 31 255 255 < a))
    × ((a < quad 192 168 0 0) ⊎ (quad 192 168 255 255 < a))
    × ((a < quad 127 0 0 0) ⊎ (quad 127 255 255 255 < a))
    × ((a < quad 169 254 0 0) ⊎ (quad 169 254 255 255 < a))
    × ((a < quad 100 64 0 0) ⊎ (quad 100 127 255 255 < a))
    × (quad 0 255 255 255 < a)
    × (a < quad 224 0 0 0)

validate_ip-IsPublic4 : (a : ℕ) → a < 2 ^ 32 → validate_ip (v4 a) ≡ true → IsPublic4 a
unfolding validate_ip any_contains
validate_ip-IsPublic4 a small h = ground arith

IsPublic4-validate_ip : (a : ℕ) → IsPublic4 a → validate_ip (v4 a) ≡ true
unfolding validate_ip any_contains
IsPublic4-validate_ip a h = ground arith

-- `validateIP` lets an IPv4 address through exactly when it lies outside of 10.0.0.0 to
-- 10.255.255.255, 172.16.0.0 to 172.31.255.255, 192.168.0.0 to 192.168.255.255, 127.0.0.0 to
-- 127.255.255.255, 169.254.0.0 to 169.254.255.255, 100.64.0.0 to 100.127.255.255, 0.0.0.0 to
-- 0.255.255.255 and 224.0.0.0 to 255.255.255.255: the prefixes and the further tests on special
-- addresses come to these ranges.
pub validate_ip_iff : (a : ℕ) → a < 2 ^ 32 → (validate_ip (v4 a) ≡ true) ↔ IsPublic4 a
validate_ip_iff a small = (validate_ip-IsPublic4 a small, IsPublic4-validate_ip a)

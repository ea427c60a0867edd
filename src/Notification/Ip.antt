-- ===== src/Notification/Ip.antt =====
-- The addresses of services/notification-service/internal/security/url_validator.go: which ones
-- `validateIP` blocks. An address is a number of 32 or of 128 bits; Go reads an IPv6 address that
-- stands for an IPv4 one as the latter.
pub mod Ranges
use aipx.Prelude.{
  ℕ, ◌+◌, ◌-◌, ◌*◌, ◌/◌, ◌%◌, ◌^◌, ◌==◌, Bool, true, false, ◌&&◌, ◌||◌, List, [], ◌∷◌,
  if◌then◌else◌,
}

pub data Ip : Type 0 where
  v4 v6 : ℕ → Ip

-- `net.IPNet`: the address and the length of the prefix.
pub data Cidr : Type 0 where
  net4 net6 : ℕ → ℕ → Cidr

-- a.b.c.d
abbrev pub quad : ℕ → ℕ → ℕ → ℕ → ℕ
quad a b c d = ((a * 256 + b) * 256 + c) * 256 + d

-- `IPNet.Contains`
abbrev pub contains : Cidr → Ip → Bool
contains (net4 base bits) (v4 a) = a / 2 ^ (32 - bits) == base / 2 ^ (32 - bits)
contains (net6 base bits) (v6 a) = a / 2 ^ (128 - bits) == base / 2 ^ (128 - bits)
contains _ _ = false

-- The ranges of `NewURLValidator`.
abbrev pub blocked_cidrs : List Cidr
blocked_cidrs =
    net4 (quad 10 0 0 0) 8
    ∷ net4 (quad 172 16 0 0) 12
    ∷ net4 (quad 192 168 0 0) 16
    ∷ net4 (quad 127 0 0 0) 8
    ∷ net4 (quad 169 254 0 0) 16
    ∷ net4 (quad 100 64 0 0) 10
    ∷ net4 (quad 0 0 0 0) 8
    ∷ net4 (quad 224 0 0 0) 4
    ∷ net4 (quad 240 0 0 0) 4
    ∷ net4 (quad 255 255 255 255) 32
    ∷ net6 1 128
    ∷ net6 (0xfc00 * 2 ^ 112) 7
    ∷ net6 (0xfe80 * 2 ^ 112) 10
    ∷ net6 (0xff00 * 2 ^ 112) 8
    ∷ net6 0 128
    ∷ net6 (0x64 * 2 ^ 112 + 0xff9b * 2 ^ 96) 96
    ∷ net6 (0x100 * 2 ^ 112) 64
    ∷ net6 (0x2001 * 2 ^ 112) 32
    ∷ net6 (0x2001 * 2 ^ 112 + 0xdb8 * 2 ^ 96) 32
    ∷ []

-- `IsLoopback`, `IsPrivate`, `IsLinkLocalUnicast`, `IsLinkLocalMulticast`
abbrev pub is_special : Ip → Bool
is_special (v4 a) =
    a / 2 ^ 24 == 127
    || (a / 2 ^ 24 == 10
        || (a / 2 ^ 20 == 172 * 16 + 1
            || (a / 2 ^ 16 == 192 * 256 + 168
                || (a / 2 ^ 16 == 169 * 256 + 254 || a / 2 ^ 8 == (224 * 256 + 0) * 256 + 0))))
is_special (v6 a) =
    a == 1
    || (a / 2 ^ 121 == 0xfc / 2
        || (a / 2 ^ 118 == 0xfe * 4 + 2 || (a / 2 ^ 120 == 0xff && (a / 2 ^ 112) % 16 == 2)))

-- The loop over the ranges.
pub any_contains : List Cidr → Ip → Bool
any_contains [] ip = false
any_contains (c ∷ cs) ip = if contains c ip then true else any_contains cs ip

-- `validateIP`, true where it returns no error.
unfoldable pub validate_ip : Ip → Bool
unfolding any_contains
validate_ip ip =
    if any_contains blocked_cidrs ip then false else if is_special ip then false else true

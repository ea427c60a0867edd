-- ===== src/Shared/Lock/Tests.antt =====
-- The lock's theorems at concrete times.
use aipx.Prelude.{
  true, false, String, str_eq, eq_iff, some, none, List, [], ◌∷◌, ◌≡◌, ◌≢◌, refl, arith,
}
use aipx.Prelude.Dict.{Dict, lookup}
use aipx.Shared.Lock.{Lock, Entry, held}
use aipx.Shared.Lock.Exclusion.{
  Operation, on_acquire, on_release, on_refresh, IsHeld, AllForeign, AllDenied, lock_excludes,
}

abbrev mine : Lock
mine = record { key = "job"; value = "a"; ttl = 5000000000 }

abbrev theirs : Lock
theirs = record { key = "job"; value = "b"; ttl = 5000000000 }

abbrev short : Lock
short = record { key = "job"; value = "a"; ttl = 500000 }

abbrev taken : Dict Entry
taken = ("job", record { value = "a"; expires_at = some 6000 }) ∷ []

abbrev attempts : List Operation
attempts =
    on_acquire true 2000 theirs ∷ on_release true 2100 theirs ∷ on_refresh false 2200 theirs ∷ []

apart : (a b : String) → str_eq a b ≡ false → a ≢ b
apart a b h e = ground (arith, eq_iff a b)

attempts_are_foreign : AllForeign "job" "a" 6000 attempts
attempts_are_foreign = (
  apart "b" "a" refl,
  omega arith,
  (apart "b" "a" refl, omega arith, (apart "b" "a" refl, omega arith, tt)),
)

taken-IsHeld : IsHeld "job" "a" 6000 taken
unfolding lookup
taken-IsHeld = refl

lock_excludes_example : AllDenied "job" "a" 6000 attempts taken
lock_excludes_example =
    lock_excludes "job" "a" 6000 attempts taken attempts_are_foreign taken-IsHeld

job_is_free : held 1000 (lookup "job" []) ≡ none
unfolding lookup
job_is_free = refl

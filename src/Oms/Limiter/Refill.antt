-- ===== src/Oms/Limiter/Refill.antt =====
-- What the refill of a bucket in limiter.go gives.
use aipx.Prelude.{ℕ, ◌-◌, ◌*◌, ◌≤◌, ◌<◌, String, true, Option, none, some, ◌≡◌, refl, arith}
use aipx.Prelude.Int.{pos, ◌+ℤ◌, ◌≤ℤ◌, leb_ℤ, -ℤ_parts, +ℤ_parts, eq_of_parts}
use aipx.Prelude.Dict.{lookup}
use aipx.Oms.Limiter.{
  Limiter, Bucket, tokens_to_add, alive, available, token_bucket, remaining_of, get_remaining,
  answer, Env, Store, allow_n,
}

abbrev pub TokensBelow : Limiter → Bucket → Type 0
TokensBelow l b = b.tokens ≤ℤ pos l.burst

pub available-le : (l : Limiter) (now : ℕ) (e : Option Bucket) → available l now e ≤ℤ pos l.burst
unfolding available
available-le l now none = ground arith
available-le l now (some b) = ground arith

-- Whatever the clocks say and whatever was stored, no stored bucket holds more than `burst`.
pub token_bucket-TokensBelow :
    (l : Limiter) (clock now n : ℕ) (e : Option Bucket)
    → TokensBelow l (token_bucket l clock now n e).1
unfolding token_bucket
token_bucket-TokensBelow l clock now n e =
    ground (
      arith,
      available-le l now (alive clock e),
      -ℤ_parts (available l now (alive clock e)) (pos n),
    )

zero-mul_lem : (now rate : ℕ) → (now - now) * rate ≡ 0
zero-mul_lem now rate = grind arith

-- A new bucket has waited no time, so nothing is added to it.
tokens_to_add_self : (rate now : ℕ) → tokens_to_add rate now now ≡ pos 0
unfolding tokens_to_add
tokens_to_add_self rate now = ground (arith, zero-mul_lem now rate)

pub remaining-eq-available :
    (l : Limiter) (now : ℕ) (e : Option Bucket) → remaining_of l now e ≡ available l now e
unfolding remaining_of available
remaining-eq-available l now none = rw (tokens_to_add_self l.rate now) (
    ground
      (arith, +ℤ_parts (pos l.burst) (pos 0), eq_of_parts (pos l.burst +ℤ pos 0) (pos l.burst)))
remaining-eq-available l now (some b) = refl

-- A call of `AllowN` within the burst is granted exactly when `GetRemaining` at that time reports at
-- least as many tokens.
pub allow_n-get_remaining :
    (l : Limiter) (env : Env) (key : String) (n : ℕ) (s : Store)
    → env.up ≡ true
    → 0 < n
    → n ≤ l.burst
    → (allow_n l env key (pos n) s).0
      ≡ answer (leb_ℤ (pos n) (get_remaining l env.clock env.now (lookup key s)))
unfolding allow_n token_bucket get_remaining
allow_n-get_remaining l env key n s up positive fits =
    ground (arith, remaining-eq-available l env.now (alive env.clock (lookup key s)))

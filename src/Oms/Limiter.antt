-- ===== src/Oms/Limiter.antt =====
-- services/order-management-service/internal/ratelimit/limiter.go: a token bucket for each key, in
-- Redis. Times are Unix nanoseconds. The doubles of the Lua script are read as exact numbers.
pub mod Refill
pub mod Window
pub mod Starvation
mod Tests
use aipx.Prelude.{
  ℕ, ◌+◌, ◌-◌, ◌*◌, ◌/◌, String, Bool, true, false, Option, none, some, leb, if◌then◌else◌,
}
use aipx.Prelude.Int.{ℤ, pos, pos_part, ◌+ℤ◌, ◌-ℤ◌, leb_ℤ, ltb_ℤ}
use aipx.Prelude.Dict.{Dict, lookup, insert, erase}

pub record Config : Type 0 where
  pub rate : ℤ
  pub burst : ℤ

-- Both numbers are positive once `new_limiter` has accepted them.
pub record Limiter : Type 0 where
  pub rate : ℕ
  pub burst : ℕ

pub data NewError : Type 0 where
  redis_nil config_nil rate_not_positive : NewError

pub data NewResult : Type 0 where
  created : Limiter → NewResult
  refused : NewError → NewResult

-- `NewLimiter`; the first argument tells whether a Redis client was given.
pub new_limiter : Bool → Option Config → NewResult
new_limiter false config = refused redis_nil
new_limiter true none = refused config_nil
new_limiter true (some c) =
    if leb_ℤ c.rate (pos 0)
    then refused rate_not_positive
    else created (record {
      rate = pos_part c.rate;
      burst = pos_part (if leb_ℤ c.burst (pos 0) then c.rate else c.burst);
    })

-- The hash at a key, with the time at which Redis drops it.
pub record Bucket : Type 0 where
  pub tokens : ℤ
  pub last_update : ℕ
  pub expires_at : ℕ

abbrev pub nano : ℕ
nano = 1000000000

abbrev pub expiry : ℕ
expiry = 60 * nano

-- `math.floor((now - last_update) / 1e9 * rate)`, also where the caller's clock went back.
pub tokens_to_add : ℕ → ℕ → ℕ → ℤ
tokens_to_add rate now last_update =
    if leb last_update now
    then pos ((now - last_update) * rate / nano)
    else pos 0 -ℤ pos (((last_update - now) * rate + (nano - 1)) / nano)

-- `math.min`
abbrev pub min_ℤ : ℤ → ℤ → ℤ
min_ℤ a b = if ltb_ℤ b a then b else a

-- What `HMGET` finds at the server's time.
pub alive : ℕ → Option Bucket → Option Bucket
alive clock none = none
alive clock (some b) = if leb b.expires_at clock then none else some b

-- The tokens before the request is served.
pub available : Limiter → ℕ → Option Bucket → ℤ
unfolding tokens_to_add
available l now none = min_ℤ (pos l.burst +ℤ tokens_to_add l.rate now now) (pos l.burst)
available l now (some b) = min_ℤ (b.tokens +ℤ tokens_to_add l.rate now b.last_update) (pos l.burst)

-- The script of `tokenBucket`: `clock` is the server's time, `now` the caller's.
pub token_bucket : Limiter → ℕ → ℕ → ℕ → Option Bucket → Bool × Bucket
unfolding available alive
token_bucket l clock now requested entry =
    let tokens = available l now (alive clock entry) in
    if leb_ℤ (pos requested) tokens
    then (
      true,
      record { tokens = tokens -ℤ pos requested; last_update = now; expires_at = clock + expiry },
    )
    else (false, record { tokens = tokens; last_update = now; expires_at = clock + expiry })

pub data AllowError : Type 0 where
  n_not_positive exceeds_burst script_failed : AllowError

pub data AllowResult : Type 0 where
  answer : Bool → AllowResult
  failed : AllowError → AllowResult

-- The keys `rate_limit:<key>`, by <key>.
abbrev pub Store : Type 0
Store = Dict Bucket

-- What the server and the caller's clock contribute to one call.
pub record Env : Type 0 where
  pub up : Bool
  pub clock : ℕ
  pub now : ℕ

-- `AllowN`; while Redis is down the script fails and nothing is stored.
pub allow_n : Limiter → Env → String → ℤ → Store → AllowResult × Store
allow_n l env key n s =
    if leb_ℤ n (pos 0)
    then (failed n_not_positive, s)
    else if ltb_ℤ (pos l.burst) n
    then (failed exceeds_burst, s)
    else if env.up
    then (let (allowed, b) = token_bucket l env.clock env.now (pos_part n) (lookup key s) in
        (answer allowed, insert key b s))
    else (failed script_failed, s)

-- `Allow`
pub allow : Limiter → Env → String → Store → AllowResult × Store
unfolding allow_n
allow l env key s = allow_n l env key (pos 1) s

-- `Reset`
pub reset : String → Store → Store
reset key s = erase key s

-- The end of the script of `GetRemaining`.
pub remaining_of : Limiter → ℕ → Option Bucket → ℤ
unfolding tokens_to_add
remaining_of l now none = pos l.burst
remaining_of l now (some b) =
    min_ℤ (b.tokens +ℤ tokens_to_add l.rate now b.last_update) (pos l.burst)

-- `GetRemaining`
pub get_remaining : Limiter → ℕ → ℕ → Option Bucket → ℤ
unfolding remaining_of alive
get_remaining l clock now entry = remaining_of l now (alive clock entry)

-- `PriorityAllow`
pub priority_allow : String → Bool
priority_allow key = true

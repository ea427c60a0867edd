-- ===== src/Oms/Limiter/Tests.antt =====
-- Runs of the rate limiter, and its theorems at concrete inputs.
use aipx.Prelude.{ℕ, ◌+◌, ◌*◌, true, some, List, [], ◌∷◌, ◌≡◌, refl}
use aipx.Prelude.Int.{pos, negsuc, ◌+ℤ◌, ◌-ℤ◌}
use aipx.Oms.Limiter.{
  Limiter, Bucket, nano, expiry, Env, allow_n, token_bucket, new_limiter, created, failed,
  exceeds_burst,
}

abbrev ten_a_second : Limiter
ten_a_second = record { rate = 10; burst = 20 }

abbrev empty_bucket : Bucket
empty_bucket = record { tokens = pos 0; last_update = nano; expires_at = nano + expiry }

abbrev env_at : ℕ → Env
env_at t = record { up = true; clock = t; now = t }

burst_defaults_to_rate :
    new_limiter true (some (record { rate = pos 5; burst = negsuc 3 }))
    ≡ created (record { rate = 5; burst = 5 })
unfolding new_limiter
burst_defaults_to_rate = refl

refills_half_a_second :
    (token_bucket ten_a_second (nano + 500000000) (nano + 500000000) 5 (some empty_bucket)).0 ≡ true
unfolding token_bucket ◌+ℤ◌ ◌-ℤ◌
refills_half_a_second = refl

too_many : (allow_n ten_a_second (env_at nano) "user" (pos 21) []).0 ≡ failed exceeds_burst
unfolding allow_n
too_many = refl

abbrev three_calls : List (ℕ × ℕ)
three_calls = (nano, 15) ∷ (nano + 100000000, 5) ∷ (2 * nano, 4) ∷ []

-- ===== src/User/Lockout/Tests.antt =====
-- The lockout's theorems at concrete times.
use aipx.User.Lockout.{AuthRateLimiter}

abbrev limiter : AuthRateLimiter
limiter = record { login_limit = 5; window = 60; lockout_limit = 3; lockout_time = 900 }

-- ===== src/User/Lockout.antt =====
-- services/user-service/internal/middleware/rate_limiter.go: AuthRateLimiter, which limits the
-- requests to the authentication endpoints and locks an identifier out after failed ones, in memory
-- and in Redis. Times and durations are nanoseconds; the zero time is 0.
pub mod Attempts
pub mod Rate
pub mod Locks
mod Tests
use aipx.Prelude.{
  ℕ, zero, suc, ◌+◌, ◌-◌, ◌*◌, String, Bool, true, false, ◌&&◌, ◌||◌, not, Option, none, some, List,
  [], ◌∷◌, if◌then◌else◌, ltb, leb, ◌==◌,
}
use aipx.Prelude.Dict.{Dict, lookup, insert}

pub record AuthRateLimiter : Type 0 where
  pub login_limit : ℕ
  pub window : ℕ
  pub lockout_limit : ℕ
  pub lockout_time : ℕ

pub record AuthState : Type 0 where
  pub attempts : ℕ
  pub failed_count : ℕ
  pub last_attempt : ℕ
  pub locked_until : ℕ

pub data CheckResult : Type 0 where
  allowed locked rate_exceeded : CheckResult

-- `NewAuthRateLimiter`
pub new_auth_rate_limiter : AuthRateLimiter
new_auth_rate_limiter = record {
  login_limit = 5;
  window = 60 * 1000000000;
  lockout_limit = 10;
  lockout_time = 900 * 1000000000;
}

-- `&authState{}`
abbrev pub zero_state : AuthState
zero_state = record { attempts = 0; failed_count = 0; last_attempt = 0; locked_until = 0 }

abbrev pub or_zero_state : Option AuthState → AuthState
or_zero_state none = zero_state
or_zero_state (some s) = s

-- `checkLocal` on the entry of the identifier.
pub check_state : AuthRateLimiter → ℕ → Option AuthState → CheckResult × AuthState
check_state al now none = (allowed, record zero_state { attempts = 1; last_attempt = now })
check_state al now (some s) =
    let counted = record s { attempts = s.attempts + 1; last_attempt = now } in
    if ltb now s.locked_until
    then (locked, s)
    else if ltb al.window (now - s.last_attempt)
    then (allowed, record s { attempts = 1; last_attempt = now })
    else (if ltb al.login_limit (s.attempts + 1) then rate_exceeded else allowed, counted)

-- `checkLocal`
pub check_local : AuthRateLimiter → ℕ → String → Dict AuthState → CheckResult × Dict AuthState
unfolding check_state
check_local al now id d =
    let (result, s) = check_state al now (lookup id d) in (result, insert id s d)

-- `recordFailedLocal` on the entry of the identifier.
pub record_failed_state : AuthRateLimiter → ℕ → Option AuthState → AuthState
record_failed_state al now entry =
    let s = or_zero_state entry in
    if leb al.lockout_limit (s.failed_count + 1)
    then record s { failed_count = 0; locked_until = now + al.lockout_time }
    else record s { failed_count = s.failed_count + 1 }

-- `recordFailedLocal`
pub record_failed_local : AuthRateLimiter → ℕ → String → Dict AuthState → Dict AuthState
unfolding record_failed_state
record_failed_local al now id d = insert id (record_failed_state al now (lookup id d)) d

-- `ClearFailedAttempts`, in memory.
pub clear_failed_local : String → Dict AuthState → Dict AuthState
clear_failed_local id d = elim (lookup id d) [
  | none ↦ d
  | some s ↦ insert id (record s { failed_count = 0 }) d
]

-- An entry that `CleanupExpired` removes.
abbrev pub is_stale : ℕ → AuthState → Bool
is_stale now s = ltb (24 * 3600 * 1000000000) (now - s.last_attempt) && ltb s.locked_until now

-- `CleanupExpired`
pub cleanup_expired : ℕ → Dict AuthState → Dict AuthState
cleanup_expired now [] = []
cleanup_expired now (e ∷ d) =
    let rest = cleanup_expired now d in if is_stale now e.1 then rest else e ∷ rest

-- What `Middleware` does after the handler, by the status of its response.
pub after_response : AuthRateLimiter → ℕ → String → ℕ → Dict AuthState → Dict AuthState
unfolding record_failed_local clear_failed_local
after_response al now id status d =
    if status == 401 || status == 403
    then record_failed_local al now id d
    else if status == 200 || status == 201
    then clear_failed_local id d
    else d

-- `Middleware` on a request to an authentication endpoint, in memory, with the status of the handler
-- if it is called and the time of its response: the result of the check, and the entries.
pub middleware :
    AuthRateLimiter → ℕ → ℕ → String → ℕ → Dict AuthState → CheckResult × Dict AuthState
unfolding check_local after_response
middleware al now done id status d =
    let (result, d') = check_local al now id d in
    elim result [
      | allowed ↦ (allowed, after_response al done id status d')
      | locked ↦ (locked, d')
      | rate_exceeded ↦ (rate_exceeded, d')
    ]

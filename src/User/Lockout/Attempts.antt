-- ===== src/User/Lockout/Attempts.antt =====
-- How many failing attempts AuthRateLimiter lets through.
use aipx.Prelude.{ℕ, ◌+◌, ◌≤◌, ◌<◌, String, Option, some, List, [], ◌∷◌}
use aipx.Prelude.Dict.{Dict}
use aipx.User.Lockout.{
  AuthRateLimiter, AuthState, CheckResult, allowed, locked, rate_exceeded, or_zero_state,
  check_state, record_failed_state, middleware,
}

module _ (al : AuthRateLimiter) where
  abbrev pub count : CheckResult → ℕ
  count allowed = 1
  count _ = 0

  -- The entry after a request whose response, if the handler is called, is 401.
  pub failed_request : ℕ → Option AuthState → CheckResult × AuthState
  failed_request now entry =
      let (result, s) = check_state al now entry in
      elim result [
        | allowed ↦ (allowed, record_failed_state al now (some s))
        | locked ↦ (locked, s)
        | rate_exceeded ↦ (rate_exceeded, s)
      ]

  -- How many of the requests of one identifier at these times reach the handler, if it answers each
  -- with 401.
  pub reached : List ℕ → String → Dict AuthState → ℕ
  reached [] id d = 0
  reached (t ∷ ts) id d =
      let (result, d') = middleware al t t id 401 d in count result + reached ts id d'

  -- The times lie in the span that begins at `lo` and is as long as a lockout.
  abbrev pub AllWithin : ℕ → List ℕ → Type 0
  AllWithin lo [] = Unit
  AllWithin lo (t ∷ ts) = (lo ≤ t) × (t < lo + al.lockout_time) × AllWithin lo ts

  -- `reached` on the identifier's entry alone.
  reached_entry : List ℕ → Option AuthState → ℕ
  reached_entry [] entry = 0
  reached_entry (t ∷ ts) entry =
      count (failed_request t entry).0 + reached_entry ts (some (failed_request t entry).1)

  abbrev failed_of : Option AuthState → ℕ
  failed_of entry = (or_zero_state entry).failed_count

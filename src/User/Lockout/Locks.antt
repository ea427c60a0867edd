-- ===== src/User/Lockout/Locks.antt =====
-- What failed attempts do to an identifier in AuthRateLimiter.
use aipx.Prelude.{
  ℕ, ◌+◌, ◌≤◌, ◌<◌, String, Option, some, List, [], ◌∷◌, ◌≡◌, ◌≢◌, ◌∙◌, ap, arith, length,
}
use aipx.Prelude.Dict.{Dict, lookup, lookup-insert_self, lookup-insert_ne}
use aipx.User.Lockout.{
  AuthRateLimiter, AuthState, locked, or_zero_state, check_state, check_local, record_failed_state,
  record_failed_local,
}

module _ (al : AuthRateLimiter) where
  -- Failures of one identifier at these times, with nothing in between.
  pub record_all : List ℕ → String → Dict AuthState → Dict AuthState
  record_all [] id d = d
  record_all (t ∷ ts) id d = record_all ts id (record_failed_local al t id d)

  abbrev pub failures : String → Dict AuthState → ℕ
  failures id d = (or_zero_state (lookup id d)).failed_count

  lookup_recorded :
      (t : ℕ) (id : String) (d : Dict AuthState)
      → lookup id (record_failed_local al t id d) ≡ some (record_failed_state al t (lookup id d))
  unfolding record_failed_local
  lookup_recorded t id d = lookup-insert_self id (record_failed_state al t (lookup id d)) d

  record_failed_counts :
      (t : ℕ) (id : String) (d : Dict AuthState)
      → failures id d + 1 < al.lockout_limit
      → failures id (record_failed_local al t id d) ≡ failures id d + 1
  unfolding record_failed_state
  record_failed_counts t id d few =
      ap (λ e. (or_zero_state e).failed_count) (lookup_recorded t id d) ∙ counted (lookup id d) few
    where
      counted :
          (entry : Option AuthState)
          → (or_zero_state entry).failed_count + 1 < al.lockout_limit
          → (record_failed_state al t entry).failed_count ≡ (or_zero_state entry).failed_count + 1
      counted entry few = ground arith

  record_failed_locks :
      (t now : ℕ) (id : String) (d : Dict AuthState)
      → al.lockout_limit ≤ failures id d + 1
      → now < t + al.lockout_time
      → (check_local al now id (record_failed_local al t id d)).0 ≡ locked
  unfolding record_failed_state check_local check_state
  record_failed_locks t now id d full early = rw (lookup_recorded t id d) (ground arith)

  record_failed_ne :
      (t : ℕ) (id : String) (d : Dict AuthState) (k : String)
      → k ≢ id
      → lookup k (record_failed_local al t id d) ≡ lookup k d
  unfolding record_failed_local
  record_failed_ne t id d k other =
      lookup-insert_ne k id (record_failed_state al t (lookup id d)) d other

  -- The failure that brings the count to `lockoutLimit` locks the identifier: each of its requests is
  -- refused until `lockoutTime` after that failure, and no other identifier's entry is touched.
  pub record_all-locks :
      (ts : List ℕ) (last now : ℕ) (id : String) (d : Dict AuthState)
      → failures id d + length ts + 1 ≡ al.lockout_limit
      → now < last + al.lockout_time
      → let d' = record_failed_local al last id (record_all ts id d) in
        ((check_local al now id d').0 ≡ locked) × ((k : String) → k ≢ id → lookup k d' ≡ lookup k d)
  unfolding record_all
  record_all-locks [] last now id d count early = (
    record_failed_locks last now id d (omega arith) early,
    λ k other. record_failed_ne last id d k other,
  )
  record_all-locks (t ∷ ts) last now id d count early =
      let next = record_failed_counts t id d (omega arith) in
      let (locks, others) =
        record_all-locks ts last now id (record_failed_local al t id d) (omega (arith, next))
          early in
      (locks, λ k other. others k other ∙ record_failed_ne t id d k other)

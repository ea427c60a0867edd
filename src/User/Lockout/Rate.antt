-- ===== src/User/Lockout/Rate.antt =====
-- How many requests AuthRateLimiter lets through while they keep coming.
use aipx.Prelude.{
  ℕ, ◌+◌, ◌≤◌, ◌<◌, String, Option, none, some, List, [], ◌∷◌, ◌≡◌, ◌⊎◌, refl, ◌∙◌, ap, arith, inl,
  inr,
}
use aipx.Prelude.Dict.{Dict, lookup, lookup-insert_self}
use aipx.User.Lockout.{AuthRateLimiter, AuthState, CheckResult, allowed, check_state, check_local}

module _ (al : AuthRateLimiter) where
  abbrev passes : CheckResult → ℕ
  passes allowed = 1
  passes _ = 0

  -- How many of the checks of one identifier at these times pass, none of the attempts failing.
  pub passed : List ℕ → String → Dict AuthState → ℕ
  passed [] id d = 0
  passed (t ∷ ts) id d = let (result, d') = check_local al t id d in passes result + passed ts id d'

  -- Each check comes at most a window after the one before.
  abbrev pub IsDense : ℕ → List ℕ → Type 0
  IsDense last [] = Unit
  IsDense last (t ∷ ts) = (t ≤ last + al.window) × IsDense t ts

  check_local-result :
      (now : ℕ) (id : String) (d : Dict AuthState)
      → ((check_local al now id d).0 ≡ (check_state al now (lookup id d)).0)
        × (lookup id (check_local al now id d).1 ≡ some (check_state al now (lookup id d)).1)
  unfolding check_local
  check_local-result now id d = (refl, lookup-insert_self id (check_state al now (lookup id d)).1 d)

  passed_entry : List ℕ → Option AuthState → ℕ
  passed_entry [] entry = 0
  passed_entry (t ∷ ts) entry =
      passes (check_state al t entry).0 + passed_entry ts (some (check_state al t entry).1)

  passed-passed_entry :
      (ts : List ℕ) (id : String) (d : Dict AuthState)
      → passed ts id d ≡ passed_entry ts (lookup id d)
  unfolding passed passed_entry
  passed-passed_entry [] id d = refl
  passed-passed_entry (t ∷ ts) id d =
      let (result, entry) = check_local-result t id d in
      let rest = passed-passed_entry ts id (check_local al t id d).1 in rw (result, rest, entry)

  -- A check that comes soon after the last one counts.
  dense_step :
      (t : ℕ) (s : AuthState)
      → s.locked_until ≡ 0
      → t ≤ s.last_attempt + al.window
      → let (result, s') = check_state al t (some s) in
        (s'.locked_until ≡ 0)
        × (s'.last_attempt ≡ t)
        × (s'.attempts ≡ s.attempts + 1)
        × (((passes result ≡ 0) × (al.login_limit < s.attempts + 1))
            ⊎ ((passes result ≡ 1) × (s.attempts + 1 ≤ al.login_limit)))
  unfolding check_state
  dense_step t s free soon = ground arith

  -- Once the limit is used up, a check that comes soon does not pass.
  dense_none :
      (ts : List ℕ) (s : AuthState)
      → s.locked_until ≡ 0
      → al.login_limit ≤ s.attempts
      → IsDense s.last_attempt ts
      → passed_entry ts (some s) ≡ 0
  unfolding passed_entry
  dense_none [] s free full dense = refl
  dense_none (t ∷ ts) s free full (soon, dense) =
      let (free', last, more, result) = dense_step t s free soon in
      let s' = (check_state al t (some s)).1 in
      let dense' : IsDense s'.last_attempt ts = rw last dense in
      let rest = dense_none ts s' free' (omega (arith, more)) dense' in
      elim result [
        | inl (refused, over) ↦ omega (arith, refused, rest)
        | inr (through, room) ↦ absurd (omega arith)
      ]

  dense_bound :
      (ts : List ℕ) (s : AuthState)
      → s.locked_until ≡ 0
      → s.attempts ≤ al.login_limit
      → IsDense s.last_attempt ts
      → passed_entry ts (some s) + s.attempts ≤ al.login_limit
  unfolding passed_entry
  dense_bound [] s free few dense = omega arith
  dense_bound (t ∷ ts) s free few (soon, dense) =
      let (free', last, more, result) = dense_step t s free soon in
      let s' = (check_state al t (some s)).1 in
      let dense' : IsDense s'.last_attempt ts = rw last dense in
      elim result [
        | inl (refused, over) ↦
            omega (arith, refused, dense_none ts s' free' (omega (arith, more)) dense')
        | inr (through, room) ↦
            omega (arith, through, more, dense_bound ts s' free' (omega (arith, more)) dense')
      ]

  first_step :
      (t : ℕ)
      → let (result, s) = check_state al t none in
        (passes result ≡ 1) × (s.locked_until ≡ 0) × (s.last_attempt ≡ t) × (s.attempts ≡ 1)
  unfolding check_state
  first_step t = (refl, refl, refl, refl)

  -- Of the checks of an identifier that has no entry yet, none of its attempts failing, at most
  -- `loginLimit` (one or more) pass for as long as each comes within a window of the one before, and
  -- those refused count: this holds of a client that sends a few requests in each window as well.
  pub passed_limit :
      (t : ℕ) (ts : List ℕ) (id : String) (d : Dict AuthState)
      → 0 < al.login_limit
      → lookup id d ≡ none
      → IsDense t ts
      → passed (t ∷ ts) id d ≤ al.login_limit
  unfolding passed_entry
  passed_limit t ts id d some_limit absent dense =
      let (through, free, last, one) = first_step t in
      let s = (check_state al t none).1 in
      let dense' : IsDense s.last_attempt ts = rw last dense in
      let bound = dense_bound ts s free (omega (arith, one)) dense' in
      let same : passed (t ∷ ts) id d ≡ passed_entry (t ∷ ts) none =
        passed-passed_entry (t ∷ ts) id d ∙ ap (passed_entry (t ∷ ts)) absent in
      rw same (omega (arith, through, bound, one))

-- ===== src/Oms/Limiter/Window.antt =====
-- What limiter.go grants over time to one key, when the server's and the callers' clocks agree.
use aipx.Prelude.{ℕ, ◌+◌, ◌≤◌, Bool, Option, some, List, [], ◌∷◌, if◌then◌else◌, ◌≡◌}
use aipx.Prelude.Int.{pos_part, neg_part}
use aipx.Oms.Limiter.{Limiter, Bucket, expiry, token_bucket}

-- A bucket between two calls: between 0 and `burst` tokens, kept for a minute.
pub record IsValid (l : Limiter) (b : Bucket) : Type 0 where
  pub nonneg : neg_part b.tokens ≡ 0
  pub below : pos_part b.tokens ≤ l.burst
  pub kept : b.expires_at ≡ b.last_update + expiry

-- The tokens that one call takes.
abbrev pub taken : Bool → ℕ → ℕ
taken allowed n = if allowed then n else 0

abbrev pub granted : Limiter → List (ℕ × ℕ) → Option Bucket → ℕ
granted l [] e = 0
granted l ((now, n) ∷ rs) e =
    let (allowed, b) = token_bucket l now now n e in taken allowed n + granted l rs (some b)

abbrev pub IsOrdered : ℕ → List (ℕ × ℕ) → ℕ → Type 0
IsOrdered start [] end = start ≤ end
IsOrdered start ((now, n) ∷ rs) end = (start ≤ now) × IsOrdered now rs end

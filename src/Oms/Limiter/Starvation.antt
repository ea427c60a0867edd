-- ===== src/Oms/Limiter/Starvation.antt =====
-- What limiter.go does to a key that is asked for more often than once per token.
use aipx.Prelude.{
  ℕ, ◌+◌, ◌-◌, ◌*◌, ◌/◌, ◌≤◌, ◌<◌, Bool, false, some, List, [], ◌∷◌, ◌≡◌, refl, arith,
}
use aipx.Prelude.Int.{pos, ◌+ℤ◌, ◌≤ℤ◌, ◌<ℤ◌, +ℤ_parts, eq_of_parts}
use aipx.Oms.Limiter.{Limiter, Bucket, nano, expiry, tokens_to_add, alive, available, token_bucket}

-- Calls for `n` tokens each, every one less than the time of one token after the last.
abbrev pub IsFrequent : Limiter → ℕ → List ℕ → Type 0
IsFrequent l last [] = Unit
IsFrequent l last (now ∷ ts) =
    (last ≤ now) × ((now - last) * l.rate < nano) × (now < last + expiry) × IsFrequent l now ts

-- The answers to calls at these times, each for `n` tokens.
abbrev pub answers : Limiter → ℕ → List ℕ → Bucket → List Bool
answers l n [] b = []
answers l n (now ∷ ts) b =
    let (allowed, b') = token_bucket l now now n (some b) in allowed ∷ answers l n ts b'

abbrev pub AllDenied : List Bool → Type 0
AllDenied [] = Unit
AllDenied (allowed ∷ rest) = (allowed ≡ false) × AllDenied rest

small_div : (x : ℕ) → x < nano → x / nano ≡ 0
small_div x h = omega arith

available_frequent :
    (l : Limiter) (now : ℕ) (b : Bucket)
    → b.tokens ≤ℤ pos l.burst
    → b.last_update ≤ now
    → (now - b.last_update) * l.rate < nano
    → available l now (some b) ≡ b.tokens
unfolding available tokens_to_add
available_frequent l now b below h frequent = ground (
  arith,
  small_div ((now - b.last_update) * l.rate),
  +ℤ_parts b.tokens (pos ((now - b.last_update) * l.rate / nano)),
  eq_of_parts (b.tokens +ℤ pos ((now - b.last_update) * l.rate / nano)) b.tokens,
)

-- A denied call has moved `last_update` to its own time and has dropped the fraction of a token that
-- had come in.
denied_step :
    (l : Limiter) (now n : ℕ) (b : Bucket)
    → b.tokens ≤ℤ pos l.burst
    → b.tokens <ℤ pos n
    → b.last_update ≤ now
    → (now - b.last_update) * l.rate < nano
    → now < b.expires_at
    → token_bucket l now now n (some b)
      ≡ (false, record { tokens = b.tokens; last_update = now; expires_at = now + expiry })
unfolding token_bucket alive
denied_step l now n b below short h frequent stored =
    ground (arith, available_frequent l now b below h frequent)

-- A key whose bucket holds too few tokens, and which is then asked for them in intervals shorter
-- than the time of one token, is denied every time, however long the calls go on.
pub starvation :
    (l : Limiter) (n : ℕ) (ts : List ℕ) (b : Bucket)
    → b.tokens ≤ℤ pos l.burst
    → b.tokens <ℤ pos n
    → b.expires_at ≡ b.last_update + expiry
    → IsFrequent l b.last_update ts
    → AllDenied (answers l n ts b)
starvation l n [] b below short kept h = tt
starvation l n (now ∷ ts) b below short kept h =
    rw (denied_step l now n b below short h.0 h.1 (omega arith)) (
      refl,
      starvation l n ts (record { tokens = b.tokens; last_update = now; expires_at = now + expiry })
          below short refl h.3,
    )

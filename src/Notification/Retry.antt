-- ===== src/Notification/Retry.antt =====
-- services/notification-service/internal/channels/{slack,telegram,email}.go: the loop by which all
-- three channels send with exponential backoff. `E` is the type of a channel's errors. The context
-- is its deadline, if it has one; where the deadline and the end of a wait fall together, the
-- context counts as done.
pub mod Bounds
mod Tests
use aipx.Prelude.{
  ℕ, zero, suc, ◌+◌, ◌-◌, ◌*◌, ◌^◌, Bool, true, false, Option, none, some, if◌then◌else◌, leb, ltb,
}
use aipx.Prelude.Int.{ℤ, pos, negsuc, ltb_ℤ}
use aipx.Notification.Channel.{second}

-- What came of one attempt, and how long it took.
pub record Attempt (E : Type 0) : Type 0 where
  pub took : ℕ
  pub error : Option E

-- What a channel's `Send` returns; `failed_after` has the number in its message and `lastErr`.
pub data SendResult (E : Type 0) : Type 0 where
  sent : SendResult E
  not_configured : SendResult E
  context_done : SendResult E
  failed_after : ℤ → Option E → SendResult E

-- The result, the time at which it is there, and the number of attempts made.
pub record Sending (E : Type 0) : Type 0 where
  pub result : SendResult E
  pub time : ℕ
  pub attempts : ℕ

-- `maxRetries`: the notification's, where that is positive, else the channel's.
abbrev pub retries : ℤ → ℤ → ℤ
retries configured wanted = if ltb_ℤ (pos 0) wanted then wanted else configured

-- The rounds of `for attempt := 0; attempt <= maxRetries; attempt++`.
abbrev pub rounds : ℤ → ℕ
rounds (pos n) = suc n
rounds (negsuc n) = 0

abbrev pub after : ℤ → ℤ
after (pos n) = pos (suc n)
after (negsuc zero) = pos 0
after (negsuc (suc n)) = negsuc n

-- `math.Pow(2, float64(attempt-1))` seconds, none before the first attempt.
abbrev pub backoff : ℕ → ℕ
backoff zero = 0
backoff (suc k) = 2 ^ k * second

-- Whether the context ends the wait before attempt `k`, which begins at `now`.
abbrev pub interrupts : Option ℕ → ℕ → ℕ → Bool
interrupts deadline zero now = false
interrupts none (suc k) now = false
interrupts (some end) (suc k) now = leb end (now + backoff (suc k))

-- The time at which the context ends such a wait.
abbrev pub interrupted_at : Option ℕ → ℕ → ℕ
interrupted_at none now = now
interrupted_at (some end) now = if ltb now end then end else now

module _ {E : Type 0} (max_retries : ℤ) (deadline : Option ℕ) (attempt : ℕ → Attempt E) where
  -- The loop with `left` rounds to go, of which the next is `k`; `last` is `lastErr`.
  pub send_loop : ℕ → ℕ → ℕ → Option E → Sending E
  send_loop zero k now last = record {
    result = failed_after (after max_retries) last;
    time = now;
    attempts = 0;
  }
  send_loop (suc left) k now last =
      let end = now + backoff k + (attempt k).took in
      elim (interrupts deadline k now) [
        | true ↦ record { result = context_done; time = interrupted_at deadline now; attempts = 0 }
        | false ↦ elim (attempt k).error [
          | none ↦ record { result = sent; time = end; attempts = 1 }
          | some e ↦
              let rest = send_loop left (suc k) end (some e) in
              record rest { attempts = suc rest.attempts }
        ]
      ]

  -- The loop from its start, at `now`.
  unfoldable pub send_with_retry : ℕ → Sending E
  unfolding send_loop
  send_with_retry now = send_loop (rounds max_retries) 0 now none

-- ===== src/Notification/Retry/Tests.antt =====
-- The channels' loop at concrete attempts: two fail, the third succeeds.
use aipx.Prelude.{ℕ, zero, suc, ◌+◌, ◌-◌, ◌*◌, ◌^◌, ◌<◌, none, some, ◌≡◌, refl}
use aipx.Prelude.Int.{pos}
use aipx.Notification.Channel.{second}
use aipx.Notification.Retry.{Attempt, sent, context_done, rounds, send_with_retry}
use aipx.Notification.Retry.Bounds.{IsExplained, send_with_retry-IsExplained}

abbrev flaky : ℕ → Attempt ℕ
flaky zero = record { took = 1000; error = some 500 }
flaky (suc zero) = record { took = 1000; error = some 503 }
flaky (suc (suc k)) = record { took = 1000; error = none }

abbrev failing : ℕ → Attempt ℕ
failing k = record { took = 1000; error = some 500 }

flaky_sent : (send_with_retry (pos 3) (some (10 * second)) flaky 0).result ≡ sent
unfolding send_with_retry
flaky_sent = refl

-- Ten seconds leave room for the waits of 1, 2 and 4 seconds, but not for the one of 8.
failing_stops : (send_with_retry (pos 9) (some (10 * second)) failing 0).attempts ≡ 4
unfolding send_with_retry
failing_stops = refl

failing_context : (send_with_retry (pos 9) (some (10 * second)) failing 0).result ≡ context_done
unfolding send_with_retry
failing_context = refl

send_with_retry-IsExplained_example :
    let s = send_with_retry (pos 9) (some (10 * second)) failing 0 in
    IsExplained (pos 9) failing 0 (rounds (pos 9)) s.result s.attempts
    × ((n : ℕ) → s.attempts ≡ suc (suc n) → 0 + (2 ^ suc n - 1) * second < 10 * second)
send_with_retry-IsExplained_example = send_with_retry-IsExplained (pos 9) failing (10 * second) 0

-- ===== src/Notification/Retry/Bounds.antt =====
-- How often the channels of internal/channels/ try, and what their answer says of the attempts.
use Prim.Native.Nat.pow
use aipx.Prelude.{
  ℕ, zero, suc, ◌+◌, ◌-◌, ◌*◌, ◌^◌, ◌≤◌, ◌<◌, true, false, Option, none, some, ◌≡◌, ◌≢◌, refl,
  arith, Bool-cases, Option-cases, inl, inr, leb,
}
use aipx.Prelude.Int.{ℤ}
use aipx.Notification.Channel.{second}
use aipx.Notification.Retry.{
  Attempt, SendResult, sent, not_configured, context_done, failed_after, Sending, rounds, backoff,
  interrupts, interrupted_at, send_loop, send_with_retry,
}

-- The waits before `n` attempts, the first of which is `k`.
abbrev pub total_backoff : ℕ → ℕ → ℕ
total_backoff k zero = 0
total_backoff k (suc n) = backoff k + total_backoff (suc k) n

total_backoff_closed : (k n : ℕ) → total_backoff (suc k) n + 2 ^ k * second ≡ 2 ^ (k + n) * second
total_backoff_closed k zero = let same : k + zero ≡ k = omega arith in rw same (omega arith)
total_backoff_closed k (suc n) =
    let same : k + suc n ≡ suc k + n = omega arith in
    rw same (omega (arith, total_backoff_closed (suc k) n, pow.suc 2 k))

total_backoff_first : (n : ℕ) → total_backoff 1 n + second ≡ 2 ^ n * second
total_backoff_first n =
    let same : 0 + n ≡ n = omega arith in simp same at (total_backoff_closed 0 n)

module _ {E : Type 0} (max_retries : ℤ) (attempt : ℕ → Attempt E) where
  abbrev pub Failed : ℕ → Type 0
  Failed j = (attempt j).error ≢ none

  -- What the answer says of the `left` rounds from `k` on.
  abbrev pub IsExplained : ℕ → ℕ → SendResult E → ℕ → Type 0
  IsExplained k left sent n =
      (m : ℕ) × (n ≡ suc m)
      × (m < left)
      × ((attempt (k + m)).error ≡ none)
      × ((j : ℕ) → j < m → Failed (k + j))
  IsExplained k left not_configured n = ⊥
  IsExplained k left context_done n = (n < left) × ((j : ℕ) → j < n → Failed (k + j))
  IsExplained k left (failed_after c e) n = (n ≡ left) × ((j : ℕ) → j < left → Failed (k + j))

  module _ (deadline : Option ℕ) where
    -- The round after attempt `k`.
    abbrev pub next : ℕ → ℕ → ℕ → E → Sending E
    next left k now x =
        send_loop max_retries deadline attempt left (suc k) (now + backoff k + (attempt k).took)
          (some x)

    loop_interrupted :
        (left k now : ℕ) (last : Option E)
        → interrupts deadline k now ≡ true
        → send_loop max_retries deadline attempt (suc left) k now last
          ≡ record { result = context_done; time = interrupted_at deadline now; attempts = 0 }
    unfolding send_loop
    loop_interrupted left k now last h = rw (h, send_loop) refl

    loop_sent :
        (left k now : ℕ) (last : Option E)
        → interrupts deadline k now ≡ false
        → (attempt k).error ≡ none
        → send_loop max_retries deadline attempt (suc left) k now last
          ≡ record { result = sent; time = now + backoff k + (attempt k).took; attempts = 1 }
    unfolding send_loop
    loop_sent left k now last h e = rw (h, send_loop) (rw e refl)

    loop_failed :
        (left k now : ℕ) (last : Option E) (x : E)
        → interrupts deadline k now ≡ false
        → (attempt k).error ≡ some x
        → send_loop max_retries deadline attempt (suc left) k now last
          ≡ record (next left k now x) { attempts = suc (next left k now x).attempts }
    unfolding send_loop
    loop_failed left k now last x h e = rw (h, send_loop) (rw e refl)

    -- One failed attempt in front.
    front_failure :
        (k n : ℕ) (x : E)
        → (attempt k).error ≡ some x
        → ((j : ℕ) → j < n → Failed (suc k + j))
        → (j : ℕ) → j < suc n
        → Failed (k + j)
    front_failure k n x e rest zero lt = let here : k + zero ≡ k = omega arith in rw here (λ h. cc)
    front_failure k n x e rest (suc j) lt =
        let there : k + suc j ≡ suc k + j = omega arith in rw there (rest j (omega arith))

    IsExplained-suc :
        (k left : ℕ) (x : E) (r : SendResult E) (n : ℕ)
        → (attempt k).error ≡ some x
        → IsExplained (suc k) left r n
        → IsExplained k (suc left) r (suc n)
    IsExplained-suc k left x sent n e (m, count, lt, good, before) =
        let there : k + suc m ≡ suc k + m = omega arith in
        (suc m, omega arith, omega arith, rw there good, front_failure k m x e before)
    IsExplained-suc k left x not_configured n e h = h
    IsExplained-suc k left x context_done n e (lt, before) =
        (omega arith, front_failure k n x e before)
    IsExplained-suc k left x (failed_after c y) n e (count, before) =
        (omega arith, front_failure k left x e before)

    send_loop-IsExplained :
        (left k now : ℕ) (last : Option E)
        → IsExplained k left
            (send_loop max_retries deadline attempt left k now last).result
            (send_loop max_retries deadline attempt left k now last).attempts
    unfolding send_loop
    send_loop-IsExplained zero k now last = (refl, λ j h. elim h [ ])
    send_loop-IsExplained (suc left) k now last = elim (Bool-cases (interrupts deadline k now)) [
      | inl h ↦ rw (loop_interrupted left k now last h) (omega arith, λ j h. elim h [ ])
      | inr h ↦ elim (Option-cases (attempt k).error) [
        | inl e ↦ rw (loop_sent left k now last h e) (
            let here : k + zero ≡ k = omega arith in
            (0, refl, omega arith, rw here e, λ j h. elim h [ ]))
        | inr (x, e) ↦ rw (loop_failed left k now last x h e) (
            IsExplained-suc k left x (next left k now x).result (next left k now x).attempts e
              (send_loop-IsExplained left (suc k) (now + backoff k + (attempt k).took) (some x)))
      ]
    ]

  -- One wait in front.
  wait_first :
      (end k now later n m : ℕ)
      → now + backoff (suc k) < end
      → now + backoff (suc k) ≤ later
      → n ≡ m
      → ((i : ℕ) → n ≡ suc i → later + total_backoff (suc (suc k)) (suc i) < end)
      → now + total_backoff (suc k) (suc m) < end
  wait_first end k now later n zero in_time le count rest = omega arith
  wait_first end k now later n (suc i) in_time le count rest = omega (arith, rest i count)

  -- The waits before the attempts that are made end before the deadline.
  loop_backoff :
      (end left k now : ℕ) (last : Option E) (m : ℕ)
      → (send_loop max_retries (some end) attempt left (suc k) now last).attempts ≡ suc m
      → now + total_backoff (suc k) (suc m) < end
  unfolding send_loop
  loop_backoff end zero k now last m = λ made. let impossible : zero ≡ suc m = made in omega arith
  loop_backoff end (suc left) k now last m = elim (Bool-cases (leb end (now + backoff (suc k)))) [
    | inl h ↦ rw (loop_interrupted (some end) left (suc k) now last h) (λ made. omega arith)
    | inr h ↦
        let in_time : now + backoff (suc k) < end = ground arith in
        elim (Option-cases (attempt (suc k)).error) [
          | inl e ↦
              rw (loop_sent (some end) left (suc k) now last h e)
                (λ made. let one : m ≡ 0 = omega arith in rw one (omega arith))
          | inr (x, e) ↦ rw (loop_failed (some end) left (suc k) now last x h e) (λ made.
              wait_first end k now (now + backoff (suc k) + (attempt (suc k)).took)
                (next (some end) left (suc k) now x).attempts m in_time (omega arith) (omega arith)
                (λ i.
                  loop_backoff end left (suc k) (now + backoff (suc k) + (attempt (suc k)).took)
                    (some x) i))
        ]
  ]

  first_round :
      (left end now n : ℕ)
      → (send_loop max_retries (some end) attempt left 0 now none).attempts ≡ suc (suc n)
      → now + total_backoff 1 (suc n) < end
  unfolding send_loop
  first_round zero end now n = λ made. let impossible : zero ≡ suc (suc n) = made in omega arith
  first_round (suc left) end now n = elim (Option-cases (attempt 0).error) [
    | inl e ↦ rw (loop_sent (some end) left 0 now none refl e) (λ made. omega arith)
    | inr (x, e) ↦ rw (loop_failed (some end) left 0 now none x refl e) (λ made.
        omega
          (arith, loop_backoff end left 0 (now + 0 + (attempt 0).took) (some x) n (omega arith)))
  ]

  -- `Send` makes at most `maxRetries + 1` attempts (none for a negative `maxRetries`), and its answer
  -- is true of them: `sent` is the answer where the last attempt made succeeded and all before it
  -- failed; an error of the context, where all that were made failed and some were left; the error
  -- with the number of attempts, where all of them were made and failed. Where two or more were
  -- made, the waits before them, which come to 2^(n - 1) - 1 seconds for n attempts, end before the
  -- deadline of the context.
  pub send_with_retry-IsExplained :
      (end now : ℕ)
      → let s = send_with_retry max_retries (some end) attempt now in
        IsExplained 0 (rounds max_retries) s.result s.attempts
        × ((n : ℕ) → s.attempts ≡ suc (suc n) → now + (2 ^ suc n - 1) * second < end)
  unfolding send_with_retry
  send_with_retry-IsExplained end now = (
    send_loop-IsExplained (some end) (rounds max_retries) 0 now none,
    λ n made.
        omega (arith, first_round (rounds max_retries) end now n made, total_backoff_first (suc n)),
  )

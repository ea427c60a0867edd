-- ===== src/Oms/Broker/Retry.antt =====
-- What the retries of kis_client.go do.
use aipx.Prelude.{
  ℕ, zero, suc, ◌+◌, ◌≤◌, ◌<◌, str_eq, true, false, [], ◌∷◌, ◌++◌, ◌≡◌, refl, arith, length,
  length-append, inl, inr, ◌⊎◌, ap, ◌∙◌,
}
use aipx.Prelude.Int.{ℤ, pos}
use aipx.Oms.Broker.{
  OrderRequest, OrderResponse, Wire, lost, Outcome, sent, SubmitError, SubmitResult, ok, err,
  payload, submit_order_internal, submit_loop, submit_order, rounds, convert_order_type, read_wire,
}

pub SubmitResult-cases :
    {F : Type 0} (r : SubmitResult F)
    → ((v : OrderResponse F) × (r ≡ ok v)) ⊎ ((e : SubmitError) × (r ≡ err e))
SubmitResult-cases (ok v) = inl (v, refl)
SubmitResult-cases (err e) = inr (e, refl)

module _ {F : Type 0} (zero_price : F) (req : OrderRequest F) (outcome : ℕ → Outcome) where
  abbrev pub attempt_result : ℕ → SubmitResult F
  attempt_result k = (submit_order_internal zero_price req (outcome k)).0

  abbrev pub IsErr : SubmitResult F → Type 0
  IsErr (ok r) = ⊥
  IsErr (err e) = Unit

  internal_requests : (k : ℕ) → length (submit_order_internal zero_price req (outcome k)).1 ≤ 1
  unfolding submit_order_internal
  internal_requests k = ground arith

  loop_ok :
      (left attempt : ℕ) (last : SubmitError) (v : OrderResponse F)
      → attempt_result attempt ≡ ok v
      → submit_loop zero_price req outcome (suc left) attempt last
        ≡ (ok v, (submit_order_internal zero_price req (outcome attempt)).1)
  unfolding submit_loop
  loop_ok left attempt last v e = rw (e, submit_loop)

  loop_err :
      (left attempt : ℕ) (last e : SubmitError)
      → attempt_result attempt ≡ err e
      → submit_loop zero_price req outcome (suc left) attempt last ≡ (
        (submit_loop zero_price req outcome left (attempt + 1) e).0,
        (submit_order_internal zero_price req (outcome attempt)).1
            ++ (submit_loop zero_price req outcome left (attempt + 1) e).1,
      )
  unfolding submit_loop
  loop_err left attempt last e h = rw (h, submit_loop)

  loop_requests :
      (left attempt : ℕ) (last : SubmitError)
      → length (submit_loop zero_price req outcome left attempt last).1 ≤ left
  unfolding submit_loop
  loop_requests zero attempt last = omega arith
  loop_requests (suc left) attempt last = elim (SubmitResult-cases (attempt_result attempt)) [
    | inl (v, e) ↦ rw (loop_ok left attempt last v e) (omega (arith, internal_requests attempt))
    | inr (e, h) ↦ rw (loop_err left attempt last e h) (
        omega (
          arith,
          internal_requests attempt,
          loop_requests left (attempt + 1) e,
          length-append (submit_order_internal zero_price req (outcome attempt)).1
              (submit_loop zero_price req outcome left (attempt + 1) e).1,
        ))
  ]

  -- The result of rounds from `attempt` on: the first success, or that all failed.
  abbrev pub FirstSuccess : ℕ → ℕ → SubmitResult F → Type 0
  FirstSuccess attempt left (ok v) =
      (k : ℕ) × (k < left)
      × (attempt_result (attempt + k) ≡ ok v)
      × ((j : ℕ) → j < k → IsErr (attempt_result (attempt + j)))
  FirstSuccess attempt left (err e) = (j : ℕ) → j < left → IsErr (attempt_result (attempt + j))

  -- One failed round in front.
  errs_suc :
      (attempt n : ℕ) (e : SubmitError)
      → attempt_result attempt ≡ err e
      → ((j : ℕ) → j < n → IsErr (attempt_result (attempt + 1 + j)))
      → (j : ℕ) → j < suc n
      → IsErr (attempt_result (attempt + j))
  errs_suc attempt n e h all zero lt =
      let here : attempt + zero ≡ attempt = omega arith in rw here (rw h tt)
  errs_suc attempt n e h all (suc j) lt =
      let there : attempt + suc j ≡ attempt + 1 + j = omega arith in rw there (all j (omega arith))

  FirstSuccess-suc :
      (attempt left : ℕ) (e : SubmitError) (r : SubmitResult F)
      → attempt_result attempt ≡ err e
      → FirstSuccess (attempt + 1) left r
      → FirstSuccess attempt (suc left) r
  FirstSuccess-suc attempt left e (ok v) h (k, lt, at, before) =
      let there : attempt + suc k ≡ attempt + 1 + k = omega arith in
      (suc k, omega arith, rw there at, errs_suc attempt k e h before)
  FirstSuccess-suc attempt left e (err e') h all = errs_suc attempt left e h all

  loop-FirstSuccess :
      (left attempt : ℕ) (last : SubmitError)
      → FirstSuccess attempt left (submit_loop zero_price req outcome left attempt last).0
  unfolding submit_loop
  loop-FirstSuccess zero attempt last = λ j h. elim h [ ]
  loop-FirstSuccess (suc left) attempt last = elim (SubmitResult-cases (attempt_result attempt)) [
    | inl (v, e) ↦ rw (loop_ok left attempt last v e) (
        let here : attempt + zero ≡ attempt = omega arith in
        (0, omega arith, rw here e, λ j h. elim h [ ]))
    | inr (e, h) ↦ rw (loop_err left attempt last e h) (
        FirstSuccess-suc attempt left e (submit_loop zero_price req outcome left (attempt + 1) e).0
          h (loop-FirstSuccess left (attempt + 1) e))
  ]

  -- `SubmitOrder` makes at most `maxRetries + 1` requests (none for a negative `maxRetries`). It
  -- returns the response of the first attempt that succeeds, all before it having failed, and it
  -- returns an error only where each of the attempts has failed.
  pub submit_order_first :
      (max_retries : ℤ)
      → (length (submit_order zero_price max_retries req outcome).1 ≤ rounds max_retries)
        × FirstSuccess 0 (rounds max_retries) (submit_order zero_price max_retries req outcome).0
  unfolding submit_order
  submit_order_first max_retries = (
    loop_requests (rounds max_retries) 0 SubmitError.not_attempted,
    loop-FirstSuccess (rounds max_retries) 0 SubmitError.not_attempted,
  )

  internal_sent :
      (k : ℕ) (w : Wire)
      → str_eq (convert_order_type req.order_type) "" ≡ false
      → outcome k ≡ sent w
      → submit_order_internal zero_price req (outcome k)
        ≡ (read_wire zero_price w, payload req ∷ [])
  unfolding submit_order_internal
  internal_sent k w known e = rw (e, submit_order_internal) (rw known)

  -- Where the broker takes the first request but its answer is lost, and the second request is
  -- accepted, a single call of `SubmitOrder` has sent the same order to the broker twice.
  pub submit_order_twice :
      (n : ℕ) (w : Wire) (v : OrderResponse F)
      → str_eq (convert_order_type req.order_type) "" ≡ false
      → outcome 0 ≡ sent (lost true)
      → outcome 1 ≡ sent w
      → read_wire zero_price w ≡ ok v
      → submit_order zero_price (pos (suc n)) req outcome ≡ (ok v, payload req ∷ payload req ∷ [])
  unfolding submit_order
  submit_order_twice n w v known first second accepted =
      let lost_first = internal_sent 0 (lost true) known first in
      let then_taken = internal_sent 1 w known second in
      rw
        (loop_err (suc n) 0 SubmitError.not_attempted SubmitError.no_answer
          (ap (λ p. p.0) lost_first))
        (rw (loop_ok n 1 SubmitError.no_answer v (ap (λ p. p.0) then_taken ∙ accepted))
          (rw (lost_first, then_taken)))

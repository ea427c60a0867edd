-- ===== src/Oms/Broker/Unfilled.antt =====
-- What kis_client.go reports as filled when an order is submitted.
use mathlib.Core.Path.{subst}
use aipx.Prelude.{ℕ, ◌+◌, ◌≡◌, str_eq, Bool-cases, inl, inr, arith}
use aipx.Prelude.Int.{ℤ, pos}
use aipx.Oms.Broker.{
  OrderRequest, OrderResponse, Wire, Outcome, sent, breaker_open, SubmitResult, SubmitError, ok,
  err, read_wire, submit_order, submit_order_internal, rounds, convert_order_type,
}
use aipx.Oms.Broker.Retry.{FirstSuccess, submit_order_first}

module _ {F : Type 0} (zero_price : F) where
  read_wire-unfilled :
      (w : Wire) (v : OrderResponse F) → read_wire zero_price w ≡ ok v → v.filled_quantity ≡ pos 0
  read_wire-unfilled w v h = ground arith

  internal-unfilled :
      (req : OrderRequest F) (x : Outcome) (v : OrderResponse F)
      → (submit_order_internal zero_price req x).0 ≡ ok v
      → v.filled_quantity ≡ pos 0
  unfolding submit_order_internal
  internal-unfilled req breaker_open v h = cc
  internal-unfilled req (sent w) v h =
      elim (Bool-cases (str_eq (convert_order_type req.order_type) "")) [
        | inl e ↦ absurd (refused (rw e at h))
        | inr e ↦ read_wire-unfilled w v (rw e at h)
      ]
    where
      refused : {x : SubmitError} → ◌≡◌ {A = SubmitResult F} (err x) (ok v) → ⊥
      refused h = cc

  -- A submission that succeeds reports nothing as filled.
  pub submit_order-unfilled :
      (max_retries : ℤ) (req : OrderRequest F) (outcome : ℕ → Outcome) (v : OrderResponse F)
      → (submit_order zero_price max_retries req outcome).0 ≡ ok v
      → v.filled_quantity ≡ pos 0
  submit_order-unfilled max_retries req outcome v h =
      let (k, lt, at, before) =
        subst (λ r. FirstSuccess zero_price req outcome 0 (rounds max_retries) r) h
          (submit_order_first zero_price req outcome max_retries).1 in
      internal-unfilled req (outcome (0 + k)) v at

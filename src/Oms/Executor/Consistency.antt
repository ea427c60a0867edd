-- ===== src/Oms/Executor/Consistency.antt =====
-- `Execute` of order_executor.go keeps the tables consistent.
use aipx.Prelude.{◌≡◌, refl, ◌⊎◌, inl, inr, ap}
use mathlib.Core.Path.{subst}
use aipx.Prelude.Int.{ℤ}
use aipx.Oms.Order.{Order, sent, rejected, pending, submit_failed, sent_to_broker}
use aipx.Oms.Repository.{done, create_order, update_order_execution}
use aipx.Oms.Repository.Effects.{create_order-cases}
use aipx.Oms.Repository.Updates.{
  IsConsistent, create_order-IsConsistent, update_order_status-IsConsistent,
  update_order_execution-IsConsistent,
}
use aipx.Oms.Broker.{OrderResponse}
use aipx.Oms.Broker.Retry.{SubmitResult-cases}
use aipx.Oms.Executor.{World, ExecuteEnv, create_failed, execute, after_submission, after_rejection}
use aipx.Oms.Executor.Submission.{
  asked, stored, submission, execute_submitted, execute_not_submitted, execute_not_stored,
}

module _ {F : Type 0} (zero : F) (max_retries : ℤ) (env : ExecuteEnv) (order : Order F)
    (w : World F) where
  after_submission-IsConsistent :
      (r : OrderResponse F)
      → IsConsistent (asked zero max_retries env order w).db
      → IsConsistent
          (after_submission zero env
            (stored zero max_retries env order w)
            r
            (asked zero max_retries env order w)).db
  unfolding after_submission
  after_submission-IsConsistent r c =
      update_order_status-IsConsistent env.status_env env.new_id sent sent_to_broker
        (update_order_execution env.execution_env env.new_id r.order_id r.filled_price
          r.filled_quantity (asked zero max_retries env order w).db).1
        (update_order_execution-IsConsistent env.execution_env env.new_id r.order_id r.filled_price
          r.filled_quantity (asked zero max_retries env order w).db c)

  after_rejection-IsConsistent :
      IsConsistent (asked zero max_retries env order w).db
      → IsConsistent
          (after_rejection zero env
            (stored zero max_retries env order w)
            (asked zero max_retries env order w)).db
  unfolding after_rejection
  after_rejection-IsConsistent c =
      update_order_status-IsConsistent env.status_env env.new_id rejected submit_failed
        (asked zero max_retries env order w).db c

  -- `Execute` of a pending order, whatever fails on the way, keeps the tables consistent; and where
  -- it cannot store the order it sends nothing to the broker, publishes nothing and changes nothing.
  pub execute-IsConsistent :
      order.status ≡ pending
      → IsConsistent w.db
      → IsConsistent (execute zero max_retries env order w).1.db
        × (((create_order env.create_env env.new_id order w.db).0 ≡ done)
            ⊎ (execute zero max_retries env order w ≡ (create_failed, w)))
  execute-IsConsistent p c = elim (create_order-cases env.create_env env.new_id order w.db) [
    | inl e ↦
        let created : IsConsistent (asked zero max_retries env order w).db =
          subst (λ t. IsConsistent t.2) e
            (create_order-IsConsistent env.create_env env.new_id order w.db p c) in
        elim (SubmitResult-cases (submission zero max_retries env order w).0) [
          | inl (r, h) ↦
              rw (execute_submitted zero max_retries env order w r e h)
                (after_submission-IsConsistent r created, inl (ap (λ t. t.0) e))
          | inr (x, h) ↦
              rw (execute_not_submitted zero max_retries env order w x e h)
                (after_rejection-IsConsistent created, inl (ap (λ t. t.0) e))
        ]
    | inr e ↦ rw (execute_not_stored zero max_retries env order w e) (c, inr refl)
  ]

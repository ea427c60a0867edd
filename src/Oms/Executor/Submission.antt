-- ===== src/Oms/Executor/Submission.antt =====
-- What `Execute` of order_executor.go leaves behind.
use aipx.Prelude.{
  String, true, false, none, some, List, [], ◌∷◌, ◌++◌, ◌≡◌, ◌≢◌, refl, arith, ap, ◌∙◌,
}
use aipx.Prelude.Int.{ℤ, pos, ◌≤ℤ◌, ◌<ℤ◌}
use aipx.Prelude.Dict.{lookup, lookup-insert_self, lookup-insert_ne}
use aipx.Oms.Order.{Order, sent, rejected, submit_failed, sent_to_broker, submitted}
use aipx.Oms.Repository.{done, db_error, create_order, row_ok, with_status, with_execution}
use aipx.Oms.Repository.Effects.{
  updated, update_order_status_done, update_order_status_down, update_order_execution_done,
  update_order_execution_down, create_order_done, stored_order, stored_db, stored_row,
}
use aipx.Oms.Broker.{OrderResponse, SubmitResult, SubmitError, ok, err, submit_order, Payload}
use aipx.Oms.Broker.Unfilled.{submit_order-unfilled}
use aipx.Oms.Executor.{
  World, ExecuteEnv, executed, create_failed, execution_failed, execute, execute_stored,
  kis_request, after_submission, after_rejection, order_event, publish_order_event,
}

module _ {F : Type 0} (zero : F) (max_retries : ℤ) (env : ExecuteEnv) (order : Order F)
    (w : World F) where
  -- The order as `Execute` goes on with it, and the tables that hold it.
  abbrev pub stored : Order F
  stored = stored_order env.create_env env.new_id order w.db

  abbrev pub submission : SubmitResult F × List (Payload F)
  submission = submit_order zero max_retries (kis_request zero stored) env.outcome

  -- The world once the broker has been asked.
  abbrev pub asked : World F
  asked = record w {
    db = stored_db env.create_env env.new_id order w.db;
    requests = w.requests ++ submission.1;
  }

  abbrev pub IsStored : Type 0
  IsStored =
      create_order env.create_env env.new_id order w.db
      ≡ (done, stored, stored_db env.create_env env.new_id order w.db)

  pub execute_submitted :
      (r : OrderResponse F)
      → IsStored
      → submission.0 ≡ ok r
      → execute zero max_retries env order w ≡ (executed, after_submission zero env stored r asked)
  unfolding execute
  execute_submitted r e h = rw (e, execute) (rw e (rw (h, execute_stored)))

  pub execute_not_submitted :
      (x : SubmitError)
      → IsStored
      → submission.0 ≡ err x
      → execute zero max_retries env order w
        ≡ (execution_failed, after_rejection zero env stored asked)
  unfolding execute
  execute_not_submitted x e h = rw (e, execute) (rw e (rw (h, execute_stored)))

  pub execute_not_stored :
      create_order env.create_env env.new_id order w.db ≡ (db_error, order, w.db)
      → execute zero max_retries env order w ≡ (create_failed, w)
  unfolding execute
  execute_not_stored e = rw (e, execute) (rw e)

  -- The row after the two updates of a submitted order.
  abbrev pub executed_row : OrderResponse F → Order F
  executed_row r =
      record (with_execution r.order_id r.filled_price r.filled_quantity
        (stored_row env.create_env env.new_id order w.db)) { updated_at = env.execution_env.now }

  abbrev pub sent_row : OrderResponse F → Order F
  sent_row r = record (with_status sent sent_to_broker (executed_row r)) {
    updated_at = env.status_env.now;
  }

  -- The tables after both updates.
  sent_tables :
      (r : OrderResponse F)
      → env.execution_env.up ≡ true
      → env.status_env.up ≡ true
      → pos 0 <ℤ order.quantity
      → pos 0 ≤ℤ r.filled_quantity
      → r.filled_quantity ≤ℤ order.quantity
      → let db = (after_submission zero env stored r asked).db in
        (lookup env.new_id db.orders ≡ some (sent_row r))
        × ((k : String) → k ≢ env.new_id → lookup k db.orders ≡ lookup k w.db.orders)
  unfolding after_submission
  sent_tables r up up' positive low high =
      let created = stored_db env.create_env env.new_id order w.db in
      let row = stored_row env.create_env env.new_id order w.db in
      let found = lookup-insert_self env.new_id row w.db.orders in
      let f = with_execution {F = F} r.order_id r.filled_price r.filled_quantity in
      let middle = updated env.execution_env env.new_id created row f in
      let found' = lookup-insert_self env.new_id (executed_row r) created.orders in
      let ok' : row_ok (executed_row r) ≡ true = ground arith in
      rw
        (update_order_execution_done env.execution_env env.new_id created row r.order_id
          r.filled_price r.filled_quantity up found ok')
        (rw
          (update_order_status_done env.status_env env.new_id middle (executed_row r) sent
            sent_to_broker up' found' ok')
          (
            lookup-insert_self env.new_id (sent_row r) middle.orders,
            λ k h.
                lookup-insert_ne k env.new_id (sent_row r) middle.orders h
                ∙ lookup-insert_ne k env.new_id (executed_row r) created.orders h
                ∙ lookup-insert_ne k env.new_id row w.db.orders h,
          ))

  -- `Execute` of an order that the broker accepts, every part being up and the id being new: the
  -- row gets the broker's id, its status ends as sent with nothing filled, no other row changes, and
  -- one event is published, which says sent and has no broker's id.
  pub execute_sent :
      (r : OrderResponse F)
      → env.create_env.up ≡ true
      → env.execution_env.up ≡ true
      → env.status_env.up ≡ true
      → env.kafka_up ≡ true
      → order.broker_order_id ≡ none
      → pos 0 <ℤ order.quantity
      → lookup env.new_id w.db.orders ≡ none
      → submission.0 ≡ ok r
      → let (result, w') = execute zero max_retries env order w in
        (result ≡ executed)
        × (lookup env.new_id w'.db.orders ≡ some (sent_row r))
        × ((sent_row r).status ≡ sent)
        × ((sent_row r).broker_order_id ≡ some r.order_id)
        × ((sent_row r).filled_quantity ≡ some (pos 0))
        × ((k : String) → k ≢ env.new_id → lookup k w'.db.orders ≡ lookup k w.db.orders)
        × (w'.events ≡ w.events ++ order_event zero stored sent submitted ∷ [])
        × ((order_event zero stored sent submitted).broker_id ≡ "")
  unfolding publish_order_event after_submission
  execute_sent r up up' up'' kafka no_id positive free accepted =
      let unfilled =
        submit_order-unfilled zero max_retries (kis_request zero stored) env.outcome r accepted in
      let low : pos 0 ≤ℤ r.filled_quantity = rw unfilled (omega arith) in
      let high : r.filled_quantity ≤ℤ order.quantity = rw unfilled (omega arith) in
      rw
        (execute_submitted r
          (create_order_done env.create_env env.new_id order w.db up positive free) accepted)
        (
          refl,
          (sent_tables r up' up'' positive low high).0,
          refl,
          refl,
          ap (λ q. some q) unfilled,
          (sent_tables r up' up'' positive low high).1,
          rw kafka,
          rw (no_id, order_event),
        )

  -- Where the broker accepts the order and neither update reaches the database, `Execute` reports
  -- success all the same, while the stored row stays as it was created, with no broker's id.
  pub execute_lost_updates :
      (r : OrderResponse F)
      → env.create_env.up ≡ true
      → env.execution_env.up ≡ false
      → env.status_env.up ≡ false
      → pos 0 <ℤ order.quantity
      → lookup env.new_id w.db.orders ≡ none
      → submission.0 ≡ ok r
      → let (result, w') = execute zero max_retries env order w in
        (result ≡ executed)
        × (lookup env.new_id w'.db.orders ≡ some (stored_row env.create_env env.new_id order w.db))
        × (w'.requests ≡ w.requests ++ submission.1)
  unfolding after_submission
  execute_lost_updates r up down down' positive free accepted =
      let created = stored_db env.create_env env.new_id order w.db in
      rw
        (execute_submitted r
          (create_order_done env.create_env env.new_id order w.db up positive free) accepted)
        (rw
          (update_order_execution_down env.execution_env env.new_id created r.order_id
            r.filled_price r.filled_quantity down)
          (rw (update_order_status_down env.status_env env.new_id created sent sent_to_broker down')
            (
              refl,
              lookup-insert_self env.new_id (stored_row env.create_env env.new_id order w.db)
                  w.db.orders,
              refl,
            )))

  -- The row of an order that the broker did not take.
  abbrev pub rejected_row : Order F
  rejected_row =
      record (with_status rejected submit_failed
        (stored_row env.create_env env.new_id order w.db)) { updated_at = env.status_env.now }

  -- `Execute` of a new order whose submission fails, every part being up: it returns an error, the
  -- row ends as rejected with the reason, and one event is published, which says rejected.
  pub execute_rejected :
      (x : SubmitError)
      → env.create_env.up ≡ true
      → env.status_env.up ≡ true
      → env.kafka_up ≡ true
      → pos 0 <ℤ order.quantity
      → lookup env.new_id w.db.orders ≡ none
      → submission.0 ≡ err x
      → let (result, w') = execute zero max_retries env order w in
        (result ≡ execution_failed)
        × (lookup env.new_id w'.db.orders ≡ some rejected_row)
        × (rejected_row.status ≡ rejected)
        × (w'.events ≡ w.events ++ order_event zero stored rejected submit_failed ∷ [])
  unfolding after_rejection publish_order_event
  execute_rejected x up up' kafka positive free failed =
      let created = stored_db env.create_env env.new_id order w.db in
      let row = stored_row env.create_env env.new_id order w.db in
      let found = lookup-insert_self env.new_id row w.db.orders in
      let ok' : row_ok row ≡ true = ground arith in
      rw
        (execute_not_submitted x
          (create_order_done env.create_env env.new_id order w.db up positive free) failed)
        (rw
          (update_order_status_done env.status_env env.new_id created row rejected submit_failed up'
            found ok')
          (refl, lookup-insert_self env.new_id rejected_row created.orders, refl, rw kafka))

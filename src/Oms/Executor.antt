-- ===== src/Oms/Executor.antt =====
-- services/order-management-service/internal/broker/order_executor.go: the life of an order, from
-- the request to the broker and to the event on Kafka.
pub mod Submission
pub mod Cancellation
pub mod Consistency
mod Tests
use aipx.Prelude.{
  ℕ, String, Bool, true, false, Option, none, some, List, [], ◌∷◌, ◌++◌, if◌then◌else◌,
}
use aipx.Prelude.Int.{ℤ}
use aipx.Oms.Order.{
  Order, OrderSide, buy, sell, OrderType, limit, market, OrderStatus, sent, filled, rejected,
  cancelled, pending, Reason, submit_failed, sent_to_broker, submitted, given,
}
use aipx.Oms.Repository.{
  Db, DbEnv, RepoResult, done, order_not_found, db_error, create_order, get_order, found, missing,
  failed, GetResult, update_order_status, update_order_execution, cancel_order,
}
use aipx.Oms.Broker.{
  OrderRequest, OrderResponse, Outcome, SubmitResult, ok, err, Payload, submit_order,
}

-- The event that goes to Kafka; the time of creation is left out.
pub record OrderEvent (F : Type 0) : Type 0 where
  pub order_id : String
  pub user_id : String
  pub symbol : String
  pub side : OrderSide
  pub order_type : OrderType
  pub price : F
  pub quantity : ℤ
  pub status : OrderStatus
  pub broker_id : String
  pub message : Reason

-- What the executor acts on: the tables, the requests that the broker has been sent (new orders and
-- cancellations), and the events published.
pub record World (F : Type 0) : Type 0 where
  pub db : Db F
  pub requests : List (Payload F)
  pub cancels : List String
  pub events : List (OrderEvent F)

-- How the outside answers during one `Execute`.
pub record ExecuteEnv : Type 0 where
  pub create_env : DbEnv
  pub execution_env : DbEnv
  pub status_env : DbEnv
  pub new_id : String
  pub outcome : ℕ → Outcome
  pub kafka_up : Bool

pub data ExecuteResult : Type 0 where
  executed create_failed execution_failed : ExecuteResult

-- How the outside answers during one `Cancel`.
pub record CancelEnv : Type 0 where
  pub get_env : DbEnv
  pub update_env : DbEnv
  pub kafka_up : Bool

pub data CancelResult : Type 0 where
  order_cancelled get_failed is_filled is_cancelled is_rejected update_failed : CancelResult

abbrev pub side_text : OrderSide → String
side_text buy = "BUY"
side_text sell = "SELL"

abbrev pub type_text : OrderType → String
type_text limit = "LIMIT"
type_text market = "MARKET"

abbrev pub or_empty : Option String → String
or_empty none = ""
or_empty (some s) = s

-- `zero` is the float64 0.
module _ {F : Type 0} (zero : F) where
  abbrev pub or_zero : Option F → F
  or_zero none = zero
  or_zero (some p) = p

  pub order_event : Order F → OrderStatus → Reason → OrderEvent F
  order_event o status message = record {
    order_id = o.id;
    user_id = o.user_id;
    symbol = o.symbol;
    side = o.side;
    order_type = o.order_type;
    price = or_zero o.price;
    quantity = o.quantity;
    status = status;
    broker_id = or_empty o.broker_order_id;
    message = message;
  }

  -- `publishOrderEvent`: an event that Kafka does not take is logged and dropped.
  pub publish_order_event :
      Bool → Order F → OrderStatus → Reason → List (OrderEvent F) → List (OrderEvent F)
  unfolding order_event
  publish_order_event kafka_up o status message events =
      if kafka_up then events ++ order_event o status message ∷ [] else events

  pub kis_request : Order F → OrderRequest F
  kis_request o = record {
    symbol = o.symbol;
    side = side_text o.side;
    order_type = type_text o.order_type;
    price = or_zero o.price;
    quantity = o.quantity;
  }

  -- Step 3a of `Execute`: a failed update is only logged.
  pub after_rejection : ExecuteEnv → Order F → World F → World F
  unfolding publish_order_event
  after_rejection env o w = record w {
    db = (update_order_status env.status_env o.id rejected submit_failed w.db).1;
    events = publish_order_event env.kafka_up o rejected submit_failed w.events;
  }

  -- Steps 3b and 4: failed updates are only logged.
  pub after_submission : ExecuteEnv → Order F → OrderResponse F → World F → World F
  unfolding publish_order_event
  after_submission env o r w =
      let executed_db =
        (update_order_execution env.execution_env o.id r.order_id r.filled_price r.filled_quantity
          w.db).1 in
      record w {
        db = (update_order_status env.status_env o.id sent sent_to_broker executed_db).1;
        events = publish_order_event env.kafka_up o sent submitted w.events;
      }

  -- `Cancel` of an order that may still be cancelled. The broker is asked where the order has a
  -- broker's id; its answer makes no difference.
  pub cancel_open : CancelEnv → String → String → Order F → World F → CancelResult × World F
  unfolding publish_order_event
  cancel_open env id reason o w =
      let asked = record w {
        cancels = elim o.broker_order_id [ none ↦ w.cancels | some b ↦ w.cancels ++ b ∷ [] ];
      } in
      let (updated, db) = cancel_order env.update_env id (given reason) w.db in
      elim updated [
        | done ↦ (
          order_cancelled,
          record asked {
            db = db;
            events = publish_order_event env.kafka_up o cancelled (given reason) w.events;
          },
        )
        | _ ↦ (update_failed, record asked { db = db })
      ]

  -- The tests of `Cancel` on the order's status.
  pub cancel_by_status :
      OrderStatus → CancelEnv → String → String → Order F → World F → CancelResult × World F
  unfolding cancel_open
  cancel_by_status filled env id reason o w = (is_filled, w)
  cancel_by_status cancelled env id reason o w = (is_cancelled, w)
  cancel_by_status rejected env id reason o w = (is_rejected, w)
  cancel_by_status _ env id reason o w = cancel_open env id reason o w

  -- `Cancel`
  pub cancel : CancelEnv → String → String → World F → CancelResult × World F
  unfolding cancel_by_status
  cancel env id reason w = elim (get_order env.get_env id w.db) [
    | found o ↦ cancel_by_status o.status env id reason o w
    | _ ↦ (get_failed, w)
  ]

-- `max_retries` is the client's.
module _ {F : Type 0} (zero : F) (max_retries : ℤ) where
  -- `Execute` once the order is stored.
  pub execute_stored : ExecuteEnv → Order F → World F → ExecuteResult × World F
  unfolding after_rejection after_submission kis_request
  execute_stored env o w =
      let (result, made) = submit_order zero max_retries (kis_request zero o) env.outcome in
      let w' = record w { requests = w.requests ++ made } in
      elim result [
        | ok r ↦ (executed, after_submission zero env o r w')
        | err e ↦ (execution_failed, after_rejection zero env o w')
      ]

  -- `Execute`
  pub execute : ExecuteEnv → Order F → World F → ExecuteResult × World F
  unfolding execute_stored
  execute env order w =
      let (created, o, db) = create_order env.create_env env.new_id order w.db in
      elim created [
        | done ↦ execute_stored env o (record w { db = db })
        | _ ↦ (create_failed, record w { db = db })
      ]

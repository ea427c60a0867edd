-- ===== src/Oms/Handler.antt =====
-- services/order-management-service/internal/grpc/handler.go: one order request of a stream, through
-- validation, the rate limit, the risk engine and the executor, to its response. The enumerations of
-- the protocol buffers are open: an enumeration is its number.
pub mod Outcomes
mod Tests
use aipx.Prelude.{
  ℕ, zero, suc, String, str_eq, Bool, true, false, ◌&&◌, ◌||◌, Option, none, some, List, [], ◌∷◌,
  ◌++◌, if◌then◌else◌,
}
use aipx.Prelude.Int.{ℤ, pos, leb_ℤ}
use aipx.Float.{FloatOps}
use aipx.Oms.Order.{
  Order, OrderSide, buy, sell, OrderType, limit, market, OrderStatus, pending, sent, filled,
  rejected, cancelled,
}
use aipx.Oms.Limiter.{Limiter, Env, Store, AllowResult, answer, failed, allow}
use aipx.Oms.Risk.Rules.{Redis, RiskEnv, FingerprintData}
use aipx.Oms.Risk.Engine.{Engine, RiskError, validate}
use aipx.Oms.Executor.{World, ExecuteEnv, ExecuteResult, executed, execute}

-- `pb.OrderRequest`
pub record PbRequest (F : Type 0) : Type 0 where
  pub id : String
  pub symbol : String
  pub side : ℤ
  pub order_type : ℤ
  pub price : F
  pub quantity : ℤ
  pub strategy_id : String

pub data PbStatus : Type 0 where
  pb_pending pb_accepted pb_rejected pb_filled pb_cancelled : PbStatus

pub data Message : Type 0 where
  id_required symbol_required quantity_not_positive price_required : Message
  rate_check_failed rate_exceeded execution_failed order_submitted : Message
  risk_failed : RiskError → Message

pub record Response : Type 0 where
  pub order_id : String
  pub status : PbStatus
  pub message : Message

abbrev pub is_limit : ℤ → Bool
is_limit (pos zero) = true
is_limit _ = false

-- `convertSide`
pub convert_side : ℤ → OrderSide
convert_side (pos zero) = buy
convert_side (pos (suc zero)) = sell
convert_side _ = buy

-- `convertOrderType`
pub convert_order_type : ℤ → OrderType
convert_order_type (pos zero) = limit
convert_order_type (pos (suc zero)) = market
convert_order_type _ = limit

-- `convertStatus`
pub convert_status : OrderStatus → PbStatus
convert_status pending = pb_pending
convert_status sent = pb_accepted
convert_status filled = pb_filled
convert_status rejected = pb_rejected
convert_status cancelled = pb_cancelled

-- How the outside answers during one request; `send_up` tells whether `stream.Send` succeeds.
pub record HandlerEnv : Type 0 where
  pub rate : Env
  pub risk : RiskEnv
  pub execution : ExecuteEnv
  pub send_up : Bool

-- What the handler acts on: the buckets, the risk state, the orders with the broker and Kafka, and
-- the responses that the client has been sent.
pub record Service (F : Type 0) : Type 0 where
  pub limits : Store
  pub redis : Redis
  pub world : World F
  pub responses : List Response

-- `sendResponse`: a failure is only logged.
abbrev pub send_response : Bool → String → PbStatus → Message → List Response → List Response
send_response up id status message rs =
    if up then rs ++ record { order_id = id; status = status; message = message } ∷ [] else rs

module _ {F : Type 0} (fl : FloatOps F) (digest : FingerprintData → String) where
  -- `validateRequest`
  pub validate_request : PbRequest F → Option Message
  validate_request req =
      if str_eq req.id ""
      then some id_required
      else if str_eq req.symbol ""
      then some symbol_required
      else if leb_ℤ req.quantity (pos 0)
      then some quantity_not_positive
      else if is_limit req.order_type && fl.le req.price fl.zero
      then some price_required
      else none

  -- `protoToOrder`
  pub proto_to_order : PbRequest F → String → Order F
  proto_to_order req user_id = record {
    id = req.id;
    user_id = user_id;
    strategy_id = if str_eq req.strategy_id "" then none else some req.strategy_id;
    symbol = req.symbol;
    side = convert_side req.side;
    order_type = convert_order_type req.order_type;
    price = if is_limit req.order_type then some req.price else none;
    quantity = req.quantity;
    status = pending;
    broker_order_id = none;
    filled_price = none;
    filled_quantity = none;
    reject_reason = none;
    created_at = 0;
    updated_at = 0;
  }

  module _ (limiter : Limiter) (engine : Engine F) (max_retries : ℤ) (env : HandlerEnv) where
    abbrev pub respond : String → PbStatus → Message → Service F → Service F
    respond id status message s = record s {
      responses = send_response env.send_up id status message s.responses;
    }

    -- Step 5 of `processOrder`.
    pub execute_step : PbRequest F → Order F → Service F → Service F
    execute_step req order s =
        let (result, w) = execute fl.zero max_retries env.execution order s.world in
        let s' = record s { world = w } in
        elim result [
          | executed ↦ respond req.id pb_accepted order_submitted s'
          | _ ↦ respond req.id pb_rejected execution_failed s'
        ]

    -- Steps 3 and 4.
    pub risk_step : PbRequest F → String → Service F → Service F
    risk_step req user_id s =
        let order = proto_to_order req user_id in
        let (result, redis) = validate fl digest env.risk engine order s.redis in
        let s' = record s { redis = redis } in
        elim result [
          | none ↦ execute_step req order s'
          | some e ↦ respond req.id pb_rejected (risk_failed e) s'
        ]

    -- Step 2.
    pub rate_step : PbRequest F → String → Service F → Service F
    rate_step req user_id s =
        let (result, limits) = allow limiter env.rate user_id s.limits in
        let s' = record s { limits = limits } in
        elim result [
          | answer allowed ↦
              if allowed
              then risk_step req user_id s'
              else respond req.id pb_rejected rate_exceeded s'
          | failed e ↦ respond req.id pb_rejected rate_check_failed s'
        ]

    -- `processOrder`
    pub process_order : PbRequest F → String → Service F → Service F
    process_order req user_id s = elim (validate_request req) [
      | some m ↦ respond req.id pb_rejected m s
      | none ↦ rate_step req user_id s
    ]

-- ===== src/Oms/Broker.antt =====
-- services/order-management-service/internal/broker/kis_client.go: submission of an order with
-- retries. The circuit breaker (sony/gobreaker) and the HTTP exchange are parameters: for each
-- attempt, what came of it. JSON, the account number, signing and the waits are left out.
pub mod Retry
pub mod Unfilled
mod Tests
use aipx.Prelude.{
  ℕ, zero, suc, ◌+◌, String, str_eq, Bool, true, false, ◌&&◌, ◌||◌, Option, none, some, List, [],
  ◌∷◌, ◌++◌, if◌then◌else◌, ◌==◌,
}
use aipx.Prelude.Int.{ℤ, pos, negsuc, pos_part}

pub record OrderRequest (F : Type 0) : Type 0 where
  pub symbol : String
  pub side : String
  pub order_type : String
  pub price : F
  pub quantity : ℤ

pub record OrderResponse (F : Type 0) : Type 0 where
  pub order_id : String
  pub status : String
  pub filled_price : F
  pub filled_quantity : ℤ
  pub message : String

-- The fields of the reply's JSON that the client reads.
pub record KisReply : Type 0 where
  pub rt_cd : String
  pub odno : String
  pub msg1 : String

-- What came of one HTTP request. `lost` is a request with no readable answer; its flag tells whether
-- the broker had taken the order all the same. `reply` has the HTTP status and the body, if that is
-- JSON.
pub data Wire : Type 0 where
  lost : Bool → Wire
  reply : ℕ → Option KisReply → Wire

-- What came of one attempt: the breaker may refuse to make the request.
pub data Outcome : Type 0 where
  breaker_open : Outcome
  sent : Wire → Outcome

pub data SubmitError : Type 0 where
  unsupported_type circuit_open no_answer bad_status bad_body rejected not_attempted : SubmitError

pub data SubmitResult (F : Type 0) : Type 0 where
  ok : OrderResponse F → SubmitResult F
  err : SubmitError → SubmitResult F

-- `convertOrderType`
unfoldable pub convert_order_type : String → String
convert_order_type t = if str_eq t "MARKET" then "01" else if str_eq t "LIMIT" then "00" else ""

-- The `tr_id` of `addHeaders`.
pub tr_id : String → String
tr_id side =
    if str_eq side "BUY"
    then "TTTC0802U"
    else if str_eq side "SELL"
    then "TTTC0801U"
    else if str_eq side "CANCEL"
    then "TTTC0803U"
    else "TTTC0802U"

-- What one request asks of the broker.
pub record Payload (F : Type 0) : Type 0 where
  pub pdno : String
  pub ord_dvsn : String
  pub ord_qty : ℤ
  pub ord_unpr : F
  pub tr : String

-- The number of rounds of `for attempt := 0; attempt <= maxRetries; attempt++`.
abbrev pub rounds : ℤ → ℕ
rounds (pos n) = suc n
rounds (negsuc n) = 0

module _ {F : Type 0} where
  pub payload : OrderRequest F → Payload F
  unfolding convert_order_type tr_id
  payload req = record {
    pdno = req.symbol;
    ord_dvsn = convert_order_type req.order_type;
    ord_qty = req.quantity;
    ord_unpr = req.price;
    tr = tr_id req.side;
  }

module _ {F : Type 0} (zero_price : F) where
  abbrev pub read_reply : KisReply → SubmitResult F
  read_reply r =
      if str_eq r.rt_cd "0"
      then ok (record {
        order_id = r.odno;
        status = "SENT";
        filled_price = zero_price;
        filled_quantity = pos 0;
        message = r.msg1;
      })
      else err rejected

  abbrev pub read_wire : Wire → SubmitResult F
  read_wire (lost taken) = err no_answer
  read_wire (reply status none) = if status == 200 then err bad_body else err bad_status
  read_wire (reply status (some r)) = if status == 200 then read_reply r else err bad_status

  -- `submitOrderInternal` under the breaker: the result, and the requests made.
  pub submit_order_internal : OrderRequest F → Outcome → SubmitResult F × List (Payload F)
  unfolding payload convert_order_type
  submit_order_internal req breaker_open = (err circuit_open, [])
  submit_order_internal req (sent w) =
      if str_eq (convert_order_type req.order_type) ""
      then (err unsupported_type, [])
      else (read_wire w, payload req ∷ [])

  -- The loop of `SubmitOrder`, on the attempts left; `last` is `lastErr`.
  pub submit_loop :
      OrderRequest F → (ℕ → Outcome) → ℕ → ℕ → SubmitError → SubmitResult F × List (Payload F)
  unfolding submit_order_internal
  submit_loop req outcome zero attempt last = (err last, [])
  submit_loop req outcome (suc left) attempt last =
      let (result, made) = submit_order_internal req (outcome attempt) in
      elim result [
        | ok r ↦ (ok r, made)
        | err e ↦
            let (final, more) = submit_loop req outcome left (attempt + 1) e in
            (final, made ++ more)
      ]

  -- `SubmitOrder`
  unfoldable pub submit_order :
      ℤ → OrderRequest F → (ℕ → Outcome) → SubmitResult F × List (Payload F)
  unfolding submit_loop
  submit_order max_retries req outcome =
      submit_loop req outcome (rounds max_retries) 0 not_attempted

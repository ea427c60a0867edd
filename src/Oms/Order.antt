-- ===== src/Oms/Order.antt =====
-- The data of an order, services/order-management-service/internal/repository/order_repo.go.
-- `F` stands for float64. Times are Unix nanoseconds.
use aipx.Prelude.{ℕ, String, Bool, true, false, Option}
use aipx.Prelude.Int.{ℤ}

pub data OrderSide : Type 0 where
  buy sell : OrderSide

pub data OrderType : Type 0 where
  limit market : OrderType

pub data OrderStatus : Type 0 where
  pending sent filled rejected cancelled : OrderStatus

abbrev pub same_status : OrderStatus → OrderStatus → Bool
same_status pending pending = true
same_status sent sent = true
same_status filled filled = true
same_status rejected rejected = true
same_status cancelled cancelled = true
same_status _ _ = false

-- The reasons that the code writes, and one that a caller gives.
pub data Reason : Type 0 where
  submit_failed sent_to_broker submitted : Reason
  given : String → Reason

pub record Order (F : Type 0) : Type 0 where
  pub id : String
  pub user_id : String
  pub strategy_id : Option String
  pub symbol : String
  pub side : OrderSide
  pub order_type : OrderType
  pub price : Option F
  pub quantity : ℤ
  pub status : OrderStatus
  pub broker_order_id : Option String
  pub filled_price : Option F
  pub filled_quantity : Option ℤ
  pub reject_reason : Option Reason
  pub created_at : ℕ
  pub updated_at : ℕ

pub record OrderAuditLog : Type 0 where
  pub order_id : String
  pub status : OrderStatus
  pub reason : Option Reason
  pub created_at : ℕ

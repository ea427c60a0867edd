-- ===== src/Oms/Fixtures.antt =====
-- Orders, tables and surroundings that the tests run services/order-management-service on. A price
-- is a number of cents here.
pub use aipx.Float.Whole.{whole}
use aipx.Prelude.{ℕ, String, true, Option, none, some, [], ◌∷◌}
use aipx.Prelude.Int.{ℤ, pos}
use aipx.Oms.Order.{Order, buy, limit, pending, sent, OrderStatus}
use aipx.Oms.Repository.{Db, DbEnv}
use aipx.Oms.Executor.{World}

abbrev pub up_at : ℕ → DbEnv
up_at t = record { up = true; now = t }

abbrev pub order_with : String → OrderStatus → Option String → Order ℤ
order_with id status broker_id = record {
  id = id;
  user_id = "kim";
  strategy_id = none;
  symbol = "005930";
  side = buy;
  order_type = limit;
  price = some (pos 7000000);
  quantity = pos 10;
  status = status;
  broker_order_id = broker_id;
  filled_price = none;
  filled_quantity = none;
  reject_reason = none;
  created_at = 5;
  updated_at = 5;
}

abbrev pub new_order : Order ℤ
new_order = order_with "" pending none

abbrev pub sent_order : Order ℤ
sent_order = order_with "o1" sent (some "K77")

abbrev pub db_with : Order ℤ → Db ℤ
db_with o = record { orders = (o.id, o) ∷ []; audit = [] }

abbrev pub world_with : Db ℤ → World ℤ
world_with db = record { db = db; requests = []; cancels = []; events = [] }

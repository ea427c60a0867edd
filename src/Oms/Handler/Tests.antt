-- ===== src/Oms/Handler/Tests.antt =====
-- The handler's theorem at a concrete request.
use aipx.Prelude.{true, [], ◌∷◌}
use aipx.Prelude.Int.{ℤ, pos}
use aipx.Oms.Limiter.{Limiter, nano}
use aipx.Oms.Broker.{breaker_open}
use aipx.Oms.Risk.Engine.{Engine}
use aipx.Oms.Risk.Rules.{allowed_symbol}
use aipx.Oms.Handler.{PbRequest, HandlerEnv, Service, process_order}
use aipx.Oms.Handler.Outcomes.{IsHandled, process_order-IsHandled}
use aipx.Oms.Fixtures.{up_at, sent_order, db_with, world_with, whole}

abbrev request : PbRequest ℤ
request = record {
  id = "r1";
  symbol = "005930";
  side = pos 0;
  order_type = pos 0;
  price = pos 7000000;
  quantity = pos 10;
  strategy_id = "";
}

abbrev limiter : Limiter
limiter = record { rate = 10; burst = 20 }

abbrev engine : Engine ℤ
engine = record {
  rules = allowed_symbol ("0059*" ∷ []) true ∷ [];
  config = record {
    max_order_value = pos 100000000;
    price_deviation = pos 1;
    daily_loss_limit = pos 5000;
    allowed_symbols = "0059*" ∷ [];
    duplicate_window = pos 10;
    enable_risk_checks = true;
  };
  enabled = true;
}

abbrev env : HandlerEnv
env = record {
  rate = record { up = true; clock = nano; now = nano };
  risk = record { read_up = true; write_up = true; now = nano; pnl_key = λ u. u };
  execution = record {
    create_env = up_at 1;
    execution_env = up_at 2;
    status_env = up_at 3;
    new_id = "o2";
    outcome = λ n. breaker_open;
    kafka_up = true;
  };
  send_up = true;
}

abbrev service : Service ℤ
service = record {
  limits = [];
  redis = record { market_price = []; daily_pnl = []; fingerprint = [] };
  world = world_with (db_with sent_order);
  responses = [];
}

process_order-IsHandled_example :
    IsHandled whole
      (λ d. d.user_id)
      limiter
      engine
      (pos 2)
      env
      request
      "kim"
      service
      (process_order whole (λ d. d.user_id) limiter engine (pos 2) env request "kim" service)
process_order-IsHandled_example =
    process_order-IsHandled whole (λ d. d.user_id) limiter engine (pos 2) env request "kim" service

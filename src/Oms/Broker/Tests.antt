-- ===== src/Oms/Broker/Tests.antt =====
-- The retries of the broker's client at concrete outcomes.
use aipx.Prelude.{ℕ, zero, suc, true, some}
use aipx.Prelude.Int.{ℤ, pos}
use aipx.Oms.Broker.{OrderRequest, OrderResponse, Wire, lost, reply, Outcome, sent}

abbrev request : OrderRequest ℤ
request = record {
  symbol = "005930";
  side = "BUY";
  order_type = "LIMIT";
  price = pos 7000000;
  quantity = pos 10;
}

abbrev accepted : Wire
accepted = reply 200 (some (record { rt_cd = "0"; odno = "K77"; msg1 = "ok" }))

abbrev response : OrderResponse ℤ
response = record {
  order_id = "K77";
  status = "SENT";
  filled_price = pos 0;
  filled_quantity = pos 0;
  message = "ok";
}

-- The answer to the first request is lost; the later ones are answered.
abbrev answers : ℕ → Outcome
answers zero = sent (lost true)
answers (suc n) = sent accepted

-- ===== src/Recorder/Consumer/Tests.antt =====
-- The consumer at concrete messages, with whole numbers in the place of float64.
use aipx.Prelude.{true, false, ◌&&◌, none, some, [], ◌∷◌, ◌≡◌, refl, arith}
use aipx.Prelude.Int.{ℤ, pos}
use aipx.Shared.MarketData.{TickData, OrderBook}
use aipx.Float.Whole.{whole}
use aipx.Recorder.Buffer.{BatchBuffer, added}
use aipx.Ingestion.Parser as Parser
use aipx.Recorder.Consumer.{
  BufferedMessage, tick, ConsumedMessage, MarketConsumer, validate_tick_data, validate_order_book,
  handle_message, health_check,
}
use aipx.Recorder.Consumer.Pipeline.{all_good, validators_agree, published_tick_recorded}

abbrev buffer : BatchBuffer (BufferedMessage ℤ)
buffer = record {
  max_size = 2;
  flush_timeout = 5;
  buffer = [];
  last_flow = 0;
  flush_pending = false;
  running = true;
  total_messages = 0;
  total_flushes = 0;
  total_errors = 0;
  current_size = 0;
  dropped_messages = 0;
}

abbrev consumer : MarketConsumer ℤ
consumer = record {
  tick_buffer = buffer;
  orderbook_buffer = buffer;
  total_messages = 0;
  total_errors = 0;
  tick_count = 0;
  orderbook_count = 0;
  last_message_at = 0;
  running = true;
}

abbrev samsung : TickData ℤ
samsung = record {
  symbol = "005930";
  price = pos 71000;
  volume = pos 10;
  timestamp = pos 1;
  change = pos 0;
  change_rate = pos 0;
}

abbrev book : OrderBook ℤ
book = record {
  symbol = "005930";
  bids = record { price = pos 0; quantity = pos 5 } ∷ [];
  asks = [];
  timestamp = pos 1;
}

-- A consumer that has not had a message yet is found unhealthy: the time 0 is no zero time.
unhealthy : health_check whole 1700000000000000000 consumer ≡ false
unfolding health_check
unhealthy = refl

validators_agree_example :
    (validate_tick_data whole samsung ≡ Parser.validate_tick_data whole samsung)
    × (validate_order_book whole book ≡ (
        Parser.validate_order_book whole book
        && (all_good whole book.bids && all_good whole book.asks)))
validators_agree_example = validators_agree whole samsung book

abbrev message : ConsumedMessage ℤ
message = record { topic = "market.tick"; as_tick = some samsung; as_order_book = none }

samsung_published :
    Parser.handle_message whole (some (Parser.tick samsung)) ≡ Parser.publish_tick samsung
unfolding Parser.handle_message
samsung_published = refl

published_tick_recorded_example :
    let after = handle_message whole 7 message consumer in
    (after.0 ≡ added) × (after.1.tick_buffer.buffer ≡ tick samsung ∷ []) × (after.1.tick_count ≡ 1)
published_tick_recorded_example =
    published_tick_recorded whole (some (Parser.tick samsung)) samsung none 7 consumer
      samsung_published refl (omega arith)

abbrev clock : Parser.Clock
clock = record { now = pos 1; scan_6 = λ s. none; scan_9 = λ s. none; today = λ h m s n. pos 1 }

abbrev no_price : Parser.KisOrderBookLevel
no_price = record { price = ""; quantity = "5" }

abbrev body : Parser.KisOrderBookBody
body = record { symbol = "005930"; time = ""; bids = no_price ∷ []; asks = [] }

book_published :
    Parser.handle_message whole (some (Parser.parse_order_book whole clock body))
    ≡ Parser.publish_order_book book
unfolding Parser.handle_message Parser.parse_order_book
book_published = refl

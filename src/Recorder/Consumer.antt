-- ===== src/Recorder/Consumer.antt =====
-- services/data-recorder-service/internal/consumer/market_consumer.go: messages of Kafka are decoded,
-- validated and put into the buffers. Protobuf and the clock are parameters; a message comes decoded
-- as either kind, where it is one. The counters are unbounded here, 64 bits wide there.
pub mod Counts
pub mod Pipeline
mod Tests
use aipx.Prelude.{
  ℕ, zero, suc, ◌+◌, ◌-◌, ◌*◌, String, str_eq, Bool, true, false, ◌&&◌, not, Option, none, some,
  List, [], ◌∷◌, if◌then◌else◌, ltb, ◌==◌,
}
use aipx.Prelude.Int.{ℤ, pos, leb_ℤ, ltb_ℤ}
use aipx.Float.{FloatOps}
use aipx.Shared.MarketData.{TickData, Level, OrderBook}
use aipx.Recorder.Buffer.{AddResult, added, buffer_closed, buffer_full, BatchBuffer, add}

-- `BufferedMessage`
pub data BufferedMessage (F : Type 0) : Type 0 where
  tick : TickData F → BufferedMessage F
  order_book : OrderBook F → BufferedMessage F

pub record ConsumedMessage (F : Type 0) : Type 0 where
  pub topic : String
  pub as_tick : Option (TickData F)
  pub as_order_book : Option (OrderBook F)

pub record MarketConsumer (F : Type 0) : Type 0 where
  pub tick_buffer : BatchBuffer (BufferedMessage F)
  pub orderbook_buffer : BatchBuffer (BufferedMessage F)
  pub total_messages : ℕ
  pub total_errors : ℕ
  pub tick_count : ℕ
  pub orderbook_count : ℕ
  pub last_message_at : ℕ
  pub running : Bool

abbrev pub is_empty {ℓ} : {A : Type ℓ} → List A → Bool
is_empty [] = true
is_empty (x ∷ xs) = false

module _ {F : Type 0} (ops : FloatOps F) where
  -- `validateTickData`
  unfoldable pub validate_tick_data : TickData F → Bool
  validate_tick_data t =
      if str_eq t.symbol ""
      then false
      else if ops.le t.price ops.zero
      then false
      else if ltb_ℤ t.volume (pos 0)
      then false
      else if leb_ℤ t.timestamp (pos 0)
      then false
      else true

  -- The loop over the bids, and the one over the asks, of `validateOrderBook`.
  unfoldable pub validate_levels : List (Level F) → Bool
  validate_levels [] = true
  validate_levels (l ∷ ls) =
      let rest = validate_levels ls in
      if ops.le l.price ops.zero then false else if ltb_ℤ l.quantity (pos 0) then false else rest

  -- `validateOrderBook`
  unfoldable pub validate_order_book : OrderBook F → Bool
  unfolding validate_levels
  validate_order_book b =
      if str_eq b.symbol ""
      then false
      else if is_empty b.bids && is_empty b.asks
      then false
      else if leb_ℤ b.timestamp (pos 0)
      then false
      else if validate_levels b.bids
      then validate_levels b.asks
      else false

  abbrev pub count_error : MarketConsumer F → MarketConsumer F
  count_error c = record c { total_errors = suc c.total_errors }

  -- The end of `handleTickMessage`, with the answer of the buffer: the error is the buffer's.
  abbrev pub after_add_tick :
      AddResult × BatchBuffer (BufferedMessage F) → MarketConsumer F → AddResult × MarketConsumer F
  after_add_tick (added, b) c = (added, record c { tick_buffer = b; tick_count = suc c.tick_count })
  after_add_tick (buffer_closed, b) c = (buffer_closed, count_error (record c { tick_buffer = b }))
  after_add_tick (buffer_full, b) c = (buffer_full, count_error (record c { tick_buffer = b }))

  abbrev pub after_add_order_book :
      AddResult × BatchBuffer (BufferedMessage F) → MarketConsumer F → AddResult × MarketConsumer F
  after_add_order_book (added, b) c =
      (added, record c { orderbook_buffer = b; orderbook_count = suc c.orderbook_count })
  after_add_order_book (buffer_closed, b) c =
      (buffer_closed, count_error (record c { orderbook_buffer = b }))
  after_add_order_book (buffer_full, b) c =
      (buffer_full, count_error (record c { orderbook_buffer = b }))

  -- `handleTickMessage`, `handleOrderBookMessage`. A result other than `added` is an error for Kafka;
  -- a message that is skipped is no error.
  unfoldable pub handle_tick_message :
      Option (TickData F) → MarketConsumer F → AddResult × MarketConsumer F
  unfolding validate_tick_data add
  handle_tick_message none c = (added, count_error c)
  handle_tick_message (some t) c =
      if validate_tick_data t
      then after_add_tick (add (tick t) c.tick_buffer) c
      else (added, count_error c)

  unfoldable pub handle_order_book_message :
      Option (OrderBook F) → MarketConsumer F → AddResult × MarketConsumer F
  unfolding validate_order_book add
  handle_order_book_message none c = (added, count_error c)
  handle_order_book_message (some b) c =
      if validate_order_book b
      then after_add_order_book (add (order_book b) c.orderbook_buffer) c
      else (added, count_error c)

  -- `handleMessage`, at the time `now` in seconds.
  unfoldable pub handle_message :
      ℕ → ConsumedMessage F → MarketConsumer F → AddResult × MarketConsumer F
  unfolding handle_tick_message handle_order_book_message
  handle_message now msg c =
      let c' = record c { total_messages = suc c.total_messages; last_message_at = now } in
      if str_eq msg.topic "market.tick"
      then handle_tick_message msg.as_tick c'
      else if str_eq msg.topic "market.orderbook"
      then handle_order_book_message msg.as_order_book c'
      else (added, c')

  -- `Stop` up to its wait, `HealthCheck` at a time in nanoseconds.
  unfoldable pub stop : MarketConsumer F → Bool × MarketConsumer F
  stop c = (c.running, record c { running = false })

  unfoldable pub health_check : ℕ → MarketConsumer F → Bool
  health_check now c =
      if c.running
      then (if ltb (300 * 1000000000) (now - c.last_message_at * 1000000000) then false else true)
      else false

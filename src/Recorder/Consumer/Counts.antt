-- ===== src/Recorder/Consumer/Counts.antt =====
-- What the counters of market_consumer.go count.
use aipx.Prelude.{
  ℕ, suc, ◌+◌, String, str_eq, Bool, ◌||◌, Option, none, some, List, [], ◌∷◌, ◌≡◌, refl, arith,
  Bool-cases, inl, inr, if◌then◌else◌,
}
use aipx.Float.{FloatOps}
use aipx.Shared.MarketData.{TickData, OrderBook}
use aipx.Recorder.Buffer.{AddResult, added, buffer_closed, buffer_full, BatchBuffer, add}
use aipx.Recorder.Consumer.{
  BufferedMessage, tick, order_book, ConsumedMessage, MarketConsumer, validate_tick_data,
  validate_order_book, after_add_tick, after_add_order_book, handle_tick_message,
  handle_order_book_message, handle_message,
}

-- The messages of the two topics.
abbrev pub is_known : String → Bool
is_known topic = str_eq topic "market.tick" || str_eq topic "market.orderbook"

abbrev pub count_known : {F : Type 0} → List (ℕ × ConsumedMessage F) → ℕ
count_known [] = 0
count_known (m ∷ ms) = if is_known m.1.topic then suc (count_known ms) else count_known ms

abbrev pub count_all : {F : Type 0} → List (ℕ × ConsumedMessage F) → ℕ
count_all [] = 0
count_all (m ∷ ms) = suc (count_all ms)

module _ {F : Type 0} (ops : FloatOps F) where
  abbrev pub accounted : MarketConsumer F → ℕ
  accounted c = c.tick_count + c.orderbook_count + c.total_errors

  -- Every message in turn, with its time.
  abbrev pub handle_all : List (ℕ × ConsumedMessage F) → MarketConsumer F → MarketConsumer F
  handle_all [] c = c
  handle_all (m ∷ ms) c = handle_all ms (handle_message ops m.0 m.1 c).1

  after_tick_accounted :
      (r : AddResult × BatchBuffer (BufferedMessage F)) (c : MarketConsumer F)
      → (accounted (after_add_tick ops r c).1 ≡ suc (accounted c))
        × ((after_add_tick ops r c).1.total_messages ≡ c.total_messages)
  after_tick_accounted (added, b) c = (omega arith, refl)
  after_tick_accounted (buffer_closed, b) c = (omega arith, refl)
  after_tick_accounted (buffer_full, b) c = (omega arith, refl)

  after_order_book_accounted :
      (r : AddResult × BatchBuffer (BufferedMessage F)) (c : MarketConsumer F)
      → (accounted (after_add_order_book ops r c).1 ≡ suc (accounted c))
        × ((after_add_order_book ops r c).1.total_messages ≡ c.total_messages)
  after_order_book_accounted (added, b) c = (omega arith, refl)
  after_order_book_accounted (buffer_closed, b) c = (omega arith, refl)
  after_order_book_accounted (buffer_full, b) c = (omega arith, refl)

  tick_accounted :
      (m : Option (TickData F)) (c : MarketConsumer F)
      → (accounted (handle_tick_message ops m c).1 ≡ suc (accounted c))
        × ((handle_tick_message ops m c).1.total_messages ≡ c.total_messages)
  unfolding handle_tick_message
  tick_accounted none c = (omega arith, refl)
  tick_accounted (some t) c = elim (Bool-cases (validate_tick_data ops t)) [
    | inl e ↦ rw e (after_tick_accounted (add (tick t) c.tick_buffer) c)
    | inr e ↦ rw e (omega arith, refl)
  ]

  order_book_accounted :
      (m : Option (OrderBook F)) (c : MarketConsumer F)
      → (accounted (handle_order_book_message ops m c).1 ≡ suc (accounted c))
        × ((handle_order_book_message ops m c).1.total_messages ≡ c.total_messages)
  unfolding handle_order_book_message
  order_book_accounted none c = (omega arith, refl)
  order_book_accounted (some b) c = elim (Bool-cases (validate_order_book ops b)) [
    | inl e ↦ rw e (after_order_book_accounted (add (order_book b) c.orderbook_buffer) c)
    | inr e ↦ rw e (omega arith, refl)
  ]

  message_accounted :
      (now : ℕ) (m : ConsumedMessage F) (c : MarketConsumer F)
      → (accounted (handle_message ops now m c).1
          ≡ (if is_known m.topic then suc (accounted c) else accounted c))
        × ((handle_message ops now m c).1.total_messages ≡ suc c.total_messages)
  unfolding handle_message
  message_accounted now m c =
      let c' = record c { total_messages = suc c.total_messages; last_message_at = now } in
      elim (Bool-cases (str_eq m.topic "market.tick")) [
        | inl e ↦ rw e (tick_accounted m.as_tick c')
        | inr e ↦ rw e (elim (Bool-cases (str_eq m.topic "market.orderbook")) [
          | inl f ↦ rw f (order_book_accounted m.as_order_book c')
          | inr f ↦ rw f (refl, refl)
        ])
      ]

  -- Each message is counted once: over any messages in turn, the count of all messages grows by one
  -- for each, and those of ticks, of order books and of errors together by one for each message of
  -- the two topics, whether it can be decoded, is valid, or finds room in its buffer, or not.
  pub handle_all-accounted :
      (ms : List (ℕ × ConsumedMessage F)) (c : MarketConsumer F)
      → (accounted (handle_all ms c) ≡ accounted c + count_known ms)
        × ((handle_all ms c).total_messages ≡ c.total_messages + count_all ms)
  handle_all-accounted [] c = (omega arith, omega arith)
  handle_all-accounted (m ∷ ms) c =
      let (here, all_here) = message_accounted m.0 m.1 c in
      let (rest, all_rest) = handle_all-accounted ms (handle_message ops m.0 m.1 c).1 in
      elim (Bool-cases (is_known m.1.topic)) [
        | inl e ↦ let here' = rw e at here in rw e (omega arith, omega arith)
        | inr e ↦ let here' = rw e at here in rw e (omega arith, omega arith)
      ]

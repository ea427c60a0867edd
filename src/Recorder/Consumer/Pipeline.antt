-- ===== src/Recorder/Consumer/Pipeline.antt =====
-- What message_parser.go lets through to Kafka, and market_consumer.go takes from there.
use aipx.Prelude.{
  ℕ, suc, ◌*◌, ◌<◌, length, leb, String, str_eq, Bool, true, false, ◌&&◌, not, Option, none, some,
  List, [], ◌∷◌, ◌++◌, ◌≡◌, refl, ◌∙◌, arith, Bool-cases, Option-cases, inl, inr,
}
use aipx.Prelude.Int.{ℤ, pos, ltb_ℤ}
use aipx.Prelude.Text.{codes}
use aipx.Float.{FloatOps}
use aipx.Shared.MarketData.{TickData, Level, OrderBook}
use aipx.Recorder.Buffer.{added, add, add_locked}
use aipx.Ingestion.Integers.{parse_int}
use aipx.Ingestion.Parser as Parser
use aipx.Recorder.Consumer as Consumer

module _ {F : Type 0} (ops : FloatOps F) where
  -- A price that is not `<= 0`, and a quantity that is not negative.
  abbrev pub is_good_level : Level F → Bool
  is_good_level l = not (ops.le l.price ops.zero) && not (ltb_ℤ l.quantity (pos 0))

  abbrev pub all_good : List (Level F) → Bool
  all_good [] = true
  all_good (l ∷ ls) = is_good_level l && all_good ls

  validate_levels_good : (ls : List (Level F)) → Consumer.validate_levels ops ls ≡ all_good ls
  unfolding Consumer.validate_levels
  validate_levels_good [] = refl
  validate_levels_good (l ∷ ls) = rw (validate_levels_good ls) (ground arith)

  same_tick_test :
      (t : TickData F) → Consumer.validate_tick_data ops t ≡ Parser.validate_tick_data ops t
  unfolding Consumer.validate_tick_data Parser.validate_tick_data
  same_tick_test t = ground arith

  order_book_test :
      (b : OrderBook F)
      → Consumer.validate_order_book ops b
        ≡ (Parser.validate_order_book ops b && (all_good b.bids && all_good b.asks))
  unfolding Consumer.validate_order_book Parser.validate_order_book
  order_book_test b = rw (validate_levels_good b.bids, validate_levels_good b.asks) (ground arith)

  -- Both services have the same test of a tick. Of an order book the recorder asks more: it takes
  -- just those of the books that the ingestion lets through in which every level, bid or ask, has a
  -- price that is not zero or less, and a quantity that is not negative.
  pub validators_agree :
      (t : TickData F) (b : OrderBook F)
      → (Consumer.validate_tick_data ops t ≡ Parser.validate_tick_data ops t)
        × (Consumer.validate_order_book ops b
            ≡ (Parser.validate_order_book ops b && (all_good b.bids && all_good b.asks)))
  validators_agree t b = (same_tick_test t, order_book_test b)

  published_valid :
      (p : Option (Parser.ParsedMessage F)) (t : TickData F)
      → Parser.handle_message ops p ≡ Parser.publish_tick t
      → Parser.validate_tick_data ops t ≡ true
  unfolding Parser.handle_message
  published_valid none t h = absurd (differ h)
    where
      differ : Parser.parse_failed ≡ Parser.publish_tick t → ⊥
      differ h = cc
  published_valid (some (Parser.tick u)) t h = ground arith
  published_valid (some (Parser.order_book b)) t h = ground arith
  published_valid (some (Parser.error_message e)) t h = ground arith
  published_valid (some Parser.unknown) t h = ground arith

  -- A tick that the ingestion publishes, if it comes to the recorder as it was sent, goes into a
  -- buffer that runs and has room: it is the last message there, and is counted as a tick.
  pub published_tick_recorded :
      (p : Option (Parser.ParsedMessage F)) (t : TickData F) (b : Option (OrderBook F)) (now : ℕ)
      (c : Consumer.MarketConsumer F)
      → Parser.handle_message ops p ≡ Parser.publish_tick t
      → c.tick_buffer.running ≡ true
      → length c.tick_buffer.buffer < c.tick_buffer.max_size * 2
      → let after =
          Consumer.handle_message ops now
            (record { topic = "market.tick"; as_tick = some t; as_order_book = b })
            c in
        (after.0 ≡ added)
        × (after.1.tick_buffer.buffer ≡ c.tick_buffer.buffer ++ Consumer.tick t ∷ [])
        × (after.1.tick_count ≡ suc c.tick_count)
  unfolding Consumer.handle_message Consumer.handle_tick_message add add_locked
  published_tick_recorded p t b now c published runs room =
      let valid = same_tick_test t ∙ published_valid p t published in
      let space : leb (c.tick_buffer.max_size * 2) (length c.tick_buffer.buffer) ≡ false =
        ground arith in
      rw (valid, runs, space) (refl, refl, refl)

  parse_float_empty : (s : String) → s ≡ "" → Parser.parse_float ops s ≡ some ops.zero
  unfolding Parser.parse_float
  parse_float_empty s e = rw e refl

  parse_level_empty :
      (l : Parser.KisOrderBookLevel) (q : ℤ)
      → l.price ≡ ""
      → parse_int (codes l.quantity) ≡ some q
      → Parser.parse_level ops l ≡ some (record { price = ops.zero; quantity = q })
  unfolding Parser.parse_level
  parse_level_empty l q empty read =
      rw (parse_float_empty l.price empty, Parser.parse_level) (rw read refl)

  parsed_levels :
      (before : List Parser.KisOrderBookLevel) (l : Parser.KisOrderBookLevel)
      (after : List Parser.KisOrderBookLevel) (q : ℤ)
      → l.price ≡ ""
      → parse_int (codes l.quantity) ≡ some q
      → ops.le ops.zero ops.zero ≡ true
      → all_good (Parser.parse_levels ops (before ++ l ∷ after)) ≡ false
  unfolding Parser.parse_levels
  parsed_levels [] l after q empty read zero_le =
      rw (parse_level_empty l q empty read, Parser.parse_levels) (rw zero_le refl)
  parsed_levels (x ∷ xs) l after q empty read zero_le =
      elim (Option-cases (Parser.parse_level ops x)) [
        | inl e ↦ rw (e, Parser.parse_levels) (parsed_levels xs l after q empty read zero_le)
        | inr (y, e) ↦
            rw (e, Parser.parse_levels)
              (rw (parsed_levels xs l after q empty read zero_le) (ground arith))
      ]

  published_bids :
      (clock : Parser.Clock) (body : Parser.KisOrderBookBody) (b : OrderBook F)
      → Parser.handle_message ops (some (Parser.parse_order_book ops clock body))
        ≡ Parser.publish_order_book b
      → b.bids ≡ Parser.parse_levels ops body.bids
  unfolding Parser.parse_order_book Parser.handle_message
  published_bids clock body b = elim (Bool-cases (str_eq body.symbol "")) [
    | inl e ↦ rw (e, Parser.parse_order_book) (λ h. absurd (ignored_differs h))
    | inr e ↦ rw (e, Parser.parse_order_book) (λ h. ground arith)
  ]
    where
      ignored_differs : Parser.ignored ≡ Parser.publish_order_book b → ⊥
      ignored_differs h = cc

  -- An order book among whose bids a level has no price, but a quantity that can be read, is still
  -- published, where it has a symbol and a time after 1970 of its own or of the clock; but the
  -- recorder refuses all of it: the level without a price has come to have the price zero.
  pub empty_price_drops_book :
      (clock : Parser.Clock) (body : Parser.KisOrderBookBody)
      (before : List Parser.KisOrderBookLevel) (l : Parser.KisOrderBookLevel)
      (after : List Parser.KisOrderBookLevel) (q : ℤ) (b : OrderBook F)
      → body.bids ≡ before ++ l ∷ after
      → l.price ≡ ""
      → parse_int (codes l.quantity) ≡ some q
      → ops.le ops.zero ops.zero ≡ true
      → Parser.handle_message ops (some (Parser.parse_order_book ops clock body))
        ≡ Parser.publish_order_book b
      → Consumer.validate_order_book ops b ≡ false
  empty_price_drops_book clock body before l after q b bids empty read zero_le published =
      let bad : all_good b.bids ≡ false =
        rw (published_bids clock body b published, bids)
          (parsed_levels before l after q empty read zero_le) in
      order_book_test b ∙ rw bad (ground arith)

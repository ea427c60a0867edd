-- ===== src/Ingestion/Parser.antt =====
-- services/data-ingestion-service/internal/kis/message_parser.go, and handleMessage of
-- cmd/server/main.go: a message of the broker becomes a message for Kafka. JSON, float64, the
-- scanning of a time and the clock are parameters; Kafka's answer is one.
mod Tests
use Prim.Native.String.{len}
use aipx.Prelude.{
  ℕ, zero, suc, ◌+◌, ◌*◌, ◌-◌, ◌^◌, String, str_eq, Bool, true, false, ◌||◌, ◌&&◌, not, Option,
  none, some, List, [], ◌∷◌, if◌then◌else◌, leb, ltb, ◌==◌,
}
use aipx.Prelude.Int.{ℤ, pos, negsuc, leb_ℤ, ltb_ℤ}
use aipx.Prelude.Text.{Text, codes}
use aipx.Float.{FloatOps}
use aipx.Ingestion.Integers.{parse_int}
use aipx.Shared.MarketData.{TickData, Level, OrderBook}

pub record KisTickBody : Type 0 where
  pub symbol : String
  pub price : String
  pub volume : String
  pub time : String
  pub change : String
  pub change_rate : String

pub record KisOrderBookLevel : Type 0 where
  pub price : String
  pub quantity : String

pub record KisOrderBookBody : Type 0 where
  pub symbol : String
  pub time : String
  pub bids : List KisOrderBookLevel
  pub asks : List KisOrderBookLevel

-- A message as its JSON reads; the body as either kind, where it is one.
pub record KisMessage : Type 0 where
  pub tr_id : String
  pub status : String
  pub tick_body : Option KisTickBody
  pub book_body : Option KisOrderBookBody

pub data ParseError : Type 0 where
  bad_json bad_status bad_body missing_symbol bad_price bad_volume : ParseError

pub data ParsedMessage (F : Type 0) : Type 0 where
  tick : TickData F → ParsedMessage F
  order_book : OrderBook F → ParsedMessage F
  error_message : ParseError → ParsedMessage F
  unknown : ParsedMessage F

-- What becomes of a text message.
pub data Handled (F : Type 0) : Type 0 where
  parse_failed invalid ignored : Handled F
  publish_tick : TickData F → Handled F
  publish_order_book : OrderBook F → Handled F

-- What `parseTime` takes from outside: the two scans, and the nanoseconds of a time of today.
pub record Clock : Type 0 where
  pub now : ℤ
  pub scan_6 : String → Option (ℕ × (ℕ × ℕ))
  pub scan_9 : String → Option (ℕ × (ℕ × (ℕ × ℕ)))
  pub today : ℕ → ℕ → ℕ → ℕ → ℤ

-- `parseTime`
unfoldable pub parse_time : Clock → String → Option ℤ
parse_time clock s =
    if str_eq s ""
    then none
    else if len s == 6
    then elim (clock.scan_6 s) [ none ↦ none | some (h, (m, x)) ↦ some (clock.today h m x 0) ]
    else if len s == 9
    then elim (clock.scan_9 s) [
      | none ↦ none
      | some (h, (m, (x, ms))) ↦ some (clock.today h m x (ms * 1000000))
    ]
    else none

abbrev pub or_now : Clock → Option ℤ → ℤ
or_now clock none = clock.now
or_now clock (some t) = t

abbrev pub is_empty {ℓ} : {A : Type ℓ} → List A → Bool
is_empty [] = true
is_empty (x ∷ xs) = false

module _ {F : Type 0} (ops : FloatOps F) where
  -- `parseFloat`
  unfoldable pub parse_float : String → Option F
  parse_float s = if str_eq s "" then some ops.zero else ops.parse s

  -- `x, _ := parseFloat(s)`
  abbrev pub float_value : String → F
  float_value s =
      if str_eq s "" then ops.zero else elim (ops.parse s) [ none ↦ ops.parse_value s | some x ↦ x ]

  -- `parseTickData`
  unfoldable pub parse_tick_data : Clock → KisTickBody → ParsedMessage F
  unfolding parse_float parse_int parse_time
  parse_tick_data clock body =
      if str_eq body.symbol ""
      then error_message missing_symbol
      else elim (parse_float body.price) [
        | none ↦ error_message bad_price
        | some price ↦ elim (parse_int (codes body.volume)) [
          | none ↦ error_message bad_volume
          | some volume ↦ tick (record {
            symbol = body.symbol;
            price = price;
            volume = volume;
            timestamp = or_now clock (parse_time clock body.time);
            change = float_value body.change;
            change_rate = float_value body.change_rate;
          })
        ]
      ]

  -- The loop over the bids, and the one over the asks.
  unfoldable pub parse_level : KisOrderBookLevel → Option (Level F)
  unfolding parse_float parse_int
  parse_level l = elim (parse_float l.price) [
    | none ↦ none
    | some price ↦ elim (parse_int (codes l.quantity)) [
      | none ↦ none
      | some quantity ↦ some (record { price = price; quantity = quantity })
    ]
  ]

  unfoldable pub parse_levels : List KisOrderBookLevel → List (Level F)
  unfolding parse_level
  parse_levels [] = []
  parse_levels (l ∷ ls) = elim (parse_level l) [
    | none ↦ parse_levels ls
    | some level ↦ level ∷ parse_levels ls
  ]

  -- `parseOrderBook`
  unfoldable pub parse_order_book : Clock → KisOrderBookBody → ParsedMessage F
  unfolding parse_levels parse_time
  parse_order_book clock body =
      if str_eq body.symbol ""
      then error_message missing_symbol
      else order_book (record {
        symbol = body.symbol;
        bids = parse_levels body.bids;
        asks = parse_levels body.asks;
        timestamp = or_now clock (parse_time clock body.time);
      })

  -- `Parse`: none for an empty message. The message is given as its JSON reads.
  unfoldable pub parse : Clock → Bool → Option KisMessage → Option (ParsedMessage F)
  unfolding parse_tick_data parse_order_book
  parse clock empty message = if empty then none else elim message [
    | none ↦ some (error_message bad_json)
    | some m ↦
        if not (str_eq m.status "0") && not (str_eq m.status "")
        then some (error_message bad_status)
        else if str_eq m.tr_id "H0STCNT0" || str_eq m.tr_id "H0STASP0"
        then elim m.tick_body [
          | none ↦ some (error_message bad_body)
          | some body ↦ some (parse_tick_data clock body)
        ]
        else if str_eq m.tr_id "H0STASP1"
        then elim m.book_body [
          | none ↦ some (error_message bad_body)
          | some body ↦ some (parse_order_book clock body)
        ]
        else some unknown
  ]

  -- `ValidateTickData`, `ValidateOrderBook`
  unfoldable pub validate_tick_data : TickData F → Bool
  validate_tick_data t =
      not (str_eq t.symbol "")
      && (not (ops.le t.price ops.zero)
          && (not (ltb_ℤ t.volume (pos 0)) && not (leb_ℤ t.timestamp (pos 0))))

  unfoldable pub validate_order_book : OrderBook F → Bool
  validate_order_book b =
      not (str_eq b.symbol "")
      && (not (is_empty b.bids && is_empty b.asks) && not (leb_ℤ b.timestamp (pos 0)))

  -- `handleMessage`, on a text message that is parsed: what it returns or sends to Kafka.
  unfoldable pub handle_message : Option (ParsedMessage F) → Handled F
  unfolding validate_tick_data validate_order_book
  handle_message none = parse_failed
  handle_message (some (tick t)) = if validate_tick_data t then publish_tick t else invalid
  handle_message (some (order_book b)) =
      if validate_order_book b then publish_order_book b else invalid
  handle_message (some (error_message e)) = ignored
  handle_message (some unknown) = ignored

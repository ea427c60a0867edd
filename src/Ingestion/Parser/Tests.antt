-- ===== src/Ingestion/Parser/Tests.antt =====
-- The parser at concrete messages, with whole numbers in the place of float64.
use aipx.Prelude.{◌+◌, ◌*◌, ◌^◌, false, none, some, ◌∷◌, ◌≡◌, refl, if◌then◌else◌, ltb, leb}
use aipx.Prelude.Int.{ℤ, pos}
use aipx.Prelude.Text.{codes, decimal}
use aipx.Shared.MarketData.{TickData}
use aipx.Float.Whole.{whole}
use aipx.Ingestion.Parser.{
  KisTickBody, KisMessage, Clock, tick, error_message, bad_status, parse, handle_message,
  publish_tick, invalid,
}
use aipx.Ingestion.Integers.{parse_int, negate}
use aipx.Ingestion.Integers.Decimal.{parse_int-decimal}

abbrev clock : Clock
clock = record {
  now = pos 1700000000;
  scan_6 = λ s. some (9, (30, 15));
  scan_9 = λ s. none;
  today = λ h m s n. pos (((h * 60 + m) * 60 + s) * 1000000000);
}

abbrev body : KisTickBody
body = record {
  symbol = "005930";
  price = "7000000";
  volume = "12";
  time = "093015";
  change = "";
  change_rate = "x";
}

abbrev message : KisMessage
message = record { tr_id = "H0STCNT0"; status = "0"; tick_body = some body; book_body = none }

abbrev parsed : TickData ℤ
parsed = record {
  symbol = "005930";
  price = pos 7000000;
  volume = pos 12;
  timestamp = pos 34215000000000;
  change = pos 0;
  change_rate = pos 0;
}

message_parsed : parse whole clock false (some message) ≡ some (tick parsed)
unfolding parse
message_parsed = refl

message_published :
    handle_message whole (parse whole clock false (some message)) ≡ publish_tick parsed
unfolding parse handle_message
message_published = refl

-- A price that is left out is read as zero, and then found invalid.
no_price :
    handle_message whole (
      parse whole clock false
        (some (record message { tick_body = some (record body { price = "" }) })))
    ≡ invalid
unfolding parse handle_message
no_price = refl

status_refused :
    parse whole clock false (some (record message { status = "1" }))
    ≡ some (error_message bad_status)
unfolding parse
status_refused = refl

too_large : parse_int (codes "9223372036854775808") ≡ none
unfolding parse_int
too_large = refl

parse_int-decimal_example :
    (parse_int (decimal 71000) ≡ (if ltb 71000 (2 ^ 63) then some (pos 71000) else none))
    × (parse_int (b'-' ∷ decimal 71000)
        ≡ (if leb 71000 (2 ^ 63) then some (negate 71000) else none))
parse_int-decimal_example = parse_int-decimal 71000

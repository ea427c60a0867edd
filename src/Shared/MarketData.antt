-- ===== src/Shared/MarketData.antt =====
-- shared/proto/market_data.proto: the messages of the market data, `F` being the type of a double.
use aipx.Prelude.{String, List}
use aipx.Prelude.Int.{ℤ}

pub record TickData (F : Type 0) : Type 0 where
  pub symbol : String
  pub price : F
  pub volume : ℤ
  pub timestamp : ℤ
  pub change : F
  pub change_rate : F

pub record Level (F : Type 0) : Type 0 where
  pub price : F
  pub quantity : ℤ

pub record OrderBook (F : Type 0) : Type 0 where
  pub symbol : String
  pub bids : List (Level F)
  pub asks : List (Level F)
  pub timestamp : ℤ

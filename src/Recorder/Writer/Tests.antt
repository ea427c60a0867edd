-- ===== src/Recorder/Writer/Tests.antt =====
-- A batch of one tick, whose first commit is done while its answer is an error.
use aipx.Prelude.{ℕ, zero, suc, true, false, [], ◌∷◌, ◌≡◌, refl}
use aipx.Prelude.Int.{ℤ, pos}
use aipx.Shared.MarketData.{TickData}
use aipx.Recorder.Consumer.{tick}
use aipx.Recorder.Writer.{Answers, done, lost, TimescaleWriter, write_messages}

abbrev samsung : TickData ℤ
samsung = record {
  symbol = "005930";
  price = pos 71000;
  volume = pos 10;
  timestamp = pos 1;
  change = pos 0;
  change_rate = pos 0;
}

abbrev writer : TimescaleWriter ℤ
writer = record {
  max_retries = pos 3;
  closed = false;
  total_inserts = 0;
  total_errors = 0;
  tables = record { tick_data = []; orderbook = [] };
}

abbrev answers : ℕ → Answers
answers zero = record {
  begins = true;
  copies_ticks = true;
  copies_order_books = true;
  commit = lost;
}
answers (suc k) = record {
  begins = true;
  copies_ticks = true;
  copies_order_books = true;
  commit = done;
}

-- The row stands twice, while one insert is counted.
twice :
    (write_messages answers (tick samsung ∷ []) writer).1.tables.tick_data ≡ samsung ∷ samsung ∷ []
unfolding write_messages
twice = refl

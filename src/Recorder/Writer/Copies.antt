-- ===== src/Recorder/Writer/Copies.antt =====
-- How often a batch stands in the tables after WriteMessages of timescale_writer.go.
use aipx.Prelude.{ℕ, zero, suc, ◌≤◌, Bool, true, false, ◌&&◌, ◌||◌, List, ◌≡◌, ◌≢◌}
use aipx.Shared.MarketData.{TickData, OrderBook}
use aipx.Recorder.Writer.{Tables, lost, Answers, add_rows, is_empty}

module _ {F : Type 0} (answers : ℕ → Answers) (ticks : List (TickData F))
    (books : List (OrderBook F)) where
  -- The batch, so many times.
  abbrev pub copies : ℕ → Tables F → Tables F
  copies zero d = d
  copies (suc k) d = copies k (add_rows ticks books d)

  -- No commit is done while its answer is an error.
  abbrev pub NoneLost : Type 0
  NoneLost = (k : ℕ) → (answers k).commit ≢ lost

  abbrev copied : ℕ → Bool
  copied k =
      (answers k).begins
      && ((is_empty ticks || (answers k).copies_ticks)
          && (is_empty books || (answers k).copies_order_books))

  -- What the loop does: so many copies, and what its answer says of their number.
  abbrev pub IsWritten : ℕ → Tables F → Bool × Tables F → Type 0
  IsWritten left d r =
      (n : ℕ) × (r.1 ≡ copies n d)
      × (n ≤ left)
      × (r.0 ≡ true → 1 ≤ n)
      × (NoneLost → (r.0 ≡ true → n ≡ 1) × (r.0 ≡ false → n ≡ 0))

-- ===== src/Recorder/Writer.antt =====
-- services/data-recorder-service/internal/writer/timescale_writer.go: batches of messages become rows,
-- in a transaction that is tried several times. The database is its two tables; what it answers to
-- each attempt is a parameter. JSON and the waits are left out.
pub mod Copies
mod Tests
use aipx.Prelude.{
  ℕ, zero, suc, ◌+◌, Bool, true, false, ◌&&◌, ◌||◌, not, Option, none, some, List, [], ◌∷◌, ◌++◌,
  if◌then◌else◌, length,
}
use aipx.Prelude.Int.{ℤ, pos_part}
use aipx.Shared.MarketData.{TickData, OrderBook}
use aipx.Recorder.Consumer.{BufferedMessage, tick, order_book}

pub record Tables (F : Type 0) : Type 0 where
  pub tick_data : List (TickData F)
  pub orderbook : List (OrderBook F)

-- What becomes of a commit; `lost` is one that is done while its answer is an error.
pub data Commit : Type 0 where
  done lost refused : Commit

-- The database's answers to one attempt; a COPY that inserts another number of rows is one that fails.
pub record Answers : Type 0 where
  pub begins : Bool
  pub copies_ticks : Bool
  pub copies_order_books : Bool
  pub commit : Commit

pub data WriteResult : Type 0 where
  written writer_closed failed : WriteResult

pub record TimescaleWriter (F : Type 0) : Type 0 where
  pub max_retries : ℤ
  pub closed : Bool
  pub total_inserts : ℕ
  pub total_errors : ℕ
  pub tables : Tables F

abbrev pub is_empty {ℓ} : {A : Type ℓ} → List A → Bool
is_empty [] = true
is_empty (x ∷ xs) = false

module _ {F : Type 0} where
  -- `Separate messages by type`
  abbrev pub ticks_of : List (BufferedMessage F) → List (TickData F)
  ticks_of [] = []
  ticks_of (tick t ∷ ms) = t ∷ ticks_of ms
  ticks_of (order_book b ∷ ms) = ticks_of ms

  abbrev pub order_books_of : List (BufferedMessage F) → List (OrderBook F)
  order_books_of [] = []
  order_books_of (tick t ∷ ms) = order_books_of ms
  order_books_of (order_book b ∷ ms) = b ∷ order_books_of ms

  abbrev pub add_rows : List (TickData F) → List (OrderBook F) → Tables F → Tables F
  add_rows ticks order_books d = record {
    tick_data = d.tick_data ++ ticks;
    orderbook = d.orderbook ++ order_books;
  }

  -- `writeBatch`: whether it reports no error, and the tables.
  unfoldable pub write_batch :
      Answers → List (TickData F) → List (OrderBook F) → Tables F → Bool × Tables F
  write_batch a ticks order_books d =
      if a.begins
        && ((is_empty ticks || a.copies_ticks) && (is_empty order_books || a.copies_order_books))
      then elim a.commit [
        | done ↦ (true, add_rows ticks order_books d)
        | lost ↦ (false, add_rows ticks order_books d)
        | refused ↦ (false, d)
      ]
      else (false, d)

  -- The loop of `WriteMessages` with `left` attempts to go, of which the next is `k`.
  unfoldable pub write_loop :
      (ℕ → Answers) → List (TickData F) → List (OrderBook F) → ℕ → ℕ → Tables F → Bool × Tables F
  unfolding write_batch
  write_loop answers ticks order_books zero k d = (false, d)
  write_loop answers ticks order_books (suc left) k d =
      let tried = write_batch (answers k) ticks order_books d in
      elim tried.0 [
        | true ↦ (true, tried.1)
        | false ↦ write_loop answers ticks order_books left (suc k) tried.1
      ]

  -- `WriteMessages`
  unfoldable pub write_messages :
      (ℕ → Answers) → List (BufferedMessage F) → TimescaleWriter F → WriteResult × TimescaleWriter F
  unfolding write_loop
  write_messages answers [] w = (written, w)
  write_messages answers (m ∷ ms) w =
      let ended =
        write_loop answers (ticks_of (m ∷ ms)) (order_books_of (m ∷ ms)) (pos_part w.max_retries) 0
          w.tables in
      if w.closed then (writer_closed, w) else elim ended.0 [
        | true ↦ (
          written,
          record w { tables = ended.1; total_inserts = w.total_inserts + length (m ∷ ms) },
        )
        | false ↦ (failed, record w { tables = ended.1; total_errors = suc w.total_errors })
      ]

  -- `Close`
  unfoldable pub close : TimescaleWriter F → TimescaleWriter F
  close w = record w { closed = true }

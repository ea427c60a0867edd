-- ===== src/Recorder/Buffer.antt =====
-- services/data-recorder-service/internal/buffer/batch_buffer.go: a bounded buffer that a goroutine
-- empties in batches. `M` is the type of the messages. Times and durations are nanoseconds. The
-- counters are unbounded here; the source's are 64 bits wide, `currentSize` 32.
pub mod Steps
pub mod Invariant
pub mod Order
pub mod Shutdown
mod Tests
use aipx.Prelude.{
  ℕ, zero, suc, ◌+◌, ◌-◌, ◌*◌, String, Bool, true, false, ◌&&◌, ◌||◌, not, Option, none, some, List,
  [], ◌∷◌, ◌++◌, if◌then◌else◌, leb, length,
}
use aipx.Prelude.Int.{ℤ, pos, pos_part, leb_ℤ}

pub data AddResult : Type 0 where
  added buffer_closed buffer_full : AddResult

-- A batch that was handed to the callback, and whether the callback took it.
pub record Batch (M : Type 0) : Type 0 where
  pub messages : List M
  pub taken : Bool

pub record BatchBuffer (M : Type 0) : Type 0 where
  pub max_size : ℕ
  pub flush_timeout : ℕ
  pub buffer : List M
  pub last_flow : ℕ
  -- a signal waits in `flushCh`, whose capacity is one
  pub flush_pending : Bool
  pub running : Bool
  pub total_messages : ℕ
  pub total_flushes : ℕ
  pub total_errors : ℕ
  pub current_size : ℕ
  pub dropped_messages : ℕ

-- `NewBatchBuffer`, at the time `now`.
pub new_batch_buffer : {M : Type 0} → ℤ → ℤ → ℕ → BatchBuffer M
new_batch_buffer max_size flush_timeout now = record {
  max_size = if leb_ℤ max_size (pos 0) then 1000 else pos_part max_size;
  flush_timeout = if leb_ℤ flush_timeout (pos 0) then 5000000000 else pos_part flush_timeout;
  buffer = [];
  last_flow = now;
  flush_pending = false;
  running = true;
  total_messages = 0;
  total_flushes = 0;
  total_errors = 0;
  current_size = 0;
  dropped_messages = 0;
}

-- The retries of `finalFlush`: whether one of the three calls of the callback succeeds.
unfoldable pub final_taken : Bool → Bool → Bool → Bool
final_taken first second third = first || (second || third)

module _ {M : Type 0} where
  -- `droppedMessages.Add(1)`
  abbrev pub drop_message : BatchBuffer M → BatchBuffer M
  drop_message b = record b { dropped_messages = b.dropped_messages + 1 }

  -- `Add` under the lock.
  unfoldable pub add_locked : M → BatchBuffer M → AddResult × BatchBuffer M
  add_locked m b =
      if leb (b.max_size * 2) (length b.buffer) then (buffer_full, drop_message b) else (
        added,
        record b {
          buffer = b.buffer ++ m ∷ [];
          total_messages = b.total_messages + 1;
          current_size = length (b.buffer ++ m ∷ []);
          flush_pending =
              if leb b.max_size (length (b.buffer ++ m ∷ [])) then true else b.flush_pending;
        },
      )

  -- `Add`, when no other goroutine comes between its test of `running` and its lock.
  unfoldable pub add : M → BatchBuffer M → AddResult × BatchBuffer M
  add m b = if b.running then add_locked m b else (buffer_closed, drop_message b)

  abbrev pub should_flush : Bool → ℕ → BatchBuffer M → Bool
  should_flush forced now b =
      forced || (leb b.max_size (length b.buffer) || leb b.flush_timeout (now - b.last_flow))

  -- The locked part of `checkAndFlush`: the messages to flush, none where it returns early.
  unfoldable pub take_batch : Bool → ℕ → BatchBuffer M → List M × BatchBuffer M
  take_batch forced now b = elim b.buffer [
    | [] ↦ ([], b)
    | m ∷ ms ↦
        if should_flush forced now b
        then (b.buffer, record b { buffer = []; last_flow = now; current_size = 0 })
        else ([], b)
  ]

  -- `flush`; `took` is what the callback returns.
  unfoldable pub flush : List M → Bool → BatchBuffer M → List (Batch M) × BatchBuffer M
  flush [] took b = ([], b)
  flush (m ∷ ms) took b = (
    record { messages = m ∷ ms; taken = took } ∷ [],
    record b {
      total_flushes = b.total_flushes + 1;
      total_errors = if took then b.total_errors else b.total_errors + 1;
    },
  )

  -- `finalFlush`, with the outcomes of its calls.
  unfoldable pub final_flush : Bool → BatchBuffer M → List (Batch M) × BatchBuffer M
  final_flush took b = elim b.buffer [
    | [] ↦ ([], b)
    | m ∷ ms ↦ (
      record { messages = b.buffer; taken = took } ∷ [],
      record b { buffer = []; current_size = 0 },
    )
  ]

  -- `Flush`
  unfoldable pub request_flush : BatchBuffer M → BatchBuffer M
  request_flush b = record b { flush_pending = true }

  -- `Stop` up to its wait: whether it is the call that closes the channel.
  unfoldable pub stop : BatchBuffer M → Bool × BatchBuffer M
  stop b = (b.running, record b { running = false })

  -- `Size`, `IsFull`
  unfoldable pub size : BatchBuffer M → ℕ
  size b = b.current_size

  unfoldable pub is_full : BatchBuffer M → Bool
  is_full b = leb b.max_size b.current_size

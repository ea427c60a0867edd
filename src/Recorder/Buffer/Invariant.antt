-- ===== src/Recorder/Buffer/Invariant.antt =====
-- What always holds of a buffer of batch_buffer.go, whoever runs when.
use aipx.Prelude.{ℕ, ◌*◌, ◌≤◌, ◌<◌, true, ◌≡◌, arith, length}
use aipx.Prelude.Int.{ℤ}
use aipx.Recorder.Buffer.{new_batch_buffer, BatchBuffer}

module _ {M : Type 0} where
  -- `currentSize` is the size, at most twice `maxSize` messages are held, and a buffer that has
  -- reached `maxSize` has a flush pending.
  pub record IsSound (b : BatchBuffer M) : Type 0 where
    pub positive : 0 < b.max_size
    pub measured : b.current_size ≡ length b.buffer
    pub bounded : length b.buffer ≤ b.max_size * 2
    pub signalled : b.max_size ≤ length b.buffer → b.flush_pending ≡ true

  pub new_batch_buffer-IsSound :
      (max_size flush_timeout : ℤ) (now : ℕ) → IsSound (new_batch_buffer max_size flush_timeout now)
  unfolding new_batch_buffer
  new_batch_buffer-IsSound max_size flush_timeout now = ground arith

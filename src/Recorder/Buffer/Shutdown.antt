-- ===== src/Recorder/Buffer/Shutdown.antt =====
-- What batch_buffer.go does with a message that is accepted after its loop has returned.
use aipx.Prelude.{true, List, [], ◌++◌, ◌≡◌}
use aipx.Recorder.Buffer.{Batch}
use aipx.Recorder.Buffer.Steps.{System}

module _ {M : Type 0} where
  -- What a loop that has returned leaves behind: no batch on its way, a log that no longer grows
  -- and a buffer that only grows at its end.
  pub record IsStranded (log : List (Batch M)) (front : List M) (s : System M) : Type 0 where
    pub over : s.ended ≡ true
    pub idle : s.in_flight ≡ []
    pub same_log : s.log ≡ log
    pub grown : List M
    pub held : s.b.buffer ≡ front ++ grown

-- ===== src/Recorder/Buffer/Order.antt =====
-- What becomes of the messages that batch_buffer.go has accepted.
use aipx.Prelude.{List, [], ◌∷◌, ◌++◌, ◌≡◌, ◌≢◌, length}
use aipx.Recorder.Buffer.{Batch}
use aipx.Recorder.Buffer.Steps.{System}

module _ {M : Type 0} where
  -- The messages of the batches, one batch after another.
  abbrev pub flat : List (Batch M) → List M
  flat [] = []
  flat (x ∷ xs) = x.messages ++ flat xs

  abbrev pub NoneEmpty : List (Batch M) → Type 0
  NoneEmpty [] = Unit
  NoneEmpty (x ∷ xs) = (x.messages ≢ []) × NoneEmpty xs

  -- The accepted messages, in the order in which they were accepted, are the ones that the callback
  -- was given, the ones on the way to it and the ones in the buffer, each once; the callback is
  -- never given an empty batch; and the counter of messages is right.
  pub record IsOrdered (s : System M) : Type 0 where
    pub kept : s.accepted ≡ flat s.log ++ (s.in_flight ++ s.b.buffer)
    pub nonempty : NoneEmpty s.log
    pub counted : s.b.total_messages ≡ length s.accepted

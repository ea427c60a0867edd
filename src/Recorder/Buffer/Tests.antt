-- ===== src/Recorder/Buffer/Tests.antt =====
-- The buffer's theorems on concrete runs.
use aipx.Prelude.{ℕ, true, [], ◌∷◌}
use aipx.Prelude.Int.{pos, negsuc}
use aipx.Recorder.Buffer.{BatchBuffer, new_batch_buffer, add_locked}
use aipx.Recorder.Buffer.Steps.{System, started, accept}

abbrev small : BatchBuffer ℕ
small = new_batch_buffer (pos 2) (negsuc 0) 100

abbrev fresh : System ℕ
fresh = started small

abbrev entered : System ℕ
entered = record fresh { waiting = 7 ∷ [] }

abbrev appended : System ℕ
appended = record entered {
  b = (add_locked 7 small).1;
  waiting = [];
  accepted = accept (add_locked 7 small).0 7 [];
}

-- The context is done and the loop returns; then a message is accepted, since `running` is true.
abbrev over : System ℕ
over = record (started small) { stopping = true; ended = true }

abbrev over_entered : System ℕ
over_entered = record over { waiting = 7 ∷ [] }

abbrev over_appended : System ℕ
over_appended = record over_entered {
  b = (add_locked 7 small).1;
  waiting = [];
  accepted = accept (add_locked 7 small).0 7 [];
}

-- ===== src/Recorder/Buffer/Steps.antt =====
-- The goroutines around a buffer of batch_buffer.go, as a step relation: the callers of `Add`, of
-- `Flush` and of `Stop`, and the loop of `Start`.
use aipx.Prelude.{ℕ, Bool, true, false, List, [], ◌∷◌, ◌++◌, ◌≡◌}
use aipx.Recorder.Buffer.{
  BatchBuffer, Batch, AddResult, added, drop_message, add_locked, take_batch, flush, final_flush,
  final_taken, request_flush, stop,
}

pub record System (M : Type 0) : Type 0 where
  pub b : BatchBuffer M
  -- messages whose `Add` has passed its test of `running` and does not have the lock yet
  pub waiting : List M
  -- what the loop has taken out of the buffer and not yet handed to the callback
  pub in_flight : List M
  -- the batches that the callback has been given, the latest last
  pub log : List (Batch M)
  -- the messages that `Add` has put into the buffer, the latest last
  pub accepted : List M
  -- `stopCh` is closed, or the context is done
  pub stopping : Bool
  -- the loop has returned
  pub ended : Bool

abbrev pub is_added : AddResult → Bool
is_added added = true
is_added _ = false

abbrev pub accept {ℓ} : {A : Type ℓ} → AddResult → A → List A → List A
accept added m ms = ms ++ m ∷ []
accept _ m ms = ms

module _ {M : Type 0} where
  pub data Step : System M → System M → Type 0 where
    enter :
        (s : System M) (m : M)
        → s.b.running ≡ true
        → Step s (record s { waiting = s.waiting ++ m ∷ [] })
    refuse : (s : System M) → s.b.running ≡ false → Step s (record s { b = drop_message s.b })
    append :
        (s : System M) (before after : List M) (m : M)
        → s.waiting ≡ before ++ m ∷ after
        → Step s (record s {
          b = (add_locked m s.b).1;
          waiting = before ++ after;
          accepted = accept (add_locked m s.b).0 m s.accepted;
        })
    request : (s : System M) → Step s (record s { b = request_flush s.b })
    -- the case `ticker.C` of the loop
    tick :
        (s : System M) (now : ℕ)
        → s.ended ≡ false
        → s.in_flight ≡ []
        → Step s (record s {
          b = (take_batch false now s.b).1;
          in_flight = (take_batch false now s.b).0;
        })
    -- the case `flushCh`
    signal :
        (s : System M) (now : ℕ)
        → s.ended ≡ false
        → s.in_flight ≡ []
        → s.b.flush_pending ≡ true
        → Step s (
            let b' = record s.b { flush_pending = false } in
            record s { b = (take_batch true now b').1; in_flight = (take_batch true now b').0 })
    -- the callback, outside of the lock
    deliver :
        (s : System M) (took : Bool)
        → Step s (record s {
          b = (flush s.in_flight took s.b).1;
          in_flight = [];
          log = s.log ++ (flush s.in_flight took s.b).0;
        })
    -- `Stop`, by the first caller or by others
    stopped : (s : System M) → Step s (record s { b = (stop s.b).1; stopping = true })
    -- the context is done; `running` stays as it is
    cancelled : (s : System M) → Step s (record s { stopping = true })
    -- the cases `ctx.Done()` and `stopCh`, with the outcomes of the three calls
    finish :
        (s : System M) (first second third : Bool)
        → s.stopping ≡ true
        → s.ended ≡ false
        → s.in_flight ≡ []
        → Step s (
            let took = final_taken first second third in
            record s {
              b = (final_flush took s.b).1;
              log = s.log ++ (final_flush took s.b).0;
              ended = true;
            })

  pub data Reach (s : System M) : System M → Type 0 where
    here : Reach s s
    next : {t u : System M} → Reach s t → Step t u → Reach s u

  -- A new buffer with its loop started.
  abbrev pub started : BatchBuffer M → System M
  started b = record {
    b = b;
    waiting = [];
    in_flight = [];
    log = [];
    accepted = [];
    stopping = false;
    ended = false;
  }

-- ===== src/Ingestion/Client.antt =====
-- services/data-ingestion-service/internal/kis/client.go: the WebSocket client, with its reader, its
-- heartbeat and its reconnect loop as a step relation. A connection is a number that no other has.
-- Dialling, the token and the authentication come to one answer of `connect`. Delays are
-- nanoseconds.
pub mod Reconnect
pub mod Lost
mod Tests
use aipx.Prelude.{
  ℕ, zero, suc, ◌+◌, ◌*◌, ◌≤◌, ◌<◌, ◌≡◌, ◌≢◌, Bool, true, false, Option, none, some, if◌then◌else◌,
  ltb,
}

pub data ConnectionStatus : Type 0 where
  disconnected connecting connected reconnecting : ConnectionStatus

-- Where the loop of `reconnect` is: the number of the next attempt, and the delay.
pub record Attempt : Type 0 where
  pub number : ℕ
  pub delay : ℕ

pub record Client : Type 0 where
  pub status : ConnectionStatus
  pub conn : Option ℕ
  -- a signal waits in `reconnectChan`, whose capacity is one
  pub triggered : Bool
  -- the loop of `reconnect`, where the handler is in it
  pub loop : Option Attempt
  -- the context is done
  pub stopped : Bool
  -- the number of the next connection
  pub next_conn : ℕ
  -- the connection over which `Subscribe` last sent its message
  pub subscribed : Option ℕ

-- `NewClient`
abbrev pub new_client : Client
new_client = record {
  status = disconnected;
  conn = none;
  triggered = false;
  loop = none;
  stopped = false;
  next_conn = 0;
  subscribed = none;
}

-- `connect`, with whether it comes to a connection.
unfoldable pub connect : Bool → Client → Client
connect true c = record c {
  status = connected;
  conn = some c.next_conn;
  next_conn = suc c.next_conn;
}
connect false c = record c { status = connecting }

abbrev pub longest_delay : ℕ
longest_delay = 60 * 1000000000

-- The doubling of the delay.
abbrev pub next_delay : ℕ → ℕ
next_delay d = if ltb longest_delay (d * 2) then longest_delay else d * 2

-- The head of `reconnect`: none where it returns at once.
unfoldable pub begin_reconnect : ℕ → Client → Client
begin_reconnect delay c = elim c.status [
  | reconnecting ↦ c
  | disconnected ↦ starting c
  | connecting ↦ starting c
  | connected ↦ starting c
]
  where
    starting : Client → Client
    starting c = record c {
      status = reconnecting;
      conn = none;
      loop = some (record { number = 1; delay = delay });
    }

-- What follows an attempt that failed.
abbrev pub after_failure : ℕ → Attempt → Attempt
after_failure max_retries a = record {
  number = suc a.number;
  delay = if ltb a.number max_retries then next_delay a.delay else a.delay;
}

module _ (max_retries reconnect_delay : ℕ) where
  pub data Step : Client → Client → Type 0 where
    -- `readMessages` and `heartbeat`, with an error
    trigger : (c : Client) (k : ℕ) → c.conn ≡ some k → Step c (record c { triggered = true })
    -- `handleReconnect` takes the signal
    begin :
        (c : Client)
        → c.triggered ≡ true
        → c.loop ≡ none
        → Step c (begin_reconnect reconnect_delay (record c { triggered = false }))
    -- a round of the loop of `reconnect`
    succeed :
        (c : Client) (a : Attempt)
        → c.loop ≡ some a
        → a.number ≤ max_retries
        → Step c (connect true (record c { loop = none }))
    fail :
        (c : Client) (a : Attempt)
        → c.loop ≡ some a
        → a.number ≤ max_retries
        → Step c (connect false (record c { loop = some (after_failure max_retries a) }))
    -- the context is done at the head of a round
    abandon :
        (c : Client) (a : Attempt)
        → c.loop ≡ some a
        → c.stopped ≡ true
        → Step c (record c { loop = none })
    -- the end of the loop
    give_up :
        (c : Client) (a : Attempt)
        → c.loop ≡ some a
        → max_retries < a.number
        → Step c (record c { status = disconnected; loop = none })
    -- `Subscribe`, `Stop`
    subscribe : (c : Client) (k : ℕ) → c.conn ≡ some k → Step c (record c { subscribed = some k })
    stop : (c : Client) → Step c (record c { stopped = true })

  pub data Reach (c : Client) : Client → Type 0 where
    here : Reach c c
    next : {d e : Client} → Reach c d → Step d e → Reach c e

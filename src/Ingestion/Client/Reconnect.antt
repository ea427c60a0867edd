-- ===== src/Ingestion/Client/Reconnect.antt =====
-- What always holds of the client of client.go, and how long it goes on.
use aipx.Prelude.{ℕ, suc, ◌≤◌, ◌≡◌, ◌≢◌, ◌⊎◌, Option, none, some, refl}
use aipx.Ingestion.Client.{connected, reconnecting, Attempt, Client, new_client, longest_delay}

module _ (max_retries reconnect_delay : ℕ) where
  -- Where the loop can be: past at most `ReconnectRetries` attempts, with a delay that is the
  -- configured one or at most a minute, and with no connection.
  abbrev pub IsLoop : Option Attempt → Option ℕ → Type 0
  IsLoop none conn = Unit
  IsLoop (some a) conn =
      (a.number ≤ suc max_retries)
      × ((a.delay ≡ reconnect_delay) ⊎ (a.delay ≤ longest_delay))
      × (conn ≡ none)

  -- A client says that it is connected exactly where it has a connection.
  pub record IsCoherent (c : Client) : Type 0 where
    pub has_conn : c.status ≡ connected → c.conn ≢ none
    pub is_connected : c.conn ≢ none → c.status ≡ connected
    pub in_loop : IsLoop c.loop c.conn

  -- A client with no connection that does not say that it is connected.
  offline-IsCoherent :
      (c : Client) → c.conn ≡ none → c.status ≢ connected → IsLoop c.loop c.conn → IsCoherent c
  offline-IsCoherent c off other l = record {
    has_conn = λ h. absurd (other h);
    is_connected = λ h. absurd (h off);
    in_loop = l;
  }

  abbrev begun : Client → Client
  begun c = record c {
    status = reconnecting;
    conn = none;
    loop = some (record { number = 1; delay = reconnect_delay });
  }

  pub new_client-IsCoherent : IsCoherent new_client
  new_client-IsCoherent = offline-IsCoherent new_client refl (λ x. cc) tt

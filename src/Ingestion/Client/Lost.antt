-- ===== src/Ingestion/Client/Lost.antt =====
-- What the client of client.go does not come back from.
use aipx.Prelude.{ℕ, ◌<◌, ◌≡◌, ◌≢◌, ◌⊎◌, false, Option, none, some, refl, sym, ◌∙◌, arith, inl, inr}
use aipx.Ingestion.Client.{
  ConnectionStatus, disconnected, connecting, connected, reconnecting, Client, connect,
  begin_reconnect, Step, Reach, trigger, begin, succeed, fail, abandon, give_up, subscribe, stop,
  here, next,
}

module _ (max_retries reconnect_delay : ℕ) where
  -- No connection, no signal, and no loop that would make one.
  pub record IsDead (c : Client) : Type 0 where
    pub no_conn : c.conn ≡ none
    pub no_signal : c.triggered ≡ false
    pub no_loop : c.loop ≡ none

  nothing_there : {A : Type 0} {x : Option A} {a : A} → x ≡ none → x ≡ some a → ⊥
  nothing_there e h = cc

  -- A run in which `Subscribe` is not called.
  abbrev pub IsSubscribe : {c d : Client} → Step max_retries reconnect_delay c d → Type 0
  IsSubscribe (subscribe c k h) = Unit
  IsSubscribe _ = ⊥

  abbrev pub NoSubscribe : {c d : Client} → Reach max_retries reconnect_delay c d → Type 0
  NoSubscribe here = Unit
  NoSubscribe (next r s) = NoSubscribe r × (IsSubscribe s → ⊥)

  -- The connection, if there is one, is not the one of the subscription, which is older.
  pub record IsUnsubscribed (c : Client) : Type 0 where
    pub older : (k : ℕ) → c.subscribed ≡ some k → k < c.next_conn
    pub other : (k : ℕ) → c.conn ≡ some k → c.subscribed ≢ some k

  keeps-IsUnsubscribed :
      (c d : Client)
      → d.subscribed ≡ c.subscribed
      → d.next_conn ≡ c.next_conn
      → (d.conn ≡ c.conn) ⊎ (d.conn ≡ none)
      → IsUnsubscribed c
      → IsUnsubscribed d
  keeps-IsUnsubscribed c d same count (inl conn) v = record {
    older = λ k h. rw count (v.older k (sym same ∙ h));
    other = λ k h h'. v.other k (sym conn ∙ h) (sym same ∙ h');
  }
  keeps-IsUnsubscribed c d same count (inr off) v = record {
    older = λ k h. rw count (v.older k (sym same ∙ h));
    other = λ k h. absurd (nothing_there off h);
  }

  begin_keeps :
      (c : Client)
      → let d = begin_reconnect reconnect_delay c in
        (d.subscribed ≡ c.subscribed)
        × (d.next_conn ≡ c.next_conn)
        × ((d.conn ≡ c.conn) ⊎ (d.conn ≡ none))
  unfolding begin_reconnect
  begin_keeps c = go c.status refl
    where
      go :
          (s : ConnectionStatus)
          → c.status ≡ s
          → let d = begin_reconnect reconnect_delay c in
            (d.subscribed ≡ c.subscribed)
            × (d.next_conn ≡ c.next_conn)
            × ((d.conn ≡ c.conn) ⊎ (d.conn ≡ none))
      go disconnected e = rw (e, begin_reconnect) (refl, refl, inr refl)
      go connecting e = rw (e, begin_reconnect) (refl, refl, inr refl)
      go connected e = rw (e, begin_reconnect) (refl, refl, inr refl)
      go reconnecting e = rw (e, begin_reconnect) (refl, refl, inl refl)

  Step-IsUnsubscribed :
      {c d : Client} (s : Step max_retries reconnect_delay c d)
      → (IsSubscribe s → ⊥)
      → IsUnsubscribed c
      → IsUnsubscribed d
  unfolding connect
  Step-IsUnsubscribed (trigger c k h) q v = keeps-IsUnsubscribed c _ refl refl (inl refl) v
  Step-IsUnsubscribed (begin c h l) q v =
      let c' : Client = record c { triggered = false } in
      let (same, count, conn) = begin_keeps c' in
      keeps-IsUnsubscribed c (begin_reconnect reconnect_delay c') same count conn v
  Step-IsUnsubscribed (succeed c a l h) q v = record {
    older = λ k e. omega (arith, v.older k e);
    other = λ k e e'. fresh c k (some_injective e) (v.older k e');
  }
    where
      some_injective : {j k : ℕ} → some j ≡ some k → j ≡ k
      some_injective h = cc

      fresh : (c : Client) (k : ℕ) → c.next_conn ≡ k → k < c.next_conn → ⊥
      fresh c k e lt = omega arith
  Step-IsUnsubscribed (fail c a l h) q v = keeps-IsUnsubscribed c _ refl refl (inl refl) v
  Step-IsUnsubscribed (abandon c a l h) q v = keeps-IsUnsubscribed c _ refl refl (inl refl) v
  Step-IsUnsubscribed (give_up c a l h) q v = keeps-IsUnsubscribed c _ refl refl (inl refl) v
  Step-IsUnsubscribed (subscribe c k h) q v = absurd (q tt)
  Step-IsUnsubscribed (stop c) q v = keeps-IsUnsubscribed c _ refl refl (inl refl) v

  -- Once the connection over which the symbols were subscribed is gone, and as long as `Subscribe` is
  -- not called again, no connection that the client makes is one over which they are subscribed.
  pub subscription_is_lost :
      {c d : Client} (r : Reach max_retries reconnect_delay c d) (k : ℕ)
      → c.conn ≡ none
      → ((j : ℕ) → c.subscribed ≡ some j → j < c.next_conn)
      → NoSubscribe r
      → d.conn ≡ some k
      → d.subscribed ≢ some k
  subscription_is_lost r k off older quiet =
      (stays r quiet (record { older = older; other = λ k h. absurd (nothing_there off h) })).other
        k
    where
      stays :
          {c d : Client} (r : Reach max_retries reconnect_delay c d)
          → NoSubscribe r
          → IsUnsubscribed c
          → IsUnsubscribed d
      stays here q v = v
      stays (next r s) (q, q') v = Step-IsUnsubscribed s q' (stays r q v)

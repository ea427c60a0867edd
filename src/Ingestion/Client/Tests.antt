-- ===== src/Ingestion/Client/Tests.antt =====
-- The client with one attempt to reconnect.
use aipx.Prelude.{ℕ, zero, suc, ◌<◌, ◌≡◌, ◌≢◌, true, none, some, refl, arith}
use aipx.Ingestion.Client.{
  disconnected, connecting, Client, new_client, connect, Reach, succeed, here, next,
}
use aipx.Ingestion.Client.Lost.{subscription_is_lost}

-- Connected over 0, where the symbols are subscribed, and then without a connection.
abbrev offline : Client
offline = record new_client {
  status = connecting;
  loop = some (record { number = 2; delay = 8 });
  next_conn = 1;
  subscribed = some 0;
}

abbrev stopped_later : Client
stopped_later = record offline { status = disconnected; loop = none; stopped = true }

abbrev reconnected : Client
reconnected = connect true (record offline { loop = none })

reconnected_over_one : reconnected.conn ≡ some 1
unfolding connect
reconnected_over_one = refl

reconnects : Reach 2 4 offline reconnected
reconnects = next here (succeed offline (record { number = 2; delay = 8 }) refl (omega arith))

subscription_is_lost_example : reconnected.subscribed ≢ some 1
subscription_is_lost_example =
    subscription_is_lost 2 4
      (next here (succeed offline (record { number = 2; delay = 8 }) refl (omega arith))) 1 refl
      (λ j e. zero_first j e) (tt, λ h. h) reconnected_over_one
  where
    zero_first : (j : ℕ) → some zero ≡ some j → j < 1
    zero_first zero e = omega arith
    zero_first (suc j) e = absurd (differ e)
      where
        differ : some zero ≡ some (suc j) → ⊥
        differ e = cc

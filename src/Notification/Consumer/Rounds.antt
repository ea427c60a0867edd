-- ===== src/Notification/Consumer/Rounds.antt =====
-- The rounds of sendWithRetry of notification_consumer.go, one equation for each way that one ends.
use aipx.Prelude.{ℕ, suc, Bool, true, false, Option, none, some, String, ◌≡◌, refl, if◌then◌else◌}
use aipx.Notification.Channel.{Notification}
use aipx.Notification.Consumer.{
  Preference, World, Sent, delivered, interrupted, merge_config, send_rounds,
}

module _ {S E : Type 0} (world : World S E) (channel : String) (pref : Preference) where
  abbrev pub waited : Bool → S → Bool × S
  waited first s = if first then (true, s) else world.wait s

  abbrev pub merged : Notification → Notification
  merged n = record n { data_values = merge_config pref.config n.data_values }

  abbrev pub answer : Bool → Notification → S → Option E × S
  answer first n s = world.send channel (merged n) (waited first s).1

  abbrev pub round : ℕ → Bool → Notification → Option E → S → Sent S E
  round left first n last s = send_rounds world channel pref left first n last s

  pub round_interrupted :
      (left : ℕ) (first : Bool) (n : Notification) (last : Option E) (s : S)
      → (waited first s).0 ≡ false
      → round (suc left) first n last s ≡ record {
        outcome = interrupted;
        event_data = n.data_values;
        sends = 0;
        state = (waited first s).1;
      }
  unfolding send_rounds
  round_interrupted left first n last s e = rw (e, send_rounds) refl

  pub round_delivered :
      (left : ℕ) (first : Bool) (n : Notification) (last : Option E) (s : S)
      → (waited first s).0 ≡ true
      → (answer first n s).0 ≡ none
      → round (suc left) first n last s ≡ record {
        outcome = delivered;
        event_data = (merged n).data_values;
        sends = 1;
        state = (answer first n s).1;
      }
  unfolding send_rounds
  round_delivered left first n last s e h = rw (e, send_rounds) (rw h refl)

  pub round_failed :
      (left : ℕ) (first : Bool) (n : Notification) (last : Option E) (s : S) (x : E)
      → (waited first s).0 ≡ true
      → (answer first n s).0 ≡ some x
      → round (suc left) first n last s
        ≡ record (round left false (merged n) (some x) (answer first n s).1) {
          sends = suc (round left false (merged n) (some x) (answer first n s).1).sends;
        }
  unfolding send_rounds
  round_failed left first n last s x e h = rw (e, send_rounds) (rw h refl)

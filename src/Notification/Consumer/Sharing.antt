-- ===== src/Notification/Consumer/Sharing.antt =====
-- The map of an event, which all notifications of notification_consumer.go share.
use aipx.Prelude.{
  ℕ, zero, suc, String, str_eq, eq_iff, true, false, Option, none, some, List, [], ◌∷◌, ◌++◌, ◌≡◌,
  refl, ap, ◌∙◌, Bool-cases, Option-cases, inl, inr,
}
use aipx.Prelude.Dict.{Dict, lookup, insert, lookup-insert}
use aipx.Prelude.Text.{Text}
use aipx.Notification.Channel.{Value, Notification, new_notification}
use aipx.Notification.Consumer.Rounds.{
  waited, merged, answer, round_interrupted, round_delivered, round_failed,
}
use aipx.Notification.Consumer.{
  Preference, World, History, Progress, merge, merge_config, send_rounds, send_with_retry, notify,
}

-- The keys of a map are all different.
abbrev pub IsMap : Dict Value → Type 0
IsMap [] = Unit
IsMap (e ∷ es) = (lookup e.0 es ≡ none) × IsMap es

abbrev pub over : Option Value → Option Value → Option Value
over none below = below
over (some v) below = some v

lookup-merge :
    (k : String) (c d : Dict Value)
    → IsMap c
    → lookup k (merge c d) ≡ over (lookup k c) (lookup k d)
unfolding merge lookup
lookup-merge k [] d m = refl
lookup-merge k (e ∷ es) d (fresh, m) =
    rw (lookup-merge k es (insert e.0 e.1 d) m, lookup-insert k e.0 e.1 d)
      (elim (Bool-cases (str_eq k e.0)) [
        | inl same ↦
            let absent : lookup k es ≡ none = rw ((eq_iff k e.0).0 same) fresh in
            rw (absent, same) refl
        | inr other ↦ rw other refl
      ])

over_twice : (a b : Option Value) → over a (over a b) ≡ over a b
over_twice none b = refl
over_twice (some v) b = refl

abbrev pub config_value : String → Option (Dict Value) → Option Value
config_value k none = none
config_value k (some c) = lookup k c

abbrev pub IsConfig : Option (Dict Value) → Type 0
IsConfig none = Unit
IsConfig (some c) = IsMap c

lookup-merge_config :
    (k : String) (c : Option (Dict Value)) (d : Dict Value)
    → IsConfig c
    → lookup k (merge_config c d) ≡ over (config_value k c) (lookup k d)
lookup-merge_config k none d m = refl
lookup-merge_config k (some c) d m = lookup-merge k c d m

module _ {S E : Type 0} (world : World S E) (channel : String) (pref : Preference) (k : String)
    (m : IsConfig pref.config) where
  -- Further rounds change nothing under a key that the configuration has settled.
  rounds_keep :
      (left : ℕ) (n : Notification) (last : Option E) (s : S) (x : Option Value)
      → lookup k n.data_values ≡ x
      → over (config_value k pref.config) x ≡ x
      → lookup k (send_rounds world channel pref left false n last s).event_data ≡ x
  unfolding send_rounds
  rounds_keep zero n last s x e settled = e
  rounds_keep (suc left) n last s x e settled =
      let after : lookup k (merged world channel pref n).data_values ≡ x =
        lookup-merge_config k pref.config n.data_values m
        ∙ (ap (over (config_value k pref.config)) e ∙ settled) in
      elim (Bool-cases (waited world channel pref false s).0) [
        | inr w ↦ rw (round_interrupted world channel pref left false n last s w) e
        | inl w ↦ elim (Option-cases (answer world channel pref false n s).0) [
          | inl h ↦ rw (round_delivered world channel pref left false n last s w h) after
          | inr (y, h) ↦ rw (round_failed world channel pref left false n last s y w h) (
              rounds_keep left (merged world channel pref n) (some y)
                (answer world channel pref false n s).1 x after settled)
        ]
      ]

  rounds_merge :
      (left : ℕ) (n : Notification) (last : Option E) (s : S)
      → lookup k (send_rounds world channel pref (suc left) true n last s).event_data
        ≡ over (config_value k pref.config) (lookup k n.data_values)
  rounds_merge left n last s =
      let after = lookup-merge_config k pref.config n.data_values m in
      elim (Option-cases (answer world channel pref true n s).0) [
        | inl h ↦ rw (round_delivered world channel pref left true n last s refl h) after
        | inr (y, h) ↦ rw (round_failed world channel pref left true n last s y refl h) (
            rounds_keep left (merged world channel pref n) (some y)
              (answer world channel pref true n s).1 _ after
              (over_twice (config_value k pref.config) (lookup k n.data_values)))
      ]

module _ {S E : Type 0} (world : World S E) (available : List String) (now : ℕ)
    (user_id event_type : String) (title message : Text) where
  abbrev pub step : Preference → Progress S → Progress S
  step pref p = notify world available now user_id event_type title message pref p

  step_merges :
      (pref : Preference) (p : Progress S) (k : String)
      → IsConfig pref.config
      → lookup k (step pref p).event_data
        ≡ over (config_value k pref.config) (lookup k p.event_data)
  unfolding send_with_retry
  step_merges pref p k m =
      rounds_merge world pref.channel pref k m 3
        (record (new_notification now user_id event_type title message) {
          data_values = p.event_data;
        })
        none p.state

  -- The setting of one channel reaches the next: where the loop of `handleMessage` has come to a
  -- preference whose configuration has `v` under `k`, and the preference after it has no such key,
  -- the payload that is saved for the latter has `v` under `k`, sent or not.
  pub setting_leaks :
      (first second : Preference) (p : Progress S) (c : Dict Value) (k : String) (v : Value)
      → first.config ≡ some c
      → IsMap c
      → lookup k c ≡ some v
      → IsConfig second.config
      → config_value k second.config ≡ none
      → (row : History) × ((step second (step first p)).history
          ≡ (step first p).history ++ row ∷ [])
        × (row.channel ≡ second.channel)
        × (lookup k row.payload ≡ some v)
  unfolding notify
  setting_leaks first second p c k v configured m there m' absent =
      let first_map : IsConfig first.config = rw configured m in
      let first_value : config_value k first.config ≡ some v = rw configured there in
      (
        _,
        refl,
        refl,
        step_merges second (step first p) k m'
            ∙ rw absent (step_merges first p k first_map ∙ rw first_value refl),
      )

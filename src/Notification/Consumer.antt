-- ===== src/Notification/Consumer.antt =====
-- services/notification-service/internal/consumer/notification_consumer.go: an event becomes a
-- notification for each channel that its user has chosen. `S` is the state of all that lies outside:
-- the channels, the waits and the database of the history; JSON, the table of the preferences and
-- the templates are parameters. `E` is the type of an error of a channel.
pub mod Rounds
pub mod Attempts
pub mod Rows
pub mod Sharing
mod Tests
use aipx.Prelude.{
  ℕ, zero, suc, ◌+◌, String, str_eq, Bool, true, false, Option, none, some, List, [], ◌∷◌, ◌++◌,
  if◌then◌else◌, ◌==◌,
}
use aipx.Prelude.Dict.{Dict, lookup, insert}
use aipx.Prelude.Text.{Text}
use aipx.Notification.Channel.{
  Value, text, texts, items, other_value, Notification, new_notification,
}
use aipx.Notification.Rendered.{parse_rendered_template}
use aipx.Notification.Retry.{rounds}

-- A row of the preferences; `config` is none for a nil map.
pub record Preference : Type 0 where
  pub channel : String
  pub enabled : Bool
  pub config : Option (Dict Value)

pub data Status : Type 0 where
  status_sent status_failed : Status

-- What is saved to the history; the payload is what the map holds at that time.
pub record History : Type 0 where
  pub user_id : String
  pub channel : String
  pub event_type : String
  pub title : Text
  pub message : Text
  pub payload : Dict Value
  pub status : Status
  pub has_sent_at : Bool

pub data HandleError : Type 0 where
  bad_event missing_event_type missing_user_id no_preferences render_failed : HandleError

-- `for key, value := range pref.Config`
unfoldable pub merge : Dict Value → Dict Value → Dict Value
merge [] into = into
merge (e ∷ es) into = merge es (insert e.0 e.1 into)

abbrev pub merge_config : Option (Dict Value) → Dict Value → Dict Value
merge_config none into = into
merge_config (some config) into = merge config into

-- What a channel's `Send` and a wait do to the state, and what comes of them; `wait` tells whether
-- the wait ended before the context did.
pub record World (S E : Type 0) : Type 0 where
  pub send : String → Notification → S → Option E × S
  pub wait : S → Bool × S

pub data SendOutcome (E : Type 0) : Type 0 where
  delivered interrupted : SendOutcome E
  exhausted : Option E → SendOutcome E

-- What `sendWithRetry` leaves: the map that it shares with its caller, and how often it sent.
pub record Sent (S E : Type 0) : Type 0 where
  pub outcome : SendOutcome E
  pub event_data : Dict Value
  pub sends : ℕ
  pub state : S

-- What the loop over the preferences carries on.
pub record Progress (S : Type 0) : Type 0 where
  pub event_data : Dict Value
  pub history : List History
  pub state : S

pub data HandleResult (S : Type 0) : Type 0 where
  handled : Progress S → HandleResult S
  refused : HandleError → HandleResult S

abbrev pub status_of : {E : Type 0} → SendOutcome E → Status
status_of delivered = status_sent
status_of interrupted = status_failed
status_of (exhausted e) = status_failed

abbrev pub is_sent_status : Status → Bool
is_sent_status status_sent = true
is_sent_status status_failed = false

abbrev pub as_text : Option Value → Option String
as_text none = none
as_text (some (text s)) = some s
as_text (some (texts ss)) = none
as_text (some (items xs)) = none
as_text (some (other_value t)) = none

pub is_available : String → List String → Bool
is_available channel [] = false
is_available channel (c ∷ cs) =
    let rest = is_available channel cs in if str_eq channel c then true else rest

-- The preferences that the loop does not skip.
abbrev pub is_target : List String → Preference → Bool
unfolding is_available
is_target available pref = if pref.enabled then is_available pref.channel available else false

module _ {S E : Type 0} where
  module _ (world : World S E) (channel : String) (pref : Preference) where
    -- One round with `left` more to come; `go_on` says whether the wait before it ended.
    unfoldable pub send_rounds : ℕ → Bool → Notification → Option E → S → Sent S E
    send_rounds zero first n last s = record {
      outcome = exhausted last;
      event_data = n.data_values;
      sends = 0;
      state = s;
    }
    send_rounds (suc left) first n last s =
        let waited = if first then (true, s) else world.wait s in
        let merged = record n { data_values = merge_config pref.config n.data_values } in
        let answer = world.send channel merged waited.1 in
        elim waited.0 [
          | false ↦ record {
            outcome = interrupted;
            event_data = n.data_values;
            sends = 0;
            state = waited.1;
          }
          | true ↦ elim answer.0 [
            | none ↦ record {
              outcome = delivered;
              event_data = merged.data_values;
              sends = 1;
              state = answer.1;
            }
            | some e ↦
                let rest = send_rounds left false merged (some e) answer.1 in
                record rest { sends = suc rest.sends }
          ]
        ]

    -- `sendWithRetry`
    unfoldable pub send_with_retry : Notification → S → Sent S E
    unfolding send_rounds merge
    send_with_retry n s = send_rounds (rounds n.max_retries) true n none s

  module _ (world : World S E) (available : List String) (now : ℕ) (user_id event_type : String)
      (title message : Text) where
    -- The row of `saveHistory`.
    abbrev pub history_row : Preference → Sent S E → History
    history_row pref sent = record {
      user_id = user_id;
      channel = pref.channel;
      event_type = event_type;
      title = title;
      message = message;
      payload = sent.event_data;
      status = status_of sent.outcome;
      has_sent_at = is_sent_status (status_of sent.outcome);
    }

    -- One round of the loop: the notification's `Data` is the map of the event itself.
    abbrev pub notify : Preference → Progress S → Progress S
    unfolding send_with_retry
    notify pref p =
        let n = record (new_notification now user_id event_type title message) {
          data_values = p.event_data;
        } in
        let sent = send_with_retry world pref.channel pref n p.state in
        record {
          event_data = sent.event_data;
          history = p.history ++ history_row pref sent ∷ [];
          state = sent.state;
        }

    unfoldable pub notify_all : List Preference → Progress S → Progress S
    unfolding send_with_retry is_available
    notify_all [] p = p
    notify_all (pref ∷ prefs) p =
        if is_target available pref then notify_all prefs (notify pref p) else notify_all prefs p

  -- `handleMessage`: the event as its JSON reads, the preferences of a user, and the templates.
  unfoldable pub handle_message :
      World S E
      → List String
      → (String → Option (List Preference))
      → (String → Dict Value → Option Text)
      → ℕ
      → Option (Dict Value)
      → S
      → HandleResult S
  unfolding notify_all parse_rendered_template
  handle_message world available preferences render now none s = refused bad_event
  handle_message world available preferences render now (some event_data) s =
      elim (as_text (lookup "event_type" event_data)) [
        | none ↦ refused missing_event_type
        | some event_type ↦ elim (as_text (lookup "user_id" event_data)) [
          | none ↦ refused missing_user_id
          | some user_id ↦ elim (preferences user_id) [
            | none ↦ refused no_preferences
            | some [] ↦ handled (record { event_data = event_data; history = []; state = s })
            | some (p ∷ ps) ↦ elim (render event_type event_data) [
              | none ↦ refused render_failed
              | some rendered ↦
                  let (title, message) = parse_rendered_template rendered in
                  handled (
                    notify_all world available now user_id event_type title message (p ∷ ps)
                      (record { event_data = event_data; history = []; state = s }))
            ]
          ]
        ]
      ]

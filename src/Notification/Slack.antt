-- ===== src/Notification/Slack.antt =====
-- services/notification-service/internal/channels/slack.go: the Slack channel. JSON and HTTP are
-- parameters: for each attempt, what came of the request, and how long it took. The printing of a
-- time by RFC 3339 is a parameter too.
mod Tests
use aipx.Prelude.{
  ℕ, ◌/◌, String, str_eq, Bool, true, false, ◌&&◌, ◌||◌, not, Option, none, some, List, [], ◌∷◌,
  ◌++◌, map, if◌then◌else◌, ◌==◌, replicate,
}
use aipx.Prelude.Dict.{Dict, lookup}
use aipx.Prelude.Text.{Text, codes, decimal}
use aipx.Notification.Channel.{
  Priority, low, normal, high, critical, other_priority, Value, text, Notification, ChannelConfig,
  show_value, second,
}
use aipx.Notification.Format.{
  important_fields, extract_fields, format_field_name, emoji_for_priority, one_string,
}
use aipx.Notification.Retry.{Attempt, SendResult, not_configured, Sending, retries, send_with_retry}

pub record SlackConfig : Type 0 where
  pub channel : ChannelConfig
  pub default_webhook_url : String
  pub bot_token : String
  pub signing_secret : String

-- A block of Slack's Block Kit.
pub data Block : Type 0 where
  header : Text → Block
  divider : Block
  section : Text → Block
  field_section : List Text → Block
  context_block : Text → Block

-- `SlackMessage`; its attachments have only a color.
pub record SlackMessage : Type 0 where
  pub fallback : Text
  pub blocks : List Block
  pub colors : List String

-- What came of one request: it could not be made, no answer, or an answer with its status.
pub data Exchange : Type 0 where
  unsendable : Exchange
  no_answer : Exchange
  answered : ℕ → Exchange

pub data SlackError : Type 0 where
  request_failed : SlackError
  bad_status : ℕ → SlackError

-- `sendWebhook`
pub send_webhook : Exchange → Option SlackError
send_webhook unsendable = some request_failed
send_webhook no_answer = some request_failed
send_webhook (answered status) = if status == 200 then none else some (bad_status status)

-- `getColorForPriority`
pub color_for_priority : Priority → String
color_for_priority low = "#36a64f"
color_for_priority normal = "#2196F3"
color_for_priority high = "#ff9800"
color_for_priority critical = "#f44336"
color_for_priority other_priority = "#757575"

-- The text of a field.
pub field_text : String × Value → Text
unfolding format_field_name
field_text f = codes "*" ++ format_field_name (codes f.0) ++ codes ":*\n" ++ show_value f.1

abbrev pub field_blocks : List (String × Value) → List Block
unfolding field_text
field_blocks [] = []
field_blocks (f ∷ fs) = field_section (map field_text (f ∷ fs)) ∷ []

-- `formatSlackMessage`
unfoldable pub format_slack_message : (ℕ → Text) → Notification → SlackMessage
unfolding emoji_for_priority extract_fields color_for_priority field_text
format_slack_message rfc3339 n = record {
  fallback = n.title;
  blocks =
      header (emoji_for_priority n.priority ++ codes " " ++ n.title)
      ∷ divider
      ∷ section n.message
      ∷ (field_blocks (extract_fields important_fields n.data_values)
          ++ context_block (
              codes "*Event:* "
              ++ codes n.event_type
              ++ codes " | *Time:* <!date^"
              ++ decimal (n.timestamp / second)
              ++ codes "^{date_short_pretty} {time}|"
              ++ rfc3339 n.timestamp
              ++ codes ">")
            ∷ []);
  colors = color_for_priority n.priority ∷ [];
}

-- `getWebhookURL`
unfoldable pub get_webhook_url : SlackConfig → Notification → String
get_webhook_url config n = elim (one_string (lookup "slack_webhook_url" n.data_values)) [
  | some url ↦ url
  | none ↦ config.default_webhook_url
]

-- `Validate`
unfoldable pub validate : SlackConfig → Bool
validate config =
    not config.channel.enabled
    || not (str_eq config.default_webhook_url "" && str_eq config.bot_token "")

module _ (rfc3339 : ℕ → Text) (config : SlackConfig) where
  -- `Send`, at the time `now`, with what comes of each attempt to post the message to the address.
  -- The answer, and the requests made.
  pub send :
      (String → SlackMessage → ℕ → ℕ × Exchange)
      → Option ℕ
      → ℕ
      → Notification
      → Sending SlackError × List (String × SlackMessage)
  unfolding get_webhook_url format_slack_message send_with_retry send_webhook
  send exchange deadline now n =
      let url = get_webhook_url config n in
      let msg = format_slack_message rfc3339 n in
      let attempt : ℕ → Attempt SlackError = λ k. record {
        took = (exchange url msg k).0;
        error = send_webhook (exchange url msg k).1;
      } in
      let sending =
        send_with_retry (retries config.channel.retry_attempts n.max_retries) deadline attempt
          now in
      if str_eq url ""
      then (record { result = not_configured; time = now; attempts = 0 }, [])
      else (sending, replicate sending.attempts (url, msg))

  -- `HealthCheck`, with what comes of its request: whether it reports no error.
  pub health_check : Exchange → Bool
  unfolding send_webhook
  health_check exchange =
      if config.channel.enabled
      then (if str_eq config.default_webhook_url ""
          then false
          else elim (send_webhook exchange) [ none ↦ true | some e ↦ false ])
      else false

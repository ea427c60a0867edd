-- ===== src/Notification/Slack/Tests.antt =====
-- The Slack channel at a concrete notification.
use aipx.Prelude.{ℕ, ◌*◌, String, none, [], ◌∷◌, ◌≡◌, refl}
use aipx.Prelude.Text.{Text, codes}
use aipx.Prelude.Dict.{lookup}
use aipx.Notification.Channel.{Notification, text, new_notification, default_channel_config, second}
use aipx.Notification.Format.{format_field_name}
use aipx.Notification.Retry.{sent, not_configured}
use aipx.Notification.Slack.{SlackConfig, SlackMessage, Exchange, answered, send, get_webhook_url}

abbrev config : SlackConfig
config = record {
  channel = default_channel_config;
  default_webhook_url = "";
  bot_token = "xoxb";
  signing_secret = "";
}

abbrev filled : Notification
filled =
    record (new_notification (7 * second) "u1" "order_filled" (codes "Filled") (codes "Done")) {
      data_values =
          ("slack_webhook_url", text "http://10.0.0.5/hook") ∷ ("symbol", text "005930") ∷ [];
    }

abbrev no_time : ℕ → Text
no_time t = codes "T"

abbrev accepts : String → SlackMessage → ℕ → ℕ × Exchange
accepts url msg k = (5, answered 200)

-- The address in the data is used as it is, an address of the private network too.
private_address : get_webhook_url config filled ≡ "http://10.0.0.5/hook"
unfolding get_webhook_url lookup
private_address = refl

filled_sent : (send no_time config accepts none 0 filled).0.result ≡ sent
unfolding send lookup
filled_sent = refl

no_address :
    (send no_time config accepts none 0 (record filled { data_values = [] })).0.result
    ≡ not_configured
unfolding send lookup
no_address = refl

-- The words of a field's name keep their small letters.
small_letters : format_field_name (codes "order_id") ≡ codes "order id"
unfolding format_field_name
small_letters = refl

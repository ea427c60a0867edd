-- ===== src/Notification/Telegram/Tests.antt =====
-- The Telegram channel at concrete texts and chats.
use aipx.Prelude.{ℕ, zero, suc, ◌≤◌, ◌≢◌, ◌↔◌, true, false, none, [], ◌∷◌, ◌≡◌, refl, length}
use aipx.Prelude.Text.{Text, codes}
use aipx.Prelude.Dict.{lookup}
use aipx.Notification.Channel.{Notification, texts, new_notification, default_channel_config}
use aipx.Notification.Telegram.{
  TelegramConfig, TelegramMessage, Exchange, replied, no_answer, send, delivered, get_chat_ids,
  is_one_of, escape_telegram_markdown, markdown_chars, markdown_v2_chars,
}
use aipx.Notification.Telegram.Escape.{tokens, marked, read_entities, escape_telegram_markdown_read}
use aipx.Notification.Telegram.Chats.{chats_sent, send_delivered_iff}

abbrev config : TelegramConfig
config = record {
  channel = default_channel_config;
  bot_token = "123:abc";
  parse_mode = "Markdown";
  webhook_url = "";
  webhook_secret = "";
}

abbrev alert : Notification
alert = record (new_notification 0 "u1" "risk_alert" (codes "Risk") (codes "Stop")) {
  data_values = ("telegram_chat_ids", texts ("41" ∷ "42" ∷ [])) ∷ [];
}

-- The first chat gets no answer, the second takes the message.
abbrev answers : TelegramMessage → ℕ → ℕ × Exchange
answers msg zero = (1000, no_answer)
answers msg (suc k) = (1000, replied true 0)

abbrev plain : Notification → Text
plain n = n.title

alert_delivered : send config answers plain none 0 alert ≡ delivered
unfolding send lookup
alert_delivered = refl

alert_chats : get_chat_ids alert ≢ []
unfolding get_chat_ids lookup
alert_chats h = cc

send_delivered_iff_example :
    (send config answers plain none 0 alert ≡ delivered)
    ↔ (1 ≤ chats_sent config answers none (plain alert) alert (get_chat_ids alert) 0)
send_delivered_iff_example = send_delivered_iff config answers plain none 0 alert alert_chats

escape_telegram_markdown_read_example :
    let t = codes "P&L <0: *stop*" in
    (is_one_of b'\\' t ≡ false
      → (tokens (escape_telegram_markdown "Markdown" t) ≡ marked markdown_chars t)
        × (tokens (escape_telegram_markdown "MarkdownV2" t) ≡ marked markdown_v2_chars t))
    × (read_entities (suc (length t)) (escape_telegram_markdown "HTML" t) ≡ t)
    × ((c : ℕ)
        → is_one_of c markdown_v2_chars ≡ true
        → tokens (escape_telegram_markdown "MarkdownV2" (b'\\' ∷ c ∷ t))
          ≡ record { escaped = true; char = b'\\' }
            ∷ record { escaped = false; char = c }
            ∷ tokens (escape_telegram_markdown "MarkdownV2" t))
escape_telegram_markdown_read_example = escape_telegram_markdown_read (codes "P&L <0: *stop*")

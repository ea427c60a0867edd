-- ===== src/Notification/Telegram.antt =====
-- services/notification-service/internal/channels/telegram.go: the Telegram channel. JSON and HTTP
-- are parameters: for each attempt, what came of the request, and how long it took. So are the
-- printing of a time and the order in which Go walks the map of the fields.
pub mod Escape
pub mod Chats
mod Tests
use aipx.Prelude.{
  ℕ, zero, suc, ◌+◌, String, str_eq, Bool, true, false, ◌||◌, not, Option, none, some, List, [],
  ◌∷◌, ◌++◌, map, if◌then◌else◌, ◌==◌,
}
use aipx.Prelude.Text.{Text, codes, concat}
use aipx.Notification.Channel.{Value, Notification, ChannelConfig, show_value}
use aipx.Notification.Format.{
  important_fields, extract_fields, format_field_name, emoji_for_priority, addresses,
}
use aipx.Notification.Retry.{
  Attempt, SendResult, sent, not_configured, context_done, failed_after, Sending, retries,
  send_with_retry,
}

pub record TelegramConfig : Type 0 where
  pub channel : ChannelConfig
  pub bot_token : String
  pub parse_mode : String
  pub webhook_url : String
  pub webhook_secret : String

pub record TelegramMessage : Type 0 where
  pub chat_id : String
  pub message_text : Text
  pub parse_mode : String
  pub disable_web_page_preview : Bool
  pub disable_notification : Bool

-- What came of one request; `replied` has the fields ok and error_code of the reply.
pub data Exchange : Type 0 where
  unsendable no_answer unreadable : Exchange
  replied : Bool → ℕ → Exchange

pub data TelegramError : Type 0 where
  request_failed bad_response : TelegramError
  api_error : ℕ → TelegramError

-- `sendMessage`
pub send_message : Exchange → Option TelegramError
send_message unsendable = some request_failed
send_message no_answer = some request_failed
send_message unreadable = some bad_response
send_message (replied ok code) = if ok then none else some (api_error code)

pub is_one_of : ℕ → Text → Bool
is_one_of c [] = false
is_one_of c (d ∷ ds) = c == d || is_one_of c ds

-- A replacer that puts a backslash before each of the characters.
pub escape_chars : Text → Text → Text
unfolding is_one_of
escape_chars special [] = []
escape_chars special (c ∷ cs) =
    let rest = escape_chars special cs in if is_one_of c special then b'\\' ∷ c ∷ rest else c ∷ rest

-- The replacer of the HTML mode.
abbrev pub escape_entity : ℕ → Text
escape_entity c =
    if c == b'&'
    then codes "&amp;"
    else if c == b'<'
    then codes "&lt;"
    else if c == b'>'
    then codes "&gt;"
    else c ∷ []

pub escape_html : Text → Text
escape_html [] = []
escape_html (c ∷ cs) = escape_entity c ++ escape_html cs

abbrev pub markdown_chars : Text
markdown_chars = codes "_*[`"

abbrev pub markdown_v2_chars : Text
markdown_v2_chars = codes "_*[]()~`>#+-=|{}.!"

-- `escapeTelegramMarkdown`
unfoldable pub escape_telegram_markdown : String → Text → Text
unfolding escape_chars escape_html
escape_telegram_markdown mode t =
    if str_eq mode "Markdown"
    then escape_chars markdown_chars t
    else if str_eq mode "MarkdownV2"
    then escape_chars markdown_v2_chars t
    else if str_eq mode "HTML"
    then escape_html t
    else t

-- `getChatIDs`
pub get_chat_ids : Notification → List String
unfolding addresses
get_chat_ids n = addresses "telegram_chat_id" "telegram_chat_ids" n.data_values

-- `Validate`
pub validate : TelegramConfig → Bool
validate config =
    not config.channel.enabled
    || (if str_eq config.bot_token ""
        then false
        else (str_eq config.parse_mode ""
            || (str_eq config.parse_mode "Markdown"
                || (str_eq config.parse_mode "MarkdownV2" || str_eq config.parse_mode "HTML"))))

module _ (show_time : ℕ → Text) (walk : List (String × Value) → List (String × Value)) where
  pub field_line : String × Value → Text
  unfolding format_field_name
  field_line f =
      8226 ∷ codes " "
      ++ format_field_name (codes f.0)
      ++ codes ": `"
      ++ show_value f.1
      ++ codes "`\n"

  abbrev pub field_lines : List (String × Value) → Text
  unfolding field_line
  field_lines [] = []
  field_lines (f ∷ fs) =
      128202 ∷ codes " *Details:*\n" ++ concat (map field_line (walk (f ∷ fs))) ++ codes "\n"

  -- `formatTelegramMessage`
  unfoldable pub format_telegram_message : String → Notification → Text
  unfolding emoji_for_priority escape_telegram_markdown extract_fields field_line
  format_telegram_message mode n =
      emoji_for_priority n.priority
      ++ codes " *"
      ++ escape_telegram_markdown mode n.title
      ++ codes "*\n\n"
      ++ escape_telegram_markdown mode n.message
      ++ codes "\n\n"
      ++ field_lines (extract_fields important_fields n.data_values)
      ++ codes "_Event: "
      ++ codes n.event_type
      ++ codes " "
      ++ 8226 ∷ codes " Time: "
      ++ show_time n.timestamp
      ++ codes "_"

-- What the loop over the chats has: `successCount`, `lastErr`, and the time.
pub record Progress : Type 0 where
  pub success_count : ℕ
  pub last_error : Option (SendResult TelegramError)
  pub time : ℕ

pub data TelegramResult : Type 0 where
  delivered no_chats : TelegramResult
  all_failed : SendResult TelegramError → TelegramResult

module _ (config : TelegramConfig) (exchange : TelegramMessage → ℕ → ℕ × Exchange) where
  -- `sendWithRetry`, from the time `now`.
  pub send_to_chat : Option ℕ → String → Text → Notification → ℕ → Sending TelegramError
  unfolding send_with_retry send_message
  send_to_chat deadline chat_id message_text n now =
      let msg : TelegramMessage = record {
        chat_id = chat_id;
        message_text = message_text;
        parse_mode = config.parse_mode;
        disable_web_page_preview = true;
        disable_notification = false;
      } in
      send_with_retry (retries config.channel.retry_attempts n.max_retries) deadline
        (λ k. record { took = (exchange msg k).0; error = send_message (exchange msg k).1 }) now

  -- One round of the loop over the chats.
  abbrev pub count_result : Sending TelegramError → Progress → Progress
  count_result s p = elim s.result [
    | sent ↦ record p { success_count = p.success_count + 1; time = s.time }
    | not_configured ↦ record p { last_error = some s.result; time = s.time }
    | context_done ↦ record p { last_error = some s.result; time = s.time }
    | failed_after c e ↦ record p { last_error = some s.result; time = s.time }
  ]

  pub send_to_chats : Option ℕ → List String → Text → Notification → Progress → Progress
  unfolding send_to_chat
  send_to_chats deadline [] message_text n p = p
  send_to_chats deadline (c ∷ cs) message_text n p =
      send_to_chats deadline cs message_text n
        (count_result (send_to_chat deadline c message_text n p.time) p)

  abbrev pub judge : Progress → TelegramResult
  judge p = elim p.last_error [
    | none ↦ delivered
    | some e ↦ if p.success_count == 0 then all_failed e else delivered
  ]

  -- `Send`
  unfoldable pub send : (Notification → Text) → Option ℕ → ℕ → Notification → TelegramResult
  unfolding get_chat_ids send_to_chats
  send format deadline now n = elim (get_chat_ids n) [
    | [] ↦ no_chats
    | c ∷ cs ↦ judge (
        send_to_chats deadline (c ∷ cs) (format n) n
          (record { success_count = 0; last_error = none; time = now }))
  ]

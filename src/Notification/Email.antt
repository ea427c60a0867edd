-- ===== src/Notification/Email.antt =====
-- services/notification-service/internal/channels/email.go: the email channel. The SMTP client is a
-- parameter: which of its commands succeed. So are the printing of a time and of an address, the
-- parsing of an address, html.EscapeString, and the order in which Go walks a map.
pub mod Mime
pub mod Privacy
pub mod Session
mod Tests
use aipx.Prelude.{
  ℕ, zero, suc, ◌+◌, String, str_eq, Bool, true, false, ◌||◌, ◌&&◌, not, Option, none, some, List,
  [], ◌∷◌, ◌++◌, map, if◌then◌else◌, length,
}
use aipx.Prelude.Int.{ℤ, pos, leb_ℤ, ltb_ℤ}
use aipx.Prelude.Text.{Text, codes, join, concat}
use aipx.Notification.Channel.{
  Priority, low, normal, high, critical, other_priority, Notification, ChannelConfig,
}
use aipx.Notification.Format.{addresses}
use aipx.Notification.Retry.{Attempt, SendResult, not_configured, Sending, retries, send_with_retry}

pub record EmailConfig : Type 0 where
  pub channel : ChannelConfig
  pub smtp_host : String
  pub smtp_port : ℤ
  pub smtp_username : String
  pub smtp_password : String
  pub from_email : String
  pub from_name : String
  pub use_tls : Bool
  pub use_start_tls : Bool

-- `EmailMessage`; no attachment is ever sent.
pub record EmailMessage : Type 0 where
  pub to : List String
  pub cc : List String
  pub bcc : List String
  pub subject : Text
  pub html_body : Text
  pub text_body : Text
  pub headers : List (String × Text)

-- What is asked of the SMTP client, in the words of net/smtp.
pub data Command : Type 0 where
  dial tls_dial new_client hello start_tls : Command
  auth : String → String → Command
  mail : String → Command
  rcpt : String → Command
  start_data write_data close_data : Command

abbrev pub rcpts : List String → List Command
rcpts [] = []
rcpts (r ∷ rs) = rcpt r ∷ rcpts rs

-- From the authentication on, both ways of sending are the same.
abbrev pub authentication : EmailConfig → List Command
authentication config =
    if not (str_eq config.smtp_username "") && not (str_eq config.smtp_password "")
    then auth config.smtp_username config.smtp_password ∷ []
    else []

abbrev pub envelope : EmailConfig → List String → List Command
envelope config recipients =
    mail config.from_email ∷ rcpts recipients ++ start_data ∷ write_data ∷ close_data ∷ []

-- The commands of `sendWithTLS` and of `sendWithStartTLS`, in their order.
unfoldable pub tls_commands : EmailConfig → List String → List Command
tls_commands config recipients =
    tls_dial ∷ new_client ∷ authentication config ++ envelope config recipients

unfoldable pub start_tls_commands : EmailConfig → List String → List Command
start_tls_commands config recipients =
    dial ∷ hello ∷ (if config.use_start_tls then start_tls ∷ [] else [])
    ++ authentication config
    ++ envelope config recipients

-- The commands up to the first that fails: what was done with success, and what failed. `server`
-- tells of the commands, by their number, which succeed.
unfoldable pub run_commands : (ℕ → Bool) → ℕ → List Command → List Command × Option Command
run_commands server i [] = ([], none)
run_commands server i (c ∷ cs) = elim (server i) [
  | true ↦ let (done, failed) = run_commands server (suc i) cs in (c ∷ done, failed)
  | false ↦ ([], some c)
]

-- `sendEmail`
unfoldable pub send_email : EmailConfig → (ℕ → Bool) → EmailMessage → List Command × Option Command
unfolding tls_commands start_tls_commands run_commands
send_email config server msg =
    let all_recipients = (msg.to ++ msg.cc) ++ msg.bcc in
    if config.use_tls
    then run_commands server 0 (tls_commands config all_recipients)
    else run_commands server 0 (start_tls_commands config all_recipients)

-- `getPriorityHeader`
pub priority_header : Priority → String
priority_header low = "5"
priority_header normal = "3"
priority_header high = "2"
priority_header critical = "1"
priority_header other_priority = "3"

-- `getColorForPriority`
pub color_for_priority : Priority → String
color_for_priority low = "#4CAF50"
color_for_priority normal = "#2196F3"
color_for_priority high = "#FF9800"
color_for_priority critical = "#F44336"
color_for_priority other_priority = "#9E9E9E"

-- `getRecipients`
unfoldable pub get_recipients : Notification → List String
unfolding addresses
get_recipients n = addresses "email" "emails" n.data_values

-- `createEmailMessage`, with the two bodies.
unfoldable pub create_email_message : Text → Text → Notification → List String → EmailMessage
unfolding priority_header
create_email_message html_body text_body n recipients = record {
  to = recipients;
  cc = [];
  bcc = [];
  subject = n.title;
  html_body = html_body;
  text_body = text_body;
  headers =
      ("X-Priority", codes (priority_header n.priority))
      ∷ ("X-Event-Type", codes n.event_type)
      ∷ ("X-Notification", codes "AIPX-Trading-Platform")
      ∷ [];
}

-- `Validate`; the flag tells whether `mail.ParseAddress` takes the sender's address.
pub validate : Bool → EmailConfig → Bool
validate parses config =
    not config.channel.enabled
    || (not (str_eq config.smtp_host "")
        && (not (leb_ℤ config.smtp_port (pos 0) || ltb_ℤ (pos 65535) config.smtp_port)
            && (not (str_eq config.from_email "") && parses)))

-- `Send`, at the time `now`: for each attempt, how long it takes and which commands succeed. The
-- bodies come formatted. The answer, and what was done in each attempt.
abbrev pub sessions :
    EmailConfig → EmailMessage → (ℕ → ℕ × (ℕ → Bool)) → ℕ → ℕ → List (List Command)
unfolding send_email
sessions config msg server zero k = []
sessions config msg server (suc left) k =
    (send_email config (server k).1 msg).0 ∷ sessions config msg server left (suc k)

pub send :
    EmailConfig
    → Text
    → Text
    → (ℕ → ℕ × (ℕ → Bool))
    → Option ℕ
    → ℕ
    → Notification
    → Sending Command × List (List Command)
unfolding get_recipients create_email_message send_with_retry send_email
send config html_body text_body server deadline now n =
    let recipients = get_recipients n in
    let msg = create_email_message html_body text_body n recipients in
    let sending =
      send_with_retry (retries config.channel.retry_attempts n.max_retries) deadline
        (λ k. record { took = (server k).0; error = (send_email config (server k).1 msg).1 }) now in
    elim recipients [
      | [] ↦ (record { result = not_configured; time = now; attempts = 0 }, [])
      | r ∷ rs ↦ (sending, sessions config msg server sending.attempts 0)
    ]

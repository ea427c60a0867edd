-- ===== src/Notification/Email/Tests.antt =====
-- The email channel at a concrete mail and server.
use aipx.Prelude.{ℕ, zero, suc, Bool, true, false, ◌||◌, none, some, [], ◌∷◌, ◌++◌, ◌≡◌, refl}
use aipx.Prelude.Int.{pos}
use aipx.Prelude.Text.{codes}
use aipx.Notification.Channel.{default_channel_config}
use aipx.Notification.Email.{EmailConfig, EmailMessage, send_email, rcpt}
use aipx.Notification.Email.Privacy.{is_private}
use aipx.Notification.Email.Session.{accepted, has_written, send_email_session}

abbrev config : EmailConfig
config = record {
  channel = default_channel_config;
  smtp_host = "smtp.example.com";
  smtp_port = pos 587;
  smtp_username = "bot";
  smtp_password = "secret";
  from_email = "bot@example.com";
  from_name = "AIPX";
  use_tls = false;
  use_start_tls = true;
}

abbrev mail_to_two : EmailMessage
mail_to_two = record {
  to = "a@example.com" ∷ "b@example.com" ∷ [];
  cc = [];
  bcc = [];
  subject = codes "Filled";
  html_body = [];
  text_body = [];
  headers = [];
}

-- The server takes everything but the command number six, the second recipient.
abbrev refuses_second : ℕ → Bool
refuses_second (suc (suc (suc (suc (suc (suc zero)))))) = false
refuses_second _ = true

refused_recipient : (send_email config refuses_second mail_to_two).1 ≡ some (rcpt "b@example.com")
unfolding send_email
refused_recipient = refl

nothing_written : has_written (send_email config refuses_second mail_to_two).0 ≡ false
unfolding send_email
nothing_written = refl

all_taken : (send_email config (λ i. true) mail_to_two).1 ≡ none
unfolding send_email
all_taken = refl

send_email_session_example :
    ((config.use_tls || config.use_start_tls) ≡ true
      → is_private false (send_email config refuses_second mail_to_two).0 ≡ true)
    × (has_written (send_email config refuses_second mail_to_two).0 ≡ true
        → accepted (send_email config refuses_second mail_to_two).0
          ≡ (mail_to_two.to ++ mail_to_two.cc) ++ mail_to_two.bcc)
    × ((send_email config refuses_second mail_to_two).1 ≡ none
        → has_written (send_email config refuses_second mail_to_two).0 ≡ true)
send_email_session_example = send_email_session config refuses_second mail_to_two

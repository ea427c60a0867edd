-- ===== src/Notification/Email/Mime.antt =====
-- The texts that email.go puts together: both bodies, and the mail itself. A time and the sender's
-- address come printed, and `walk` is the order in which Go walks a map.
use aipx.Prelude.{ℕ, String, List, [], ◌∷◌, ◌++◌, map, if◌then◌else◌, ◌==◌, replicate}
use aipx.Prelude.Text.{Text, codes, join, concat}
use aipx.Notification.Channel.{Value, Notification, show_value}
use aipx.Notification.Format.{
  important_fields, extract_fields, format_field_name, emoji_for_priority,
}
use aipx.Notification.Email.{EmailMessage, color_for_priority}

-- `html.EscapeString`
abbrev pub escape_char : ℕ → Text
escape_char c =
    if c == b'&'
    then codes "&amp;"
    else if c == b'\''
    then codes "&#39;"
    else if c == b'<'
    then codes "&lt;"
    else if c == b'>'
    then codes "&gt;"
    else if c == b'"'
    then codes "&#34;"
    else c ∷ []

pub escape_string : Text → Text
escape_string [] = []
escape_string (c ∷ cs) = escape_char c ++ escape_string cs

module _ (show_time : ℕ → Text) (walk : List (String × Value) → List (String × Value)) where
  abbrev pub html_field : String × Value → Text
  unfolding format_field_name
  html_field f =
      codes "<div class=\"field\">\n<span class=\"field-label\">"
      ++ format_field_name (codes f.0)
      ++ codes ":</span> <span class=\"field-value\">"
      ++ show_value f.1
      ++ codes "</span>\n</div>\n"

  -- The section of the fields, which is there where the data has any entry.
  abbrev pub html_fields : Notification → Text
  unfolding extract_fields format_field_name
  html_fields n = elim n.data_values [
    | [] ↦ []
    | d ∷ ds ↦
        codes "<hr>\n<h3>Details</h3>\n"
        ++ concat (map html_field (walk (extract_fields important_fields n.data_values)))
  ]

  abbrev pub html_style : Text → Text
  html_style color =
      codes "<style>\n"
      ++ codes "body { font-family: Arial, sans-serif; line-height: 1.6; color: #333; }\n"
      ++ codes ".container { max-width: 600px; margin: 0 auto; padding: 20px; }\n"
      ++ codes ".header { background-color: "
      ++ color
      ++ codes "; color: white; padding: 20px; border-radius: 5px 5px 0 0; }\n"
      ++ codes ".content { background-color: #f9f9f9; padding: 20px; border: 1px solid #ddd; }\n"
      ++ codes ".footer { background-color: #f1f1f1; padding: 10px; font-size: 12px; color: #666; "
      ++ codes "border-radius: 0 0 5px 5px; }\n"
      ++ codes ".field { margin: 10px 0; }\n"
      ++ codes ".field-label { font-weight: bold; color: #555; }\n"
      ++ codes ".field-value { color: #333; }\n</style>\n"

  -- `formatHTMLEmail`
  pub format_html_email : Notification → Text
  unfolding color_for_priority emoji_for_priority escape_string extract_fields
  format_html_email n =
      codes "<!DOCTYPE html>\n<html>\n<head>\n<meta charset=\"UTF-8\">\n"
      ++ html_style (codes (color_for_priority n.priority))
      ++ codes "</head>\n<body>\n<div class=\"container\">\n<div class=\"header\">\n<h2>"
      ++ emoji_for_priority n.priority
      ++ codes " "
      ++ escape_string n.title
      ++ codes "</h2>\n</div>\n<div class=\"content\">\n<p>"
      ++ escape_string n.message
      ++ codes "</p>\n"
      ++ html_fields n
      ++ codes "</div>\n<div class=\"footer\">\n<p>Event: "
      ++ escape_string (codes n.event_type)
      ++ codes " | Time: "
      ++ show_time n.timestamp
      ++ codes "</p>\n<p>This is an automated notification from AIPX Trading Platform</p>\n"
      ++ codes "</div>\n</div>\n</body>\n</html>"

  abbrev pub plain_field : String × Value → Text
  unfolding format_field_name
  plain_field f = format_field_name (codes f.0) ++ codes ": " ++ show_value f.1 ++ codes "\n"

  abbrev pub plain_fields : Notification → Text
  unfolding extract_fields format_field_name
  plain_fields n = elim n.data_values [
    | [] ↦ []
    | d ∷ ds ↦
        codes "Details:\n"
        ++ replicate 60 b'-'
        ++ codes "\n"
        ++ concat (map plain_field (walk (extract_fields important_fields n.data_values)))
        ++ codes "\n"
  ]

  -- `formatPlainTextEmail`
  pub format_plain_text_email : Notification → Text
  unfolding emoji_for_priority extract_fields
  format_plain_text_email n =
      emoji_for_priority n.priority
      ++ codes " "
      ++ n.title
      ++ codes "\n"
      ++ replicate 60 b'='
      ++ codes "\n\n"
      ++ n.message
      ++ codes "\n\n"
      ++ plain_fields n
      ++ replicate 60 b'-'
      ++ codes "\nEvent: "
      ++ codes n.event_type
      ++ codes "\nTime: "
      ++ show_time n.timestamp
      ++ codes "\n\nThis is an automated notification from AIPX Trading Platform\n"

abbrev pub crlf : Text
crlf = 13 ∷ 10 ∷ []

abbrev pub header_line : String × Text → Text
header_line h = codes h.0 ++ codes ": " ++ h.1 ++ crlf

abbrev pub address_line : String → List String → Text
address_line name [] = []
address_line name (a ∷ rest) = header_line (name, join (codes ", ") (map codes (a ∷ rest)))

abbrev pub part : String → Text → Text
part kind body =
    codes "--boundary-aipx"
    ++ crlf
    ++ codes "Content-Type: "
    ++ codes kind
    ++ codes "; charset=utf-8"
    ++ crlf
    ++ codes "Content-Transfer-Encoding: 8bit"
    ++ crlf
    ++ crlf
    ++ body
    ++ crlf
    ++ crlf

-- `buildMIMEMessage`
pub build_mime_message : (List (String × Text) → List (String × Text)) → Text → EmailMessage → Text
build_mime_message walk_headers from msg =
    header_line ("From", from)
    ++ address_line "To" msg.to
    ++ address_line "Cc" msg.cc
    ++ header_line ("Subject", msg.subject)
    ++ concat (map header_line (walk_headers msg.headers))
    ++ codes "MIME-Version: 1.0"
    ++ crlf
    ++ codes "Content-Type: multipart/alternative; boundary=boundary-aipx"
    ++ crlf
    ++ crlf
    ++ part "text/plain" msg.text_body
    ++ part "text/html" msg.html_body
    ++ codes "--boundary-aipx--"
    ++ crlf

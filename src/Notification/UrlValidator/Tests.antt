-- ===== src/Notification/UrlValidator/Tests.antt =====
-- The URL validator's theorems at concrete URLs.
use aipx.Prelude.{
  ◌*◌, String, true, false, Option, none, some, List, [], ◌∷◌, ◌≡◌, ◌↔◌, refl, arith,
}
use aipx.Prelude.Dict.{lookup, erase, insert}
use aipx.Notification.Ip.{Ip, v4, quad, validate_ip}
use aipx.Notification.Ip.Ranges.{IsPublic4, validate_ip_iff}
use aipx.Notification.UrlValidator.{ParsedUrl, UrlValidator, validate, validate_twice}
use aipx.Notification.UrlValidator.Accepted.{IsAccepted, validate-IsAccepted}

abbrev hook : ParsedUrl
hook = record { scheme = "https"; host = "hooks.slack.com"; port = "443" }

abbrev validator : UrlValidator
validator = record {
  allowed_hosts = "api.telegram.org" ∷ "hooks.slack.com" ∷ [];
  allow_http = false;
  cache = [];
  ttl = 300 * 1000000000;
}

abbrev slack : Option (List Ip)
slack = some (v4 (quad 3 68 170 153) ∷ [])

abbrev no_ip : String → Option Ip
no_ip host = none

hook_passes : (validate no_ip 10 slack false (some hook) validator).0 ≡ none
unfolding validate lookup validate_ip
hook_passes = refl

hook_passes_twice : (validate_twice no_ip 10 slack 20 slack hook validator).0 ≡ none
unfolding validate_twice lookup validate_ip erase insert
hook_passes_twice = refl

validate-IsAccepted_example : IsAccepted no_ip 10 slack hook validator
validate-IsAccepted_example = validate-IsAccepted no_ip 10 slack hook validator hook_passes

validate_ip_iff_example : (validate_ip (v4 (quad 172 20 0 1)) ≡ true) ↔ IsPublic4 (quad 172 20 0 1)
validate_ip_iff_example = validate_ip_iff (quad 172 20 0 1) (omega arith)

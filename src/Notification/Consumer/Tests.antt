-- ===== src/Notification/Consumer/Tests.antt =====
-- The consumer at a concrete event: a user with Slack and Telegram, where Slack fails.
use aipx.Prelude.{
  ℕ, suc, ◌+◌, ◌*◌, ◌≤◌, String, str_eq, true, Option, none, some, List, [], ◌∷◌, ◌++◌, ◌≡◌, refl,
  arith, if◌then◌else◌,
}
use aipx.Prelude.Text.{Text, codes}
use aipx.Prelude.Dict.{Dict, lookup, insert}
use aipx.Notification.Channel.{Value, Notification, text}
use aipx.Notification.Rendered.{parse_rendered_template}
use aipx.Notification.Consumer.{Preference, World, History, Progress, notify_all}
use aipx.Notification.Consumer.Attempts.{count_targets, notify_all_adds}
use aipx.Notification.Consumer.Sharing.{step, setting_leaks}

-- The state counts the calls of `Send`; Slack always fails.
abbrev world : World ℕ ℕ
world = record {
  send = λ c n s. (if str_eq c "slack" then some 500 else none, suc s);
  wait = λ s. (true, s);
}

abbrev slack : Preference
slack = record {
  channel = "slack";
  enabled = true;
  config = some (("slack_webhook_url", text "https://hooks.slack.com/secret") ∷ []);
}

abbrev telegram : Preference
telegram = record {
  channel = "telegram";
  enabled = true;
  config = some (("telegram_chat_id", text "42") ∷ []);
}

abbrev event : Dict Value
event = ("event_type", text "order_filled") ∷ ("user_id", text "u1") ∷ []

abbrev both : List String
both = "slack" ∷ "telegram" ∷ []

abbrev preferences : String → Option (List Preference)
preferences user_id = some (slack ∷ telegram ∷ [])

abbrev render : String → Dict Value → Option Text
render name data_values = some (codes "Filled\nDone")

abbrev start : Progress ℕ
start = record { event_data = event; history = []; state = 0 }

-- Five calls: four for Slack, one for Telegram.
five_calls :
    (notify_all world both 0 "u1" "order_filled" [] [] (slack ∷ telegram ∷ []) start).state ≡ 5
unfolding notify_all insert
five_calls = refl

title_and_message : parse_rendered_template (codes "Filled\nDone") ≡ (codes "Filled", codes "Done")
unfolding parse_rendered_template
title_and_message = refl

one_call : (c : String) (n : Notification) (s : ℕ) → (world.send c n s).1 ≤ s + 1
one_call c n s = omega arith

notify_all_adds_example :
    (notify_all world both 0 "u1" "order_filled" [] [] (slack ∷ telegram ∷ []) start).state
    ≤ 0 + count_targets both (slack ∷ telegram ∷ []) * (4 * 1)
notify_all_adds_example =
    notify_all_adds world (λ s. s) 1 one_call (λ s. refl) both 0 "u1" "order_filled" [] []
      (slack ∷ telegram ∷ []) start

-- The secret address of the Slack hook is in the payload that is saved for Telegram.
setting_leaks_example :
    (row : History) × ((step world both 0 "u1" "order_filled" [] [] telegram
        (step world both 0 "u1" "order_filled" [] [] slack start)).history
      ≡ (step world both 0 "u1" "order_filled" [] [] slack start).history ++ row ∷ [])
    × (row.channel ≡ "telegram")
    × (lookup "slack_webhook_url" row.payload ≡ some (text "https://hooks.slack.com/secret"))
unfolding lookup
setting_leaks_example =
    setting_leaks world both 0 "u1" "order_filled" [] [] slack telegram start
      (("slack_webhook_url", text "https://hooks.slack.com/secret") ∷ []) "slack_webhook_url"
      (text "https://hooks.slack.com/secret") refl (refl, tt) refl (refl, tt) refl

-- ===== src/Notification/Manager/Tests.antt =====
-- The channel manager with two channels, of which one fails.
use aipx.Prelude.{
  ℕ, suc, ◌+◌, ◌≤◌, ◌↔◌, String, str_eq, Option, none, some, List, [], ◌∷◌, ◌≡◌, refl,
}
use aipx.Prelude.Text.{codes}
use aipx.Prelude.Dict.{lookup, insert}
use aipx.Notification.Channel.{Notification, new_notification}
use aipx.Notification.Manager.{Channel, ChannelManager, new_channel_manager}
use aipx.Notification.Manager.Sends.{
  Sends, Reach, here, started, tasks_of, run_tasks, judge, ok, send,
}
use aipx.Notification.Manager.Counts.{raise}
use aipx.Notification.Manager.Weights.{errors_of}
use aipx.Notification.Manager.Delivery.{
  all_names, count_sent, count_failed, send_to_channels-refines, run_tasks-Reach,
}

abbrev slack : Channel
slack = record { name = "slack"; id = 1 }

abbrev email : Channel
email = record { name = "email"; id = 2 }

abbrev manager : ChannelManager
manager = new_channel_manager (("slack", slack) ∷ ("email", email) ∷ []) []

abbrev filled : Notification
filled = new_notification 0 "u1" "order_filled" (codes "Filled") (codes "Done")

-- Only Slack takes it; the error is a number.
abbrev deliver : Channel → Notification → Option ℕ
deliver c n = if_email c.id
  where
    if_email : ℕ → Option ℕ
    if_email (suc (suc k)) = some 421
    if_email _ = none

abbrev walk : List String → List String
walk names = names

partly_sent : (send deliver walk filled manager).0 ≡ ok
unfolding send lookup insert new_channel_manager
partly_sent = refl

abbrev both : List Channel
both = slack ∷ email ∷ []

abbrev finished : Sends ℕ
finished = run_tasks (tasks_of deliver both filled) (started deliver both filled manager)

finished-Reach : Reach (started deliver both filled manager) finished × (finished.tasks ≡ [])
finished-Reach =
    run_tasks-Reach deliver filled (started deliver both filled manager)
      (started deliver both filled manager) (tasks_of deliver both filled) here refl

send_to_channels-refines_example :
    (finished.manager.total_sent ≡ count_sent deliver filled all_names both + manager.total_sent)
    × (finished.manager.total_failed
        ≡ count_failed deliver filled all_names both + manager.total_failed)
    × ((name : String)
        → (lookup name finished.manager.channel_successes
            ≡ raise
                (count_sent deliver filled (str_eq name) both)
                (lookup name manager.channel_successes))
          × (lookup name finished.manager.channel_failures
              ≡ raise
                  (count_failed deliver filled (str_eq name) both)
                  (lookup name manager.channel_failures))
          × (errors_of name finished.errors ≡ count_failed deliver filled (str_eq name) both))
    × ((judge finished.success_count finished.errors ≡ ok)
        ↔ (1 ≤ count_sent deliver filled all_names both))
send_to_channels-refines_example =
    send_to_channels-refines deliver filled both manager finished finished-Reach.0 finished-Reach.1

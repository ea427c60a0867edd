-- ===== src/Notification/Telegram/Chats.antt =====
-- When Send of telegram.go reports that a notification was sent.
use aipx.Prelude.{
  ℕ, zero, suc, ◌+◌, ◌≤◌, String, Option, none, List, [], ◌∷◌, ◌≡◌, ◌≢◌, ◌↔◌, refl, sym, arith,
  Option-cases, List-cases, inl, inr,
}
use aipx.Prelude.Text.{Text}
use aipx.Notification.Channel.{Notification}
use aipx.Notification.Retry.{SendResult, sent, not_configured, context_done, failed_after, Sending}
use aipx.Notification.Telegram.{
  TelegramConfig, TelegramMessage, Exchange, TelegramError, Progress, delivered, get_chat_ids,
  count_result, send_to_chat, send_to_chats, judge, send,
}

abbrev pub one_sent : SendResult TelegramError → ℕ
one_sent sent = 1
one_sent not_configured = 0
one_sent context_done = 0
one_sent (failed_after c e) = 0

module _ (config : TelegramConfig) (exchange : TelegramMessage → ℕ → ℕ × Exchange)
    (deadline : Option ℕ) (message_text : Text) (n : Notification) where
  -- The number of chats that got the message, each chat after the one before it.
  abbrev pub chats_sent : List String → ℕ → ℕ
  chats_sent [] now = 0
  chats_sent (c ∷ cs) now =
      let s = send_to_chat config exchange deadline c message_text n now in
      one_sent s.result + chats_sent cs s.time

  -- A chat is counted or leaves an error.
  count_result_either :
      (s : Sending TelegramError) (p : Progress)
      → ((count_result config exchange s p).success_count ≡ p.success_count + one_sent s.result)
        × ((count_result config exchange s p).time ≡ s.time)
        × ((p.last_error ≢ none → (count_result config exchange s p).last_error ≢ none))
        × ((one_sent s.result ≡ 0 → (count_result config exchange s p).last_error ≢ none))
  count_result_either s p = go s.result refl
    where
      go :
          (r : SendResult TelegramError)
          → s.result ≡ r
          → ((count_result config exchange s p).success_count ≡ p.success_count + one_sent s.result)
            × ((count_result config exchange s p).time ≡ s.time)
            × ((p.last_error ≢ none → (count_result config exchange s p).last_error ≢ none))
            × ((one_sent s.result ≡ 0 → (count_result config exchange s p).last_error ≢ none))
      go sent e = rw e (refl, refl, λ h. h, λ h. let impossible : suc zero ≡ zero = h in cc)
      go not_configured e = rw e (omega arith, refl, λ h i. cc, λ h i. cc)
      go context_done e = rw e (omega arith, refl, λ h i. cc, λ h i. cc)
      go (failed_after c x) e = rw e (omega arith, refl, λ h i. cc, λ h i. cc)

  -- The loop counts the chats, and an error is kept.
  send_to_chats_counts :
      (cs : List String) (p : Progress)
      → let q = send_to_chats config exchange deadline cs message_text n p in
        (q.success_count ≡ p.success_count + chats_sent cs p.time)
        × (p.last_error ≢ none → q.last_error ≢ none)
  unfolding send_to_chats
  send_to_chats_counts [] p = (omega arith, λ h. h)
  send_to_chats_counts (c ∷ cs) p =
      let s = send_to_chat config exchange deadline c message_text n p.time in
      let (count, time, kept, fresh) = count_result_either s p in
      let (rest, later) = send_to_chats_counts cs (count_result config exchange s p) in
      let rest' = rw time at rest in (omega arith, λ h. later (kept h))

  -- A loop over one chat or more with no success leaves an error.
  send_to_chats_error :
      (c : String) (cs : List String) (p : Progress)
      → chats_sent (c ∷ cs) p.time ≡ 0
      → (send_to_chats config exchange deadline (c ∷ cs) message_text n p).last_error ≢ none
  unfolding send_to_chats
  send_to_chats_error c cs p h =
      let s = send_to_chat config exchange deadline c message_text n p.time in
      let (count, time, kept, fresh) = count_result_either s p in
      (send_to_chats_counts cs (count_result config exchange s p)).1 (fresh (omega arith))

module _ (config : TelegramConfig) (exchange : TelegramMessage → ℕ → ℕ × Exchange) where
  abbrev start : ℕ → Progress
  start now = record { success_count = 0; last_error = none; time = now }

  judge_delivered :
      (p : Progress)
      → (p.success_count ≡ 0 → p.last_error ≢ none)
      → (judge config exchange p ≡ delivered) ↔ (1 ≤ p.success_count)
  judge_delivered p error = elim (Option-cases p.last_error) [
    | inl e ↦ (λ h. ground (arith, error), λ h. rw e refl)
    | inr (x, e) ↦ rw e (ground arith)
  ]

  -- Of a notification that names a chat, `Send` reports that it was sent exactly when at least one of
  -- the chats got it; the others may have failed.
  pub send_delivered_iff :
      (format : Notification → Text) (deadline : Option ℕ) (now : ℕ) (n : Notification)
      → get_chat_ids n ≢ []
      → (send config exchange format deadline now n ≡ delivered)
        ↔ (1 ≤ chats_sent config exchange deadline (format n) n (get_chat_ids n) now)
  unfolding send
  send_delivered_iff format deadline now n some_chat = elim (List-cases (get_chat_ids n)) [
    | inl e ↦ absurd (some_chat e)
    | inr (c, cs, e) ↦
        rw (e, send)
          (let p = start now in
            let counted =
              (send_to_chats_counts config exchange deadline (format n) n (c ∷ cs) p).0 in
            let total : (send_to_chats config exchange deadline (c ∷ cs) (format n) n
                  p).success_count
                ≡ chats_sent config exchange deadline (format n) n (c ∷ cs) now =
              omega arith in
            rw (sym total) (
              judge_delivered (send_to_chats config exchange deadline (c ∷ cs) (format n) n p) (λ h.
                send_to_chats_error config exchange deadline (format n) n c cs p (omega arith))))
  ]

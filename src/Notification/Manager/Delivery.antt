-- ===== src/Notification/Manager/Delivery.antt =====
-- sendToChannels of manager.go against what it promises: a report of which channels took the
-- notification, which knows nothing of the goroutines and their order.
use aipx.Prelude.{
  ℕ, zero, suc, ◌+◌, ◌≤◌, String, str_eq, Bool, true, Option, none, some, List, [], ◌∷◌, ◌≡◌, ◌↔◌,
  refl, ap, sym, ◌∙◌, arith, Option-cases, inl, inr,
}
use aipx.Prelude.Dict.{lookup}
use aipx.Notification.Channel.{Notification}
use aipx.Notification.Manager.{Channel, ChannelManager}
use aipx.Notification.Manager.Counts.{raise, total, total_task, done_total, perform_tasks}
use aipx.Notification.Manager.Weights.{
  one_if, errors_of, weight_sent, weight_failed, weight_success, weight_successes, weight_failures,
  weight_error, adds_sent, adds_failed, adds_success, adds_successes, adds_failures, adds_error,
}
use aipx.Notification.Manager.Sends.{
  Action, Sends, perform, act, done, Reach, next, run_task, run_tasks, task, tasks_of, started,
  judge, ok,
}

abbrev pub all_names : String → Bool
all_names name = true

module _ {E : Type 0} (deliver : Channel → Notification → Option E) (n : Notification) where
  abbrev pub sum : (Channel → ℕ) → List Channel → ℕ
  sum f [] = 0
  sum f (c ∷ cs) = f c + sum f cs

  -- How many of the channels with such a name took the notification, and how many did not.
  abbrev pub count_sent : (String → Bool) → List Channel → ℕ
  count_sent p cs = sum (λ c. elim (deliver c n) [ none ↦ one_if (p c.name) | some e ↦ 0 ]) cs

  abbrev pub count_failed : (String → Bool) → List Channel → ℕ
  count_failed p cs = sum (λ c. elim (deliver c n) [ none ↦ 0 | some e ↦ one_if (p c.name) ]) cs

  weights_add_up :
      (w : Action E → ℕ) (f : Channel → ℕ)
      → ((c : Channel) → total_task w (task c.name (deliver c n)) ≡ f c)
      → (cs : List Channel) → total w (tasks_of deliver cs n) ≡ sum f cs
  weights_add_up w f same [] = refl
  weights_add_up w f same (c ∷ cs) = omega (arith, same c, weights_add_up w f same cs)

  -- The weight of a goroutine, from its two cases.
  task_weight :
      (w : Action E → ℕ) (f g : Channel → ℕ) (c : Channel)
      → (total_task w (task c.name none) ≡ f c)
      → ((e : E) → total_task w (task c.name (some e)) ≡ g c)
      → total_task w (task c.name (deliver c n)) ≡ elim (deliver c n) [ none ↦ f c | some e ↦ g c ]
  task_weight w f g c sent failing = elim (Option-cases (deliver c n)) [
    | inl e ↦ rw e sent
    | inr (x, e) ↦ rw e (failing x)
  ]

  module _ (cs : List Channel) (m : ChannelManager) (t : Sends E)
      (r : Reach (started deliver cs n m) t) (d : t.tasks ≡ []) where
    ends :
        (w : Action E → ℕ) (counter : Sends E → Option ℕ) (f g : Channel → ℕ)
        → ((a : Action E) (s : Sends E) (ts : List (List (Action E)))
            → counter (perform a (record s { tasks = ts })) ≡ raise (w a) (counter s))
        → ((s : Sends E) (ts : List (List (Action E)))
            → counter (record s { tasks = ts }) ≡ counter s)
        → ((c : Channel) → total_task w (task c.name none) ≡ f c)
        → ((c : Channel) (e : E) → total_task w (task c.name (some e)) ≡ g c)
        → counter t
          ≡ raise
              (sum (λ c. elim (deliver c n) [ none ↦ f c | some e ↦ g c ]) cs)
              (counter (started deliver cs n m))
    ends w counter f g adds keeps sent failing =
        let left =
          weights_add_up w (λ c. elim (deliver c n) [ none ↦ f c | some e ↦ g c ])
            (λ c. task_weight w f g c (sent c) (failing c)) cs in
        done_total w counter adds keeps (started deliver cs n m) t r d
        ∙ ap (λ k. raise k (counter (started deliver cs n m))) left

    some_injective : {a b : ℕ} → some a ≡ some b → a ≡ b
    some_injective h = cc

    end_total_sent : t.manager.total_sent ≡ count_sent all_names cs + m.total_sent
    end_total_sent = some_injective (
        ends weight_sent (λ s. some s.manager.total_sent) (λ c. 1) (λ c. 0) adds_sent (λ s ts. refl)
          (λ c. refl) (λ c e. refl))

    end_total_failed : t.manager.total_failed ≡ count_failed all_names cs + m.total_failed
    end_total_failed = some_injective (
        ends weight_failed (λ s. some s.manager.total_failed) (λ c. 0) (λ c. 1) adds_failed
          (λ s ts. refl) (λ c. refl) (λ c e. refl))

    end_success_count : t.success_count ≡ count_sent all_names cs + 0
    end_success_count = some_injective (
        ends weight_success (λ s. some s.success_count) (λ c. 1) (λ c. 0) adds_success
          (λ s ts. refl) (λ c. refl) (λ c e. refl))

    end_successes :
        (name : String)
        → lookup name t.manager.channel_successes
          ≡ raise (count_sent (str_eq name) cs) (lookup name m.channel_successes)
    end_successes name =
        ends (weight_successes name) (λ s. lookup name s.manager.channel_successes)
          (λ c. one_if (str_eq name c.name)) (λ c. 0) (adds_successes name) (λ s ts. refl)
          (λ c. omega arith) (λ c e. refl)

    end_failures :
        (name : String)
        → lookup name t.manager.channel_failures
          ≡ raise (count_failed (str_eq name) cs) (lookup name m.channel_failures)
    end_failures name =
        ends (weight_failures name) (λ s. lookup name s.manager.channel_failures) (λ c. 0)
          (λ c. one_if (str_eq name c.name)) (adds_failures name) (λ s ts. refl) (λ c. refl)
          (λ c e. omega arith)

    end_errors : (name : String) → errors_of name t.errors ≡ count_failed (str_eq name) cs + 0
    end_errors name = some_injective (
        ends (weight_error name) (λ s. some (errors_of name s.errors)) (λ c. 0)
          (λ c. one_if (str_eq name c.name)) (adds_error name) (λ s ts. refl) (λ c. refl)
          (λ c e. omega arith))

  judge_ok : (k : ℕ) (errors : List (String × E)) → (judge k errors ≡ ok) ↔ (1 ≤ k)
  judge_ok zero [] = (λ h. cc, λ h. elim h [ ])
  judge_ok zero (e ∷ es) = (λ h. cc, λ h. elim h [ ])
  judge_ok (suc k) errors = (λ h. omega arith, λ h. refl)

  -- In whatever order the goroutines of `sendToChannels` run, once all are done: each counter that
  -- there is, and both totals, have grown by just the channels that took the notification or did not;
  -- each channel that did not is named by just as many errors; and success is reported exactly where
  -- at least one channel took it.
  pub send_to_channels-refines :
      (cs : List Channel) (m : ChannelManager) (t : Sends E)
      → Reach (started deliver cs n m) t
      → t.tasks ≡ []
      → (t.manager.total_sent ≡ count_sent all_names cs + m.total_sent)
        × (t.manager.total_failed ≡ count_failed all_names cs + m.total_failed)
        × ((name : String)
            → (lookup name t.manager.channel_successes
                ≡ raise (count_sent (str_eq name) cs) (lookup name m.channel_successes))
              × (lookup name t.manager.channel_failures
                  ≡ raise (count_failed (str_eq name) cs) (lookup name m.channel_failures))
              × (errors_of name t.errors ≡ count_failed (str_eq name) cs))
        × ((judge t.success_count t.errors ≡ ok) ↔ (1 ≤ count_sent all_names cs))
  send_to_channels-refines cs m t r d =
      let counted : t.success_count ≡ count_sent all_names cs =
        omega (arith, end_success_count cs m t r d) in
      (
        end_total_sent cs m t r d,
        end_total_failed cs m t r d,
        λ name. (
          end_successes cs m t r d name,
          end_failures cs m t r d name,
          omega (arith, end_errors cs m t r d name),
        ),
        rw (sym counted) (judge_ok t.success_count t.errors),
      )

  -- The order of `send_to_channels` is one of them.
  run_task-Reach :
      (s₀ s : Sends E) (as' : List (Action E)) (ts : List (List (Action E)))
      → Reach s₀ s
      → s.tasks ≡ as' ∷ ts
      → Reach s₀ (run_task as' ts s) × ((run_task as' ts s).tasks ≡ ts)
  unfolding run_task
  run_task-Reach s₀ s [] ts r e = (next r (done s [] ts e), refl)
  run_task-Reach s₀ s (a ∷ rest) ts r e =
      run_task-Reach s₀ (perform a (record s { tasks = rest ∷ ts })) rest ts
        (next r (act s [] ts a rest e)) (perform_tasks a (record s { tasks = rest ∷ ts }))

  pub run_tasks-Reach :
      (s₀ s : Sends E) (ts : List (List (Action E)))
      → Reach s₀ s
      → s.tasks ≡ ts
      → Reach s₀ (run_tasks ts s) × ((run_tasks ts s).tasks ≡ [])
  unfolding run_tasks
  run_tasks-Reach s₀ s [] r e = (r, e)
  run_tasks-Reach s₀ s (t ∷ ts) r e =
      let (r', e') = run_task-Reach s₀ s t ts r e in run_tasks-Reach s₀ (run_task t ts s) ts r' e'

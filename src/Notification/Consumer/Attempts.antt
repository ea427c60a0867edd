-- ===== src/Notification/Consumer/Attempts.antt =====
-- How often notification_consumer.go sends, and how it reads a rendered template.
use Prim.Native.Nat.mul
use aipx.Prelude.{
  ℕ, zero, suc, ◌+◌, ◌*◌, ◌≤◌, String, Bool, true, false, Option, none, some, List, [], ◌∷◌, ◌≡◌,
  refl, arith, Bool-cases, Option-cases, inl, inr, if◌then◌else◌,
}
use aipx.Prelude.Text.{Text}
use aipx.Notification.Channel.{Notification, new_notification}
use aipx.Notification.Consumer.Rounds.{
  waited, merged, answer, round_interrupted, round_delivered, round_failed,
}
use aipx.Notification.Consumer.{
  Preference, World, Progress, send_rounds, send_with_retry, notify, notify_all, is_target,
}

-- How many of the preferences the loop does not skip.
abbrev pub count_targets : List String → List Preference → ℕ
count_targets available [] = 0
count_targets available (p ∷ ps) =
    if is_target available p then suc (count_targets available ps) else count_targets available ps

-- A count of the state that a wait leaves alone and one `Send` raises by at most `k`, say of the
-- requests made.
module _ {S E : Type 0} (world : World S E) (count : S → ℕ) (k : ℕ)
    (send_adds : (c : String) (n : Notification) (s : S) → count (world.send c n s).1 ≤ count s + k)
    (wait_keeps : (s : S) → count (world.wait s).1 ≡ count s) where
  waited_keeps :
      (channel : String) (pref : Preference) (first : Bool) (s : S)
      → count (waited world channel pref first s).1 ≡ count s
  waited_keeps channel pref true s = refl
  waited_keeps channel pref false s = wait_keeps s

  send_rounds_adds :
      (channel : String) (pref : Preference) (left : ℕ) (first : Bool) (n : Notification)
      (last : Option E) (s : S)
      → (count (send_rounds world channel pref left first n last s).state ≤ count s + left * k)
        × ((send_rounds world channel pref left first n last s).sends ≤ left)
  unfolding send_rounds
  send_rounds_adds channel pref zero first n last s = (omega arith, omega arith)
  send_rounds_adds channel pref (suc left) first n last s =
      let more = mul.suc left k in
      let w = waited world channel pref first s in
      let kept = waited_keeps channel pref first s in
      let sent = send_adds channel (merged world channel pref n) w.1 in
      elim (Bool-cases w.0) [
        | inr e ↦
            rw (round_interrupted world channel pref left first n last s e)
              (omega arith, omega arith)
        | inl e ↦ elim (Option-cases (answer world channel pref first n s).0) [
          | inl h ↦
              rw (round_delivered world channel pref left first n last s e h)
                (omega arith, omega arith)
          | inr (x, h) ↦
              let (rest, few) =
                send_rounds_adds channel pref left false (merged world channel pref n) (some x)
                  (answer world channel pref first n s).1 in
              rw (round_failed world channel pref left first n last s x e h)
                (omega arith, omega arith)
        ]
      ]

  module _ (available : List String) (now : ℕ) (user_id event_type : String)
      (title message : Text) where
    abbrev pub step : Preference → Progress S → Progress S
    step pref p = notify world available now user_id event_type title message pref p

    step_adds :
        (pref : Preference) (p : Progress S) → count (step pref p).state ≤ count p.state + 4 * k
    unfolding send_with_retry
    step_adds pref p =
        (send_rounds_adds pref.channel pref 4 true
          (record (new_notification now user_id event_type title message) {
            data_values = p.event_data;
          })
          none p.state).0

    -- Whatever `Send` raises by at most `k`, and a wait not at all, the loop of `handleMessage` raises
    -- by at most four times `k` for each enabled preference whose channel there is: each of them is
    -- tried four times at most.
    pub notify_all_adds :
        (prefs : List Preference) (p : Progress S)
        → count (notify_all world available now user_id event_type title message prefs p).state
          ≤ count p.state + count_targets available prefs * (4 * k)
    unfolding notify_all
    notify_all_adds [] p = omega arith
    notify_all_adds (pref ∷ prefs) p = elim (Bool-cases (is_target available pref)) [
      | inl e ↦ rw e (
          let added = step_adds pref p in
          let rest = notify_all_adds prefs (step pref p) in
          let more = mul.suc (count_targets available prefs) (4 * k) in omega arith)
      | inr e ↦ rw e (notify_all_adds prefs p)
    ]

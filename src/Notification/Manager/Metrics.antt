-- ===== src/Notification/Manager/Metrics.antt =====
-- GetMetrics of manager.go, which reads a counter of each channel through a pointer that may be nil.
use aipx.Prelude.{
  ℕ, suc, String, str_eq, Option, none, some, List, [], ◌∷◌, ◌≡◌, ◌≢◌, Option-cases, Bool-cases,
  inl, inr,
}
use aipx.Prelude.Dict.{Dict, lookup, insert, erase, lookup-insert, lookup-insert_self}
use aipx.Notification.Manager.{
  Channel, ChannelManager, new_channel_manager, zero_counters, register_channel, unregister_channel,
  add_routing_rule, record_success, record_failure, bump,
}

pub record Metrics : Type 0 where
  pub total_sent : ℕ
  pub total_failed : ℕ
  pub channel_metrics : List (String × (ℕ × ℕ))

-- The loop over the channels; none where a counter is nil and `Load` panics.
unfoldable pub read_counters : Dict Channel → Dict ℕ → Dict ℕ → Option (List (String × (ℕ × ℕ)))
read_counters [] successes failures = some []
read_counters (c ∷ cs) successes failures = elim (lookup c.0 successes) [
  | none ↦ none
  | some s ↦ elim (lookup c.0 failures) [
    | none ↦ none
    | some f ↦ elim (read_counters cs successes failures) [
      | none ↦ none
      | some rest ↦ some ((c.0, (s, f)) ∷ rest)
    ]
  ]
]

unfoldable pub get_metrics : ChannelManager → Option Metrics
unfolding read_counters
get_metrics m = elim (read_counters m.channels m.channel_successes m.channel_failures) [
  | none ↦ none
  | some metrics ↦ some (record {
    total_sent = m.total_sent;
    total_failed = m.total_failed;
    channel_metrics = metrics;
  })
]

-- What is done to a manager.
pub data Operation : Type 0 where
  on_register : String → Channel → Operation
  on_unregister : String → Operation
  on_rule : String → List String → Operation
  on_success on_failure : String → Operation

unfoldable pub perform : Operation → ChannelManager → ChannelManager
unfolding register_channel unregister_channel add_routing_rule record_success record_failure
perform (on_register name c) m = (register_channel name c m).1
perform (on_unregister name) m = unregister_channel name m
perform (on_rule event_type names) m = add_routing_rule event_type names m
perform (on_success name) m = record_success name m
perform (on_failure name) m = record_failure name m

unfoldable pub perform_all : List Operation → ChannelManager → ChannelManager
unfolding perform
perform_all [] m = m
perform_all (o ∷ os) m = perform_all os (perform o m)

-- Each of the channels has a counter.
abbrev pub Counted : Dict ℕ → Dict Channel → Type 0
Counted counters [] = Unit
Counted counters (c ∷ cs) = (lookup c.0 counters ≢ none) × Counted counters cs

abbrev pub IsCounted : ChannelManager → Type 0
IsCounted m = Counted m.channel_successes m.channels × Counted m.channel_failures m.channels

-- Counters that stay.
abbrev Kept : Dict ℕ → Dict ℕ → Type 0
Kept d d' = (k : String) → lookup k d ≢ none → lookup k d' ≢ none

Counted-mono : (d d' : Dict ℕ) (cs : Dict Channel) → Kept d d' → Counted d cs → Counted d' cs
Counted-mono d d' [] kept h = tt
Counted-mono d d' (c ∷ cs) kept (h, hs) = (kept c.0 h, Counted-mono d d' cs kept hs)

not_none : {x : Option ℕ} {v : ℕ} → x ≡ some v → x ≢ none
not_none e h = cc

insert-Kept : (name : String) (v : ℕ) (d : Dict ℕ) → Kept d (insert name v d)
insert-Kept name v d k h = elim (Bool-cases (str_eq k name)) [
  | inl e ↦ rw lookup-insert (rw e (λ x. cc))
  | inr e ↦ rw lookup-insert (rw e h)
]

bump-Kept : (name : String) (d : Dict ℕ) → Kept d (bump name d)
bump-Kept name d k h = elim (Option-cases (lookup name d)) [
  | inl e ↦ rw (e, bump) h
  | inr (n, e) ↦ rw (e, bump) (insert-Kept name (suc n) d k h)
]

insert-Counted :
    (name : String) (c : Channel) (d : Dict ℕ) (cs : Dict Channel)
    → lookup name d ≢ none
    → Counted d cs
    → Counted d (insert name c cs)
unfolding insert
insert-Counted name c d [] here h = (here, tt)
insert-Counted name c d (x ∷ cs) here (h, hs) = elim (Bool-cases (str_eq name x.0)) [
  | inl e ↦ rw e (here, hs)
  | inr e ↦ rw e (h, insert-Counted name c d cs here hs)
]

erase-Counted :
    (name : String) (d : Dict ℕ) (cs : Dict Channel) → Counted d cs → Counted d (erase name cs)
unfolding erase
erase-Counted name d [] h = tt
erase-Counted name d (x ∷ cs) (h, hs) = elim (Bool-cases (str_eq name x.0)) [
  | inl e ↦ rw e (erase-Counted name d cs hs)
  | inr e ↦ rw e (h, erase-Counted name d cs hs)
]

-- A channel registered with a counter of its own.
register-Counted :
    (name : String) (c : Channel) (d : Dict ℕ) (cs : Dict Channel)
    → Counted d cs
    → Counted (insert name 0 d) (insert name c cs)
register-Counted name c d cs h =
    insert-Counted name c (insert name 0 d) cs (not_none (lookup-insert_self name 0 d))
      (Counted-mono d (insert name 0 d) cs (insert-Kept name 0 d) h)

zero_counters-Counted : (cs : Dict Channel) → Counted (zero_counters cs) cs
unfolding zero_counters
zero_counters-Counted [] = tt
zero_counters-Counted (c ∷ cs) = (
  not_none (lookup-insert_self c.0 0 (zero_counters cs)),
  Counted-mono (zero_counters cs) (insert c.0 0 (zero_counters cs)) cs
      (insert-Kept c.0 0 (zero_counters cs)) (zero_counters-Counted cs),
)

perform-IsCounted : (o : Operation) (m : ChannelManager) → IsCounted m → IsCounted (perform o m)
unfolding perform register_channel
perform-IsCounted (on_register name c) m (h, h') = elim (Option-cases (lookup name m.channels)) [
  | inl e ↦
      rw (e, perform)
        (
          register-Counted name c m.channel_successes m.channels h,
          register-Counted name c m.channel_failures m.channels h',
        )
  | inr (x, e) ↦ rw (e, perform) (h, h')
]
perform-IsCounted (on_unregister name) m (h, h') = (
  erase-Counted name m.channel_successes m.channels h,
  erase-Counted name m.channel_failures m.channels h',
)
perform-IsCounted (on_rule event_type names) m h = h
perform-IsCounted (on_success name) m (h, h') = (
  Counted-mono m.channel_successes (bump name m.channel_successes) m.channels
      (bump-Kept name m.channel_successes) h,
  h',
)
perform-IsCounted (on_failure name) m (h, h') = (
  h,
  Counted-mono m.channel_failures (bump name m.channel_failures) m.channels
      (bump-Kept name m.channel_failures) h',
)

perform_all-IsCounted :
    (os : List Operation) (m : ChannelManager) → IsCounted m → IsCounted (perform_all os m)
unfolding perform_all
perform_all-IsCounted [] m h = h
perform_all-IsCounted (o ∷ os) m h =
    perform_all-IsCounted os (perform o m) (perform-IsCounted o m h)

read_counters_some :
    (cs : Dict Channel) (d d' : Dict ℕ)
    → Counted d cs
    → Counted d' cs
    → read_counters cs d d' ≢ none
unfolding read_counters
read_counters_some [] d d' h h' = λ e. cc
read_counters_some (c ∷ cs) d d' (h, hs) (h', hs') = elim (Option-cases (lookup c.0 d)) [
  | inl e ↦ absurd (h e)
  | inr (s, e) ↦ elim (Option-cases (lookup c.0 d')) [
    | inl f ↦ absurd (h' f)
    | inr (n, f) ↦ elim (Option-cases (read_counters cs d d')) [
      | inl g ↦ absurd (read_counters_some cs d d' hs hs' g)
      | inr (rest, g) ↦ rw (e, read_counters) (rw f (rw g (λ x. cc)))
    ]
  ]
]

-- `GetMetrics` meets no nil counter: whatever is registered, unregistered, routed and sent, in
-- whatever order, from a new manager on.
pub get_metrics_total :
    (channels : Dict Channel) (rules : Dict (List String)) (os : List Operation)
    → get_metrics (perform_all os (new_channel_manager channels rules)) ≢ none
unfolding get_metrics new_channel_manager
get_metrics_total channels rules os =
    let m = perform_all os (new_channel_manager channels rules) in
    let (h, h') =
      perform_all-IsCounted os (new_channel_manager channels rules)
        (zero_counters-Counted channels, zero_counters-Counted channels) in
    elim (Option-cases (read_counters m.channels m.channel_successes m.channel_failures)) [
      | inl e ↦ absurd (read_counters_some m.channels m.channel_successes m.channel_failures h h' e)
      | inr (rest, e) ↦ rw (e, get_metrics) (λ x. cc)
    ]

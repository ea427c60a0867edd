-- ===== src/Notification/Manager/Sends.antt =====
-- sendToChannels of manager.go: a goroutine for each channel, as a step relation of their atomic
-- actions. What `Send` of a channel comes to is a parameter, `deliver`.
use aipx.Prelude.{ℕ, zero, suc, String, Option, none, some, List, [], ◌∷◌, ◌++◌, ◌≡◌}
use aipx.Prelude.Dict.{lookup}
use aipx.Notification.Channel.{Notification}
use aipx.Notification.Manager.{
  Channel, ChannelManager, bump, record_success, record_failure, channels_named,
  get_target_channels,
}

-- What `Send`, `SendToChannel` and `SendToChannels` return.
pub data ManagerResult (E : Type 0) : Type 0 where
  ok no_channels channel_not_found : ManagerResult E
  failed : List (String × E) → ManagerResult E

-- The atomic actions of a goroutine, from the return of `Send` on.
pub data Action (E : Type 0) : Type 0 where
  add_sent add_failed add_success : Action E
  bump_successes bump_failures : String → Action E
  put_error : String → E → Action E

-- The counters, `successCount`, `errChan`, and what each goroutine has left to do.
pub record Sends (E : Type 0) : Type 0 where
  pub manager : ChannelManager
  pub success_count : ℕ
  pub errors : List (String × E)
  pub tasks : List (List (Action E))

module _ {E : Type 0} where
  abbrev pub perform : Action E → Sends E → Sends E
  perform add_sent s = record s {
    manager = record s.manager { total_sent = suc s.manager.total_sent };
  }
  perform add_failed s = record s {
    manager = record s.manager { total_failed = suc s.manager.total_failed };
  }
  perform add_success s = record s { success_count = suc s.success_count }
  perform (bump_successes name) s = record s {
    manager = record s.manager { channel_successes = bump name s.manager.channel_successes };
  }
  perform (bump_failures name) s = record s {
    manager = record s.manager { channel_failures = bump name s.manager.channel_failures };
  }
  perform (put_error name e) s = record s { errors = s.errors ++ (name, e) ∷ [] }

  -- Any goroutine may be the next: it acts, or, with nothing left to do, calls `wg.Done`.
  pub data Step : Sends E → Sends E → Type 0 where
    act :
        (s : Sends E) (before after : List (List (Action E))) (a : Action E)
        (rest : List (Action E))
        → s.tasks ≡ before ++ (a ∷ rest) ∷ after
        → Step s (perform a (record s { tasks = before ++ rest ∷ after }))
    done :
        (s : Sends E) (before after : List (List (Action E)))
        → s.tasks ≡ before ++ [] ∷ after
        → Step s (record s { tasks = before ++ after })

  pub data Reach (s : Sends E) : Sends E → Type 0 where
    here : Reach s s
    next : {t u : Sends E} → Reach s t → Step t u → Reach s u

  -- What the goroutine of a channel does once `Send` has returned.
  abbrev pub task : String → Option E → List (Action E)
  task name none = add_sent ∷ bump_successes name ∷ add_success ∷ []
  task name (some e) = add_failed ∷ bump_failures name ∷ put_error name e ∷ []

  -- The end of `sendToChannels`.
  abbrev pub judge : ℕ → List (String × E) → ManagerResult E
  judge (suc n) errors = ok
  judge zero [] = no_channels
  judge zero (e ∷ errors) = failed (e ∷ errors)

  -- One order: each goroutine as a whole, the first one first. `ts` are the others.
  unfoldable pub run_task : List (Action E) → List (List (Action E)) → Sends E → Sends E
  run_task [] ts s = record s { tasks = ts }
  run_task (a ∷ rest) ts s = run_task rest ts (perform a (record s { tasks = rest ∷ ts }))

  unfoldable pub run_tasks : List (List (Action E)) → Sends E → Sends E
  unfolding run_task
  run_tasks [] s = s
  run_tasks (t ∷ ts) s = run_tasks ts (run_task t ts s)

  module _ (deliver : Channel → Notification → Option E) where
    abbrev pub tasks_of : List Channel → Notification → List (List (Action E))
    tasks_of [] n = []
    tasks_of (c ∷ cs) n = task c.name (deliver c n) ∷ tasks_of cs n

    -- `sendToChannels` with its goroutines started.
    abbrev pub started : List Channel → Notification → ChannelManager → Sends E
    started cs n m = record { manager = m; success_count = 0; errors = []; tasks = tasks_of cs n }

    -- `sendToChannels` in that order.
    unfoldable pub send_to_channels :
        List Channel → Notification → ChannelManager → ManagerResult E × ChannelManager
    unfolding run_tasks
    send_to_channels cs n m =
        let s = run_tasks (tasks_of cs n) (started cs n m) in
        (judge s.success_count s.errors, s.manager)

    -- `Send`; `walk` is the order in which Go walks the map of the channels.
    unfoldable pub send :
        (List String → List String)
        → Notification
        → ChannelManager
        → ManagerResult E × ChannelManager
    unfolding get_target_channels send_to_channels
    send walk n m = elim (get_target_channels walk n.event_type n.priority m) [
      | [] ↦ (no_channels, m)
      | c ∷ cs ↦ send_to_channels (c ∷ cs) n m
    ]

    -- `SendToChannel`; `channels_named` and the counters go by the name it was asked for.
    unfoldable pub send_to_channel :
        String → Notification → ChannelManager → ManagerResult E × ChannelManager
    unfolding record_success record_failure
    send_to_channel name n m = elim (lookup name m.channels) [
      | none ↦ (channel_not_found, m)
      | some c ↦ elim (deliver c n) [
        | some e ↦ (failed ((name, e) ∷ []), record_failure name m)
        | none ↦ (ok, record_success name m)
      ]
    ]

    -- `SendToChannels`
    unfoldable pub send_to_named :
        List String → Notification → ChannelManager → ManagerResult E × ChannelManager
    unfolding channels_named send_to_channels
    send_to_named names n m = elim (channels_named m.channels names) [
      | [] ↦ (no_channels, m)
      | c ∷ cs ↦ send_to_channels (c ∷ cs) n m
    ]

-- ===== src/Notification/Manager.antt =====
-- services/notification-service/internal/channels/manager.go: the channels by their names, the rules
-- that route an event to channels, and the counters. A channel is its own name and what its Send
-- does; `E` is the type of an error of Send. The counters are unbounded here, 64 bits wide there.
pub mod Sends
pub mod Counts
pub mod Weights
pub mod Metrics
pub mod Delivery
mod Tests
use aipx.Prelude.{
  ℕ, zero, suc, ◌+◌, String, str_eq, Bool, true, false, Option, none, some, List, [], ◌∷◌, ◌++◌,
  map, if◌then◌else◌,
}
use aipx.Prelude.Dict.{Dict, lookup, insert, erase}
use aipx.Notification.Channel.{Priority, low, normal, high, critical, other_priority, Notification}

-- A registered channel; `id` tells two channels of one name apart.
pub record Channel : Type 0 where
  pub name : String
  pub id : ℕ

pub record ChannelManager : Type 0 where
  pub channels : Dict Channel
  pub routing_rules : Dict (List String)
  pub total_sent : ℕ
  pub total_failed : ℕ
  pub channel_successes : Dict ℕ
  pub channel_failures : Dict ℕ

-- `setDefaultRoutingRules`
abbrev pub default_routing_rules : Dict (List String)
default_routing_rules =
    ("order_filled", "slack" ∷ "email" ∷ [])
    ∷ ("order_rejected", "slack" ∷ "email" ∷ [])
    ∷ ("order_cancelled", "slack" ∷ "email" ∷ [])
    ∷ ("risk_alert", "slack" ∷ "telegram" ∷ "email" ∷ [])
    ∷ ("position_limit_alert", "slack" ∷ "telegram" ∷ "email" ∷ [])
    ∷ ("margin_call", "slack" ∷ "telegram" ∷ "email" ∷ [])
    ∷ ("position_opened", "slack" ∷ "email" ∷ [])
    ∷ ("position_closed", "slack" ∷ "email" ∷ [])
    ∷ ("system_alert", "slack" ∷ "telegram" ∷ [])
    ∷ ("maintenance_notice", "slack" ∷ "telegram" ∷ [])
    ∷ ("service_degradation", "slack" ∷ "telegram" ∷ [])
    ∷ []

-- A counter for each channel.
pub zero_counters : Dict Channel → Dict ℕ
zero_counters [] = []
zero_counters (c ∷ cs) = insert c.0 0 (zero_counters cs)

-- `NewChannelManager`, with the rules of the configuration.
unfoldable pub new_channel_manager : Dict Channel → Dict (List String) → ChannelManager
unfolding zero_counters
new_channel_manager channels rules = record {
  channels = channels;
  routing_rules = elim rules [ [] ↦ default_routing_rules | r ∷ rs ↦ r ∷ rs ];
  total_sent = 0;
  total_failed = 0;
  channel_successes = zero_counters channels;
  channel_failures = zero_counters channels;
}

-- `RegisterChannel`: whether it reports no error.
unfoldable pub register_channel : String → Channel → ChannelManager → Bool × ChannelManager
register_channel name c m = elim (lookup name m.channels) [
  | some there ↦ (false, m)
  | none ↦ (
    true,
    record m {
      channels = insert name c m.channels;
      channel_successes = insert name 0 m.channel_successes;
      channel_failures = insert name 0 m.channel_failures;
    },
  )
]

-- `UnregisterChannel`, `GetChannel`, `AddRoutingRule`, `ListChannels`
unfoldable pub unregister_channel : String → ChannelManager → ChannelManager
unregister_channel name m = record m { channels = erase name m.channels }

pub get_channel : String → ChannelManager → Option Channel
get_channel name m = lookup name m.channels

unfoldable pub add_routing_rule : String → List String → ChannelManager → ChannelManager
add_routing_rule event_type names m = record m {
  routing_rules = insert event_type names m.routing_rules;
}

pub names_of : Dict Channel → List String
names_of [] = []
names_of (c ∷ cs) = c.0 ∷ names_of cs

pub list_channels : ChannelManager → List String
unfolding names_of
list_channels m = names_of m.channels

-- The channels that there are of the names.
pub channels_named : Dict Channel → List String → List Channel
channels_named channels [] = []
channels_named channels (n ∷ ns) = elim (lookup n channels) [
  | some c ↦ c ∷ channels_named channels ns
  | none ↦ channels_named channels ns
]

-- `getTargetChannels`; `walk` is the order in which Go walks the map.
abbrev pub target_names :
    (List String → List String) → String → Priority → ChannelManager → List String
unfolding names_of
target_names walk event_type priority m = elim (lookup event_type m.routing_rules) [
  | some names ↦ names
  | none ↦ elim priority [
    | critical ↦ walk (names_of m.channels)
    | low ↦ "slack" ∷ []
    | normal ↦ "slack" ∷ []
    | high ↦ "slack" ∷ []
    | other_priority ↦ "slack" ∷ []
  ]
]

unfoldable pub get_target_channels :
    (List String → List String) → String → Priority → ChannelManager → List Channel
unfolding channels_named names_of
get_target_channels walk event_type priority m =
    channels_named m.channels (target_names walk event_type priority m)

-- `counter.Add(1)` where there is a counter.
abbrev pub bump : String → Dict ℕ → Dict ℕ
bump name d = elim (lookup name d) [ some n ↦ insert name (suc n) d | none ↦ d ]

-- `recordSuccess`, `recordFailure`
unfoldable pub record_success : String → ChannelManager → ChannelManager
record_success name m = record m {
  total_sent = suc m.total_sent;
  channel_successes = bump name m.channel_successes;
}

unfoldable pub record_failure : String → ChannelManager → ChannelManager
record_failure name m = record m {
  total_failed = suc m.total_failed;
  channel_failures = bump name m.channel_failures;
}

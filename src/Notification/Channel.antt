-- ===== src/Notification/Channel.antt =====
-- services/notification-service/internal/channels/channel.go: what is sent over a channel, and a
-- channel's settings. Durations are nanoseconds.
use aipx.Prelude.{ℕ, ◌*◌, String, Bool, true, List, [], ◌++◌, map}
use aipx.Prelude.Int.{ℤ, pos}
use aipx.Prelude.Dict.{Dict}
use aipx.Prelude.Text.{Text, codes, join}

abbrev pub second : ℕ
second = 1000000000

-- `Priority`, an int; `other_priority` stands for the values without a name.
pub data Priority : Type 0 where
  low normal high critical other_priority : Priority

-- `Priority.String`
pub show_priority : Priority → String
show_priority low = "low"
show_priority normal = "normal"
show_priority high = "high"
show_priority critical = "critical"
show_priority other_priority = "unknown"

-- The members of an `[]interface{}`; what is no string comes as `%v` prints it.
pub data Item : Type 0 where
  text_item : String → Item
  other_item : Text → Item

-- An `interface{}`: a string, a `[]string`, an `[]interface{}`, or a value that the channels only
-- print.
pub data Value : Type 0 where
  text : String → Value
  texts : List String → Value
  items : List Item → Value
  other_value : Text → Value

abbrev pub show_item : Item → Text
show_item (text_item s) = codes s
show_item (other_item t) = t

-- `%v`
pub show_value : Value → Text
show_value (text s) = codes s
show_value (texts ss) = codes "[" ++ join (codes " ") (map codes ss) ++ codes "]"
show_value (items xs) = codes "[" ++ join (codes " ") (map show_item xs) ++ codes "]"
show_value (other_value t) = t

pub record Notification : Type 0 where
  pub user_id : String
  pub event_type : String
  pub title : Text
  pub message : Text
  pub data_values : Dict Value
  pub priority : Priority
  pub timestamp : ℕ
  pub retry_count : ℤ
  pub max_retries : ℤ
  pub retry_interval : ℕ

pub record RateLimitConfig : Type 0 where
  pub enabled : Bool
  pub max_per_minute : ℤ
  pub max_per_hour : ℤ
  pub burst_size : ℤ
  pub cleanup_timeout : ℕ

pub record ChannelConfig : Type 0 where
  pub enabled : Bool
  pub timeout : ℕ
  pub retry_attempts : ℤ
  pub retry_interval : ℕ
  pub rate_limit : RateLimitConfig

-- `DefaultChannelConfig`
abbrev pub default_channel_config : ChannelConfig
default_channel_config = record {
  enabled = true;
  timeout = 10 * second;
  retry_attempts = pos 3;
  retry_interval = 5 * second;
  rate_limit = record {
    enabled = true;
    max_per_minute = pos 60;
    max_per_hour = pos 1000;
    burst_size = pos 10;
    cleanup_timeout = 3600 * second;
  };
}

-- `NewNotification`, at the time `now`.
abbrev pub new_notification : ℕ → String → String → Text → Text → Notification
new_notification now user_id event_type title message = record {
  user_id = user_id;
  event_type = event_type;
  title = title;
  message = message;
  data_values = [];
  priority = normal;
  timestamp = now;
  retry_count = pos 0;
  max_retries = pos 3;
  retry_interval = 5 * second;
}

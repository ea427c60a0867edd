-- ===== src/Notification/Format.antt =====
-- services/notification-service/internal/channels/{slack,telegram,email}.go: what the three channels
-- take from a notification's data, and how they print it.
use aipx.Prelude.{
  String, str_eq, Bool, true, false, Option, none, some, List, [], ◌∷◌, if◌then◌else◌, ◌==◌,
}
use aipx.Prelude.Dict.{Dict, lookup}
use aipx.Prelude.Text.{Text}
use aipx.Notification.Channel.{
  Priority, low, normal, high, critical, other_priority, Item, text_item, other_item, Value, text,
  texts, items, other_value,
}

-- `importantFields`, `importantKeys`
abbrev pub important_fields : List String
important_fields =
    "order_id" ∷ "symbol" ∷ "side" ∷ "quantity" ∷ "price" ∷ "reason" ∷ "status" ∷ "position_id"
    ∷ "profit_loss" ∷ []

-- `extractFieldsFromData`, `extractImportantFields`: the loop over the keys.
unfoldable pub extract_fields : List String → Dict Value → List (String × Value)
extract_fields [] data_values = []
extract_fields (k ∷ ks) data_values = elim (lookup k data_values) [
  | none ↦ extract_fields ks data_values
  | some v ↦ (k, v) ∷ extract_fields ks data_values
]

-- The loop of `formatFieldName`; the flag is `capitalize`.
pub format_loop : Bool → Text → Text
format_loop capitalize [] = []
format_loop capitalize (r ∷ rs) =
    let spaced = format_loop true rs in
    let kept = format_loop false rs in
    if r == b'_' then b' ' ∷ spaced else if capitalize then r ∷ kept else r ∷ kept

-- `formatFieldName`
unfoldable pub format_field_name : Text → Text
unfolding format_loop
format_field_name [] = []
format_field_name (r ∷ rs) = format_loop true (r ∷ rs)

-- `getEmojiForPriority`, the same in all three.
unfoldable pub emoji_for_priority : Priority → Text
emoji_for_priority low = 128994 ∷ []
emoji_for_priority normal = 128309 ∷ []
emoji_for_priority high = 9888 ∷ 65039 ∷ []
emoji_for_priority critical = 128680 ∷ []
emoji_for_priority other_priority = 8505 ∷ 65039 ∷ []

-- The strings among the members of an `[]interface{}`.
unfoldable pub strings_of : List Item → List String
strings_of [] = []
strings_of (text_item s ∷ xs) = s ∷ strings_of xs
strings_of (other_item t ∷ xs) = strings_of xs

-- A string that is there and not empty.
abbrev pub one_string : Option Value → Option String
one_string none = none
one_string (some (text s)) = if str_eq s "" then none else some s
one_string (some (texts ss)) = none
one_string (some (items xs)) = none
one_string (some (other_value t)) = none

abbrev pub many_strings : Option Value → List String
unfolding strings_of
many_strings none = []
many_strings (some (text s)) = []
many_strings (some (texts ss)) = ss
many_strings (some (items xs)) = strings_of xs
many_strings (some (other_value t)) = []

-- `getChatIDs`, `getRecipients`: the one string under `single`, else the strings under `several`.
unfoldable pub addresses : String → String → Dict Value → List String
unfolding many_strings
addresses single several data_values = elim (one_string (lookup single data_values)) [
  | some s ↦ s ∷ []
  | none ↦ many_strings (lookup several data_values)
]

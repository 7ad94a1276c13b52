-- ===== src/Providers/Events.antt =====
-- internal/providers/stream.go: what an event says of itself: whether it ends the stream, how much
-- text it has, which tool call it belongs to and which usage it reports.
use code_maintainer.Base.{
  ℕ, ◌+◌, String, Bool, true, false, ◌||◌, Option, none, some, List, [], ◌∷◌, map, any,
  if◌then◌else◌,
}
use code_maintainer.Base.Int.{ℤ, pos, ltb_ℤ}
use code_maintainer.Base.Text.{
  codes, same_codes, is_blank, byte_len, trim_space, contains_codes, lower_code,
}
use code_maintainer.Providers.Json.{
  Value, null, bool, number, text, array, object, Items, empty, item, Members, end, member, field,
}

-- `strings.Contains(strings.ToLower(actual), strings.ToLower(want))`
unfoldable pub mentions : String → String → Bool
unfolding contains_codes lower_code
mentions actual want = contains_codes (map lower_code (codes actual)) (map lower_code (codes want))

-- The value under the key is a text that mentions the one wanted.
abbrev says : Option Value → String → Bool
says (some (text actual)) want = mentions actual want
says _ want = false

-- hasStringValue
unfoldable mutual
  pub has_string_value : Value → String → String → Bool
  has_string_value (object ms) key want =
      says (field key ms) want || member_has_string_value ms key want
  has_string_value (array vs) key want = item_has_string_value vs key want
  has_string_value null key want = false
  has_string_value (bool b) key want = false
  has_string_value (number n) key want = false
  has_string_value (text s) key want = false

  item_has_string_value : Items → String → String → Bool
  item_has_string_value empty key want = false
  item_has_string_value (item v vs) key want =
      has_string_value v key want || item_has_string_value vs key want

  member_has_string_value : Members → String → String → Bool
  member_has_string_value end key want = false
  member_has_string_value (member k v ms) key want =
      has_string_value v key want || member_has_string_value ms key want

unfoldable pub event_canceled : Value → Bool
event_canceled raw =
    has_string_value raw "type" "cancel"
    || has_string_value raw "stop_reason" "cancel"
    || has_string_value raw "finish_reason" "cancel"

unfoldable pub event_truncated : Value → Bool
event_truncated raw =
    has_string_value raw "finish_reason" "length"
    || has_string_value raw "stop_reason" "max_tokens"
    || has_string_value raw "finishReason" "MAX_TOKENS"

unfoldable pub event_terminal : Value → Bool
event_terminal raw =
    has_string_value raw "type" "done"
    || has_string_value raw "type" "message_stop"
    || has_string_value raw "type" "response.completed"
    || has_string_value raw "stopReason" "end_turn"
    || has_string_value raw "finishReason" "STOP"
    || has_string_value raw "finish_reason" "stop"

-- `lower == "content" || lower == "text" || lower == "delta"`
abbrev is_text_key : String → Bool
is_text_key key =
    let lower = map lower_code (codes key) in
    any (λ name. same_codes lower (codes name)) ("content" ∷ "text" ∷ "delta" ∷ [])

-- The bytes of a text under such a key.
abbrev own_text : String → Value → Option ℕ
own_text key (text s) = if is_text_key key then some (byte_len s) else none
own_text key _ = none

-- The bytes of the texts of an event.
unfoldable mutual
  pub event_text_bytes : Value → ℕ
  event_text_bytes (object ms) = member_text_bytes ms
  event_text_bytes (array vs) = item_text_bytes vs
  event_text_bytes null = 0
  event_text_bytes (bool b) = 0
  event_text_bytes (number n) = 0
  event_text_bytes (text s) = 0

  item_text_bytes : Items → ℕ
  item_text_bytes empty = 0
  item_text_bytes (item v vs) = event_text_bytes v + item_text_bytes vs

  member_text_bytes : Members → ℕ
  member_text_bytes end = 0
  member_text_bytes (member k v ms) =
      elim (own_text k v) [ some n ↦ n | none ↦ event_text_bytes v ] + member_text_bytes ms

-- stringField
unfoldable pub string_field : Members → String → Option String
string_field ms key = elim (field key ms) [
  | some (text s) ↦ if is_blank s then none else some (trim_space s)
  | _ ↦ none
]

-- numberField
unfoldable pub number_field : Members → String → Option ℤ
number_field ms key = elim (field key ms) [ some (number n) ↦ n | _ ↦ none ]

pub record StreamUsage : Type 0 where
  pub input_tokens : ℤ
  pub output_tokens : ℤ
  pub total_tokens : ℤ

-- The first of the keys that has a number.
unfoldable pub first_number : Members → List String → Option ℤ
unfolding number_field
first_number ms [] = none
first_number ms (k ∷ ks) =
    let rest = first_number ms ks in elim (number_field ms k) [ some n ↦ some n | none ↦ rest ]

abbrev or_zero : Option ℤ → ℤ
or_zero none = pos 0
or_zero (some n) = n

abbrev is_some : Option ℤ → Bool
is_some none = false
is_some (some n) = true

-- usageFromMap
unfoldable pub usage_from_map : Members → Option StreamUsage
unfolding first_number
usage_from_map ms =
    let input =
      first_number ms
        ("prompt_tokens" ∷ "input_tokens" ∷ "inputTokens" ∷ "promptTokenCount" ∷ []) in
    let output =
      first_number ms
        ("completion_tokens" ∷ "output_tokens" ∷ "outputTokens" ∷ "candidatesTokenCount" ∷ []) in
    let total = first_number ms ("total_tokens" ∷ "totalTokens" ∷ "totalTokenCount" ∷ []) in
    if is_some input || is_some output || is_some total
    then some (record {
      input_tokens = or_zero input;
      output_tokens = or_zero output;
      total_tokens = or_zero total;
    })
    else none

abbrev or_else : Option StreamUsage → Option StreamUsage → Option StreamUsage
or_else none rest = rest
or_else (some u) rest = some u

-- eventUsage
unfoldable mutual
  pub event_usage : Value → Option StreamUsage
  event_usage (object ms) = or_else (usage_from_map ms) (member_usage ms)
  event_usage (array vs) = item_usage vs
  event_usage null = none
  event_usage (bool b) = none
  event_usage (number n) = none
  event_usage (text s) = none

  item_usage : Items → Option StreamUsage
  item_usage empty = none
  item_usage (item v vs) = or_else (event_usage v) (item_usage vs)

  member_usage : Members → Option StreamUsage
  member_usage end = none
  member_usage (member k v ms) = or_else (event_usage v) (member_usage ms)

abbrev newer : ℤ → ℤ → ℤ
newer current next = if ltb_ℤ (pos 0) next then next else current

-- mergeUsage
unfoldable pub merge_usage : StreamUsage → StreamUsage → StreamUsage
merge_usage current next = record {
  input_tokens = newer current.input_tokens next.input_tokens;
  output_tokens = newer current.output_tokens next.output_tokens;
  total_tokens = newer current.total_tokens next.total_tokens;
}

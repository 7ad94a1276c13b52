-- ===== src/Providers/ToolKeys.antt =====
-- internal/providers/stream.go: collectToolKeys, the tool calls that an event adds to.
pub mod Laws
use code_maintainer.Base.{
  ℕ, String, Bool, true, false, Option, none, some, List, [], ◌∷◌, ◌++◌, suc, ◌is◌, if◌then◌else◌,
}
use code_maintainer.Base.Int.{ℤ, pos, negsuc}
use code_maintainer.Base.Text.{is_empty, append, decimal}
use code_maintainer.Providers.Events.{string_field, number_field}
use code_maintainer.Providers.Json.{
  Value, null, bool, number, text, array, object, Items, empty, item, Members, end, member, field,
}

-- `%d`
abbrev decimal_ℤ : ℤ → String
decimal_ℤ (pos n) = decimal n
decimal_ℤ (negsuc n) = append "-" (decimal (suc n))

-- The key of an object: its id, or its index, or that of its content block, or the key around it.
unfoldable pub object_key : Members → String → String
unfolding string_field number_field
object_key ms fallback = elim (string_field ms "id") [
  | some id ↦ id
  | none ↦ elim (number_field ms "index") [
    | some n ↦ append "index:" (decimal_ℤ n)
    | none ↦ elim (number_field ms "contentBlockIndex") [
      | some n ↦ append "content-block:" (decimal_ℤ n)
      | none ↦ fallback
    ]
  ]
]

-- Whether `typed[outer]` is an object that has the field `inner`.
abbrev has_inner : Members → String → String → Bool
has_inner ms outer inner = elim (field outer ms) [
  | some (object fs) ↦ elim (field inner fs) [ some _ ↦ true | none ↦ false ]
  | _ ↦ false
]

abbrev has_field : Members → String → Bool
has_field ms key = elim (field key ms) [ some _ ↦ true | none ↦ false ]

abbrev or_name : String → String → String
or_name key name = if is_empty key then name else key

-- The keys that an object gives for itself, and the key for its members: an empty key is named
-- after the first sign of a tool call.
unfoldable pub own_keys : Members → String → List String × String
own_keys ms key =
    let key₁ = if has_field ms "toolUse" then or_name key "tool-use" else key in
    let key₂ = if has_inner ms "function" "arguments" then or_name key₁ "function" else key₁ in
    let key₃ = if has_inner ms "delta" "partial_json" then or_name key₂ "content-block" else key₂ in
    (
      (if has_field ms "toolUse" then key₁ ∷ [] else [])
          ++ (if has_inner ms "function" "arguments" then key₂ ∷ [] else [])
          ++ (if has_inner ms "delta" "partial_json" then key₃ ∷ [] else []),
      key₃,
    )

-- The key of the element at an index of an array.
abbrev item_key : String → ℕ → String
item_key fallback n = if is_empty fallback then append "index:" (decimal n) else fallback

-- collectToolKeys. Of an object with `tool_calls` only these are walked.
unfoldable mutual
  pub collect_tool_keys : Value → String → List String
  collect_tool_keys (object ms) fallback =
      let key = object_key ms fallback in
      let (own, inner) = own_keys ms key in
      let calls = tool_calls_keys ms key in
      if has_field ms "tool_calls" then calls else own ++ member_tool_keys ms inner
  collect_tool_keys (array vs) fallback = item_tool_keys vs 0 fallback
  collect_tool_keys null fallback = []
  collect_tool_keys (bool b) fallback = []
  collect_tool_keys (number n) fallback = []
  collect_tool_keys (text s) fallback = []

  item_tool_keys : Items → ℕ → String → List String
  item_tool_keys empty n fallback = []
  item_tool_keys (item v vs) n fallback =
      collect_tool_keys v (item_key fallback n) ++ item_tool_keys vs (suc n) fallback

  member_tool_keys : Members → String → List String
  member_tool_keys end key = []
  member_tool_keys (member k v ms) key = collect_tool_keys v key ++ member_tool_keys ms key

  -- The keys of the first member `tool_calls`.
  tool_calls_keys : Members → String → List String
  tool_calls_keys end key = []
  tool_calls_keys (member k v ms) key =
      let here = collect_tool_keys v key in
      let rest = tool_calls_keys ms key in if k is "tool_calls" then here else rest

-- eventToolKeys
unfoldable pub event_tool_keys : Value → List String
event_tool_keys value = collect_tool_keys value ""

-- ===== src/Providers/ToolKeys/Laws.antt =====
-- internal/providers/stream.go: a tool call always has a key.
use code_maintainer.Base.{
  ℕ, ◌≡◌, refl, String, Bool, true, false, [], ◌∷◌, All, All-append, suc, Bool-cases, inl, inr,
  ◌is◌, if◌then◌else◌,
}
use code_maintainer.Base.Text.{is_empty}
use code_maintainer.Providers.Json.{
  Value, null, bool, number, text, array, object, Items, empty, item, Members, end, member,
}
use code_maintainer.Providers.ToolKeys.{
  or_name, has_field, has_inner, own_keys, object_key, item_key, collect_tool_keys, item_tool_keys,
  member_tool_keys, tool_calls_keys, event_tool_keys,
}

abbrev pub IsKey : String → Type 0
IsKey k = is_empty k ≡ false

or_name-IsKey : (key name : String) → IsKey name → IsKey (or_name key name)
or_name-IsKey key name h = elim (Bool-cases (is_empty key)) [ inl b ↦ rw b h | inr b ↦ rw b b ]

-- The key that a sign of a tool call adds.
own_part :
    (b : Bool) (key name : String)
    → IsKey name
    → All IsKey (if b then (if b then or_name key name else key) ∷ [] else [])
own_part true key name h = (or_name-IsKey key name h, tt)
own_part false key name h = tt

own_keys-IsKey : (ms : Members) (key : String) → All IsKey (own_keys ms key).0
unfolding own_keys
own_keys-IsKey ms key =
    let key₁ = if has_field ms "toolUse" then or_name key "tool-use" else key in
    let key₂ = if has_inner ms "function" "arguments" then or_name key₁ "function" else key₁ in
    All-append IsKey _ _
      (All-append IsKey _ _ (own_part (has_field ms "toolUse") key "tool-use" refl)
        (own_part (has_inner ms "function" "arguments") key₁ "function" refl))
      (own_part (has_inner ms "delta" "partial_json") key₂ "content-block" refl)

mutual
  unfolding collect_tool_keys

  collect_tool_keys-IsKey :
      (v : Value) (fallback : String) → All IsKey (collect_tool_keys v fallback)
  collect_tool_keys-IsKey (object ms) fallback =
      let key = object_key ms fallback in
      elim (Bool-cases (has_field ms "tool_calls")) [
        | inl b ↦ rw (collect_tool_keys, b) (tool_calls_keys-IsKey ms key)
        | inr b ↦
            rw (collect_tool_keys, b)
              (All-append IsKey (own_keys ms key).0 (member_tool_keys ms (own_keys ms key).1)
                (own_keys-IsKey ms key) (member_tool_keys-IsKey ms (own_keys ms key).1))
      ]
  collect_tool_keys-IsKey (array vs) fallback = item_tool_keys-IsKey vs 0 fallback
  collect_tool_keys-IsKey null fallback = tt
  collect_tool_keys-IsKey (bool b) fallback = tt
  collect_tool_keys-IsKey (number n) fallback = tt
  collect_tool_keys-IsKey (text s) fallback = tt

  item_tool_keys-IsKey :
      (vs : Items) (n : ℕ) (fallback : String) → All IsKey (item_tool_keys vs n fallback)
  item_tool_keys-IsKey empty n fallback = tt
  item_tool_keys-IsKey (item v vs) n fallback =
      All-append IsKey (collect_tool_keys v (item_key fallback n))
        (item_tool_keys vs (suc n) fallback) (collect_tool_keys-IsKey v (item_key fallback n))
        (item_tool_keys-IsKey vs (suc n) fallback)

  member_tool_keys-IsKey : (ms : Members) (key : String) → All IsKey (member_tool_keys ms key)
  member_tool_keys-IsKey end key = tt
  member_tool_keys-IsKey (member k v ms) key =
      All-append IsKey (collect_tool_keys v key) (member_tool_keys ms key)
        (collect_tool_keys-IsKey v key) (member_tool_keys-IsKey ms key)

  tool_calls_keys-IsKey : (ms : Members) (key : String) → All IsKey (tool_calls_keys ms key)
  tool_calls_keys-IsKey end key = tt
  tool_calls_keys-IsKey (member k v ms) key = elim (Bool-cases (k is "tool_calls")) [
    | inl b ↦ rw (tool_calls_keys, b) (collect_tool_keys-IsKey v key)
    | inr b ↦ rw (tool_calls_keys, b) (tool_calls_keys-IsKey ms key)
  ]

pub event_tool_keys-IsKey : (v : Value) → All IsKey (event_tool_keys v)
unfolding event_tool_keys
event_tool_keys-IsKey v = collect_tool_keys-IsKey v ""

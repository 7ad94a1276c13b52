-- ===== src/Providers/Json.antt =====
-- The values that encoding/json decodes an event into, with UseNumber. A number is what
-- json.Number.Int64 makes of it. The members of an object stand in the order in which a `range`
-- over the Go map visits them, which is any.
use code_maintainer.Base.{String, Bool, Option, none, some, ◌is◌, if◌then◌else◌}
use code_maintainer.Base.Int.{ℤ}

mutual
  pub data Value : Type 0 where
    null : Value
    bool : Bool → Value
    number : Option ℤ → Value
    text : String → Value
    array : Items → Value
    object : Members → Value

  pub data Items : Type 0 where
    empty : Items
    item : Value → Items → Items

  pub data Members : Type 0 where
    end : Members
    member : String → Value → Members → Members

-- `typed[key]`
abbrev pub field : String → Members → Option Value
field k end = none
field k (member l v ms) = let rest = field k ms in if l is k then some v else rest

-- ===== src/Json.antt =====
-- Values of JSON, as `JSON.parse` gives them.
use pm_chat.Base.{String, Bool, true, false, Option, none, some, ◌===◌, if◌then◌else◌}

-- `zero` is the number 0, which is falsy; `number` is any other number, as it is written.
mutual
  pub data Json : Type 0 where
    null : Json
    boolean : Bool → Json
    zero : Json
    number : String → Json
    text : String → Json
    array : Items → Json
    object : Fields → Json

  pub data Items : Type 0 where
    nil : Items
    cons : Json → Items → Items

  pub data Fields : Type 0 where
    end : Fields
    field : String → Json → Fields → Fields

-- `fields[name]`, where `none` is `undefined`
unfoldable pub get_field : (name : String) → Fields → Option Json
get_field name end = none
get_field name (field key value rest) = if key === name then some value else get_field name rest

-- whether `if (value)` takes the branch
abbrev pub is_truthy : Option Json → Bool
is_truthy none = false
is_truthy (some null) = false
is_truthy (some (boolean b)) = b
is_truthy (some zero) = false
is_truthy (some (number digits)) = true
is_truthy (some (text s)) = if s === "" then false else true
is_truthy (some (array items)) = true
is_truthy (some (object fields)) = true

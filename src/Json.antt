-- ===== src/Json.antt =====
-- A decoded JSON value, Go's `interface{}` behind `encoding/json`: an object is a
-- `map[string]interface{}` (its entries, at most one for a key), an array an `[]interface{}`, and a
-- number keeps its digits.
use prompt_sdk.Prelude.{Bool, Option, none, some, List, [], ◌∷◌, Text, text_eq, if◌then◌else◌}

mutual
  pub data Json : Type 0 where
    null : Json
    bool : Bool → Json
    num : Text → Json
    str : Text → Json
    arr : Items → Json
    obj : Object → Json

  pub data Items : Type 0 where
    nil : Items
    cons : Json → Items → Items

  pub data Object : Type 0 where
    end : Object
    field : Text → Json → Object → Object

-- `m[key]`
unfoldable pub find : Object → Text → Option Json
find end key = none
find (field k v o) key = if text_eq k key then some v else find o key

-- the assertions `.(string)`, `.([]interface{})`, `.(map[string]interface{})` on an entry
abbrev pub as_string : Option Json → Option Text
as_string (some (str s)) = some s
as_string _ = none

abbrev pub as_array : Option Json → Option Items
as_array (some (arr xs)) = some xs
as_array _ = none

abbrev pub as_object : Option Json → Option Object
as_object (some (obj o)) = some o
as_object _ = none

-- The strings among the items, in order.
unfoldable pub strings : Items → List Text
strings nil = []
strings (cons (str s) xs) = s ∷ strings xs
strings (cons _ xs) = strings xs

-- ===== src/Json.antt =====
-- The values that `json.Unmarshal` gives for an `interface{}`: encoding/json of the standard
-- library. `F` is float64, of which the program uses an order and a rounding at most.
use market_proxy.Prelude.{String, Bool, Option, none, some, ◌==◌, string_eq, if◌then◌else◌}

mutual
  pub data Json (F : Type 0) : Type 0 where
    null : Json F
    bool : Bool → Json F
    num : F → Json F
    str : String → Json F
    arr : Items F → Json F
    obj : Fields F → Json F

  pub data Items (F : Type 0) : Type 0 where
    nil : Items F
    cons : Json F → Items F → Items F

  -- A `map[string]interface{}`.
  pub data Fields (F : Type 0) : Type 0 where
    end : Fields F
    field : String → Json F → Fields F → Fields F

module _ {F : Type 0} where
  -- `m[key]`
  unfoldable pub get_field : String → Fields F → Option (Json F)
  get_field key end = none
  get_field key (field k v fs) = if k == key then some v else get_field key fs

  -- A type assertion to a map, and one to a string.
  abbrev pub as_map : Json F → Option (Fields F)
  as_map (obj fs) = some fs
  as_map _ = none

  abbrev pub as_string : Json F → Option String
  as_string (str s) = some s
  as_string _ = none

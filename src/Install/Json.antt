-- ===== src/Install/Json.antt =====
-- Go's `map[string]any`, as encoding/json decodes it: values, and maps as fields in some order. A
-- number is the text of its float64.
pub mod Fields
use cachy.Base.{Bool, true, false, Option, none, some, List, [], ◌∷◌, ◌≡◌, refl, ap, if◌then◌else◌}
use cachy.Text.{Bytes, equal}

mutual
  pub data Json : Type 0 where
    null : Json
    boolean : Bool → Json
    number : Bytes → Json
    string : Bytes → Json
    array : JsonItems → Json
    object : JsonFields → Json

  pub data JsonItems : Type 0 where
    nil : JsonItems
    item : Json → JsonItems → JsonItems

  pub data JsonFields : Type 0 where
    empty : JsonFields
    field : Bytes → Json → JsonFields → JsonFields

-- m[key], with `none` for a key that is not there
unfoldable pub get : Bytes → JsonFields → Option Json
get key empty = none
get key (field k v m) = if equal k key then some v else get key m

-- m[key] = value
unfoldable pub set : Bytes → Json → JsonFields → JsonFields
set key value empty = field key value empty
set key value (field k v m) = if equal k key then field k value m else field k v (set key value m)

-- delete(m, key)
unfoldable pub delete : Bytes → JsonFields → JsonFields
delete key empty = empty
delete key (field k v m) = let rest = delete key m in if equal k key then rest else field k v rest

-- len(m) == 0
unfoldable pub is_empty : JsonFields → Bool
is_empty empty = true
is_empty (field k v m) = false

-- The type assertions; a value of another type is `none`.
unfoldable pub as_object : Option Json → Option JsonFields
as_object (some (object m)) = some m
as_object v = none

unfoldable pub as_string : Option Json → Option Bytes
as_string (some (string s)) = some s
as_string v = none

-- A failed assertion leaves the zero value.
unfoldable pub text_or_empty : Option Bytes → Bytes
text_or_empty none = []
text_or_empty (some s) = s

-- `s, _ := m[key].(string)`
unfoldable pub string_or_empty : Bytes → JsonFields → Bytes
unfolding as_string text_or_empty
string_or_empty key m = text_or_empty (as_string (get key m))

-- `b, _ := m[key].(bool)`
unfoldable pub as_bool : Option Json → Bool
as_bool (some (boolean b)) = b
as_bool v = false

-- cloneJSONMap copies maps in maps; arrays are shared, and never written to.
unfoldable mutual
  pub clone_json_map : JsonFields → JsonFields
  clone_json_map empty = empty
  clone_json_map (field k v m) = field k (clone_item v) (clone_json_map m)

  pub clone_item : Json → Json
  clone_item (object m) = object (clone_json_map m)
  clone_item null = null
  clone_item (boolean b) = boolean b
  clone_item (number n) = number n
  clone_item (string s) = string s
  clone_item (array xs) = array xs

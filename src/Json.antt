-- ===== src/Json.antt =====
-- JSON values as encoding/json decodes them, and the ways in which cmd/server reads them.
-- A number is the bit pattern of its float64; what Go computes with it is in `Floats`.
-- A JSONB column is an `Option Json`: `none` is NULL, which arrives as an empty byte slice.
use gsactions_mcp.Common.{
  ◌==◌, ℕ, String, Bool, true, false, Option, none, some, List, [], ◌∷◌, if◌then◌else◌,
}
use gsactions_mcp.Common.Int.{ℤ}

mutual
  pub data Json : Type 0 where
    null : Json
    bool : Bool → Json
    number : ℕ → Json
    string : String → Json
    array : Items → Json
    object : Fields → Json

  pub data Items : Type 0 where
    nil : Items
    cons : Json → Items → Items

  -- A decoded object holds each key once.
  pub data Fields : Type 0 where
    end : Fields
    field : String → Json → Fields → Fields

-- The float64 operations of the language and of fmt and strconv that the program uses.
pub record Floats : Type 0 where
  -- int64(x), for the conversion to time.Duration
  pub truncate : ℕ → ℤ
  pub less : ℕ → ℕ → Bool
  -- strconv.ParseFloat(s, 64), `none` on an error
  pub parse_float : String → Option ℕ
  -- fmt.Sprintf("%v", x) of a number, and of an array or an object
  pub show_float : ℕ → String
  pub show_composite : Json → String

-- m[key] of a map decoded from an object
unfoldable pub get_field : String → Fields → Option Json
get_field k end = none
get_field k (field j v fs) = if j == k then some v else get_field k fs

-- m[k] = v
unfoldable pub set_field : String → Json → Fields → Fields
set_field k v end = field k v end
set_field k v (field j w fs) = if j == k then field j v fs else field j w (set_field k v fs)

-- Type assertions with the comma-ok form.
abbrev pub as_string : Option Json → Option String
as_string (some (string s)) = some s
as_string _ = none

abbrev pub as_number : Option Json → Option ℕ
as_number (some (number x)) = some x
as_number _ = none

abbrev pub as_bool : Option Json → Option Bool
as_bool (some (bool b)) = some b
as_bool _ = none

abbrev pub as_object : Option Json → Option Fields
as_object (some (object fs)) = some fs
as_object _ = none

-- The first result of such an assertion: the zero value where it fails.
abbrev pub text_or_empty : Option String → String
text_or_empty none = ""
text_or_empty (some s) = s

-- json.Unmarshal into a map[string]interface{}: null leaves the map nil.
unfoldable pub unmarshal_map : Option Json → Option Fields
unmarshal_map (some (object fs)) = some fs
unmarshal_map (some null) = some end
unmarshal_map _ = none

abbrev entry : Json → Option String
entry (string s) = some s
entry null = some ""
entry _ = none

abbrev put_entry :
    String → Option String → Option (List (String × String)) → Option (List (String × String))
put_entry k (some s) (some m) = some ((k, s) ∷ m)
put_entry k _ _ = none

string_entries : Fields → Option (List (String × String))
string_entries end = some []
string_entries (field k v fs) = put_entry k (entry v) (string_entries fs)

-- json.Unmarshal into a map[string]string: every value must be a string or null.
unfoldable pub unmarshal_string_map : Option Json → Option (List (String × String))
unfolding string_entries
unmarshal_string_map (some (object fs)) = string_entries fs
unmarshal_string_map (some null) = some []
unmarshal_string_map _ = none

-- m[key] of a map[string]string, with the comma-ok form and without.
unfoldable pub get_text? : String → List (String × String) → Option String
get_text? k [] = none
get_text? k ((j, v) ∷ m) = if j == k then some v else get_text? k m

unfoldable pub get_text : String → List (String × String) → String
unfolding get_text?
get_text k m = text_or_empty (get_text? k m)

-- fmt.Sprintf("%v", x)
unfoldable pub show_value : Floats → Json → String
show_value f null = "<nil>"
show_value f (bool true) = "true"
show_value f (bool false) = "false"
show_value f (number x) = f.show_float x
show_value f (string s) = s
show_value f j = f.show_composite j

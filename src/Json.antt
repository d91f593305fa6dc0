-- ===== src/Json.antt =====
-- IoTRepublicPlus/Utility/JsonUtility.cpp and JsonUtility.h over the jansson library, which is the
-- parameter. A null `json_t *` is `none`; `string(NULL)` throws.
pub mod Laws
pub mod Text
use io_trepublic_plus.Base.{
  ℕ, Bool, true, false, Option, none, some, List, [], ◌∷◌, Bytes, str_eq, if◌then◌else◌, ◌>>=◌,
}
use io_trepublic_plus.Framing.{until_nul}

-- The jansson calls of the program. A setter returns the changed object.
pub record Jansson : Type 1 where
  pub Json : Type 0
  -- `json_loads(text, 0, &error)`
  pub loads : Bytes → Option Json
  -- `json_is_object`
  pub is_object : Json → Bool
  -- the keys in the order of `json_object_iter`; none for a value that is no object
  pub keys : Json → List Bytes
  -- `json_object_get`
  pub object_get : Json → Bytes → Option Json
  -- `json_object_set(object, key, json_string(value))`
  pub object_set_string : Json → Bytes → Bytes → Json
  -- `json_object_set` of the object that stands at a key, which the program changes in place
  pub object_set : Json → Bytes → Json → Json
  -- `json_string_value`; none for a value that is no string
  pub string_value : Json → Option Bytes
  -- `json_is_array`, `json_array_size`, `json_array_get`
  pub is_array : Json → Bool
  pub array_size : Json → ℕ
  pub array_get : Json → ℕ → Option Json
  -- `json_dumps` with the flags of `ExportJsonContent`
  pub dumps : Json → Option Bytes

abbrev pub has_key : Bytes → List Bytes → Bool
has_key k [] = false
has_key k (x ∷ xs) = if str_eq k x then true else has_key k xs

module _ (J : Jansson) where
  open J use {
    Json, loads, is_object, keys, object_get, object_set_string, object_set, string_value, is_array,
    array_size, array_get, dumps,
  }

  -- `LoadJsonData`: the text ends at its first '\0', as a C string.
  unfoldable pub load_json_data : Bytes → Option Json
  load_json_data text = loads (until_nul text)

  unfoldable pub export_json_content : Json → Option Bytes
  export_json_content root = dumps root

  first : List Bytes → Option Bytes
  first [] = none
  first (k ∷ ks) = some k

  -- Throws on a null root and on a root without keys.
  unfoldable pub get_first_key_name : Option Json → Option Bytes
  unfolding first
  get_first_key_name none = none
  get_first_key_name (some root) = first (keys root)

  -- Throws where the key is missing or its value is no string.
  unfoldable pub get_value_in_first_object : Option Json → Bytes → Option Bytes
  unfolding get_first_key_name
  get_value_in_first_object none key_name = none
  get_value_in_first_object (some root) key_name = do
    root_name ← get_first_key_name (some root)
    first_obj ← object_get root root_name
    value ← object_get first_obj key_name
    string_value value

  -- Only a key that is there is given a new value.
  set_in : Json → Bytes → Option Json → Bytes → Bytes → Json
  set_in root root_key none key_name value = root
  set_in root root_key (some first_obj) key_name value =
      if has_key key_name (keys first_obj)
      then object_set root root_key (object_set_string first_obj key_name value)
      else root

  unfoldable pub set_value_in_first_object : Json → Bytes → Bytes → Option Json
  unfolding get_first_key_name set_in
  set_value_in_first_object root key_name value =
      let changed = (do
        root_key ← get_first_key_name (some root)
        some (set_in root root_key (object_get root root_key) key_name value)) in
      if is_object root then changed else some root

  -- A key of an object, and none of a null pointer.
  abbrev get_in : Option Json → Bytes → Option Json
  get_in none key_name = none
  get_in (some root) key_name = object_get root key_name

  abbrev string_of : Option Json → Option Bytes
  string_of none = none
  string_of (some value) = string_value value

  abbrev array_of : Option Json → Option Json
  array_of none = none
  array_of (some arr) = if is_array arr then some arr else none

  unfoldable pub get_value_in_root_object : Option Json → Bytes → Option Bytes
  get_value_in_root_object root key_name = string_of (get_in root key_name)

  -- Throws where there is no array, no such element or no string.
  unfoldable pub get_array_value_in_first_object : Option Json → Bytes → ℕ → Bytes → Option Bytes
  get_array_value_in_first_object root array_name array_index key_name = do
    root_name ← get_first_key_name root
    arr ← array_of (get_in (get_in root root_name) array_name)
    string_of (get_in (array_get arr array_index) key_name)

  size_of : Option Json → ℕ
  size_of none = 0
  size_of (some arr) = array_size arr

  -- The length is 0 where there is no array.
  unfoldable pub get_array_length_in_first_object : Option Json → Bytes → Option ℕ
  unfolding size_of
  get_array_length_in_first_object root array_name = do
    root_name ← get_first_key_name root
    some (size_of (array_of (get_in (get_in root root_name) array_name)))

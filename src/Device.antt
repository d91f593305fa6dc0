-- ===== src/Device.antt =====
-- The description of a device: IoTRepublicPlus/IoT/IoTDevice.h and IoTComponent.h.
use io_trepublic_plus.Base.{
  ℕ, zero, suc, ◌+◌, Option, none, some, List, [], ◌∷◌, ◌++◌, Bytes, codes, str_eq, if◌then◌else◌,
  ◌>>=◌,
}
use io_trepublic_plus.Base.Int.{ℤ}
use io_trepublic_plus.Base.Decimal.{stoi}
use io_trepublic_plus.Json.{
  Jansson, load_json_data, get_value_in_first_object, get_array_value_in_first_object,
  get_array_length_in_first_object,
}

pub data ComType : Type 0 where
  unknown content button : ComType

-- `read_frequency` is `none` where it is left uninitialised.
pub record IoTComponent : Type 0 where
  pub id : Bytes
  pub group : Bytes
  pub name : Bytes
  pub type : ComType
  pub read_frequency : Option ℤ

pub record IoTDevice : Type 0 where
  pub iot_ip : Bytes
  pub device_id : Bytes
  pub device_name : Bytes
  pub function_group : Bytes
  pub component : List IoTComponent

abbrev pub new_device : IoTDevice
new_device = record {
  iot_ip = [];
  device_id = [];
  device_name = [];
  function_group = [];
  component = [];
}

-- The type that a text names.
unfoldable pub com_type : Bytes → ComType
com_type type =
    if str_eq type (codes "Button")
    then button
    else if str_eq type (codes "Content")
    then content
    else unknown

module _ (J : Jansson) where
  open J use {Json}

  abbrev component_array : Bytes
  component_array = codes "Component"

  -- Only a content component has a read frequency; it must be a number.
  read_frequency_of : ComType → Option Json → ℕ → Option (Option ℤ)
  read_frequency_of content js i = do
    text ← get_array_value_in_first_object J js component_array i (codes "ReadFrequency")
    n ← stoi text
    some (some n)
  read_frequency_of _ js i = some none

  -- One round of the loop over the components.
  unfoldable pub component_at : Option Json → ℕ → Option IoTComponent
  unfolding read_frequency_of
  component_at js i = do
    id ← get_array_value_in_first_object J js component_array i (codes "ID")
    name ← get_array_value_in_first_object J js component_array i (codes "Name")
    group ← get_array_value_in_first_object J js component_array i (codes "Group")
    type ← get_array_value_in_first_object J js component_array i (codes "Type")
    frequency ← read_frequency_of (com_type type) js i
    some (record {
      id = id;
      group = group;
      name = name;
      type = com_type type;
      read_frequency = frequency;
    })

  -- The loop, with `left` rounds to go.
  unfoldable pub components_from : Option Json → ℕ → ℕ → Option (List IoTComponent)
  components_from js zero i = some []
  components_from js (suc left) i = do
    c ← component_at js i
    rest ← components_from js left (i + 1)
    some (c ∷ rest)

  -- `SetJSDescription`
  unfoldable pub set_js_description : Bytes → IoTDevice → Option IoTDevice
  set_js_description desc d = do
    let js = load_json_data J desc
    device_id ← get_value_in_first_object J js (codes "DeviceID")
    device_name ← get_value_in_first_object J js (codes "DeviceName")
    function_group ← get_value_in_first_object J js (codes "FunctionGroup")
    count ← get_array_length_in_first_object J js component_array
    coms ← components_from js count 0
    some (record d {
      device_id = device_id;
      device_name = device_name;
      function_group = function_group;
      component = d.component ++ coms;
    })

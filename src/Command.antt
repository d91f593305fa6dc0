-- ===== src/Command.antt =====
-- Commands in JSON: IoTRepublicPlus/IoT/IoTCommand.h.
pub mod RoundTrip
use io_trepublic_plus.Base.{Option, none, some, [], Bytes, codes, str_eq, if◌then◌else◌, ◌>>=◌}
use io_trepublic_plus.Json.{
  Jansson, load_json_data, export_json_content, get_first_key_name, get_value_in_first_object,
  set_value_in_first_object,
}

pub data CommandType : Type 0 where
  no_type read_request read_response write management : CommandType

-- `cmd_type` is `none` where the constructor leaves it uninitialised.
pub record IoTCommand : Type 0 where
  pub cmd_type : Option CommandType
  pub id : Bytes
  pub value : Bytes
  pub sended_data : Bytes

abbrev pub command_template : Bytes
command_template = codes "{\"IOTCMD\":{\"Type\":\"None\",\"ID\":\"0\",\"Value\":\"0\"}}"

unfoldable pub type_str : CommandType → Bytes
type_str no_type = codes "None"
type_str read_request = codes "Req"
type_str read_response = codes "Res"
type_str write = codes "Wri"
type_str management = codes "Man"

-- The type that a text stands for; "None" and any other text stand for none.
unfoldable pub type_of_str : Bytes → Option CommandType
type_of_str type =
    if str_eq type (codes "Req")
    then some read_request
    else if str_eq type (codes "Res")
    then some read_response
    else if str_eq type (codes "Wri")
    then some write
    else if str_eq type (codes "Man")
    then some management
    else none

module _ (J : Jansson) where
  open J use {Json}

  fill : Option Json → CommandType → Bytes → Bytes → Option Bytes
  fill none cmd_type id value = some []
  fill (some root) cmd_type id value = do
    r1 ← set_value_in_first_object J root (codes "Type") (type_str cmd_type)
    r2 ← set_value_in_first_object J r1 (codes "ID") id
    r3 ← set_value_in_first_object J r2 (codes "Value") value
    export_json_content J r3

  -- `IoTCommand(cmdType, id, value)`
  unfoldable pub command_of : CommandType → Bytes → Bytes → Option IoTCommand
  unfolding fill
  command_of cmd_type id value = do
    sended ← fill (load_json_data J command_template) cmd_type id value
    some (record { cmd_type = some cmd_type; id = id; value = value; sended_data = sended })

  abbrev other_command : Bytes → IoTCommand
  other_command content = record { cmd_type = none; id = []; value = []; sended_data = content }

  -- `IoTCommand(string content)`, and `IoTCommand(vector *contentVector)`, which is the same
  unfoldable pub command_of_content : Bytes → Option IoTCommand
  command_of_content content = do
    let root = load_json_data J content
    root_name ← get_first_key_name J root
    let parsed = (do
      id ← get_value_in_first_object J root (codes "ID")
      value ← get_value_in_first_object J root (codes "Value")
      type ← get_value_in_first_object J root (codes "Type")
      some (record { cmd_type = type_of_str type; id = id; value = value; sended_data = content }))
    if str_eq root_name (codes "IOTCMD") then parsed else some (other_command content)

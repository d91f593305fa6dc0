-- ===== src/Rule.antt =====
-- Rules in JSON: IoTRepublicPlus/IoT/IoTRule.h.
pub mod RoundTrip
use io_trepublic_plus.Base.{Option, some, [], Bytes, codes, ◌>>=◌}
use io_trepublic_plus.Base.Int.{ℤ}
use io_trepublic_plus.Base.Decimal.{int_to_string, atoi}
use io_trepublic_plus.Json.{
  Jansson, load_json_data, export_json_content, get_value_in_first_object,
  set_value_in_first_object,
}

pub record IoTRule : Type 0 where
  pub type : Bytes
  pub name : Bytes
  pub read_from : Bytes
  pub read_id : Bytes
  pub read_value : Bytes
  pub write_to : Bytes
  pub write_id : Bytes
  pub write_value : Bytes
  pub write_rul : Bytes
  pub action_frequency : ℤ
  pub json_data : Bytes

abbrev pub rule_template : Bytes
rule_template =
    codes
      "{\"IOTRUL\":{\"Type\":\"\",\"Name\":\"\",\"ReadFrom\":\"\",\"ReadID\":\"\",\"ReadValue\":\"\",\"WriteTo\":\"\",\"WriteID\":\"\",\"WriteValue\":\"\",\"WriteRul\":\"\",\"ActionFrequency\":\"\"}}"

-- `IoTRule()`; the frequency is not initialised, so it is given.
abbrev pub blank_rule : ℤ → IoTRule
blank_rule frequency = record {
  type = [];
  name = [];
  read_from = [];
  read_id = [];
  read_value = [];
  write_to = [];
  write_id = [];
  write_value = [];
  write_rul = [];
  action_frequency = frequency;
  json_data = [];
}

module _ (J : Jansson) where
  -- `IoTRule(string jsonContent)`, on content that is loaded; `none` is a thrown exception.
  unfoldable pub rule_of_content : Bytes → Option IoTRule
  rule_of_content json_content =
      let root = load_json_data J json_content in
      let value : Bytes → Option Bytes = get_value_in_first_object J root in
      do
        type ← value (codes "Type")
        name ← value (codes "Name")
        read_from ← value (codes "ReadFrom")
        read_id ← value (codes "ReadID")
        read_value ← value (codes "ReadValue")
        write_to ← value (codes "WriteTo")
        write_id ← value (codes "WriteID")
        write_value ← value (codes "WriteValue")
        write_rul ← value (codes "WriteRul")
        frequency ← value (codes "ActionFrequency")
        some (record {
          type = type;
          name = name;
          read_from = read_from;
          read_id = read_id;
          read_value = read_value;
          write_to = write_to;
          write_id = write_id;
          write_value = write_value;
          write_rul = write_rul;
          action_frequency = atoi frequency;
          json_data = json_content;
        })

  -- `Packet()`: the rule's fields in the template.
  unfoldable pub packet : IoTRule → Option IoTRule
  packet r = do
    r0 ← load_json_data J rule_template
    r1 ← set_value_in_first_object J r0 (codes "Type") r.type
    r2 ← set_value_in_first_object J r1 (codes "Name") r.name
    r3 ← set_value_in_first_object J r2 (codes "ReadFrom") r.read_from
    r4 ← set_value_in_first_object J r3 (codes "ReadID") r.read_id
    r5 ← set_value_in_first_object J r4 (codes "ReadValue") r.read_value
    r6 ← set_value_in_first_object J r5 (codes "WriteTo") r.write_to
    r7 ← set_value_in_first_object J r6 (codes "WriteID") r.write_id
    r8 ← set_value_in_first_object J r7 (codes "WriteValue") r.write_value
    r9 ← set_value_in_first_object J r8 (codes "WriteRul") r.write_rul
    ra ← set_value_in_first_object J r9 (codes "ActionFrequency") (int_to_string r.action_frequency)
    content ← export_json_content J ra
    some (record r { json_data = content })

-- ===== src/Tests/ConfigRuns.antt =====
-- A configuration file, with a small library for JSON.
use io_trepublic_plus.Base.{◌≡◌, refl, some, ◌∷◌, Bytes, codes, arith}
use io_trepublic_plus.Base.Int.{pos, to_int}
use io_trepublic_plus.Base.Decimal.{int_to_string, to_string}
use io_trepublic_plus.Json.Laws.{PlainFields, object_text}
use io_trepublic_plus.Config.{ManagerConfig, default_config, load_config_file, solid}
use io_trepublic_plus.Config.Load.{HasInts, fields_of, load_config_file-fields_of}
use io_trepublic_plus.Tests.PlainJson.{plain_json}
use io_trepublic_plus.Tests.PlainJson.Lawful.{plain_json-IsLawful}

abbrev config : ManagerConfig
config = record default_config {
  io_t_manager = pos 1;
  manager_port = pos 6210;
  max_receive_buffer = pos 2000;
  manager_ip = codes "127.0.0.1";
}

-- Its text, with white space in front.
abbrev config_file : Bytes
config_file = 32 ∷ 10 ∷ object_text (codes "CONFIG") (fields_of config)

config-PlainFields : PlainFields (fields_of config)
unfolding int_to_string to_string to_int
config-PlainFields = ground arith

config-HasInts : HasInts config
config-HasInts = record {
  brocast_server = omega arith;
  io_t_manager = omega arith;
  xbee_broker = omega arith;
  fake_broker = omega arith;
  cloud_bridge = omega arith;
  cloud_uploader = omega arith;
  manager_port = omega arith;
  brocast_port = omega arith;
  max_receive_buffer = omega arith;
  max_client_of_manager = omega arith;
  ruler_action_frequency = omega arith;
  xbee_com_number = omega arith;
  xbee_baud_rate = omega arith;
  cloud_server_port = omega arith;
}

solid-config_file : solid config_file ≡ object_text (codes "CONFIG") (fields_of config)
unfolding int_to_string to_string to_int
solid-config_file = refl

load_config_file-fields_of_example :
    load_config_file plain_json (some config_file) default_config ≡ some config
load_config_file-fields_of_example =
    load_config_file-fields_of plain_json plain_json-IsLawful (codes "CONFIG") config_file config
      default_config (ground arith) config-PlainFields config-HasInts solid-config_file

-- ===== src/Tests/LoRaRuns.antt =====
-- Runs of the LoRa broker, and inputs that meet the theorems' conditions.
use io_trepublic_plus.Base.{
  length, ◌%◌, ◌≡◌, ◌≤◌, ◌↔◌, refl, sym, ap, false, true, none, some, [], ◌∷◌, ◌++◌, Bytes, codes,
  drop, take, str_eq, arith, ◌>>=◌,
}
use io_trepublic_plus.Base64.{
  base64_decode, base64_encode, decode, encode, left_over, sextet, sextets, symbol,
}
use io_trepublic_plus.Package.{IoTPackage, empty_package, protocol_version}
use io_trepublic_plus.Json.{
  Jansson, export_json_content, get_first_key_name, get_value_in_first_object, load_json_data,
  set_value_in_first_object,
}
use io_trepublic_plus.Framing.{until_nul}
use io_trepublic_plus.Command.{
  IoTCommand, command_of, command_of_content, command_template, read_response, type_of_str,
}
use io_trepublic_plus.Broker.{ask_call}
use io_trepublic_plus.Broker.Drain.{handle_all}
use io_trepublic_plus.Broker.Serve.{
  handle_receive_package, server_round, server_round-wires, swapped,
}
use io_trepublic_plus.LoRa.{LoRaBroker, LoRaDevice, Radio, Window, succeed}
use io_trepublic_plus.LoRa.Serial.{
  add_node, check_alive, check_alive_from, clear_comport_buffer, clear_end_node_buffer,
  command_node, decoded, framed, get_response, next_window, node_data, recv_at_from,
  recv_at_response, recv_data, recv_from, send_at_command, send_data, starts_with,
}
use io_trepublic_plus.LoRa.Serial.Frame.{asked, get_response-framed}
use io_trepublic_plus.LoRa.Serial.Limit.{get_response-length}
use io_trepublic_plus.Config.{read_text_file_to_vector}
use io_trepublic_plus.LoRa.Serial.Retry.{check_alive_from-IsStale}
use io_trepublic_plus.LoRa.Config.{devices_of, load_lora_config_file, split_from}
use io_trepublic_plus.LoRa.Config.Split.{
  load_lora_config_file-config_text, load_lora_config_file-none_iff, separators,
}
use io_trepublic_plus.LoRa.Scan.{
  ask, check_devices, probe, register_devices, registration, scan_all_device,
}
use io_trepublic_plus.LoRa.Scan.Register.{Scanned, scan_all_device-Scanned}
use io_trepublic_plus.LoRa.Serve.{find_device_index, handle_forwarding_package, lora_broker}
use io_trepublic_plus.LoRa.Serve.Forward.{exchanged, handle_forwarding_package-exchanged}
use io_trepublic_plus.Tests.{
  ip_request, ip_request-IsSendable, ip_request-wire, no_json, nothing-Pending, request_bytes,
}

-- A json library that reads every text as a command whose texts are all "T".
abbrev pub command_json : Jansson
command_json = record {
  Json = Bytes;
  loads = λ text. some text;
  is_object = λ j. true;
  keys = λ j. codes "IOTCMD" ∷ [];
  object_get = λ j k. some j;
  object_set_string = λ j k v. j;
  object_set = λ j k v. j;
  string_value = λ j. some (codes "T");
  is_array = λ j. false;
  array_size = λ j. 0;
  array_get = λ j i. none;
  dumps = λ j. some j;
}

abbrev pub t_command : IoTCommand
t_command = record { cmd_type = none; id = codes "T"; value = codes "T"; sended_data = codes "x" }

abbrev silent : Window
silent = record { start = 0; polls = [] }

abbrev hears : Bytes → Window
hears text = record { start = 0; polls = record { now = 0; got = text; later = 0 } ∷ [] }

abbrev lamp : LoRaDevice
lamp = record { iot_ip = []; lora_address = codes "A1"; device_description = codes "lamp" }

load_lora_config_file-config_text_example :
    load_lora_config_file (some (codes "A1@la mp" ++ (10 ∷ []))) (lamp ∷ [])
    ≡ some (lamp ∷ lamp ∷ [])
load_lora_config_file-config_text_example =
    load_lora_config_file-config_text (codes "A1@la mp" ++ (10 ∷ [])) lamp [] (lamp ∷ [])
      (
        record { no_address = refl; address_part = ground arith; description_part = ground arith },
        tt,
      )
      refl

load_lora_config_file-none_iff_example :
    (load_lora_config_file (some (codes "A1@lamp@A2")) [] ≡ none)
    ↔ (separators (codes "A1@lamp@A2") % 2 ≡ 0)
load_lora_config_file-none_iff_example =
    load_lora_config_file-none_iff (some (codes "A1@lamp@A2")) []

-- The Base64 text of "42" between the codes, and the end of a line.
abbrev answer_text : Bytes
answer_text = (base64_encode (framed (codes "42"))).0 ++ (13 ∷ [])

answer_came :
    recv_from 20 0 [] (record { now = 0; got = answer_text; later = 0 } ∷ []) ≡ some answer_text
unfolding recv_from base64_encode encode symbol
answer_came = refl

get_response-framed_example :
    (get_response 20
        (codes "A1")
        []
        (record { windows = silent ∷ hears answer_text ∷ []; serial = [] })
      ≡ some (succeed, codes "42", asked (codes "A1") [] []))
    × (length (codes "42") ≤ 25)
get_response-framed_example =
    get_response-framed (codes "A1") (codes "42") (13 ∷ []) silent (hears answer_text) [] []
      (ground arith) (ground arith) answer_came

get_response-length_example : length (codes "42") ≤ 28
get_response-length_example =
    get_response-length (codes "A1") (codes "42")
      (record { windows = silent ∷ hears answer_text ∷ []; serial = [] }) (asked (codes "A1") [] [])
      (get_response-framed (codes "A1") (codes "42") (13 ∷ []) silent (hears answer_text) [] []
        (ground arith) (ground arith) answer_came).0

-- A node that answers "NAK" is asked once more and says nothing.
abbrev asked_again : Radio
asked_again = record {
  windows = [];
  serial =
      node_data (codes "A1") (codes "S")
      ∷ node_data (codes "A1") (codes "AlNZTgM=")
      ∷ node_data (codes "A1") (codes "S")
      ∷ [];
}

stale_run :
    check_alive_from (codes "A1") 1 (codes "NAK") (record { windows = []; serial = [] })
    ≡ some (false, asked_again)
unfolding check_alive_from clear_end_node_buffer clear_comport_buffer next_window send_data
    recv_data recv_from base64_encode encode symbol
stale_run = refl

check_alive_from-IsStale_example : false ≡ false
unfolding starts_with
check_alive_from-IsStale_example =
    check_alive_from-IsStale (codes "A1") 1 (codes "NAK") (record { windows = []; serial = [] })
      asked_again false refl stale_run

-- A broker that knows its manager, with one lamp.
abbrev lora : LoRaBroker
lora = record {
  self_iot_ip = codes "DEV.1";
  manager_iot_ip = codes "Master";
  now_scanning = false;
  lora_devices = record lamp { iot_ip = codes "DEV.2" } ∷ [];
  radio = record { windows = []; serial = [] };
  answers = [];
  sent = [];
  rescans = 0;
}

server_round-wires_example :
    server_round no_json (lora_broker no_json) (drop 9 request_bytes) (take 9 request_bytes, lora)
    ≡ (handle_all (handle_receive_package no_json (lora_broker no_json)) (ip_request ∷ []) lora
        >>= λ b1. some ([], b1))
server_round-wires_example =
    server_round-wires no_json (lora_broker no_json) (take 9 request_bytes) (drop 9 request_bytes)
      [] (ip_request ∷ []) lora (ip_request-IsSendable, tt) nothing-Pending
      (ap (λ w. (w ++ []) ++ []) (sym ip_request-wire)) refl (omega arith) (omega arith)

-- The request to the lamp's node, and the answer.
abbrev asking : LoRaBroker
asking = record lora {
  radio = record { windows = silent ∷ silent ∷ hears answer_text ∷ []; serial = [] };
}

pub read_t : command_of_content command_json (codes "x") ≡ some t_command
unfolding command_of_content load_json_data until_nul get_first_key_name get_value_in_first_object
    type_of_str str_eq
read_t = refl

pub respond_t :
    (value : Bytes)
    → command_of command_json read_response (codes "T") value
      ≡ some (record {
        cmd_type = some read_response;
        id = codes "T";
        value = value;
        sended_data = command_template;
      })
unfolding command_of load_json_data until_nul get_first_key_name set_value_in_first_object
    export_json_content str_eq
respond_t value = refl

abbrev pub t_package : IoTPackage
t_package = record empty_package {
  ver = protocol_version;
  sor_ip = codes "Master";
  des_ip = codes "DEV.2";
  data_vector = codes "x";
}

abbrev pub t_answer : Bytes → IoTCommand
t_answer value = record {
  cmd_type = some read_response;
  id = codes "T";
  value = value;
  sended_data = command_template;
}

handle_forwarding_package-exchanged_example :
    handle_forwarding_package command_json t_package asking
    ≡ some (record asking {
      radio = clear_comport_buffer (exchanged (codes "A1") (codes "T") [] []);
      sent = swapped t_package command_template ∷ [];
    })
unfolding find_device_index str_eq
handle_forwarding_package-exchanged_example =
    handle_forwarding_package-exchanged command_json t_package asking t_command read_t
      (record lamp { iot_ip = codes "DEV.2" }) (t_answer (codes "42")) (codes "42") (13 ∷ []) silent
      silent (hears answer_text) [] [] refl refl (omega arith) (ground arith) (ground arith)
      (omega arith) answer_came (respond_t (codes "42"))

-- The node of the file's only device joins and answers; the manager cannot be reached for an address.
abbrev scanning : LoRaBroker
scanning = record lora {
  lora_devices = [];
  radio = record {
    windows =
        silent
        ∷ hears (codes "JoinOK")
        ∷ silent
        ∷ silent
        ∷ silent
        ∷ hears (codes "QUNL" ++ (13 ∷ []))
        ∷ [];
    serial = [];
  };
  answers = none ∷ [];
}

abbrev scanned : LoRaBroker
scanned = record scanning {
  lora_devices = lamp ∷ [];
  radio = record {
    windows = [];
    serial =
        (codes "LoraJoinNode A1" ++ (13 ∷ []))
        ∷ node_data (codes "A1") (codes "S")
        ∷ node_data (codes "A1") (codes "AlNZTgM=")
        ∷ node_data (codes "A1") (codes "S")
        ∷ [];
  };
  answers = [];
  sent = registration (codes "Master") lamp ∷ [];
}

scan_run : scan_all_device (some (codes "A1@lamp")) scanning ≡ some scanned
unfolding scan_all_device load_lora_config_file read_text_file_to_vector split_from devices_of
    check_devices probe add_node command_node send_at_command recv_at_response recv_at_from
    next_window str_eq check_alive check_alive_from clear_end_node_buffer clear_comport_buffer
    send_data recv_data recv_from decoded base64_decode sextets sextet decode left_over
    base64_encode encode symbol starts_with register_devices ask ask_call
scan_run = refl

scan_all_device-Scanned_example : Scanned (some (codes "A1@lamp")) scanning scanned
scan_all_device-Scanned_example =
    scan_all_device-Scanned (some (codes "A1@lamp")) scanning scanned refl scan_run

-- ===== src/Tests/Clients.antt =====
-- Runs of Base64 and of the uploader, and inputs that meet the theorems' conditions.
use io_trepublic_plus.Base.{
  ltb, ap, ◌∙◌, append-nil, take-append-drop, ◌<◌, ◌^◌, Bytes, length, subst, sym, take, drop, ℕ,
  zero, suc, ◌≡◌, refl, true, none, some, [], ◌∷◌, ◌++◌, codes, arith, str_eq, if◌then◌else◌, ◌>>=◌,
}
use io_trepublic_plus.Base.Int.{pos, to_int, ◌+ℤ◌}
use io_trepublic_plus.Base.Decimal.{int_to_string, to_string}
use io_trepublic_plus.Package.Checksum.{fold_sum, sum_unsigned}
use io_trepublic_plus.Manager.Stream.{IsSendable, wire_of}
use io_trepublic_plus.Manager.Answer.{address, address_message}
use io_trepublic_plus.Broker.Ask.{ask_iot_ip-answer}
use io_trepublic_plus.Package.{
  IoTPackage, package_of_string_default, empty_package, header_length_of, package_of_string,
  packet_to_sending_vector,
}
use io_trepublic_plus.Base64.{base64_encode, base64_decode, encode, symbol}
use io_trepublic_plus.Base64.RoundTrip.{base64_decode-base64_encode}
use io_trepublic_plus.Json.{Jansson, export_json_content, load_json_data, set_value_in_first_object}
use io_trepublic_plus.Framing.{is_start_word}
use io_trepublic_plus.Manager.State.{DeviceInfo, server_iot_ip}
use io_trepublic_plus.Manager.Devices.{encode_all_registed_devices}
use io_trepublic_plus.Broker.{ask_iot_ip}
use io_trepublic_plus.Command.{IoTCommand, command_of, management}
use io_trepublic_plus.Framing.Columns.{symbols}
use io_trepublic_plus.Manager.State.{Manager, send_data_to_exists_connection}
use io_trepublic_plus.Manager.Handle.{command_handler}
use io_trepublic_plus.Uploader.{Uploader}
use io_trepublic_plus.Uploader.DeviceList.{described_devices}
use io_trepublic_plus.Uploader.StartUp.{device_request, get_all_device_description, send_data}
use io_trepublic_plus.Uploader.StartUp.Answered.{
  get_all_device_description-answered, in_time, list_message,
}
use io_trepublic_plus.Uploader.Stuck.{marked, receive_all, receive_all-IsStuck}
use io_trepublic_plus.Tests.{first_manager, no_json, request_bytes}

hello_run : base64_encode (codes "Hello") ≡ (codes "SGVsbG8=" ++ (0 ∷ []), 8)
unfolding base64_encode encode symbol
hello_run = refl

base64_decode-base64_encode_example :
    (base64_decode ((base64_encode (codes "Hello")).0 ++ codes "more")
      ≡ some (codes "Hello" ++ (0 ∷ []), 5))
    × ((base64_encode (codes "Hello")).1 ≡ 8)
base64_decode-base64_encode_example =
    base64_decode-base64_encode (codes "Hello") (codes "more") (ground arith)

-- A json library that reads every text as an object with the texts of one device and no components:
-- 0 is the root, 1 its first object, 2 a text, 3 an empty array.
abbrev lamp_json : Jansson
lamp_json = record {
  Json = ℕ;
  loads = λ text. some 0;
  is_object = λ j. true;
  keys = λ j. codes "IOTDEV" ∷ [];
  object_get = λ j k. elim j [
    | zero ↦ some 1
    | suc i ↦ if str_eq k (codes "Component") then some 3 else some 2
  ];
  object_set_string = λ j k v. j;
  object_set = λ j k v. j;
  string_value = λ j. some (codes "lamp");
  is_array = λ j. true;
  array_size = λ j. 0;
  array_get = λ j i. none;
  dumps = λ j. some [];
}

abbrev listed : DeviceInfo
listed = record {
  iot_ip = codes "DEV.7";
  function_group = codes "UI";
  device_id = codes "lamp";
  device_description = codes "{}";
  socket_index = 0;
  proxied = pos 0;
}

abbrev uploader : Uploader
uploader = record {
  login_id = codes "id";
  login_pw = codes "pw";
  self_iot_ip = codes "DEV.1";
  manager_iot_ip = codes "Master";
  all_devices = [];
  posted = [];
  sent = [];
}

abbrev listed_manager : Manager
listed_manager = record first_manager { registed_devices = listed ∷ [] }

-- The manager's list, and the command that asks for it.
abbrev list_bytes : Bytes
list_bytes = wire_of (list_message (codes "DEV.1") listed_manager)

abbrev list_command : IoTCommand
list_command = record {
  cmd_type = some management;
  id = codes "Dis_All";
  value = codes "0";
  sended_data = [];
}

abbrev list_request : IoTPackage
list_request = record empty_package { sor_ip = codes "DEV.1"; des_ip = server_iot_ip }

abbrev request : Bytes
request = (package_of_string_default (codes "DEV.1") (codes "Master") []).data_vector_for_sending

request_run : device_request lamp_json uploader ≡ some request
unfolding device_request command_of load_json_data set_value_in_first_object export_json_content
request_run = refl

list_message-IsSendable : IsSendable (list_message (codes "DEV.1") listed_manager)
unfolding int_to_string to_int to_string encode_all_registed_devices
list_message-IsSendable = record {
  message = record {
    ver_text = ground arith;
    so_text = ground arith;
    des_text = ground arith;
    guessed = ground arith;
    fits = omega arith;
  };
  ascii = ground arith;
}

list_length : length list_bytes ≡ 37
unfolding package_of_string packet_to_sending_vector header_length_of int_to_string to_string to_int
    fold_sum ◌+ℤ◌ sum_unsigned encode_all_registed_devices
list_length = refl

-- The answer comes in two parts; the first one ends in the data.
get_all_device_description-answered_example :
    (command_handler lamp_json 0 list_command list_request listed_manager
      ≡ send_data_to_exists_connection 0 list_bytes listed_manager)
    × (get_all_device_description lamp_json
          (in_time (take 30 list_bytes ∷ drop 30 list_bytes ∷ []))
          uploader
        ≡ (if ltb (symbols (take 30 list_bytes)) 5
            then some (send_data request uploader)
            else described_devices lamp_json (listed ∷ []) >>= λ devices.
                some (record (send_data request uploader) { all_devices = devices })))
get_all_device_description-answered_example =
    get_all_device_description-answered lamp_json listed_manager 0 list_command list_request
      uploader request (take 30 list_bytes) (drop 30 list_bytes ∷ []) refl refl request_run
      (ground arith) list_message-IsSendable (omega (arith, list_length))
      (ap (λ r. take 30 list_bytes ++ r) (append-nil (drop 30 list_bytes))
        ∙ take-append-drop 30 list_bytes)

receive_all-IsStuck_example :
    receive_all no_json (request_bytes ∷ []) (codes "GARBAGE", uploader)
    ≡ some (marked no_json (request_bytes ∷ []) (codes "GARBAGE"), uploader)
unfolding is_start_word str_eq
receive_all-IsStuck_example =
    receive_all-IsStuck no_json (request_bytes ∷ []) (codes "GARBAGE") uploader (omega arith, refl)

-- The manager's first answer.
abbrev answer_bytes : Bytes
answer_bytes =
    codes "IUDP1.0"
    ++ (0 ∷ 50 ∷ 54 ∷ 0 ∷ 48 ∷ 0 ∷ (codes "Master" ++ (0 ∷ (codes "DEV.0" ++ (0 ∷ 6 ∷ 2 ∷ [])))))

answer_run : wire_of (address_message 0) ≡ answer_bytes
unfolding package_of_string packet_to_sending_vector header_length_of int_to_string to_string to_int
    fold_sum ◌+ℤ◌ sum_unsigned
answer_run = refl

ask_iot_ip-answer_example :
    ask_iot_ip [] (take 9 answer_bytes ∷ [] ∷ drop 9 answer_bytes ∷ [])
    ≡ some (some (address 0, server_iot_ip))
ask_iot_ip-answer_example =
    ask_iot_ip-answer 0 [] (take 9 answer_bytes ∷ [] ∷ drop 9 answer_bytes ∷ []) (omega arith)
      (subst (λ w. length w < 2 ^ 31) (sym answer_run) (omega arith)) refl (sym answer_run)

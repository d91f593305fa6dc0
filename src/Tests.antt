-- ===== src/Tests.antt =====
-- Runs of the model on small inputs, and inputs that meet the theorems' conditions.
mod Managers
mod Clients
mod Rules
pub mod LoRaRuns
mod ServerRuns
mod JsonRuns
pub mod PlainJson
mod XBeeRuns
mod BridgeRuns
mod ConfigRuns
use io_trepublic_plus.Base.{
  ℕ, ◌+◌, ◌^◌, ◌<◌, ◌≡◌, ◌↔◌, ◌⊎◌, refl, sym, false, none, some, [], ◌∷◌, ◌++◌, Bytes, codes,
  length, filter, not, take, drop, subst, ap, str_eq, arith, ◌>>=◌,
}
use io_trepublic_plus.Base.Int.{pos, to_int, ◌+ℤ◌}
use io_trepublic_plus.Base.Decimal.{int_to_string, to_string}
use io_trepublic_plus.Package.{
  protocol_version, header_length_of, other_columns, package_of_string, packet_to_sending_vector,
}
use io_trepublic_plus.Package.HeaderLength.{header_length_of-correct_iff, IsGuessed, wire_header}
use io_trepublic_plus.Package.Checksum.{fold_sum, sum_unsigned}
use io_trepublic_plus.Package.Checksum.Folding.{fold_sum-residue, residue}
use io_trepublic_plus.Framing.{
  start_word_error, checksum_error, iot_utility, get_completed_package, refused, is_valid_package,
  is_start_word,
}
use io_trepublic_plus.Framing.Consumes.{Cut, Refused, get_completed_package-Cut}
use io_trepublic_plus.Framing.Sent.{IsMessage, frame_of, frame_of-IsFrame, wire, received}
use io_trepublic_plus.Framing.Incomplete.{Waits, get_completed_package-IsIncomplete}
use io_trepublic_plus.Framing.RoundTrip.{
  get_completed_package-package_of_string, get_completed_package-high_bytes,
}
use io_trepublic_plus.Json.{Jansson}
use io_trepublic_plus.Rule.{IoTRule, blank_rule}
use io_trepublic_plus.Manager.State.{DeviceInfo, Manager, ManagerState, RuleInstance, server_iot_ip}
use io_trepublic_plus.Manager.Devices.{
  find_device_index_by_device_id, find_device_index_by_iot_ip, get_new_iot_ip, has_id, has_ip,
  has_socket, is_socket_index_exists_any_device, remove_device_by_iot_ip,
  remove_device_by_socket_index, replace_device,
}
use io_trepublic_plus.Manager.Devices.Erase.{remove_device-filter}
use io_trepublic_plus.Manager.Devices.Registry.{
  Finds, Unique, find_device_index-Finds, replace_device-filter,
}
use io_trepublic_plus.Manager.Devices.Address.{get_new_iot_ip-injective}
use io_trepublic_plus.Manager.Rules.{is_stale, notice_reload_device_list}
use io_trepublic_plus.Manager.Rules.Numbers.{notice_reload_device_list-filter}
use io_trepublic_plus.Manager.Invariant.{WellFormed}
use io_trepublic_plus.Manager.Denied.{without, event_connection_denied-lem}
use io_trepublic_plus.Manager.Events.{Event, denied, next, start, step, Reachable-WellFormed}
use io_trepublic_plus.Manager.Answer.{address, address_message, answer_ip_request-received}
use io_trepublic_plus.Manager.Handle.{
  handle_loop, event_received_data, dispatch, manager_utility, event_connection_denied,
}
use io_trepublic_plus.Manager.Stream.{
  Message, IsSendable, Pending, sent_package, wires, wire_of, dispatch_all, handle_loop-wires,
  handle_loop-fuel,
}
use io_trepublic_plus.Manager.Chunks.{receive_parts, dispatched, receive_parts-wires}

-- A json library that reads no text.
abbrev pub no_json : Jansson
no_json = record {
  Json = Bytes;
  loads = λ text. none;
  is_object = λ j. false;
  keys = λ j. [];
  object_get = λ j k. none;
  object_set_string = λ j k v. j;
  object_set = λ j k v. j;
  string_value = λ j. none;
  is_array = λ j. false;
  array_size = λ j. 0;
  array_get = λ j i. none;
  dumps = λ j. none;
}

-- A request for an address.
abbrev pub ip_request : Message
ip_request = record { so_ip = codes "0"; des_ip = codes "0"; content = codes "IP" }

ip_request-IsMessage : IsMessage protocol_version (codes "0") (codes "0") (codes "IP")
unfolding int_to_string to_int to_string
ip_request-IsMessage = record {
  ver_text = ground arith;
  so_text = ground arith;
  des_text = ground arith;
  guessed = ground arith;
  fits = omega arith;
}

ip_request-IsSendable : IsSendable ip_request
ip_request-IsSendable = record { message = ip_request-IsMessage; ascii = ground arith }

abbrev pub first_manager : Manager
first_manager = record {
  ip_count = 0;
  registed_devices = [];
  client_sockets = 5 ∷ 0 ∷ [];
  rules = [];
  next_rule_id = 0;
  action_frequency = pos 100;
  sent = [];
}

abbrev pub first_state : ManagerState
first_state = record { manager = first_manager; package_buffer = [] ∷ [] ∷ [] }

-- The request on the wire.
abbrev pub request_bytes : Bytes
request_bytes =
    codes "IUDP1.0" ++ (0 ∷ 49 ∷ 55 ∷ 0 ∷ 50 ∷ 0 ∷ 48 ∷ 0 ∷ 48 ∷ 0 ∷ 73 ∷ 80 ∷ 3 ∷ 84 ∷ [])

ip_request-wire : wire_of ip_request ≡ request_bytes
unfolding package_of_string packet_to_sending_vector header_length_of int_to_string to_string to_int
    fold_sum ◌+ℤ◌ sum_unsigned
ip_request-wire = refl

nothing-Pending : Pending []
nothing-Pending = record {
  message = ip_request;
  sendable = ip_request-IsSendable;
  missing = wire_of ip_request;
  not_whole = λ q. ground (arith, ip_request-wire);
  splits = refl;
}

abbrev ip_answer : Bytes
ip_answer =
    codes "IUDP1.0"
    ++ (0 ∷ 50 ∷ 54 ∷ 0 ∷ 48 ∷ 0 ∷ (codes "Master" ++ (0 ∷ (codes "DEV.0" ++ (0 ∷ 6 ∷ 2 ∷ [])))))

small_wire : length (wires (ip_request ∷ []) ++ []) < 100
small_wire = subst (λ w. length ((w ++ []) ++ []) < 100) (sym ip_request-wire) (omega arith)

get_completed_package-package_of_string_example :
    get_completed_package (iot_utility protocol_version 0) (wire_of ip_request ++ codes "IUD")
    ≡ some (received protocol_version (codes "0") (codes "0") (codes "IP") (codes "IUD"))
get_completed_package-package_of_string_example =
    get_completed_package-package_of_string protocol_version (codes "0") (codes "0") (codes "IP")
      (codes "IUD") 0 ip_request-IsMessage (ground arith)
      (subst (λ w. length (w ++ codes "IUD") < 2 ^ 31) (sym ip_request-wire) (omega arith))

get_completed_package-high_bytes_example :
    get_completed_package
      (iot_utility protocol_version 0)
      (wire protocol_version (codes "0") (codes "0") (200 ∷ 7 ∷ []) ++ [])
    ≡ some (
        refused checksum_error (wire protocol_version (codes "0") (codes "0") (200 ∷ 7 ∷ []) ++ []))
unfolding int_to_string to_int to_string package_of_string packet_to_sending_vector header_length_of
    fold_sum ◌+ℤ◌
get_completed_package-high_bytes_example =
    get_completed_package-high_bytes protocol_version (codes "0") (codes "0") (200 ∷ 7 ∷ []) [] 0
      (record {
        ver_text = ground arith;
        so_text = ground arith;
        des_text = ground arith;
        guessed = ground arith;
        fits = omega arith;
      })
      (ground arith) (omega arith) (omega arith) (omega arith)

receive_parts-wires_example :
    receive_parts no_json 0 (take 9 request_bytes ∷ drop 9 request_bytes ∷ []) first_state
    ≡ dispatched no_json 0 (ip_request ∷ []) [] first_state
receive_parts-wires_example =
    receive_parts-wires no_json 0 (ip_request ∷ []) [] (take 9 request_bytes)
      (drop 9 request_bytes ∷ []) [] first_state (ip_request-IsSendable, tt) nothing-Pending refl
      (ap (λ w. (w ++ []) ++ []) (sym ip_request-wire)) (omega (arith, small_wire))

handle_loop-fuel_example :
    handle_loop no_json 22 0 request_bytes first_manager
    ≡ handle_loop no_json 1000 0 request_bytes first_manager
handle_loop-fuel_example =
    handle_loop-fuel no_json 0 22 1000 request_bytes first_manager (omega arith) (omega arith)
      (omega arith)

get_completed_package-IsIncomplete_example : Waits 0 protocol_version (take 12 request_bytes)
unfolding int_to_string to_int to_string header_length_of ◌+ℤ◌
get_completed_package-IsIncomplete_example =
    get_completed_package-IsIncomplete
      (frame_of protocol_version (codes "0") (codes "0") (codes "IP"))
      (frame_of-IsFrame protocol_version (codes "0") (codes "0") (codes "IP") ip_request-IsMessage)
      3 84 (take 12 request_bytes) (drop 12 request_bytes) 0 refl (λ q. ground arith)

header_length_of-correct_iff_example :
    (header_length_of (codes "1") (codes "2") (codes "3") (pos 0)
      ≡ pos (wire_header (codes "1") (codes "2") (codes "3") (pos 0)))
    ↔ IsGuessed (other_columns (codes "1") (codes "2") (codes "3") (pos 0))
unfolding int_to_string to_string
header_length_of-correct_iff_example =
    header_length_of-correct_iff (codes "1") (codes "2") (codes "3") (pos 0) (omega arith)

fold_sum-residue_example : (fold_sum 70000 ≡ residue 70000) × (fold_sum 70000 < 2 ^ 16)
fold_sum-residue_example = fold_sum-residue 70000 (omega arith)

refused_start :
    get_completed_package (iot_utility protocol_version 0) (codes "HELLO WORLD")
    ≡ some (refused start_word_error (codes "HELLO WORLD" ++ 0 ∷ []))
unfolding get_completed_package is_valid_package is_start_word str_eq
refused_start = refl

get_completed_package-Cut_example :
    Cut (codes "HELLO WORLD") (refused start_word_error (codes "HELLO WORLD" ++ 0 ∷ []))
    ⊎ Refused (codes "HELLO WORLD") (refused start_word_error (codes "HELLO WORLD" ++ 0 ∷ []))
get_completed_package-Cut_example =
    get_completed_package-Cut (iot_utility protocol_version 0) (codes "HELLO WORLD") (omega arith)
      refused_start

-- ===== src/Tests/XBeeRuns.antt =====
-- Runs of the XBee broker and of the broker of made-up devices, and inputs that meet the
-- theorems' conditions.
use io_trepublic_plus.Base.{
  ◌+◌, ◌<◌, ◌≤◌, ◌^◌, ◌≡◌, ◌⊎◌, ◌↔◌, refl, false, true, none, some, [], ◌∷◌, codes, length, str_eq,
  arith,
}
use io_trepublic_plus.Command.{command_template, read_response}
use io_trepublic_plus.XBee.{XBee, XBeeAddress64, XBeeBroker, rx_response, tx_status_response}
use io_trepublic_plus.XBee.Module.{
  has_codes, read_packet, recv_data, recv_response, response_of, send_at_command, send_data, waited,
}
use io_trepublic_plus.XBee.Module.Receive.{recv_data-none_iff}
use io_trepublic_plus.XBee.Description.{ask_device_description, describe, get_check_sum}
use io_trepublic_plus.XBee.Description.Accepted.{summed}
use io_trepublic_plus.XBee.Description.Answer.{ask_device_description-summed, between_codes}
use io_trepublic_plus.XBee.Description.Retry.{describe-retry}
use io_trepublic_plus.XBee.Description.Uncounted.{
  IsUnanswered, Try, asked, before, describe-uncounted,
}
use io_trepublic_plus.XBee.Scan.{acknowledge, discover, scan_all_device}
use io_trepublic_plus.XBee.Scan.Address.{Answer, discover-packets_of, packets_of}
use io_trepublic_plus.XBee.Scan.Unique.{UniqueModules, scan_all_device-UniqueModules}
use io_trepublic_plus.XBee.Serve.{find_ip_index, handle_forwarding_package}
use io_trepublic_plus.XBee.Serve.Forward.{answering, handle_forwarding_package-answering}
use io_trepublic_plus.Broker.Serve.{swapped}
use io_trepublic_plus.Tests.LoRaRuns.{command_json, read_t, respond_t, t_command, t_package}

abbrev module_address : XBeeAddress64
module_address = record { msb = 0x0013A200; lsb = 0x40B7F9C1 }

abbrev silent : XBee
silent = record { clock = 0 ∷ 10 ∷ 1011 ∷ []; packets = []; requests = [] }

recv_data-none_iff_example :
    (recv_data [] 1000 silent ≡ none) ↔ (length (waited [] 1000 silent).1 < 2)
recv_data-none_iff_example = recv_data-none_iff [] 1000 silent

-- The description "{}" has the sum 248.
ask_device_description-summed_example :
    ask_device_description module_address (record {
      clock = 0 ∷ 400 ∷ [];
      packets =
          some (tx_status_response true)
          ∷ some (rx_response true (between_codes (summed (codes "{}") 0 248)))
          ∷ [];
      requests = [];
    })
    ≡ some (
      codes "{}",
      send_data module_address (codes "DES") (record { clock = []; packets = []; requests = [] }),
    )
unfolding get_check_sum
ask_device_description-summed_example =
    ask_device_description-summed module_address (codes "{}") 0 248 0 400 [] [] [] (omega arith)
      (omega arith) refl (omega arith)

-- The sum of the first try was 300, and nothing comes in any more.
retry_run :
    describe module_address 1 1 300 silent
    ≡ some ([], send_data module_address (codes "DES") silent)
unfolding describe recv_response read_packet response_of
retry_run = refl

describe-retry_example : (codes "" ≡ []) ⊎ (2 ^ 16 ≤ get_check_sum [])
describe-retry_example =
    describe-retry module_address 1 300 silent (send_data module_address (codes "DES") silent) []
      (omega arith) (omega arith) retry_run

-- A second in which only "{}" comes, without the codes.
abbrev half_answer : Try
half_answer = record { content = codes "{}"; start_time = 0; early = 10; late = 1011 }

half_answer-IsUnanswered : IsUnanswered half_answer
unfolding has_codes
half_answer-IsUnanswered = record {
  not_whole = refl;
  some_bytes = omega arith;
  in_time = omega arith;
  over = omega arith;
}

describe-uncounted_example :
    describe module_address (2 + 1) 0 0 (before (half_answer ∷ half_answer ∷ []) silent)
    ≡ describe module_address 1 0 0 (asked module_address (half_answer ∷ half_answer ∷ []) silent)
describe-uncounted_example =
    describe-uncounted module_address (half_answer ∷ half_answer ∷ []) 1 0 0 silent
      (half_answer-IsUnanswered, (half_answer-IsUnanswered, tt))

abbrev found_module : Answer
found_module = record { my_high = 255; my_low = 254; address = module_address; rest = codes "N" }

discover-packets_of_example :
    discover 6 [] (packets_of (found_module ∷ [])) ≡ some (module_address ∷ [], [])
discover-packets_of_example =
    discover-packets_of (found_module ∷ [])
      (record { msb_fits = omega arith; lsb_fits = omega arith }, tt)

abbrev xbee : XBeeBroker
xbee = record {
  self_iot_ip = codes "DEV.1";
  manager_iot_ip = codes "Master";
  now_scanning = false;
  xbee_devices = record { iot_ip = codes "DEV.2"; address = module_address } ∷ [];
  xbee_obj = silent;
  answers = [];
  sent = [];
  rescans = 0;
}

scan_run :
    scan_all_device xbee ≡ some (record xbee { xbee_obj = send_at_command (codes "ND") silent })
unfolding scan_all_device discover acknowledge
scan_run = refl

scan_all_device-UniqueModules_example : UniqueModules xbee.xbee_devices
scan_all_device-UniqueModules_example =
    scan_all_device-UniqueModules xbee
      (record xbee { xbee_obj = send_at_command (codes "ND") silent }) (tt, tt) scan_run

abbrev asking : XBeeBroker
asking = record xbee { xbee_obj = answering (codes "42") 0 10 20 [] [] [] }

handle_forwarding_package-answering_example :
    handle_forwarding_package command_json t_package asking
    ≡ some (record asking {
      xbee_obj =
          send_data module_address (codes "T") (record { clock = []; packets = []; requests = [] });
      sent = swapped t_package command_template ∷ [];
    })
unfolding find_ip_index str_eq
handle_forwarding_package-answering_example =
    handle_forwarding_package-answering command_json t_package asking t_command
      (record {
        cmd_type = some read_response;
        id = codes "T";
        value = codes "42";
        sended_data = command_template;
      })
      (record { iot_ip = codes "DEV.2"; address = module_address }) (codes "42") 0 10 20 [] [] []
      read_t refl refl (omega arith) (omega arith) (respond_t (codes "42"))

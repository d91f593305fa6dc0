-- ===== src/XBee/Serve.antt =====
-- The handlers of IoTRepublicPlus/Broker/XBeeBroker_ApiMode.cpp, and its start-up.
pub mod Forward
use io_trepublic_plus.Base.{
  ℕ, suc, ◌+◌, ◌-◌, Bool, false, true, Option, none, some, List, [], ◌∷◌, ◌++◌, Bytes, codes,
  length, drop, take, leb, ltb, get_elem?, str_eq, if◌then◌else◌, ◌>>=◌, ◌>>◌, require,
}
use io_trepublic_plus.Package.{IoTPackage, package_of_vector, protocol_version}
use io_trepublic_plus.Json.{Jansson}
use io_trepublic_plus.Command.{command_of, command_of_content, read_response}
use io_trepublic_plus.Broker.Serve.{RadioBroker, handle_receive_package, server_round}
use io_trepublic_plus.XBee.{RecvResult, XBee, XBeeBroker, XBeeDevice, failed, succeed, timeout}
use io_trepublic_plus.XBee.Module.{get_response, send_data}
use io_trepublic_plus.XBee.Scan.{ask, scan_all_device, send_to_manager}

-- `findDeviceIndex` of an IoT address: `none` is -1.
unfoldable pub find_ip_index : Bytes → List XBeeDevice → Option ℕ
find_ip_index iot_ip [] = none
find_ip_index iot_ip (d ∷ ds) =
    let rest = (do i ← find_ip_index iot_ip ds; some (suc i)) in
    if str_eq d.iot_ip iot_ip then some 0 else rest

-- `xbeeDevices.at(index)`, for an index that may be -1: there is no device then.
abbrev pub target : Bytes → List XBeeDevice → Option XBeeDevice
target iot_ip ds = find_ip_index iot_ip ds >>= get_elem? ds

-- The part of `handleForwardingPackage` that asks the end device. The code leaves its result without a
-- value if there is none; the empty buffer decides then.
unfoldable pub ask_end_device : Option XBeeDevice → Bytes → XBee → RecvResult × Bytes × XBee
ask_end_device none id x = (failed, [], x)
ask_end_device (some d) id x = get_response [] 500 (send_data d.address id x)

-- Does the response go to the manager?
abbrev pub answers_with : RecvResult → Bytes → Bool
answers_with succeed buffer = ltb 0 (length buffer)
answers_with timeout buffer = false
answers_with failed buffer = false

-- `string(begin() + 1, end() - 1)`, which throws on a single byte
unfoldable pub inner_text : Bytes → Option Bytes
inner_text buffer = do
  require (leb 2 (length buffer))
  some (take (length buffer - 2) (drop 1 buffer))

module _ (J : Jansson) where
  -- The response to a package, from the data of the end device: the addresses change places.
  unfoldable pub response_package : IoTPackage → Bytes → Bytes → Option Bytes
  unfolding inner_text
  response_package pkg id buffer = do
    value ← inner_text buffer
    cmd ← command_of J read_response id value
    let (response, left) = package_of_vector pkg.ver pkg.des_ip pkg.sor_ip (some cmd.sended_data)
    some response.data_vector_for_sending

  -- The end of `handleForwardingPackage`, with what came from the end device.
  unfoldable pub forward_response :
      IoTPackage → Bytes → RecvResult × Bytes × XBee → XBeeBroker → Option XBeeBroker
  unfolding response_package
  forward_response pkg id (result, buffer, x) b =
      let asked : XBeeBroker = record b { xbee_obj = x } in
      elim (answers_with result buffer) [
        | true ↦ (do bytes ← response_package pkg id buffer; some (send_to_manager bytes asked))
        | false ↦ some asked
      ]

  -- `handleForwardingPackage`
  unfoldable pub handle_forwarding_package : IoTPackage → XBeeBroker → Option XBeeBroker
  unfolding find_ip_index ask_end_device forward_response
  handle_forwarding_package pkg b = do
    cmd ← command_of_content J pkg.data_vector
    let device = target pkg.des_ip b.xbee_devices
    forward_response pkg cmd.id (ask_end_device device cmd.id b.xbee_obj) b

  -- What the handlers and the loop of a broker use of this one. The thread that rescans is counted.
  abbrev pub xbee_broker : RadioBroker XBeeBroker
  xbee_broker = record {
    self_iot_ip = λ b. b.self_iot_ip;
    now_scanning = λ b. b.now_scanning;
    start_rescan = λ b. record b { rescans = b.rescans + 1 };
    forward = handle_forwarding_package;
  }

  -- `handleReceivePackage`, with `handleManagerPackage`
  unfoldable pub handle_package_from_manager : IoTPackage → XBeeBroker → Option XBeeBroker
  handle_package_from_manager pkg b = handle_receive_package J xbee_broker pkg b

  -- One round of `serverLoop`
  unfoldable pub xbee_round : Bytes → Bytes × XBeeBroker → Option (Bytes × XBeeBroker)
  xbee_round came state = server_round J xbee_broker came state

abbrev self_description : Bytes
self_description =
    codes
      "{\"IOTDEV\":{\"DeviceName\":\"XBee Broker\",\"FunctionGroup\":\"Broker\",\"DeviceID\":\"iotrepublic.broker.xbee_api1\",\"Component\":[{\"ID\":\"rescan\",\"Group\":\"1\",\"Name\":\"Re-Scan All\",\"Type\":\"Button\"}]}}"

-- `brokerRegister`
unfoldable pub broker_register : XBeeBroker → Option XBeeBroker
broker_register b = do
  (iot_ip, b1) ← ask b
  let (pkg, left) =
      package_of_vector protocol_version iot_ip b1.manager_iot_ip (some self_description)
  some (send_to_manager pkg.data_vector_for_sending (record b1 { self_iot_ip = iot_ip }))

-- `Start`, by whether the port was opened and the manager connected.
unfoldable pub start : Bool → Bool → XBeeBroker → Option XBeeBroker
unfolding broker_register
start true true b = scan_all_device b >>= broker_register
start comport_opened server_connected b = some b

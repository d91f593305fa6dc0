-- ===== src/LoRa/Serve.antt =====
-- The handlers and the loop of IoTRepublicPlus/Broker/LoRaBroker.cpp.
pub mod Forward
use io_trepublic_plus.Base.{
  ℕ, suc, ◌+◌, Bool, false, true, Option, none, some, List, [], ◌∷◌, ◌++◌, Bytes, codes, length,
  ltb, get_elem?, str_eq, if◌then◌else◌, ◌>>=◌,
}
use io_trepublic_plus.Package.{IoTPackage, package_of_vector}
use io_trepublic_plus.Json.{Jansson}
use io_trepublic_plus.Command.{command_of, command_of_content, read_response}
use io_trepublic_plus.Manager.State.{is_empty}
use io_trepublic_plus.Broker.Serve.{RadioBroker, handle_receive_package, server_round}
use io_trepublic_plus.LoRa.{
  end_device_buffer_size, LoRaBroker, LoRaDevice, Radio, RecvResult, failed, succeed, timeout,
}
use io_trepublic_plus.LoRa.Serial.{clear_comport_buffer, get_response, send_data}
use io_trepublic_plus.LoRa.Scan.{send_to_manager}

-- `findDeviceIndex`: `none` is -1.
unfoldable pub find_device_index : Bytes → List LoRaDevice → Option ℕ
find_device_index addr [] = none
find_device_index addr (d ∷ ds) =
    let rest = (do i ← find_device_index addr ds; some (suc i)) in
    if str_eq d.iot_ip addr then some 0 else rest

-- `LoRaDevices.at(index)`, for an index that may be -1: there is no device then.
abbrev pub target : Bytes → List LoRaDevice → Option LoRaDevice
target addr devices = find_device_index addr devices >>= get_elem? devices

-- The part of `handleForwardingPackage` that asks the end device.
unfoldable pub ask_end_device :
    Option LoRaDevice → Bytes → Radio → Option (RecvResult × Bytes × Radio)
ask_end_device none id r = some (failed, [], r)
ask_end_device (some d) id r = do
  r1 ← send_data d.lora_address id r
  get_response end_device_buffer_size d.lora_address [] r1

-- Does the response go to the manager?
abbrev pub answers_with : RecvResult → Bytes → Bool
answers_with succeed value = ltb 0 (length value)
answers_with timeout value = false
answers_with failed value = false

module _ (J : Jansson) where
  -- The response to a package: the addresses change places.
  unfoldable pub response_package : IoTPackage → Bytes → Bytes → Option Bytes
  response_package pkg id value = do
    cmd ← command_of J read_response id value
    let (response, left) = package_of_vector pkg.ver pkg.des_ip pkg.sor_ip (some cmd.sended_data)
    some response.data_vector_for_sending

  -- `handleForwardingPackage`
  unfoldable pub handle_forwarding_package : IoTPackage → LoRaBroker → Option LoRaBroker
  unfolding find_device_index ask_end_device response_package
  handle_forwarding_package pkg b = do
    cmd ← command_of_content J pkg.data_vector
    (result, value, r) ← ask_end_device (target pkg.des_ip b.lora_devices) cmd.id b.radio
    let asked : LoRaBroker = record b { radio = r }
    b1 ← elim (answers_with result value) [
      | true ↦ (do bytes ← response_package pkg cmd.id value; some (send_to_manager bytes asked))
      | false ↦ some asked
    ]
    some (record b1 { radio = clear_comport_buffer b1.radio })

  -- What the handlers and the loop of a broker use of this one. The thread that rescans is counted.
  abbrev pub lora_broker : RadioBroker LoRaBroker
  lora_broker = record {
    self_iot_ip = λ b. b.self_iot_ip;
    now_scanning = λ b. b.now_scanning;
    start_rescan = λ b. record b { rescans = b.rescans + 1 };
    forward = handle_forwarding_package;
  }

  -- `handleReceivePackage`, with `handleManagerPackage`
  unfoldable pub handle_package_from_manager : IoTPackage → LoRaBroker → Option LoRaBroker
  handle_package_from_manager pkg b = handle_receive_package J lora_broker pkg b

  -- One round of `serverLoop`
  unfoldable pub lora_round : Bytes → Bytes × LoRaBroker → Option (Bytes × LoRaBroker)
  lora_round came state = server_round J lora_broker came state

-- ===== src/LoRa/Scan.antt =====
-- ScanAllDevice and the start-up of IoTRepublicPlus/Broker/LoRaBroker.cpp.
pub mod Alive
pub mod Register
use io_trepublic_plus.Base.{
  ℕ, zero, suc, ◌+◌, Bool, false, true, Option, none, some, List, [], ◌∷◌, ◌++◌, Bytes, codes,
  length, get_elem?, ◌>>=◌,
}
use io_trepublic_plus.Package.{package_of_string, package_of_vector, protocol_version}
use io_trepublic_plus.Manager.Devices.{erase_at}
use io_trepublic_plus.Broker.{ask_call}
use io_trepublic_plus.LoRa.{LoRaBroker, LoRaDevice, Radio}
use io_trepublic_plus.LoRa.Serial.{add_node, check_alive, clear_comport_buffer, init_lora_module}
use io_trepublic_plus.LoRa.Config.{load_lora_config_file}

-- Does the module find the node, and does the node answer?
unfoldable pub probe : Bytes → Radio → Option (Bool × Radio)
probe address r =
    let (joined, r1) = add_node address r in
    elim joined [ true ↦ check_alive address r1 | false ↦ some (false, r1) ]

-- The first loop of `ScanAllDevice`, on fuel: a device that is not alive is erased, and the index, moved
-- back and on again, stays.
unfoldable pub check_devices : ℕ → ℕ → List LoRaDevice → Radio → Option (List LoRaDevice × Radio)
unfolding probe
check_devices zero i devices r = some (devices, r)
check_devices (suc f) i devices r = elim (get_elem? devices i) [
  | none ↦ some (devices, r)
  | some d ↦ (do
    (alive, r1) ← probe d.lora_address r
    elim alive [
      | true ↦ check_devices f (i + 1) devices r1
      | false ↦ check_devices f i (erase_at i devices) r1
    ])
]

-- `IBroker::askIoTIp`, with the outcome of the next call; with none left the call does not end.
unfoldable pub ask : LoRaBroker → Option (Bytes × LoRaBroker)
ask b = elim b.answers [
  | [] ↦ none
  | answer ∷ answers ↦ (do
    (iot_ip, manager) ← ask_call b.manager_iot_ip answer
    some (iot_ip, record b { manager_iot_ip = manager; answers = answers }))
]

-- `clientToManager->SendData`
abbrev pub send_to_manager : Bytes → LoRaBroker → LoRaBroker
send_to_manager bytes b = record b { sent = b.sent ++ (bytes ∷ []) }

-- The package that registers a device.
abbrev pub registration : Bytes → LoRaDevice → Bytes
registration manager d =
    let pkg = package_of_string protocol_version d.iot_ip manager d.device_description in
    pkg.data_vector_for_sending

-- The second loop of `ScanAllDevice`: the devices that are done, those that are left.
unfoldable pub register_devices : List LoRaDevice → List LoRaDevice → LoRaBroker → Option LoRaBroker
unfolding ask
register_devices done [] b = some (record b { lora_devices = done })
register_devices done (d ∷ ds) b = do
  (iot_ip, b1) ← ask b
  let d1 : LoRaDevice = record d { iot_ip = iot_ip }
  register_devices (done ++ (d1 ∷ [])) ds (send_to_manager (registration b1.manager_iot_ip d1) b1)

-- `ScanAllDevice`, with the bytes of the configuration file, or none where it cannot be opened.
unfoldable pub scan_all_device : Option Bytes → LoRaBroker → Option LoRaBroker
unfolding check_devices register_devices
scan_all_device file b = do
  devices ← load_lora_config_file file b.lora_devices
  (alive, r) ← check_devices (suc (length devices)) 0 devices b.radio
  b1 ← register_devices [] alive (record b { now_scanning = true; radio = r })
  some (record b1 { now_scanning = false })

abbrev self_description : Bytes
self_description =
    codes
      "{\"IOTDEV\":{\"DeviceName\":\"LoRa Broker\",\"FunctionGroup\":\"Broker\",\"DeviceID\":\"iotrepublic.broker.lora\",\"Component\":[{\"ID\":\"rescan\",\"Group\":\"1\",\"Name\":\"Re-Scan All\",\"Type\":\"Button\"}]}}"

-- `brokerRegister`
unfoldable pub broker_register : LoRaBroker → Option LoRaBroker
unfolding ask
broker_register b = do
  (iot_ip, b1) ← ask b
  let (pkg, left) =
      package_of_vector protocol_version iot_ip b1.manager_iot_ip (some self_description)
  some (send_to_manager pkg.data_vector_for_sending (record b1 { self_iot_ip = iot_ip }))

-- `Start`, by whether the port was opened and the manager connected.
unfoldable pub start : Bool → Bool → Option Bytes → LoRaBroker → Option LoRaBroker
unfolding scan_all_device broker_register
start true true file b =
    let r = init_lora_module (clear_comport_buffer b.radio) in
    scan_all_device file (record b { radio = r }) >>= broker_register
start comport_opened server_connected file b = some b

-- ===== src/XBee/Scan.antt =====
-- ScanAllDevice of IoTRepublicPlus/Broker/XBeeBroker_ApiMode.cpp, with the list of devices.
pub mod Address
pub mod Unique
use io_trepublic_plus.Base.{
  ℕ, zero, suc, ◌+◌, ◌*◌, Bool, false, true, Option, none, some, List, [], ◌∷◌, ◌++◌, Bytes, codes,
  length, get_elem?, set, str_eq, ◌||◌, if◌then◌else◌, ◌>>=◌,
}
use io_trepublic_plus.Package.{package_of_vector, protocol_version}
use io_trepublic_plus.Manager.State.{is_empty}
use io_trepublic_plus.Broker.{ask_call}
use io_trepublic_plus.XBee.{
  Packet, RecvResult, XBee, XBeeAddress64, XBeeBroker, XBeeDevice, at_command, failed, is_equal,
  succeed, timeout,
}
use io_trepublic_plus.XBee.Module.{get_response, response_of, send_at_command, send_data}
use io_trepublic_plus.XBee.Description.{ask_device_description}

-- `findDeviceIndex` of an address: `none` is -1.
unfoldable pub find_device_index : XBeeAddress64 → List XBeeDevice → Option ℕ
find_device_index address [] = none
find_device_index address (d ∷ ds) =
    let rest = (do i ← find_device_index address ds; some (suc i)) in
    if is_equal d.address address then some 0 else rest

abbrev pub placed : XBeeDevice → List XBeeDevice → Option ℕ → List XBeeDevice
placed device ds none = ds ++ (device ∷ [])
placed device ds (some i) = set ds i device

-- `addNewDevice`: an old entry of the address is replaced in its place.
unfoldable pub add_new_device : XBeeAddress64 → Bytes → List XBeeDevice → List XBeeDevice
unfolding find_device_index
add_new_device address iot_ip ds =
    placed (record { iot_ip = iot_ip; address = address }) ds (find_device_index address ds)

-- Four bytes from an index, the most significant first: the loops that build `dh` and `dl`.
unfoldable pub word_at : ℕ → Bytes → Option ℕ
word_at i buffer = do
  a ← get_elem? buffer i
  b ← get_elem? buffer (i + 1)
  c ← get_elem? buffer (i + 2)
  d ← get_elem? buffer (i + 3)
  some (((a * 256 + b) * 256 + c) * 256 + d)

-- The address in the answer to the "ND" command, behind two other bytes.
unfoldable pub address_of : Bytes → Option XBeeAddress64
unfolding word_at
address_of buffer = do
  dh ← word_at 2 buffer
  dl ← word_at 6 buffer
  some (record { msb = dh; lsb = dl })

-- The loop that collects the addresses, by the failures that are left. The radio is silent when there are
-- no more packets, and the loop ends by its failures then.
unfoldable pub discover :
    ℕ
    → List XBeeAddress64
    → List (Option Packet)
    → Option (List XBeeAddress64 × List (Option Packet))
unfolding response_of address_of
discover zero addresses ps = some (addresses, ps)
discover (suc left) addresses [] = some (addresses, [])
discover (suc left) addresses (p ∷ ps) =
    let (result, buffer) = response_of at_command p [] in
    elim result [
      | succeed ↦ (do
        address ← address_of buffer
        discover (suc left) (addresses ++ (address ∷ [])) ps)
      | _ ↦ discover left addresses ps
    ]

-- `IBroker::askIoTIp`, with the outcome of the next call; with none left the call does not end.
unfoldable pub ask : XBeeBroker → Option (Bytes × XBeeBroker)
ask b = elim b.answers [
  | [] ↦ none
  | answer ∷ answers ↦ (do
    (iot_ip, manager) ← ask_call b.manager_iot_ip answer
    some (iot_ip, record b { manager_iot_ip = manager; answers = answers }))
]

-- `clientToManager->SendData`
abbrev pub send_to_manager : Bytes → XBeeBroker → XBeeBroker
send_to_manager bytes b = record b { sent = b.sent ++ (bytes ∷ []) }

-- The package that registers a device.
abbrev pub registration : Bytes → Bytes → Bytes → Bytes
registration iot_ip manager description =
    let (pkg, left) = package_of_vector protocol_version iot_ip manager (some description) in
    pkg.data_vector_for_sending

-- `registerDevice`
unfoldable pub register_device : XBeeAddress64 → XBeeBroker → Option XBeeBroker
unfolding add_new_device ask
register_device address b = do
  (description, x) ← ask_device_description address b.xbee_obj
  (iot_ip, b1) ← ask (record b { xbee_obj = x })
  let added : XBeeBroker = record b1 {
    xbee_devices = add_new_device address iot_ip b1.xbee_devices;
  }
  some (
      if is_empty description || is_empty iot_ip
      then b1
      else send_to_manager (registration iot_ip b1.manager_iot_ip description) added)

-- The loop that asks the modules whether they are there, with its buffer: that is cleared unless a module
-- answers something else than "ACK".
unfoldable pub acknowledge : List XBeeAddress64 → Bytes → XBeeBroker → Option (Bytes × XBeeBroker)
unfolding register_device
acknowledge [] buffer b = some (buffer, b)
acknowledge (a ∷ addresses) buffer b =
    let (result, received, x) = get_response buffer 500 (send_data a (codes "SYN") b.xbee_obj) in
    let asked : XBeeBroker = record b { xbee_obj = x } in
    let registered = register_device a asked >>= acknowledge addresses [] in
    let other = acknowledge addresses received asked in
    let missed = acknowledge addresses [] asked in
    elim result [
      | succeed ↦ if str_eq received (codes "ACK") then registered else other
      | _ ↦ missed
    ]

-- `ScanAllDevice`
unfoldable pub scan_all_device : XBeeBroker → Option XBeeBroker
unfolding discover acknowledge
scan_all_device b = do
  let x = send_at_command (codes "ND") b.xbee_obj
  (addresses, ps) ← discover 6 [] x.packets
  (buffer, b1) ←
      acknowledge addresses []
        (record b { now_scanning = true; xbee_obj = record x { packets = ps } })
  some (record b1 { now_scanning = false })

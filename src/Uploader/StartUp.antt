-- ===== src/Uploader/StartUp.antt =====
-- The start-up of IoTRepublicPlus/Broker/CloudUploader.cpp: the address, the list of devices, the
-- subscriptions.
pub mod Answered
use io_trepublic_plus.Base.{
  ℕ, ◌*◌, Bool, true, false, Option, none, some, List, [], ◌∷◌, ◌++◌, Bytes, codes, ◌>>=◌,
}
use io_trepublic_plus.Base.Int.{pos}
use io_trepublic_plus.Package.{
  IoTPackage, package_of_string_default, package_of_vector, protocol_version,
}
use io_trepublic_plus.Framing.{GetPackageError, package_not_completed, Taken, get_completed_package}
use io_trepublic_plus.Json.{Jansson}
use io_trepublic_plus.Command.{command_of, management}
use io_trepublic_plus.Broker.{ask_call}
use io_trepublic_plus.Uploader.{
  SubscriptObj, Uploader, save_all_device_description, send_subscript_rule, uploader_utility,
}

-- The subscriptions of the constructor.
abbrev pub subscript_objs : List SubscriptObj
subscript_objs =
    record {
      dev_id = codes "arduino.grove.mois01";
      com_id = codes "mois";
      read_frequency = pos (10 * 60 * 1000);
    }
    ∷ record {
      dev_id = codes "arduino.grove.dl01";
      com_id = codes "lux";
      read_frequency = pos (10 * 60 * 1000);
    }
    ∷ record {
      dev_id = codes "arduino.grove.pro.ths01";
      com_id = codes "humi";
      read_frequency = pos (60 * 60 * 1000);
    }
    ∷ record {
      dev_id = codes "arduino.grove.pro.ths01";
      com_id = codes "tempe";
      read_frequency = pos (60 * 60 * 1000);
    }
    ∷ record {
      dev_id = codes "arduino.grove.dl01";
      com_id = codes "lux";
      read_frequency = pos (60 * 1000);
    }
    ∷ []

-- `client->SendData` on an open connection
abbrev pub send_data : Bytes → Uploader → Uploader
send_data bytes u = record u { sent = u.sent ++ (bytes ∷ []) }

-- The loop of `waitIoTPackage`: each round finds that the time is up, or what the receive call adds. `none`
-- is an exception, or a loop that still waits.
unfoldable pub wait_from :
    Option IoTPackage → Bytes → List (Option Bytes) → Option (Option IoTPackage)
wait_from result buffer [] = none
wait_from result buffer (none ∷ rounds) = some result
wait_from result buffer (some bytes ∷ rounds) = do
  t ← get_completed_package uploader_utility (buffer ++ bytes)
  let again = wait_from t.result t.buffer rounds
  elim t.error [ package_not_completed ↦ again | _ ↦ some t.result ]

-- `waitIoTPackage`
unfoldable pub wait_iot_package : List (Option Bytes) → Option (Option IoTPackage)
unfolding wait_from
wait_iot_package rounds = wait_from none [] rounds

abbrev pub self_description : Bytes
self_description =
    codes
      "{\"IOTDEV\":{\"DeviceName\":\"CloudUploader\",\"FunctionGroup\":\"Broker\",\"DeviceID\":\"iotrepublic.broker.clouduploader\",\"Component\":[]}}"

-- `brokerRegister`, by what `askIoTIp` finds.
unfoldable pub broker_register : Option (List Bytes) → Uploader → Option Uploader
unfolding ask_call
broker_register answer u = do
  (iot_ip, manager) ← ask_call u.manager_iot_ip answer
  let (pkg, left) = package_of_vector protocol_version iot_ip manager (some self_description)
  some (
      send_data pkg.data_vector_for_sending
        (record u { self_iot_ip = iot_ip; manager_iot_ip = manager }))

module _ (J : Jansson) where
  abbrev pub save_result : Option IoTPackage → Uploader → Option Uploader
  save_result none u = some u
  save_result (some pkg) u = save_all_device_description J pkg u

  -- The request for the list of all devices.
  unfoldable pub device_request : Uploader → Option Bytes
  device_request u = do
    cmd ← command_of J management (codes "Dis_All") (codes "0")
    let pkg = package_of_string_default u.self_iot_ip u.manager_iot_ip cmd.sended_data
    some (pkg.data_vector_for_sending)

  -- `getAllDeviceDescription`
  unfoldable pub get_all_device_description : List (Option Bytes) → Uploader → Option Uploader
  unfolding wait_iot_package device_request
  get_all_device_description rounds u = do
    request ← device_request u
    result ← wait_iot_package rounds
    save_result result (send_data request u)

  -- `Start`, by whether the connection was made, up to the thread of `loop`.
  unfoldable pub start :
      Bool → Option (List Bytes) → List (Option Bytes) → Uploader → Option Uploader
  unfolding broker_register get_all_device_description
  start true answer rounds u = do
    u1 ← broker_register answer u
    u2 ← get_all_device_description rounds u1
    send_subscript_rule J subscript_objs u2
  start false answer rounds u = some u

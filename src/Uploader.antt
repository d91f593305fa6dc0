-- ===== src/Uploader.antt =====
-- The client that uploads values to the cloud: IoTRepublicPlus/Broker/CloudUploader.cpp. What curl posts to the
-- server is logged in `posted`, what goes to the manager in `sent`.
pub mod DeviceList
pub mod Stuck
pub mod Fuel
pub mod StartUp
use io_trepublic_plus.Base.{
  ◌||◌, ℕ, zero, suc, ◌+◌, ◌%◌, Bool, true, false, Option, none, some, List, [], ◌∷◌, ◌++◌, Bytes,
  codes, length, get_elem?, str_eq, ◌==◌, if◌then◌else◌, ◌>>=◌,
}
use io_trepublic_plus.Base.Int.{ℤ, pos}
use io_trepublic_plus.Package.{IoTPackage, package_of_string, protocol_version, segment_symbol}
use io_trepublic_plus.Framing.{
  GetPackageError, no_error, IoTUtility, iot_utility, get_completed_package, Taken,
}
use io_trepublic_plus.Json.{Jansson}
use io_trepublic_plus.Command.{IoTCommand, command_of_content}
use io_trepublic_plus.Rule.{IoTRule, blank_rule, packet}
use io_trepublic_plus.Manager.State.{is_empty}
use io_trepublic_plus.Device.{IoTComponent, IoTDevice, new_device, set_js_description}

pub record SubscriptObj : Type 0 where
  pub dev_id : Bytes
  pub com_id : Bytes
  pub read_frequency : ℤ

pub record Uploader : Type 0 where
  pub login_id : Bytes
  pub login_pw : Bytes
  pub self_iot_ip : Bytes
  pub manager_iot_ip : Bytes
  pub all_devices : List IoTDevice
  pub posted : List Bytes
  pub sent : List Bytes

abbrev pub uploader_utility : IoTUtility
uploader_utility = iot_utility protocol_version segment_symbol

-- `getUploadDeviceId`
unfoldable pub get_upload_device_id : Bytes → Bytes → List IoTDevice → Bytes
get_upload_device_id iot_ip com_id [] = []
get_upload_device_id iot_ip com_id (d ∷ ds) =
    let rest = get_upload_device_id iot_ip com_id ds in
    if str_eq d.iot_ip iot_ip then d.device_id ++ (codes "." ++ com_id) else rest

-- `uploadData`
unfoldable pub upload_data : Bytes → Bytes → Uploader → Uploader
upload_data device_id value u =
    let request =
      codes "deviceId="
      ++ (device_id
          ++ (codes "&value="
              ++ (value
                  ++ (codes "&loginId=" ++ (u.login_id ++ (codes "&password=" ++ u.login_pw)))))) in
    record u { posted = u.posted ++ (request ∷ []) }

module _ (J : Jansson) where
  -- What `handleRecvData` does with one package.
  unfoldable pub upload_package : IoTPackage → Uploader → Option Uploader
  unfolding get_upload_device_id upload_data
  upload_package pkg u = do
    cmd ← command_of_content J pkg.data_vector
    some (upload_data (get_upload_device_id pkg.sor_ip cmd.id u.all_devices) cmd.value u)

  upload_result : Option IoTPackage → Uploader → Option Uploader
  upload_result none u = some u
  upload_result (some pkg) u = upload_package pkg u

  -- `handleRecvData`, on fuel: the loop goes on as long as there is no error.
  unfoldable pub handle_recv_data : ℕ → Bytes → Uploader → Option (Bytes × Uploader)
  unfolding upload_result
  handle_recv_data zero buffer u = some (buffer, u)
  handle_recv_data (suc f) buffer u = do
    t ← get_completed_package uploader_utility buffer
    u1 ← upload_result t.result u
    elim t.error [ no_error ↦ handle_recv_data f t.buffer u1 | _ ↦ some (t.buffer, u1) ]

  -- One round of `loop`: what comes in, if anything does, is put behind the buffer.
  unfoldable pub receive : Bytes → Bytes × Uploader → Option (Bytes × Uploader)
  receive [] (buffer, u) = some (buffer, u)
  receive (c ∷ cs) (buffer, u) =
      let whole = buffer ++ (c ∷ cs) in handle_recv_data (suc (length whole)) whole u

  -- The loop of `saveAllDeviceDescription`: the text so far, the count of texts, the device that is
  -- being read, the devices that are done.
  unfoldable pub save_from :
      Bytes → Bytes → ℕ → IoTDevice → List IoTDevice → Option (List IoTDevice)
  save_from [] text obj_count d devices = some devices
  save_from (c ∷ cs) text obj_count d devices = elim (c == 0) [
    | false ↦ save_from cs (text ++ (c ∷ [])) obj_count d devices
    | true ↦ elim (obj_count % 2 == 0) [
      | true ↦ save_from cs [] (obj_count + 1) (record d { iot_ip = text }) devices
      | false ↦ (do
        described ← set_js_description J text d
        save_from cs [] (obj_count + 1) new_device (devices ++ (described ∷ [])))
    ]
  ]

  -- `saveAllDeviceDescription`
  unfoldable pub save_all_device_description : IoTPackage → Uploader → Option Uploader
  unfolding save_from
  save_all_device_description pkg u = do
    devices ← save_from pkg.data_vector [] 0 new_device []
    some (record u { all_devices = devices })

  has_component : Bytes → List IoTComponent → Bool
  has_component com_id [] = false
  has_component com_id (c ∷ cs) = if str_eq c.id com_id then true else has_component com_id cs

  -- `findComponentIndex`: the first device with the id, if it has the component.
  unfoldable pub find_component_device : Bytes → Bytes → List IoTDevice → Option IoTDevice
  unfolding has_component
  find_component_device dev_id com_id [] = none
  find_component_device dev_id com_id (d ∷ ds) =
      let rest = find_component_device dev_id com_id ds in
      let here = if has_component com_id d.component then some d else none in
      if str_eq d.device_id dev_id then here else rest

  -- The rule of a subscription.
  unfoldable pub subscript_rule : SubscriptObj → Bytes → IoTDevice → IoTRule
  subscript_rule s self d = record (blank_rule s.read_frequency) {
    type = codes "Sub";
    name = codes "Subscription";
    read_from = d.iot_ip;
    read_id = s.com_id;
    read_value = [];
    write_to = self;
    write_id = s.com_id;
    write_value = [];
  }

  -- `sendSubscriptRule`
  unfoldable pub send_subscript_rule : List SubscriptObj → Uploader → Option Uploader
  send_subscript_rule [] u = some u
  send_subscript_rule (s ∷ ss) u = elim (find_component_device s.dev_id s.com_id u.all_devices) [
    | none ↦ send_subscript_rule ss u
    | some d ↦ (do
      rule ← packet J (subscript_rule s u.self_iot_ip d)
      let pkg = package_of_string protocol_version u.self_iot_ip u.manager_iot_ip rule.json_data
      send_subscript_rule ss (record u { sent = u.sent ++ (pkg.data_vector_for_sending ∷ []) }))
  ]

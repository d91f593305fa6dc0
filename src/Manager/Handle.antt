-- ===== src/Manager/Handle.antt =====
-- The event handlers of IoTManager.cpp: received data, packages, commands, lost connections.
use io_trepublic_plus.Base.{
  ℕ, zero, suc, Bool, true, false, Option, none, some, [], ◌++◌, ◌&&◌, ◌||◌, Bytes, codes, length,
  get_elem?, set, take, str_eq, if◌then◌else◌, ◌>>=◌,
}
use io_trepublic_plus.Package.{IoTPackage, package_of_vector, protocol_version, segment_symbol}
use io_trepublic_plus.Framing.{
  GetPackageError, start_word_error, checksum_error, IoTUtility, iot_utility, get_completed_package,
}
use io_trepublic_plus.Json.{Jansson, load_json_data, get_first_key_name}
use io_trepublic_plus.Command.{IoTCommand, command_of_content}
use io_trepublic_plus.Rule.{rule_of_content}
use io_trepublic_plus.Manager.State.{
  Manager, ManagerState, server_iot_ip, send_data_to_exists_connection,
}
use io_trepublic_plus.Manager.Devices.{
  get_new_iot_ip, encode_all_registed_devices, replace_device, device_of,
  remove_device_by_socket_index, is_socket_index_exists_any_device,
}
use io_trepublic_plus.Manager.Rules.{
  add_rule, notice_reload_device_list, send_to_device, handle_ruler_command,
}

abbrev pub manager_utility : IoTUtility
manager_utility = iot_utility protocol_version segment_symbol

-- The errors after which `handlePackage` clears the buffer.
abbrev pub is_data_error : GetPackageError → Bool
is_data_error start_word_error = true
is_data_error checksum_error = true
is_data_error _ = false

module _ (J : Jansson) where
  open J use {Json}

  -- `addNewDevice`
  unfoldable pub add_new_device : Bytes → Json → ℕ → Manager → Option Manager
  add_new_device iot_ip root socket_index m = do
    d ← device_of J iot_ip root socket_index
    notice_reload_device_list (record m { registed_devices = replace_device d m.registed_devices })

  -- `Ruler::handleRulePackage`; other root names are ignored.
  unfoldable pub handle_rule_package : IoTPackage → Manager → Option Manager
  handle_rule_package pkg m = elim (load_json_data J pkg.data_vector) [
    | none ↦ some m
    | some root ↦ (do
      root_name ← get_first_key_name J (some root)
      let added = (do rule ← rule_of_content J pkg.data_vector; some (add_rule rule m))
      let answered = (do cmd ← command_of_content J pkg.data_vector; handle_ruler_command J cmd m)
      if str_eq root_name (codes "IOTRUL")
          then added
          else if str_eq root_name (codes "IOTCMD")
          then answered
          else some m)
  ]

  -- `commandHandler`
  unfoldable pub command_handler : ℕ → IoTCommand → IoTPackage → Manager → Option Manager
  command_handler socket_index cmd pkg m =
      let devices = encode_all_registed_devices m.registed_devices in
      let answer = (package_of_vector protocol_version server_iot_ip pkg.sor_ip (some devices)).0 in
      if str_eq cmd.id (codes "Dis_All") || str_eq cmd.id (codes "Dis_NPx")
      then send_data_to_exists_connection socket_index answer.data_vector_for_sending m
      else handle_rule_package pkg m

  -- `handleManagerPackage`; other root names are ignored.
  unfoldable pub handle_manager_package : ℕ → IoTPackage → Manager → Option Manager
  handle_manager_package socket_index pkg m = elim (load_json_data J pkg.data_vector) [
    | none ↦ some m
    | some root ↦ (do
      root_name ← get_first_key_name J (some root)
      let commanded = (do
        cmd ← command_of_content J pkg.data_vector
        command_handler socket_index cmd pkg m)
      if str_eq root_name (codes "IOTDEV")
          then add_new_device pkg.sor_ip root socket_index m
          else if str_eq root_name (codes "IOTCMD")
          then commanded
          else if str_eq root_name (codes "IOTRUL")
          then handle_rule_package pkg m
          else some m)
  ]

  -- The answer to a request for an address.
  unfoldable pub answer_ip_request : ℕ → Manager → Option Manager
  answer_ip_request socket_index m =
      let (ip, m1) = get_new_iot_ip m in
      let answer = (package_of_vector protocol_version server_iot_ip ip none).0 in
      send_data_to_exists_connection socket_index answer.data_vector_for_sending m1

  -- What `handlePackage` does with one package.
  unfoldable pub dispatch : ℕ → IoTPackage → Manager → Option Manager
  dispatch socket_index pkg m =
      if str_eq pkg.sor_ip (codes "0") && str_eq pkg.des_ip (codes "0")
      then answer_ip_request socket_index m
      else if str_eq pkg.des_ip server_iot_ip
      then handle_manager_package socket_index pkg m
      else send_to_device pkg.des_ip pkg.data_vector_for_sending m

  -- The loop of `handlePackage` on a receive buffer, on fuel: it ends when no package is returned.
  unfoldable pub handle_loop : ℕ → ℕ → Bytes → Manager → Option (Bytes × Manager)
  handle_loop zero socket_index buffer m = some (buffer, m)
  handle_loop (suc f) socket_index buffer m = do
    t ← get_completed_package manager_utility buffer
    elim t.result [
      | none ↦ some (if is_data_error t.error then [] else t.buffer, m)
      | some pkg ↦ (do m1 ← dispatch socket_index pkg m; handle_loop f socket_index t.buffer m1)
    ]

  -- `handlePackage`: each package takes two bytes or more off the buffer, so the buffer's length is
  -- fuel enough.
  unfoldable pub handle_package : ℕ → ManagerState → Option ManagerState
  handle_package socket_index s = do
    buffer ← get_elem? s.package_buffer socket_index
    (left, m) ← handle_loop (suc (length buffer)) socket_index buffer s.manager
    some (record { manager = m; package_buffer = set s.package_buffer socket_index left })

  -- `Event_ReceivedData`
  unfoldable pub event_received_data : ℕ → Bytes → ℕ → ManagerState → Option ManagerState
  event_received_data socket_index buffer data_length s = do
    old ← get_elem? s.package_buffer socket_index
    handle_package socket_index (record s {
      package_buffer = set s.package_buffer socket_index (old ++ take data_length buffer);
    })

  -- `Event_ConnectionDenied`; the receive buffer of the socket index is not touched.
  unfoldable pub event_connection_denied : ℕ → ManagerState → Option ManagerState
  event_connection_denied socket_index s =
      let removed = (do
        ds ← remove_device_by_socket_index socket_index s.manager.registed_devices
        m ← notice_reload_device_list (record (s.manager) { registed_devices = ds })
        some (record s { manager = m })) in
      if is_socket_index_exists_any_device socket_index s.manager.registed_devices
      then removed
      else some s

-- ===== src/Tests/Managers.antt =====
-- Runs of the manager's operations, and states that meet the theorems' conditions.
use io_trepublic_plus.Base.{
  get_elem?, ◌-◌, ◌*◌, ℕ, ◌≡◌, refl, false, some, [], ◌∷◌, ◌++◌, codes, length, str_eq, arith,
}
use io_trepublic_plus.Base.Int.{◌-ℤ◌, pos, to_int, ◌+ℤ◌}
use io_trepublic_plus.Base.Decimal.{int_to_string, to_string}
use io_trepublic_plus.Package.{
  protocol_version, header_length_of, package_of_string, packet_to_sending_vector,
}
use io_trepublic_plus.Framing.{get_completed_package}
use io_trepublic_plus.Framing.Sent.{received}
use io_trepublic_plus.Rule.{IoTRule, blank_rule}
use io_trepublic_plus.Manager.State.{DeviceInfo, Manager, ManagerState, RuleInstance, server_iot_ip}
use io_trepublic_plus.Manager.Devices.{
  find_device_index_by_iot_ip, is_socket_index_exists_any_device,
}
use io_trepublic_plus.Manager.Devices.Registry.{Unique}
use io_trepublic_plus.Manager.Rules.Period.{scan_times, scan_times-waiting_time_ms}
use io_trepublic_plus.Manager.Rules.Scan.{scan_rules-scanned_rules, scanned_rules}
use io_trepublic_plus.Manager.Rules.{excute_read_rule, scan_from, scan_rule, scan_rules, is_stale}
use io_trepublic_plus.Manager.Invariant.{WellFormed}
use io_trepublic_plus.Manager.Denied.{without, event_connection_denied-lem}
use io_trepublic_plus.Manager.Events.{denied, next, start, step, Reachable-WellFormed}
use io_trepublic_plus.Manager.Answer.{address, address_message, answer_ip_request-received}
use io_trepublic_plus.Manager.Handle.{dispatch, manager_utility, event_connection_denied}
use io_trepublic_plus.Manager.Stream.{sent_package, wire_of}
use io_trepublic_plus.Tests.{no_json, ip_request, first_manager}

-- A manager with two devices and two rules; the second device is on socket index 1.
abbrev lamp : DeviceInfo
lamp = record {
  iot_ip = codes "DEV.0";
  function_group = codes "UI";
  device_id = codes "lamp";
  device_description = codes "{}";
  socket_index = 0;
  proxied = pos 0;
}

abbrev meter : DeviceInfo
meter = record lamp { iot_ip = codes "DEV.1"; device_id = codes "meter"; socket_index = 1 }

abbrev copy_rule : IoTRule
copy_rule = record (blank_rule (pos 1000)) { read_from = codes "DEV.0"; write_to = codes "DEV.1" }

abbrev loop_rule : IoTRule
loop_rule = record (blank_rule (pos 1000)) { read_from = codes "DEV.0"; write_to = codes "DEV.0" }

abbrev numbered : ℕ → IoTRule → RuleInstance
numbered n rule = record {
  rule_id = n;
  rule = rule;
  waiting_time_ms = pos 0;
  is_waiting_response = false;
}

abbrev pub busy_manager : Manager
busy_manager = record first_manager {
  ip_count = 2;
  registed_devices = lamp ∷ meter ∷ [];
  client_sockets = 5 ∷ 6 ∷ [];
  rules = numbered 0 copy_rule ∷ numbered 1 loop_rule ∷ [];
  next_rule_id = 2;
}

abbrev pub busy_state : ManagerState
busy_state = record { manager = busy_manager; package_buffer = [] ∷ codes "IUD" ∷ [] }

devices-Unique : Unique (lamp ∷ meter ∷ [])
devices-Unique = (((λ q. ground arith), tt), (tt, tt))

pub busy_manager-WellFormed : WellFormed busy_manager
busy_manager-WellFormed = record {
  unique_devices = devices-Unique;
  numbered_rules = (omega arith, (omega arith, omega arith));
}

event_connection_denied-lem_example :
    event_connection_denied no_json 1 busy_state
    ≡ some (record busy_state { manager = without 1 busy_manager })
event_connection_denied-lem_example =
    event_connection_denied-lem no_json 1 busy_state busy_manager-WellFormed

-- The meter is gone, and with it the rule that wrote to it.
denied_run :
    without 1 busy_manager
    ≡ record busy_manager { registed_devices = lamp ∷ []; rules = numbered 1 loop_rule ∷ [] }
unfolding is_socket_index_exists_any_device is_stale find_device_index_by_iot_ip str_eq
denied_run = refl

Reachable-WellFormed_example :
    WellFormed (without 1 busy_manager)
    × (length (codes "" ∷ codes "IUD" ∷ []) ≡ length (codes "" ∷ codes "IUD" ∷ []))
unfolding step
Reachable-WellFormed_example =
    Reachable-WellFormed no_json busy_state (record busy_state { manager = without 1 busy_manager })
      busy_manager-WellFormed
      (next (denied 1) start
        (event_connection_denied-lem no_json 1 busy_state busy_manager-WellFormed))

answer_ip_request-received_example :
    (dispatch no_json 0 (sent_package ip_request) first_manager
      ≡ some (record first_manager { ip_count = 1; sent = (5, wire_of (address_message 0)) ∷ [] }))
    × (get_completed_package manager_utility (wire_of (address_message 0) ++ [])
        ≡ some (received protocol_version server_iot_ip (address 0) [] []))
unfolding package_of_string packet_to_sending_vector header_length_of int_to_string to_string to_int
    ◌+ℤ◌
answer_ip_request-received_example =
    answer_ip_request-received no_json 0 5 (sent_package ip_request) first_manager [] refl refl refl
      (omega arith) (omega arith) (omega arith)

-- A rule that is due and one that is not; no one has the first one's address.
abbrev scan_manager : Manager
scan_manager = record first_manager {
  rules =
      numbered 0 (record copy_rule { read_from = [] })
      ∷ record (numbered 1 loop_rule) { waiting_time_ms = pos 250 }
      ∷ [];
  next_rule_id = 2;
}

abbrev scanned_manager : Manager
scanned_manager = record scan_manager {
  rules =
      record (numbered 0 (record copy_rule { read_from = [] })) { waiting_time_ms = pos 1000 }
      ∷ record (numbered 1 loop_rule) { waiting_time_ms = pos 150 }
      ∷ [];
}

scan_run : scan_rules no_json scan_manager ≡ some scanned_manager
unfolding scan_rules scan_from scan_rule excute_read_rule ◌-ℤ◌
scan_run = refl

scan_rules-scanned_rules_example : scanned_manager ≡ record scan_manager {
  rules = scanned_rules scan_manager.action_frequency scan_manager.rules;
  sent = scanned_manager.sent;
}
scan_rules-scanned_rules_example = scan_rules-scanned_rules no_json scan_manager scan_run

-- A frequency of two intervals, one scan after the rule has run.
abbrev twice_manager : Manager
twice_manager = record first_manager {
  rules = numbered 0 (record copy_rule { read_from = []; action_frequency = pos 200 }) ∷ [];
}

abbrev twice_after : Manager
twice_after = record first_manager {
  rules =
      record (numbered 0 (record copy_rule { read_from = []; action_frequency = pos 200 })) {
        waiting_time_ms = pos 100;
      }
      ∷ [];
}

twice_run : scan_times no_json 2 twice_manager ≡ some twice_after
unfolding scan_times scan_rules scan_from scan_rule excute_read_rule ◌-ℤ◌
twice_run = refl

scan_times-waiting_time_ms_example :
    (s : RuleInstance) × (get_elem? twice_after.rules 0 ≡ some s)
    × (s.waiting_time_ms ≡ pos ((2 - 1) * 100))
scan_times-waiting_time_ms_example =
    scan_times-waiting_time_ms no_json 2 100 1 0 twice_manager
      (numbered 0 (record copy_rule { read_from = []; action_frequency = pos 200 })) refl refl
      (omega arith) (omega arith) refl refl (omega arith) twice_run

-- ===== src/Manager/Denied.antt =====
-- A connection that is lost: Event_ConnectionDenied of IoTRepublicPlus/IoT/IoTManager.cpp.
use io_trepublic_plus.Base.{
  ℕ, ◌≡◌, refl, sym, ap, true, false, not, some, List, [], ◌∷◌, inl, inr, Bool-cases, All, filter,
  filter-all, if◌then◌else◌, arith,
}
use io_trepublic_plus.Json.{Jansson}
use io_trepublic_plus.Manager.State.{DeviceInfo, Manager, ManagerState, RuleInstance}
use io_trepublic_plus.Manager.Devices.{has_socket, is_socket_index_exists_any_device}
use io_trepublic_plus.Manager.Devices.Erase.{remove_device-filter}
use io_trepublic_plus.Manager.Devices.Registry.{Unique-filter}
use io_trepublic_plus.Manager.Rules.{is_stale}
use io_trepublic_plus.Manager.Rules.Numbers.{Numbered-filter, notice_reload_device_list-filter}
use io_trepublic_plus.Manager.Handle.{event_connection_denied}
use io_trepublic_plus.Manager.Invariant.{WellFormed}

-- The devices of other connections.
abbrev pub other_devices : ℕ → List DeviceInfo → List DeviceInfo
other_devices socket_index ds = filter (λ d. not (has_socket socket_index d)) ds

-- The rules whose source and target are among some devices.
abbrev pub live_rules : List DeviceInfo → List RuleInstance → List RuleInstance
live_rules ds rs = filter (λ r. not (is_stale ds r.rule)) rs

-- The manager without a connection; the rules are looked at only if it had a device.
abbrev pub without : ℕ → Manager → Manager
without socket_index m =
    let left = other_devices socket_index m.registed_devices in
    record m {
      registed_devices = left;
      rules =
          if is_socket_index_exists_any_device socket_index m.registed_devices
          then live_rules left m.rules
          else m.rules;
    }

no_socket-other :
    (socket_index : ℕ) (ds : List DeviceInfo)
    → is_socket_index_exists_any_device socket_index ds ≡ false
    → All (λ d. not (has_socket socket_index d) ≡ true) ds
unfolding is_socket_index_exists_any_device
no_socket-other socket_index [] h = tt
no_socket-other socket_index (d ∷ ds) h = ground (arith, no_socket-other socket_index ds)

pub without-WellFormed :
    (socket_index : ℕ) (m : Manager) → WellFormed m → WellFormed (without socket_index m)
without-WellFormed socket_index m w = record {
  unique_devices =
      Unique-filter (λ d. not (has_socket socket_index d)) m.registed_devices w.unique_devices;
  numbered_rules =
      elim (Bool-cases (is_socket_index_exists_any_device socket_index m.registed_devices)) [
        | inl h ↦ rw h (Numbered-filter _ 0 m.next_rule_id m.rules w.numbered_rules)
        | inr h ↦ rw h (w.numbered_rules)
      ];
}

-- From a well-formed state the event returns. Exactly the devices of the connection are gone; if there
-- was one, so are exactly the rules whose source or target is then not registered. The receive
-- buffers are as they were.
pub event_connection_denied-lem :
    (J : Jansson) (socket_index : ℕ) (s : ManagerState)
    → WellFormed s.manager
    → event_connection_denied J socket_index s
      ≡ some (record s { manager = without socket_index s.manager })
unfolding event_connection_denied
event_connection_denied-lem J socket_index s w =
    let devices = s.manager.registed_devices in
    elim (Bool-cases (is_socket_index_exists_any_device socket_index devices)) [
      | inl h ↦
          rw
            (
              h,
              (remove_device-filter socket_index [] devices).0,
              notice_reload_device_list-filter
                  (record (s.manager) { registed_devices = other_devices socket_index devices })
                  w.numbered_rules,
            )
            refl
      | inr h ↦ rw h (
          ap (λ ds. some (record s { manager = record (s.manager) { registed_devices = ds } }))
            (sym (
              filter-all (λ d. not (has_socket socket_index d)) devices
                (no_socket-other socket_index devices h))))
    ]

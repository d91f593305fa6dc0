-- ===== src/Manager/Invariant.antt =====
-- What every event leaves true of the manager's state (IoTRepublicPlus/IoT/IoTManager.cpp, Ruler.cpp).
pub mod Dispatch
pub mod Receive
use io_trepublic_plus.Base.{
  codes, Returns, Returns-some, Returns-none, Returns-bind, Returns-if, ℕ, zero, suc, ◌+◌, ◌≡◌,
  refl, Bool, true, false, Option, some, inl, inr, Option-cases, sym, subst, not, filter,
  All-append, All-filter, [], ◌∷◌, List, All, ◌≡◌, Bytes, length, get_elem?, set, if◌then◌else◌,
}
use io_trepublic_plus.Package.{IoTPackage}
use io_trepublic_plus.Json.{
  Jansson, load_json_data, get_first_key_name, get_value_in_first_object, export_json_content,
}
use io_trepublic_plus.Command.{
  IoTCommand, command_of, command_of_content, read_request, read_response,
}
use io_trepublic_plus.Rule.{IoTRule, rule_of_content}
use io_trepublic_plus.Manager.State.{
  DeviceInfo, Manager, RuleInstance, is_empty, send_on, send_data_to_exists_connection,
}
use io_trepublic_plus.Manager.Devices.{
  get_new_iot_ip, find_device_index_by_iot_ip, device_of, has_id, replace_device,
}
use io_trepublic_plus.Manager.Devices.Registry.{Unique, replace_device-filter}
use io_trepublic_plus.Manager.Rules.{
  add_rule, answer_from, excute_read_rule, excute_write_rule, handle_ruler_command,
  notice_reload_device_list, scan_from, scan_rule, send_to_device,
}
use io_trepublic_plus.Manager.Rules.Numbers.{
  Numbered, Numbered-filter, Numbered-set, Numbered-snoc, notice_reload_device_list-filter,
}
use io_trepublic_plus.Manager.Handle.{
  add_new_device, answer_ip_request, command_handler, dispatch, handle_manager_package,
  handle_rule_package,
}

-- No two devices have the same id; the rules' numbers increase, below the next number.
pub record WellFormed (m : Manager) : Type 0 where
  pub unique_devices : Unique m.registed_devices
  pub numbered_rules : Numbered 0 m.next_rule_id m.rules

-- What the handlers leave true of the whole state: the invariant, the table of the sockets, and a property
-- of the socket indices that the devices stand on.
module _ (sockets : List ℕ) (Placed : ℕ → Type 0) where
  pub record Fits (m : Manager) : Type 0 where
    pub well : WellFormed m
    pub same_sockets : m.client_sockets ≡ sockets
    pub placed : All (λ d. Placed d.socket_index) m.registed_devices

  -- A handler that keeps these wherever it returns.
  abbrev pub Keeps : Option Manager → Type 0
  Keeps o = Returns Fits o

  pub replaced-placed :
      (d : DeviceInfo) (m : Manager)
      → Placed d.socket_index
      → Fits m
      → All (λ e. Placed e.socket_index) (replace_device d m.registed_devices)
  replaced-placed d m at w =
      let ds = m.registed_devices in
      let others = filter (λ e. not (has_id d.device_id e)) ds in
      subst (All (λ e. Placed e.socket_index))
        (sym (replace_device-filter d ds w.well.unique_devices).0)
        (All-append (λ e. Placed e.socket_index) others (d ∷ [])
          (All-filter (λ e. Placed e.socket_index) (λ e. not (has_id d.device_id e)) ds w.placed)
          (at, tt))

  send_on-Keeps :
      (socket : ℕ) (buffer : Bytes) (m : Manager) → Fits m → Keeps (send_on socket buffer m)
  unfolding send_on
  send_on-Keeps socket buffer m w =
      Returns-if Fits _ _ _
        (Returns-if Fits _ _ _ (Returns-none Fits) (
          Returns-some Fits _ (record {
            well = record {
              unique_devices = w.well.unique_devices;
              numbered_rules = w.well.numbered_rules;
            };
            same_sockets = w.same_sockets;
            placed = w.placed;
          })))
        (Returns-some Fits m w)

  pub send-Keeps :
      (socket_index : ℕ) (buffer : Bytes) (m : Manager)
      → Fits m
      → Keeps (send_data_to_exists_connection socket_index buffer m)
  unfolding send_data_to_exists_connection
  send-Keeps socket_index buffer m w =
      Returns-bind Fits (get_elem? m.client_sockets socket_index) _
        λ socket e. send_on-Keeps socket buffer m w

  pub send_to_device-Keeps :
      (ip bytes : Bytes) (m : Manager) → Fits m → Keeps (send_to_device ip bytes m)
  unfolding send_to_device
  send_to_device-Keeps ip bytes m w =
      elim (Option-cases (find_device_index_by_iot_ip ip m.registed_devices)) [
        | inl e ↦ rw (e, send_to_device) (Returns-some Fits m w)
        | inr (i, e) ↦
            rw (e, send_to_device)
              (Returns-bind Fits (get_elem? m.registed_devices i) _
                λ d _. send-Keeps d.socket_index bytes m w)
      ]

  pub notice-Keeps : (m : Manager) → Fits m → Keeps (notice_reload_device_list m)
  notice-Keeps m w = rw (notice_reload_device_list-filter m w.well.numbered_rules) (
      Returns-some Fits _ (record {
        well = record {
          unique_devices = w.well.unique_devices;
          numbered_rules = Numbered-filter _ 0 m.next_rule_id m.rules w.well.numbered_rules;
        };
        same_sockets = w.same_sockets;
        placed = w.placed;
      }))

  pub with_rule-Fits :
      (i : ℕ) (m : Manager) (r s : RuleInstance)
      → get_elem? m.rules i ≡ some r
      → s.rule_id ≡ r.rule_id
      → Fits m
      → Fits (record m { rules = set m.rules i s })
  with_rule-Fits i m r s e same w = record {
    well = record {
      unique_devices = w.well.unique_devices;
      numbered_rules = Numbered-set 0 m.next_rule_id i m.rules r s e same w.well.numbered_rules;
    };
    same_sockets = w.same_sockets;
    placed = w.placed;
  }

  pub add_rule-Fits : (rule : IoTRule) (m : Manager) → Fits m → Fits (add_rule rule m)
  unfolding add_rule
  add_rule-Fits rule m w = record {
    well = record {
      unique_devices = w.well.unique_devices;
      numbered_rules = Numbered-snoc 0 m.next_rule_id m.rules _ refl w.well.numbered_rules;
    };
    same_sockets = w.same_sockets;
    placed = w.placed;
  }

all_devices : (ds : List DeviceInfo) → All (λ d. Unit {0}) ds
all_devices [] = tt
all_devices (d ∷ ds) = (tt, all_devices ds)

-- Without a property of the socket indices.
pub WellFormed-Fits : (m : Manager) → WellFormed m → Fits m.client_sockets (λ _. Unit {0}) m
WellFormed-Fits m w = record {
  well = w;
  same_sockets = refl;
  placed = all_devices m.registed_devices;
}

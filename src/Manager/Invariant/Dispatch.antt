-- ===== src/Manager/Invariant/Dispatch.antt =====
-- What every handler of packages and commands leaves true (IoTRepublicPlus/IoT/IoTManager.cpp, Ruler.cpp).
use io_trepublic_plus.Base.{
  codes, Returns, Returns-some, Returns-bind, Returns-if, ℕ, zero, suc, ◌+◌, ◌≡◌, refl, Bool, true,
  false, some, inl, inr, Option-cases, sym, subst, List, ◌≡◌, Bytes, length, get_elem?, set,
  if◌then◌else◌,
}
use io_trepublic_plus.Package.{IoTPackage}
use io_trepublic_plus.Json.{
  Jansson, load_json_data, get_first_key_name, get_value_in_first_object, export_json_content,
}
use io_trepublic_plus.Command.{
  IoTCommand, command_of, command_of_content, read_request, read_response,
}
use io_trepublic_plus.Rule.{rule_of_content}
use io_trepublic_plus.Manager.State.{DeviceInfo, Manager, RuleInstance, is_empty}
use io_trepublic_plus.Manager.Devices.{get_new_iot_ip, device_of}
use io_trepublic_plus.Manager.Devices.Registry.{replace_device-filter}
use io_trepublic_plus.Manager.Rules.{
  answer_from, excute_read_rule, excute_write_rule, handle_ruler_command, scan_from, scan_rule,
}
use io_trepublic_plus.Manager.Handle.{
  add_new_device, answer_ip_request, command_handler, dispatch, handle_manager_package,
  handle_rule_package,
}
use io_trepublic_plus.Manager.Invariant.{
  Fits, Keeps, add_rule-Fits, notice-Keeps, replaced-placed, send-Keeps, send_to_device-Keeps,
  with_rule-Fits,
}

module _ (sockets : List ℕ) (Placed : ℕ → Type 0) where
  module _ (J : Jansson) where
    open J use {Json}

    excute_read_rule-Keeps :
        (i : ℕ) (m : Manager)
        → Fits sockets Placed m
        → Keeps sockets Placed (excute_read_rule J i m)
    unfolding excute_read_rule
    excute_read_rule-Keeps i m w = Returns-bind (Fits sockets Placed) (get_elem? m.rules i) _ λ r e.
        Returns-if (Fits sockets Placed) _ _ _ (Returns-some (Fits sockets Placed) m w) (
          Returns-bind (Fits sockets Placed)
            (command_of J read_request r.rule.read_id r.rule.read_value) _
            λ cmd _.
              send_to_device-Keeps sockets Placed r.rule.read_from _ _
                (waiting-Fits (is_empty r.rule.write_to) i m r e w))
      where
        waiting-Fits :
            (b : Bool) (i : ℕ) (m : Manager) (r : RuleInstance)
            → get_elem? m.rules i ≡ some r
            → Fits sockets Placed m
            → (Fits sockets Placed) (
                if b then m else record m {
                  rules = set m.rules i (record r { is_waiting_response = Bool.true });
                })
        waiting-Fits true i m r e w = w
        waiting-Fits false i m r e w = with_rule-Fits sockets Placed i m r _ e refl w

    excute_write_rule-Keeps :
        (i : ℕ) (value : Bytes) (m : Manager)
        → Fits sockets Placed m
        → Keeps sockets Placed (excute_write_rule J i value m)
    unfolding excute_write_rule
    excute_write_rule-Keeps i value m w =
        Returns-bind (Fits sockets Placed) (get_elem? m.rules i) _ λ r e.
          Returns-if (Fits sockets Placed) _ _ _ (Returns-some (Fits sockets Placed) m w) (
            Returns-bind (Fits sockets Placed) (command_of J read_response r.rule.write_id value) _
              λ cmd _. send_to_device-Keeps sockets Placed r.rule.write_to _ m w)

    scan_rule-Keeps :
        (i : ℕ) (m : Manager) → Fits sockets Placed m → Keeps sockets Placed (scan_rule J i m)
    unfolding scan_rule
    scan_rule-Keeps i m w = Returns-bind (Fits sockets Placed) (get_elem? m.rules i) _ λ r e.
        Returns-if (Fits sockets Placed) _ _ _
          (excute_read_rule-Keeps i _ (with_rule-Fits sockets Placed i m r _ e refl w))
          (Returns-some (Fits sockets Placed) _ (with_rule-Fits sockets Placed i m r _ e refl w))

    pub scan_from-Keeps :
        (left i : ℕ) (m : Manager)
        → Fits sockets Placed m
        → Keeps sockets Placed (scan_from J left i m)
    unfolding scan_from
    scan_from-Keeps zero i m w = Returns-some (Fits sockets Placed) m w
    scan_from-Keeps (suc left) i m w =
        Returns-bind (Fits sockets Placed) (scan_rule J i m) _
          λ m1 e. scan_from-Keeps left (i + 1) m1 (scan_rule-Keeps i m w m1 e)

    answer_from-Keeps :
        (cmd : IoTCommand) (left i : ℕ) (m : Manager)
        → Fits sockets Placed m
        → Keeps sockets Placed (answer_from J cmd left i m)
    unfolding answer_from
    answer_from-Keeps cmd zero i m w = Returns-some (Fits sockets Placed) m w
    answer_from-Keeps cmd (suc left) i m w =
        Returns-bind (Fits sockets Placed) (get_elem? m.rules i) _ λ r e.
          Returns-if (Fits sockets Placed) _ _ _
            (excute_write_rule-Keeps i cmd.value _ (with_rule-Fits sockets Placed i m r _ e refl w))
            (answer_from-Keeps cmd left (i + 1) m w)

    device_of-socket :
        (ip : Bytes) (root : Json) (socket_index : ℕ)
        → Returns (λ d. d.socket_index ≡ socket_index) (device_of J ip root socket_index)
    unfolding device_of
    device_of-socket ip root socket_index =
        let P : DeviceInfo → Type 0 = λ d. d.socket_index ≡ socket_index in
        Returns-bind P (get_value_in_first_object J (some root) (codes "DeviceID")) _ λ id e.
          Returns-bind P (get_value_in_first_object J (some root) (codes "FunctionGroup")) _
            λ g e1. Returns-bind P (export_json_content J root) _ λ text e2. Returns-some P _ refl

    add_new_device-Keeps :
        (ip : Bytes) (root : Json) (socket_index : ℕ) (m : Manager)
        → Placed socket_index
        → Fits sockets Placed m
        → Keeps sockets Placed (add_new_device J ip root socket_index m)
    unfolding add_new_device
    add_new_device-Keeps ip root socket_index m at w =
        Returns-bind (Fits sockets Placed) (device_of J ip root socket_index) _ λ d e.
          notice-Keeps sockets Placed _ (record {
            well = record {
              unique_devices = (replace_device-filter d m.registed_devices w.well.unique_devices).1;
              numbered_rules = w.well.numbered_rules;
            };
            same_sockets = w.same_sockets;
            placed =
                replaced-placed sockets Placed d m
                  (subst Placed (sym (device_of-socket ip root socket_index d e)) at) w;
          })

    handle_rule_package-Keeps :
        (pkg : IoTPackage) (m : Manager)
        → Fits sockets Placed m
        → Keeps sockets Placed (handle_rule_package J pkg m)
    unfolding handle_rule_package handle_ruler_command
    handle_rule_package-Keeps pkg m w = elim (Option-cases (load_json_data J pkg.data_vector)) [
      | inl e ↦ rw (e, handle_rule_package) (Returns-some (Fits sockets Placed) m w)
      | inr (root, e) ↦
          rw (e, handle_rule_package)
            (Returns-bind (Fits sockets Placed) (get_first_key_name J (some root)) _ λ root_name _.
              Returns-if (Fits sockets Placed) _ _ _
                (Returns-bind (Fits sockets Placed) (rule_of_content J pkg.data_vector) _ λ rule _.
                  Returns-some (Fits sockets Placed) _ (add_rule-Fits sockets Placed rule m w))
                (Returns-if (Fits sockets Placed) _ _ _
                  (Returns-bind (Fits sockets Placed) (command_of_content J pkg.data_vector) _
                    λ cmd _. answer_from-Keeps cmd (length m.rules) 0 m w)
                  (Returns-some (Fits sockets Placed) m w)))
    ]

    command_handler-Keeps :
        (socket_index : ℕ) (cmd : IoTCommand) (pkg : IoTPackage) (m : Manager)
        → Fits sockets Placed m
        → Keeps sockets Placed (command_handler J socket_index cmd pkg m)
    unfolding command_handler
    command_handler-Keeps socket_index cmd pkg m w =
        Returns-if (Fits sockets Placed) _ _ _ (send-Keeps sockets Placed socket_index _ m w)
          (handle_rule_package-Keeps pkg m w)

    handle_manager_package-Keeps :
        (socket_index : ℕ) (pkg : IoTPackage) (m : Manager)
        → Placed socket_index
        → Fits sockets Placed m
        → Keeps sockets Placed (handle_manager_package J socket_index pkg m)
    unfolding handle_manager_package
    handle_manager_package-Keeps socket_index pkg m at w =
        elim (Option-cases (load_json_data J pkg.data_vector)) [
          | inl e ↦ rw (e, handle_manager_package) (Returns-some (Fits sockets Placed) m w)
          | inr (root, e) ↦
              rw (e, handle_manager_package)
                (Returns-bind (Fits sockets Placed) (get_first_key_name J (some root)) _
                  λ root_name _.
                    Returns-if (Fits sockets Placed) _ _ _
                      (add_new_device-Keeps pkg.sor_ip root socket_index m at w)
                      (Returns-if (Fits sockets Placed) _ _ _
                        (Returns-bind (Fits sockets Placed) (command_of_content J pkg.data_vector) _
                          λ cmd _. command_handler-Keeps socket_index cmd pkg m w)
                        (Returns-if (Fits sockets Placed) _ _ _ (handle_rule_package-Keeps pkg m w)
                          (Returns-some (Fits sockets Placed) m w))))
        ]

    pub dispatch-Keeps :
        (socket_index : ℕ) (pkg : IoTPackage) (m : Manager)
        → Placed socket_index
        → Fits sockets Placed m
        → Keeps sockets Placed (dispatch J socket_index pkg m)
    unfolding dispatch answer_ip_request get_new_iot_ip
    dispatch-Keeps socket_index pkg m at w =
        Returns-if (Fits sockets Placed) _ _ _
          (send-Keeps sockets Placed socket_index _ _ (record {
            well = record {
              unique_devices = w.well.unique_devices;
              numbered_rules = w.well.numbered_rules;
            };
            same_sockets = w.same_sockets;
            placed = w.placed;
          }))
          (Returns-if (Fits sockets Placed) _ _ _
            (handle_manager_package-Keeps socket_index pkg m at w)
            (send_to_device-Keeps sockets Placed pkg.des_ip pkg.data_vector_for_sending m w))

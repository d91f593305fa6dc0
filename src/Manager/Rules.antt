-- ===== src/Manager/Rules.antt =====
-- The rules of the manager: IoTRepublicPlus/IoT/Ruler.cpp, with the virtual methods that
-- IoTManager.cpp overrides.
pub mod Numbers
pub mod Scan
pub mod Period
pub mod Response
use io_trepublic_plus.Base.{
  ℕ, zero, suc, ◌+◌, Bool, true, false, Option, none, some, List, [], ◌∷◌, ◌++◌, ◌&&◌, ◌||◌, Bytes,
  length, get_elem?, set, str_eq, ◌==◌, if◌then◌else◌, ◌>>=◌,
}
use io_trepublic_plus.Base.Int.{pos, leb_ℤ, ◌-ℤ◌}
use io_trepublic_plus.Package.{package_of_string, protocol_version}
use io_trepublic_plus.Json.{Jansson}
use io_trepublic_plus.Command.{IoTCommand, command_of, read_request, read_response}
use io_trepublic_plus.Rule.{IoTRule}
use io_trepublic_plus.Manager.State.{
  DeviceInfo, Manager, RuleInstance, is_empty, server_iot_ip, send_data_to_exists_connection,
}
use io_trepublic_plus.Manager.Devices.{find_device_index_by_iot_ip}

-- `addRule`
unfoldable pub add_rule : IoTRule → Manager → Manager
add_rule rule m =
    let instance' : RuleInstance = record {
      rule_id = m.next_rule_id;
      rule = rule;
      waiting_time_ms = pos 0;
      is_waiting_response = false;
    } in
    record m { rules = m.rules ++ (instance' ∷ []); next_rule_id = m.next_rule_id + 1 }

-- `removeRule`: the first rule with the id.
unfoldable pub remove_rule : ℕ → List RuleInstance → List RuleInstance
remove_rule rule_id [] = []
remove_rule rule_id (r ∷ rs) = if r.rule_id == rule_id then rs else r ∷ remove_rule rule_id rs

-- An address that is not named or that no device has.
unfoldable pub is_unknown : List DeviceInfo → Bytes → Bool
is_unknown ds ip =
    if is_empty ip
    then true
    else elim (find_device_index_by_iot_ip ip ds) [ none ↦ true | some i ↦ false ]

-- A rule whose source or target is unknown.
unfoldable pub is_stale : List DeviceInfo → IoTRule → Bool
unfolding is_unknown
is_stale ds rule = is_unknown ds rule.read_from || is_unknown ds rule.write_to

-- The loop of `noticeReloadDeviceList`. `left` is `ruleCount - i`: a removal takes one from the count
-- and leaves the index, any other round moves the index.
unfoldable pub notice_from :
    List DeviceInfo → ℕ → ℕ → List RuleInstance → Option (List RuleInstance)
notice_from ds zero i rs = some rs
notice_from ds (suc left) i rs = do
  r ← get_elem? rs i
  let removed = notice_from ds left i (remove_rule r.rule_id rs)
  let kept = notice_from ds left (i + 1) rs
  if is_stale ds r.rule then removed else kept

unfoldable pub notice_reload_device_list : Manager → Option Manager
unfolding notice_from
notice_reload_device_list m = do
  rules ← notice_from m.registed_devices (length m.rules) 0 m.rules
  some (record m { rules = rules })

-- Sends a package to the device with an address, if there is one.
unfoldable pub send_to_device : Bytes → Bytes → Manager → Option Manager
send_to_device ip bytes m = elim (find_device_index_by_iot_ip ip m.registed_devices) [
  | none ↦ some m
  | some i ↦ (do
    d ← get_elem? m.registed_devices i
    send_data_to_exists_connection d.socket_index bytes m)
]

module _ (J : Jansson) where
  -- `IoTManager::excuteReadRule` on the rule at an index.
  unfoldable pub excute_read_rule : ℕ → Manager → Option Manager
  excute_read_rule i m = do
    r ← get_elem? m.rules i
    let waits = record r { is_waiting_response = true }
    let m1 = if is_empty r.rule.write_to then m else record m { rules = set m.rules i waits }
    let asked = (do
      cmd ← command_of J read_request r.rule.read_id r.rule.read_value
      let pkg = package_of_string protocol_version server_iot_ip r.rule.read_from cmd.sended_data
      send_to_device r.rule.read_from pkg.data_vector_for_sending m1)
    if is_empty r.rule.read_from then some m else asked

  -- `IoTManager::excuteWriteRule`
  unfoldable pub excute_write_rule : ℕ → Bytes → Manager → Option Manager
  excute_write_rule i write_value m = do
    r ← get_elem? m.rules i
    let written = (do
      cmd ← command_of J read_response r.rule.write_id write_value
      let pkg = package_of_string protocol_version r.rule.read_from r.rule.write_to cmd.sended_data
      send_to_device r.rule.write_to pkg.data_vector_for_sending m)
    if is_empty r.rule.write_to then some m else written

  -- One round of `scanRules`, on the rule at an index.
  unfoldable pub scan_rule : ℕ → Manager → Option Manager
  scan_rule i m = do
    r ← get_elem? m.rules i
    let due = record r { waiting_time_ms = r.rule.action_frequency }
    let later = record r { waiting_time_ms = r.waiting_time_ms -ℤ m.action_frequency }
    if leb_ℤ r.waiting_time_ms (pos 0)
        then excute_read_rule i (record m { rules = set m.rules i due })
        else some (record m { rules = set m.rules i later })

  unfoldable pub scan_from : ℕ → ℕ → Manager → Option Manager
  scan_from zero i m = some m
  scan_from (suc left) i m = do m1 ← scan_rule i m; scan_from left (i + 1) m1

  -- `scanRules`
  unfoldable pub scan_rules : Manager → Option Manager
  scan_rules m = scan_from (length m.rules) 0 m

  -- `handleRulerCommand`: the first rule that waits for this id is answered. `left` is
  -- `ruleCount - i`.
  unfoldable pub answer_from : IoTCommand → ℕ → ℕ → Manager → Option Manager
  answer_from cmd zero i m = some m
  answer_from cmd (suc left) i m = do
    r ← get_elem? m.rules i
    let answered = record r { is_waiting_response = false }
    let rest = answer_from cmd left (i + 1) m
    if r.is_waiting_response && str_eq r.rule.read_id cmd.id
        then excute_write_rule i cmd.value (record m { rules = set m.rules i answered })
        else rest

  unfoldable pub handle_ruler_command : IoTCommand → Manager → Option Manager
  handle_ruler_command cmd m = answer_from cmd (length m.rules) 0 m

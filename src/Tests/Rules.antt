-- ===== src/Tests/Rules.antt =====
-- A run of the rules on a device's answer, and a state that meets the theorem's conditions.
use io_trepublic_plus.Base.{◌≡◌, refl, [], ◌∷◌, none, false, true, codes, str_eq}
use io_trepublic_plus.Base.Int.{pos}
use io_trepublic_plus.Command.{IoTCommand}
use io_trepublic_plus.Rule.{blank_rule}
use io_trepublic_plus.Manager.State.{Manager, RuleInstance}
use io_trepublic_plus.Manager.Rules.{excute_write_rule, handle_ruler_command}
use io_trepublic_plus.Manager.Rules.Response.{handle_ruler_command-first}
use io_trepublic_plus.Tests.{no_json, first_manager}

abbrev lux_command : IoTCommand
lux_command = record { cmd_type = none; id = codes "lux"; value = codes "20"; sended_data = [] }

abbrev idle : RuleInstance
idle = record {
  rule_id = 0;
  rule = record (blank_rule (pos 1000)) { read_id = codes "lux"; write_to = codes "DEV.1" };
  waiting_time_ms = pos 0;
  is_waiting_response = false;
}

abbrev waiting : RuleInstance
waiting = record idle { rule_id = 1; is_waiting_response = true }

abbrev asking_manager : Manager
asking_manager = record first_manager { rules = idle ∷ waiting ∷ waiting ∷ []; next_rule_id = 3 }

handle_ruler_command-first_example :
    handle_ruler_command no_json lux_command asking_manager
    ≡ excute_write_rule no_json 1 (codes "20") (record asking_manager {
      rules = idle ∷ record waiting { is_waiting_response = false } ∷ waiting ∷ [];
    })
unfolding str_eq
handle_ruler_command-first_example =
    handle_ruler_command-first no_json lux_command (idle ∷ []) waiting (waiting ∷ []) asking_manager
      refl (refl, tt) refl

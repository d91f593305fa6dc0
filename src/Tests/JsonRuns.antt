-- ===== src/Tests/JsonRuns.antt =====
-- Commands and rules through their texts, with a small library for JSON.
use io_trepublic_plus.Base.{◌≡◌, refl, some, Bytes, codes, arith}
use io_trepublic_plus.Base.Int.{negsuc}
use io_trepublic_plus.Package.{IoTPackage, empty_package}
use io_trepublic_plus.Command.{IoTCommand, command_of, command_of_content, management}
use io_trepublic_plus.Command.RoundTrip.{command_of_content-command_of}
use io_trepublic_plus.Rule.{IoTRule, blank_rule, packet}
use io_trepublic_plus.Rule.RoundTrip.{IsLegalRule}
use io_trepublic_plus.Manager.State.{server_iot_ip}
use io_trepublic_plus.Manager.Rules.{add_rule}
use io_trepublic_plus.Manager.Handle.{dispatch}
use io_trepublic_plus.Manager.Subscribe.{dispatch-packet}
use io_trepublic_plus.Tests.{first_manager}
use io_trepublic_plus.Tests.PlainJson.{plain_json}
use io_trepublic_plus.Tests.PlainJson.Lawful.{plain_json-IsLawful}

command_of_content-command_of_example :
    (cmd : IoTCommand) × (command_of plain_json management (codes "Dis_All") (codes "0") ≡ some cmd)
    × (command_of_content plain_json cmd.sended_data ≡ some cmd)
command_of_content-command_of_example =
    command_of_content-command_of plain_json plain_json-IsLawful management (codes "Dis_All")
      (codes "0") (λ q. cc) (plain_json-IsLawful.legal_plain _ (ground arith))
      (plain_json-IsLawful.legal_plain _ (ground arith))

-- A subscription with a negative period.
abbrev subscription : IoTRule
subscription = record (blank_rule (negsuc 999)) {
  type = codes "Sub";
  name = codes "Subscription";
  read_from = codes "DEV.1";
  read_id = codes "lux";
  write_to = codes "DEV.0";
  write_id = codes "lux";
}

subscription-IsLegalRule : IsLegalRule plain_json plain_json-IsLawful subscription
subscription-IsLegalRule = record {
  type = plain_json-IsLawful.legal_plain _ (ground arith);
  name = plain_json-IsLawful.legal_plain _ (ground arith);
  read_from = plain_json-IsLawful.legal_plain _ (ground arith);
  read_id = plain_json-IsLawful.legal_plain _ (ground arith);
  read_value = plain_json-IsLawful.legal_plain _ tt;
  write_to = plain_json-IsLawful.legal_plain _ (ground arith);
  write_id = plain_json-IsLawful.legal_plain _ (ground arith);
  write_value = plain_json-IsLawful.legal_plain _ tt;
  write_rul = plain_json-IsLawful.legal_plain _ tt;
  frequency = omega arith;
}

abbrev rule_package : IoTPackage
rule_package = record empty_package { sor_ip = codes "DEV.0"; des_ip = server_iot_ip }

dispatch-packet_example :
    (content : Bytes) × (packet plain_json subscription
      ≡ some (record subscription { json_data = content }))
    × (dispatch plain_json 0 (record rule_package { data_vector = content }) first_manager
        ≡ some (add_rule (record subscription { json_data = content }) first_manager))
dispatch-packet_example =
    dispatch-packet plain_json plain_json-IsLawful 0 rule_package first_manager subscription
      subscription-IsLegalRule refl

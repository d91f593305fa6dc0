-- ===== src/Tests/BridgeRuns.antt =====
-- Runs of the bridge, and inputs that meet the theorems' conditions.
use io_trepublic_plus.Base.{
  ◌≡◌, refl, sym, ap, ◌∙◌, append-nil, take-append-drop, false, true, none, some, List, [], ◌∷◌,
  ◌++◌, Bytes, codes, drop, take, length, str_eq, arith,
}
use io_trepublic_plus.Base.Decimal.{int_to_string, to_string}
use io_trepublic_plus.Base.Int.{to_int, ◌+ℤ◌}
use io_trepublic_plus.Framing.{until_nul}
use io_trepublic_plus.Json.{export_json_content, load_json_data, set_value_in_first_object}
use io_trepublic_plus.Package.{header_length_of, package_of_string, packet_to_sending_vector}
use io_trepublic_plus.Package.Checksum.{fold_sum, sum_unsigned}
use io_trepublic_plus.Manager.Stream.{IsSendable, Message, wire_of, wires}
use io_trepublic_plus.TcpClient.{no_network_error, new_client, TcpClient}
use io_trepublic_plus.Bridge.{
  CloudBridge, cloud_round, login, new_bridge, needs_reconnect, register_template, register_text,
  wait_login,
}
use io_trepublic_plus.Bridge.Forward.{cloud_round-each_wire, connected, dropped, with_sent}
use io_trepublic_plus.Bridge.Forwarded.{ready, run-each_wire, to_cloud}
use io_trepublic_plus.Bridge.Relay.{
  Event, cloud_came, keep_alive, manager_came, manager_started, run,
}
use io_trepublic_plus.Bridge.Session.{login-run}
use io_trepublic_plus.Tests.{
  ip_request, ip_request-IsSendable, ip_request-wire, nothing-Pending, request_bytes,
}
use io_trepublic_plus.Tests.PlainJson.{plain_json, read_object}

abbrev client : TcpClient
client = record {
  target_ip = codes "127.0.0.1";
  server_port = 6210;
  max_receive_buffer = 2000;
  is_connected = false;
  is_open = true;
  sent = [];
}

abbrev bridge : CloudBridge
bridge = new_bridge true (codes "127.0.0.1") 6210 (codes "192.168.156.233") 6210 2000

abbrev discon : Message
discon = record { so_ip = codes "0"; des_ip = codes "0"; content = codes "discon" }

discon-IsSendable : IsSendable discon
unfolding int_to_string to_int to_string
discon-IsSendable = record {
  message = record {
    ver_text = ground arith;
    so_text = ground arith;
    des_text = ground arith;
    guessed = ground arith;
    fits = omega arith;
  };
  ascii = ground arith;
}

-- Three messages, the second of which asks the bridge to connect again.
abbrev stream : Bytes
stream = wires (ip_request ∷ discon ∷ ip_request ∷ [])

length-stream : length stream ≡ 67
unfolding package_of_string packet_to_sending_vector header_length_of int_to_string to_string to_int
    fold_sum ◌+ℤ◌ sum_unsigned
length-stream = refl

rest_size : length (drop 9 stream) ≡ 58
unfolding package_of_string packet_to_sending_vector header_length_of int_to_string to_string to_int
    fold_sum ◌+ℤ◌ sum_unsigned
rest_size = refl

cloud_round-each_wire_example :
    cloud_round (some (drop 9 stream)) (take 9 stream, connected client bridge)
    ≡ some ([], dropped (with_sent (wire_of ip_request ∷ []) client) bridge)
unfolding needs_reconnect str_eq
cloud_round-each_wire_example =
    cloud_round-each_wire (take 9 stream) (drop 9 stream) [] (ip_request ∷ discon ∷ ip_request ∷ [])
      client bridge (ip_request-IsSendable, (discon-IsSendable, (ip_request-IsSendable, tt)))
      nothing-Pending (take-append-drop 9 stream ∙ sym (append-nil stream))
      (omega (arith, rest_size))
      (omega (arith, length-stream, ap length (take-append-drop 9 stream)))

-- A request in two parts from the cloud, and between them five minutes and bytes from the manager.
abbrev events : List Event
events =
    cloud_came (some (take 9 request_bytes))
    ∷ keep_alive
    ∷ manager_came (some (codes "answer"))
    ∷ cloud_came none
    ∷ cloud_came (some (drop 9 request_bytes))
    ∷ []

run-each_wire_example :
    run events ([], ready client client bridge)
    ≡ some (
      [],
      ready
          (with_sent ((5 ∷ []) ∷ codes "answer" ∷ []) client)
          (with_sent (wire_of ip_request ∷ []) client)
          bridge,
    )
unfolding needs_reconnect
run-each_wire_example =
    run-each_wire events [] [] (ip_request ∷ []) client client bridge
      (refl, (refl, (refl, (refl, (refl, tt))))) (ip_request-IsSendable, tt) (refl, tt)
      nothing-Pending nothing-Pending (ap (λ w. (w ++ []) ++ []) (sym ip_request-wire))
      (omega arith)

abbrev register : Bytes
register = codes "{\"REGISTER\":{\"TYPE\":\"MANAGER\",\"ID\":\"id\",\"PW\":\"pw\"}}"

register_run :
    register_text plain_json (load_json_data plain_json register_template) (codes "id") (codes "pw")
    ≡ some register
unfolding load_json_data until_nul set_value_in_first_object export_json_content read_object str_eq
register_run = refl

success : wait_login 0 [] ((some (codes "Success"), 1001) ∷ []) ≡ some (codes "Success")
unfolding wait_login
success = refl

login-run_example :
    (b : CloudBridge) × (login plain_json true
        (codes "id")
        (codes "pw")
        0
        ((some (codes "Success"), 1001) ∷ [])
        bridge
      ≡ some (no_network_error, b))
    × (b.is_loggeed ≡ true)
    × (run (manager_started true true ∷ events) ([], b)
        ≡ some (
          [],
          ready
              (with_sent
                (register ∷ to_cloud events)
                (new_client true (codes "192.168.156.233") 6210 2000))
              (with_sent (wire_of ip_request ∷ []) (new_client true (codes "127.0.0.1") 6210 2000))
              b,
        ))
unfolding needs_reconnect
login-run_example =
    login-run plain_json (codes "127.0.0.1") (codes "192.168.156.233") (codes "id") (codes "pw")
      register 6210 6210 2000 0 1001 [] (some (codes "Success")) events [] (ip_request ∷ [])
      register_run (omega arith) success (refl, (refl, (refl, (refl, (refl, tt)))))
      (ip_request-IsSendable, tt) (refl, tt) nothing-Pending
      (ap (λ w. (w ++ []) ++ []) (sym ip_request-wire)) (omega arith)

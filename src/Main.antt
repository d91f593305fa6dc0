-- ===== src/Main.antt =====
-- The start and the end of the program: the two versions of `main` in IoTRepublicPlus/main.cpp, over which
-- parts run. Which one is compiled is chosen by LoadConfigFile_, which is not defined.
pub mod Ends
use io_trepublic_plus.Base.{
  Bool, false, true, Option, none, some, List, [], ◌∷◌, Bytes, codes, ℕ, zero, suc, if◌then◌else◌,
  ◌>>=◌,
}
use io_trepublic_plus.Base.Int.{ℤ, pos, negsuc}
use io_trepublic_plus.TcpClient.{NetworkError, no_network_error}
use io_trepublic_plus.Controller.{Broker, add_broker, start_all_broker, stop_all_broker}
use io_trepublic_plus.Config.{ManagerConfig}

-- `IBroker::BrokerType`
pub data BrokerType : Type 0 where
  unknown xbee_api_mode_type cloud_bridge_type lo_ra_type cloud_uploader_type : BrokerType

-- A broker that `main` makes: what its constructor is given, and whether it has been started and not stopped.
pub data BrokerObject : Type 0 where
  xbee_broker_api_mode : Bytes → BrokerType → Bytes → ℤ → ℤ → ℤ → Bool → BrokerObject
  lo_ra_broker : Bytes → BrokerType → Bytes → ℤ → ℤ → ℤ → Bool → BrokerObject
  fake_broker : Bytes → BrokerType → Bytes → ℤ → Bool → BrokerObject
  cloud_bridge : Bytes → BrokerType → Bytes → ℤ → Bytes → ℤ → ℤ → Bool → BrokerObject
  cloud_uploader : Bytes → Bytes → Bytes → Bytes → BrokerType → Bytes → ℤ → Bool → BrokerObject

abbrev pub name_of : BrokerObject → Bytes
name_of (xbee_broker_api_mode name type ip port com_number baud runs) = name
name_of (lo_ra_broker name type ip port com_number baud runs) = name
name_of (fake_broker name type ip port runs) = name
name_of (cloud_bridge name type ip port target_ip target_port max runs) = name
name_of (cloud_uploader url id pw name type ip port runs) = name

abbrev pub set_running : Bool → BrokerObject → BrokerObject
set_running on (xbee_broker_api_mode name type ip port com_number baud runs) =
    xbee_broker_api_mode name type ip port com_number baud on
set_running on (lo_ra_broker name type ip port com_number baud runs) =
    lo_ra_broker name type ip port com_number baud on
set_running on (fake_broker name type ip port runs) = fake_broker name type ip port on
set_running on (cloud_bridge name type ip port target_ip target_port max runs) =
    cloud_bridge name type ip port target_ip target_port max on
set_running on (cloud_uploader url id pw name type ip port runs) =
    cloud_uploader url id pw name type ip port on

-- What the controller is given of a broker.
abbrev pub each_broker : Broker BrokerObject
each_broker = record {
  name = name_of;
  start = λ b. some (set_running true b);
  stop = λ b. some (set_running false b);
}

-- The parts that run: for the servers the arguments that they were made with.
pub record Program : Type 0 where
  pub brocast_server : Option (ℤ × ℤ)
  pub manager : Option (ℤ × ℤ × ℤ)
  pub ruler : Option ℤ
  pub brokers : List BrokerObject

abbrev pub nothing_runs : Program
nothing_runs = record { brocast_server = none; manager = none; ruler = none; brokers = [] }

-- An `int` as a condition
abbrev pub is_set : ℤ → Bool
is_set (pos zero) = false
is_set (pos (suc n)) = true
is_set (negsuc n) = true

abbrev pub start_servers : ManagerConfig → Program → Program
start_servers c p =
    let p1 : Program =
      if is_set c.brocast_server
      then record p { brocast_server = some (c.brocast_port, c.max_receive_buffer) }
      else p in
    if is_set c.io_t_manager
    then record p1 {
      manager = some (c.manager_port, c.max_receive_buffer, c.max_client_of_manager);
      ruler = some c.ruler_action_frequency;
    }
    else p1

-- The list of the controller after the calls of AddBroker, by what the login of the bridge returns. The brokers
-- are named by the program, not by the names in the configuration.
unfoldable pub add_brokers : ManagerConfig → NetworkError → List BrokerObject
unfolding add_broker
add_brokers c login =
    let xbee =
      xbee_broker_api_mode (codes "XBeeApi") xbee_api_mode_type c.manager_ip c.manager_port
        c.xbee_com_number c.xbee_baud_rate false in
    let fake =
      fake_broker (codes "FakeBroker") xbee_api_mode_type c.manager_ip c.manager_port false in
    let bridge =
      cloud_bridge (codes "CloudBridge") cloud_bridge_type c.manager_ip c.manager_port
        c.cloud_server_ip c.cloud_server_port c.max_receive_buffer false in
    let uploader =
      cloud_uploader c.web_server_url c.cloud_login_id c.cloud_login_pw (codes "CloudUploader")
        cloud_uploader_type c.manager_ip c.manager_port false in
    let l1 = if is_set c.xbee_broker then add_broker each_broker xbee [] else [] in
    let l2 = if is_set c.fake_broker then add_broker each_broker fake l1 else l1 in
    let logged_in : List BrokerObject = elim login [
      | no_network_error ↦ add_broker each_broker bridge l2
      | _ ↦ l2
    ] in
    let l3 = if is_set c.cloud_bridge then logged_in else l2 in
    if is_set c.cloud_uploader then add_broker each_broker uploader l3 else l3

-- `main` with a configuration, up to PAUSE, by what the login of the bridge returns.
unfoldable pub start_up : ManagerConfig → NetworkError → Option Program
unfolding add_brokers start_all_broker
start_up c login = do
  let p = start_servers c nothing_runs
  started ← start_all_broker each_broker (add_brokers c login)
  some (record p { brokers = started })

abbrev pub stop_servers : ManagerConfig → Program → Program
stop_servers c p =
    let p1 : Program =
      if is_set c.io_t_manager then record p { manager = none; ruler = none } else p in
    if is_set c.brocast_server then record p1 { brocast_server = none } else p1

-- `main` with a configuration, from PAUSE on.
unfoldable pub shut_down : ManagerConfig → Program → Option Program
unfolding stop_all_broker
shut_down c p = do
  stopped ← stop_all_broker each_broker p.brokers
  some (stop_servers c (record p { brokers = stopped }))

-- `main` as it is compiled, with the macros that main.cpp defines: up to PAUSE, and from there on.
unfoldable pub default_start_up : Option Program
unfolding add_broker start_all_broker
default_start_up = do
  let lo_ra =
      lo_ra_broker (codes "LoRaBroker") lo_ra_type (codes "127.0.0.1") (pos 6210) (pos 5) (pos 9600)
        false
  started ← start_all_broker each_broker (add_broker each_broker lo_ra [])
  some (record {
    brocast_server = some (pos 6215, pos 2000);
    manager = some (pos 6210, pos 2000, pos 500);
    ruler = some (pos 1000);
    brokers = started;
  })

unfoldable pub default_shut_down : Program → Option Program
unfolding stop_all_broker
default_shut_down p = do
  stopped ← stop_all_broker each_broker p.brokers
  some (record { brocast_server = none; manager = none; ruler = none; brokers = stopped })

-- ===== src/Bridge.antt =====
-- The bridge between a manager and the cloud: IoTRepublicPlus/Broker/CloudBridge.cpp and CloudBridge.h.
pub mod Forward
pub mod Login
pub mod Relay
pub mod Forwarded
pub mod Passes
pub mod Session
use io_trepublic_plus.Base.{
  elapsed, ℕ, suc, ◌+◌, ◌-◌, Bool, false, true, Option, none, some, List, [], ◌∷◌, ◌++◌, Bytes,
  codes, length, ltb, ◌==◌, ◌&&◌, str_eq, if◌then◌else◌, ◌>>=◌,
}
use io_trepublic_plus.TcpClient.{
  NetworkError, TcpClient, connect, disconnect, network_login_error, new_client, no_network_error,
  recvive_data, send_string, send_vector, unknown_error,
}
use io_trepublic_plus.Package.{IoTPackage}
use io_trepublic_plus.Json.{Jansson, export_json_content, load_json_data, set_value_in_first_object}
use io_trepublic_plus.Manager.State.{is_empty}
use io_trepublic_plus.Broker.{drain}

-- `CloudBridge::LoginError`
pub data LoginError : Type 0 where
  no_login_error unknown_login_error id_error password_error login_timeout : LoginError

-- The bridge. The connection to the manager is none until the thread for it has made one; `is_listening`
-- says that this thread is in its loop.
pub record CloudBridge : Type 0 where
  pub manager_ip : Bytes
  pub manager_server_port : ℕ
  pub max_recv_size : ℕ
  pub is_loggeed : Bool
  pub socket_to_cloud : TcpClient
  pub socket_to_manager : Option TcpClient
  pub is_listening : Bool

-- The constructor, by whether `socket` returns one for the connection to the cloud.
unfoldable pub new_bridge : Bool → Bytes → ℕ → Bytes → ℕ → ℕ → CloudBridge
unfolding new_client
new_bridge created manager_ip manager_port target_ip port max_recv_size = record {
  manager_ip = manager_ip;
  manager_server_port = manager_port;
  max_recv_size = max_recv_size;
  is_loggeed = false;
  socket_to_cloud = new_client created target_ip port max_recv_size;
  socket_to_manager = none;
  is_listening = false;
}

-- What `managerLoop` does before its loop, by whether `socket` and `connect` succeed. The result of
-- `Connect` is not looked at.
unfoldable pub manager_start : Bool → Bool → CloudBridge → CloudBridge
unfolding connect new_client
manager_start created connected b =
    let client = new_client created b.manager_ip b.manager_server_port b.max_recv_size in
    record b { socket_to_manager = some (connect connected client).1; is_listening = true }

-- `SendData` on the connection to the cloud
abbrev pub send_to_cloud : Bytes → CloudBridge → Option CloudBridge
send_to_cloud bytes b = do
  cloud ← send_vector bytes b.socket_to_cloud
  some (record b { socket_to_cloud = cloud })

-- One round of `managerLoop`, with what `recv` gives. Its buffer is empty when a round starts.
unfoldable pub manager_round : Option Bytes → CloudBridge → Option CloudBridge
unfolding recvive_data
manager_round came b =
    let (count, recv_buffer) = recvive_data came [] in
    if ltb 0 (length recv_buffer) then send_to_cloud recv_buffer b else some b

-- One round of `keepAliveLoop`
unfoldable pub keep_alive_round : CloudBridge → Option CloudBridge
keep_alive_round b = send_to_cloud (5 ∷ []) b

-- The test of `reconnectToManager`
unfoldable pub needs_reconnect : Bytes → Bool
needs_reconnect content = (length content == 6) && str_eq content (codes "discon")

-- `reconnectToManager`: the connection is closed, and the thread for it is ended and started again.
unfoldable pub reconnect_to_manager : Bytes → CloudBridge → Option (Bool × CloudBridge)
unfolding needs_reconnect disconnect
reconnect_to_manager content b =
    let closed : Option (Bool × CloudBridge) = b.socket_to_manager >>= λ client.
    some (true, record b { socket_to_manager = some (disconnect client); is_listening = false }) in
    if needs_reconnect content then closed else some (false, b)

-- What `cloudLoop` does with a package. A package comes with `GetPackageError_NoError` and never without.
unfoldable pub forward_package : IoTPackage → CloudBridge → Option CloudBridge
unfolding reconnect_to_manager
forward_package pkg b = do
  (need_reconnect, b1) ← reconnect_to_manager pkg.data_vector b
  let send : TcpClient → Option CloudBridge = λ client. do
    client1 ← send_vector pkg.data_vector_for_sending client
    some (record b1 { socket_to_manager = some client1 })
  let passed : Option CloudBridge = b1.socket_to_manager >>= send
  if need_reconnect then some b1 else passed

-- One round of `cloudLoop`, with what `recv` gives. Its receive buffer is empty when a round starts.
unfoldable pub cloud_round : Option Bytes → Bytes × CloudBridge → Option (Bytes × CloudBridge)
unfolding forward_package recvive_data
cloud_round came (package_buffer, b) =
    let (count, recv_buffer) = recvive_data came [] in
    let whole = package_buffer ++ recv_buffer in
    let handled = drain forward_package (suc (length whole)) whole b in
    if ltb 0 (length recv_buffer) then handled else some (package_buffer, b)

-- The loop that waits for the answer to the login, over what each receive call gives and the clock after it.
-- Nothing in it changes `IsConnected`. It is none where the loop goes on after these rounds.
unfoldable pub wait_login : ℕ → Bytes → List (Option Bytes × ℕ) → Option Bytes
unfolding recvive_data
wait_login start_time (x ∷ received) rounds = some (x ∷ received)
wait_login start_time [] [] = none
wait_login start_time [] ((came, now) ∷ rounds) =
    let (count, received) = recvive_data came [] in
    let later = wait_login start_time received rounds in
    if ltb 1000 (elapsed now start_time) then some received else later

abbrev pub register_template : Bytes
register_template = codes "{\"REGISTER\":{\"TYPE\":\"MANAGER\",\"ID\":\"\",\"PW\":\"\"}}"

-- What `Login` makes of the outcome of the check.
unfoldable pub login_error : LoginError → NetworkError
login_error no_login_error = no_network_error
login_error id_error = network_login_error
login_error password_error = network_login_error
login_error e = unknown_error

module _ (J : Jansson) where
  open J use {Json}

  -- The text of the register command. ExportJsonContent makes a string of the null pointer where the template
  -- could not be read.
  abbrev pub register_text : Option Json → Bytes → Bytes → Option Bytes
  register_text none id password = none
  register_text (some root) id password = do
    r1 ← set_value_in_first_object J root (codes "ID") id
    r2 ← set_value_in_first_object J r1 (codes "PW") password
    export_json_content J r2

  -- `checkLoginInfo`. The time-out that its loop sets is overwritten after it.
  unfoldable pub check_login_info :
      Bytes → Bytes → ℕ → List (Option Bytes × ℕ) → CloudBridge → Option (LoginError × CloudBridge)
  unfolding wait_login send_string
  check_login_info id password start_time rounds b = do
    content ← register_text (load_json_data J register_template) id password
    let asked = record b { socket_to_cloud = send_string content b.socket_to_cloud }
    received ← wait_login start_time [] rounds
    some (if str_eq received (codes "Success") then no_login_error else unknown_login_error, asked)

  -- `Login`, by whether `connect` succeeds.
  unfoldable pub login :
      Bool
      → Bytes
      → Bytes
      → ℕ
      → List (Option Bytes × ℕ)
      → CloudBridge
      → Option (NetworkError × CloudBridge)
  unfolding check_login_info login_error connect
  login connected id password start_time rounds b = do
    let (error, cloud) = connect connected b.socket_to_cloud
    let b1 : CloudBridge = record b { socket_to_cloud = cloud }
    elim error [
      | no_network_error ↦ do
        (checked, b2) ← check_login_info id password start_time rounds b1
        let logged : CloudBridge = elim checked [
          | no_login_error ↦ record b2 { is_loggeed = true }
          | _ ↦ b2
        ]
        some (login_error checked, logged)
      | failed ↦ some (failed, b1)
    ]

-- ===== src/Manager/State.antt =====
-- The state of the manager, its base classes' fields included (IoTManager.h, Ruler.h, TcpServer.h),
-- and what it sends.
use io_trepublic_plus.Base.{
  ℕ, Bool, Option, none, some, List, [], ◌∷◌, ◌++◌, Bytes, codes, get_elem?, ltb, if◌then◌else◌,
  ◌>>=◌,
}
use io_trepublic_plus.Base.Int.{ℤ}
use io_trepublic_plus.Rule.{IoTRule}

pub record DeviceInfo : Type 0 where
  pub iot_ip : Bytes
  pub function_group : Bytes
  pub device_id : Bytes
  pub device_description : Bytes
  pub socket_index : ℕ
  pub proxied : ℤ

pub record RuleInstance : Type 0 where
  pub rule_id : ℕ
  pub rule : IoTRule
  pub waiting_time_ms : ℤ
  pub is_waiting_response : Bool

-- The fields but the receive buffers. The counts are those of an `int` that a run does not exhaust. `sent` records each `send`: the socket and the bytes.
pub record Manager : Type 0 where
  pub ip_count : ℕ
  pub registed_devices : List DeviceInfo
  pub client_sockets : List ℕ
  pub rules : List RuleInstance
  pub next_rule_id : ℕ
  pub action_frequency : ℤ
  pub sent : List (ℕ × Bytes)

-- The manager with its receive buffers, one for each socket index.
pub record ManagerState : Type 0 where
  pub manager : Manager
  pub package_buffer : List Bytes

abbrev pub server_iot_ip : Bytes
server_iot_ip = codes "Master"

abbrev pub prefix : Bytes
prefix = codes "DEV."

abbrev pub is_empty {ℓ} : {A : Type ℓ} → List A → Bool
is_empty [] = Bool.true
is_empty (x ∷ xs) = Bool.false

-- `send` on an open socket; `&buffer->at(0)` throws on an empty buffer.
unfoldable pub send_on : ℕ → Bytes → Manager → Option Manager
send_on socket buffer m =
    if ltb 0 socket
    then (if is_empty buffer
        then none
        else some (record m { sent = m.sent ++ ((socket, buffer) ∷ []) }))
    else some m

-- `TcpServer::SendDataToExistsConnection`
unfoldable pub send_data_to_exists_connection : ℕ → Bytes → Manager → Option Manager
send_data_to_exists_connection socket_index buffer m = do
  socket ← get_elem? m.client_sockets socket_index
  send_on socket buffer m

-- ===== src/LoRa.antt =====
-- The broker of the LoRa radio: IoTRepublicPlus/Broker/LoRaBroker.cpp and LoRaBroker.h. `none` is an
-- exception, a read or a write out of bounds, or a wait that what comes in does not end.
pub mod Serial
pub mod Config
pub mod Scan
pub mod Serve
use io_trepublic_plus.Base.{
  ℕ, zero, suc, Bool, false, true, Option, none, some, List, [], ◌∷◌, ◌++◌, Bytes, codes,
}

pub data RecvResult : Type 0 where
  succeed timeout failed : RecvResult

-- `LoRaBroker::DeviceInfo`
pub record LoRaDevice : Type 0 where
  pub iot_ip : Bytes
  pub lora_address : Bytes
  pub device_description : Bytes

-- One round of a loop that waits on the serial port: the clock at the test of the time, what has come in for
-- `RS232_PollComport` since the round before, the clock after that.
pub record Poll : Type 0 where
  pub now : ℕ
  pub got : Bytes
  pub later : ℕ

-- What one call that waits on the serial port finds: the clock at its start, and the rounds that it has
-- before its time is up.
pub record Window : Type 0 where
  pub start : ℕ
  pub polls : List Poll

-- The serial port: what the calls that wait on it will find, one after the other, and what was written to
-- it with `RS232_SendBuf`. With no window left the port is silent.
pub record Radio : Type 0 where
  pub windows : List Window
  pub serial : List Bytes

-- The broker: its fields, the port, the outcomes of the calls of `askIoTIp` to come (`none` is a failed
-- connection), what is sent to the manager, and the count of the threads that rescan.
pub record LoRaBroker : Type 0 where
  pub self_iot_ip : Bytes
  pub manager_iot_ip : Bytes
  pub now_scanning : Bool
  pub lora_devices : List LoRaDevice
  pub radio : Radio
  pub answers : List (Option (List Bytes))
  pub sent : List Bytes
  pub rescans : ℕ

abbrev pub cmd_add_node : Bytes
cmd_add_node = codes "LoraJoinNode"

abbrev pub cmd_remove_node : Bytes
cmd_remove_node = codes "LoraLeaveNode"

abbrev pub cmd_send_data : Bytes
cmd_send_data = codes "LoraNodeData"

abbrev pub cmd_end_symbol : ℕ
cmd_end_symbol = 13

abbrev pub space : ℕ
space = 32

abbrev pub start_code : ℕ
start_code = 2

abbrev pub end_code : ℕ
end_code = 3

abbrev pub enq_code : ℕ
enq_code = 83

abbrev pub lora_response_wait_timeout : ℕ
lora_response_wait_timeout = 5000

abbrev pub max_recv_buffer_size : ℕ
max_recv_buffer_size = 2000

-- What handleForwardingPackage reserves for the data of an end device.
abbrev pub end_device_buffer_size : ℕ
end_device_buffer_size = 20

abbrev pub max_retry_times : ℕ
max_retry_times = 3

-- ===== src/XBee.antt =====
-- The broker of the XBee radio: IoTRepublicPlus/Broker/XBeeBroker_ApiMode.cpp and XBeeBroker_ApiMode.h.
-- What the XBee library reads and sends is a parameter: the packets that `readPacket` will return, and the
-- requests that it is given. `none` is an exception, an access out of bounds, or a wait that what comes
-- in does not end.
pub mod Module
pub mod Description
pub mod Scan
pub mod Serve
use io_trepublic_plus.Base.{ℕ, Bool, Option, List, Bytes, ◌&&◌, ◌==◌}

pub data XBeeResponseType : Type 0 where
  unknown at_command tx_status rx_status : XBeeResponseType

pub data RecvResult : Type 0 where
  succeed timeout failed : RecvResult

-- `XBeeAddress64`
pub record XBeeAddress64 : Type 0 where
  pub msb : ℕ
  pub lsb : ℕ

-- `isEqual`
abbrev pub is_equal : XBeeAddress64 → XBeeAddress64 → Bool
is_equal a b = (a.msb == b.msb) && (a.lsb == b.lsb)

-- `XBeeBroker_ApiMode::DeviceInfo`
pub record XBeeDevice : Type 0 where
  pub iot_ip : Bytes
  pub address : XBeeAddress64

-- What `readPacket` reads: a response to an AT command, by `isOk` and its value, received data, by
-- `isAvailable` and the data, a transmit status, by whether it is `SUCCESS`, or anything else.
pub data Packet : Type 0 where
  at_command_response rx_response : Bool → Bytes → Packet
  tx_status_response : Bool → Packet
  other_response : Packet

-- `AtCommandRequest` and `ZBTxRequest`
pub data Request : Type 0 where
  at_command_request : Bytes → Request
  zb_tx_request : XBeeAddress64 → Bytes → Request

-- What `get_millis` will return, what `readPacket` will return (`none` is its time-out) of what the calls
-- of `clearComportBuffer` leave on the serial port, and what was sent. A clock with no more readings is past every time; with no more packets the radio is silent.
pub record XBee : Type 0 where
  pub clock : List ℕ
  pub packets : List (Option Packet)
  pub requests : List Request

pub record XBeeBroker : Type 0 where
  pub self_iot_ip : Bytes
  pub manager_iot_ip : Bytes
  pub now_scanning : Bool
  pub xbee_devices : List XBeeDevice
  pub xbee_obj : XBee
  pub answers : List (Option (List Bytes))
  pub sent : List Bytes
  pub rescans : ℕ

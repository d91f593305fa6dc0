-- ===== src/Manager.antt =====
-- The IoT manager: IoTRepublicPlus/IoT/IoTManager.cpp with its base classes Ruler and TcpServer.
pub mod State
pub mod Devices
pub mod Rules
pub mod Handle
pub mod Invariant
pub mod Denied
pub mod Events
pub mod Stream
pub mod Chunks
pub mod Subscribe
pub mod Answer

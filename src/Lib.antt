-- ===== src/Lib.antt =====
-- A model of IoTRepublicPlus, the hub of an IoT network, and what holds of it.
--
-- The hub listens on TCP. Devices and users send it packages: a header of five columns, each closed
-- by '\0', then data and two checksum bytes. The manager cuts the packages out of what comes in on each
-- connection, gives out addresses, registers devices, runs the rules that users upload, answers
-- their commands and passes every other package on to the device that it is for.
--
-- The files, and the code that they model:
--   Base: numbers, lists, strings and the integers of C++. Base/Int has the 32-bit `int` and
--     Base/Decimal what the program uses of `std::stoi`, `atoi` and `<<`. Base/Fallible: an
--     exception, which nothing in the program catches, is `none`.
--   Package: IoTRepublicPlus/IoT/IoTPackage.h. The constructors are `package_of_string` and
--     `package_of_vector`, PacketToSendingVector is `packet_to_sending_vector`. Package/Checksum has
--     the sums of both ends; its children Folding and SignedBytes, and Package/HeaderLength, hold
--     proofs.
--   Framing: IoTRepublicPlus/IoT/IoTUtility.cpp and IoTUtility.h. GetCompletedPackage is
--     `get_completed_package`, isValidPackage `is_valid_package`, decodePackage `decode_package`.
--     The children hold proofs: Columns, Frame and Decode on one whole frame, Consumes on any buffer,
--     Incomplete on a part of a frame, Sent and RoundTrip on the packages of the constructors.
--   Json: IoTRepublicPlus/Utility/JsonUtility.cpp over the jansson library, which is not read: its
--     calls are the record `Jansson`, a parameter of all that uses it. Json/Laws states what the
--     program relies on of the library, as the record `IsLawful`.
--   Command, Rule: IoTRepublicPlus/IoT/IoTCommand.h and IoTRule.h. Their children RoundTrip hold
--     proofs under these laws.
--   Manager: IoTRepublicPlus/IoT/IoTManager.cpp and Ruler.cpp, with the fields of IoTManager.h, Ruler.h
--     and IoTRepublicPlus/Network/TcpServer.h in Manager/State. Manager/Devices is the list of
--     devices, Manager/Rules the rules, Manager/Handle the event handlers: `event_received_data`,
--     `handle_package`, `event_connection_denied`. The children Devices/Erase, Devices/Registry,
--     Devices/Address, Rules/Numbers, Rules/Scan, Rules/Period, Rules/Response, Invariant, Denied,
--     Events, Stream, Chunks, Answer and Subscribe hold proofs; Events is the manager as a machine
--     whose steps are its events.
--   Base64: Base64encode and Base64decode of IoTRepublicPlus/Utility/SystemUtility.cpp.
--   Device: IoTRepublicPlus/IoT/IoTDevice.h and IoTComponent.h, SetJSDescription.
--   Server: the loop of IoTRepublicPlus/Network/TcpServer.cpp over its table of sockets, around the
--     manager's event handlers: `server_loop`, `cut_connection`. Server/Machine is the hub as a
--     machine whose steps are rounds of the server and of the rules. Sockets, Rounds, Open, Watched
--     and Polled hold proofs.
--   Broker: what the clients of the manager share. IoTRepublicPlus/Broker/IBroker.cpp is
--     `ask_iot_ip`, and `drain` is the loop over a receive buffer that each broker has its own copy
--     of. Broker/Serve has the handlers that the two brokers for radios share. Ask, Drain and Known
--     hold proofs.
--   LoRa: IoTRepublicPlus/Broker/LoRaBroker.cpp and LoRaBroker.h. LoRa/Serial is the radio module on the
--     serial port, LoRa/Config the file of devices, LoRa/Scan the scan and the start, LoRa/Serve the
--     loop. Their children hold proofs.
--   XBee: IoTRepublicPlus/Broker/XBeeBroker_ApiMode.cpp and XBeeBroker_ApiMode.h. XBee/Module is the radio
--     module behind the XBee library, XBee/Description asks a device what it is, XBee/Scan is the
--     scan, XBee/Serve the loop and the start. Their children hold proofs.
--   TcpClient: IoTRepublicPlus/Network/TcpClient.cpp, over what `socket`, `connect` and `recv` return.
--   Bridge: IoTRepublicPlus/Broker/CloudBridge.cpp over TcpClient: the login, a round of each loop and
--     `reconnectToManager`. Bridge/Relay is the bridge as a machine whose steps are rounds of its three
--     threads. Forward, Passes, Forwarded, Login and Session hold proofs.
--   Fake: IoTRepublicPlus/Broker/FakeBroker.cpp; Fake/Answers holds proofs.
--   Uploader: IoTRepublicPlus/Broker/CloudUploader.cpp, with its start in Uploader/StartUp. DeviceList,
--     Fuel, Stuck and StartUp/Answered hold proofs.
--   Udp: the receive loop of IoTRepublicPlus/Network/UdpServer.cpp with the answer of
--     IoTRepublicPlus/IoT/BrocastServer.cpp.
--   Controller: IoTRepublicPlus/Broker/BrokerController.cpp, over any class of brokers.
--   Config: ManagerConfig of IoTRepublicPlus/main.h and LoadConfigFile of IoTRepublicPlus/main.cpp;
--     Config/Load holds proofs.
--   Main: both versions of `main` in IoTRepublicPlus/main.cpp, as which parts run; over Config and
--     Controller. Main/Ends holds proofs.
--   Tests: runs on small inputs, and inputs that meet the theorems' conditions.
--
-- The manager runs inside the server's loop. A broker or the uploader is a client on the same wire: it
-- asks for an address, registers its devices under it, and answers the packages that the manager
-- passes on. What stands between a broker and its radio is a parameter: for LoRa, what each wait on
-- the serial port finds; for XBee, the packets that the library reads and whether the clock runs out
-- before the next one. So is what `rand`, `select`, `accept` and `recv` return, and whether the time
-- of the uploader's waitIoTPackage is up.
--
-- A byte is its value as an unsigned char; where the code reads a signed char, the sign is extended
-- (`sign_extend`). Strings are shorter than 2 ^ 31 bytes, so that a length fits an `int`. The bytes
-- that the manager sends are logged in `Manager.sent`, in order; those of the brokers in the like field of
-- theirs. In the brokers `none` is also an access out of bounds, or a wait that nothing ends.
--
-- The loops on fuel are the folding of the checksum (three rounds are enough for 32 bits), handlePackage
-- and the brokers' `drain` (each round takes two bytes or more, so the buffer's length is enough),
-- likewise the uploader's handleRecvData; LoRa's `check_devices` (each round leaves one device fewer to
-- ask, so the number of devices is enough) and XBee's `describe`. What the radio brings is a finite list, the
-- packets of the time that is looked at, and then silence: each try of `describe` but the last takes a packet of
-- it, so one try more than there are packets is enough for such a list, but the loop of the code has no bound.
-- The loops over the sockets and the devices by index count the places that are left.
--
-- A difference of two times is that of unsigned 64-bit integers (`elapsed`). `select` looks at the set that it is
-- given up to `fdmax`. The order in which jansson iterates over the members of an object is left open.
--
-- Not modelled: the threads and their locks (a round of a loop is taken to run
-- alone), timers, files but for the configuration, and the console; the Stop functions of the brokers;
-- charcat and the event handlers that only print; the copies of jansson, curl, the RS-232 and the XBee
-- library.
mod Base
pub mod Package
pub mod Framing
pub mod Json
pub mod Command
pub mod Rule
pub mod Manager
pub mod Base64
pub mod Device
pub mod Broker
pub mod LoRa
pub mod Server
pub mod XBee
pub mod Bridge
pub mod Fake
pub mod Uploader
pub mod Udp
pub mod Controller
mod Tests
pub mod TcpClient
pub mod Config
pub mod Main

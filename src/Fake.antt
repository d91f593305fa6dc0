-- ===== src/Fake.antt =====
-- The broker of made-up devices: IoTRepublicPlus/Broker/FakeBroker.cpp. `none` is an exception, a test of
-- a command type that was never set, or a wait that what comes in does not end.
pub mod Answers
use io_trepublic_plus.Base.{
  ℕ, suc, ◌+◌, ◌%◌, Bool, Option, none, some, List, [], ◌∷◌, ◌++◌, Bytes, codes, length, ltb,
  if◌then◌else◌, ◌>>=◌,
}
use io_trepublic_plus.Base.Decimal.{to_string}
use io_trepublic_plus.Package.{
  IoTPackage, package_of_string, package_of_string_default, protocol_version,
}
use io_trepublic_plus.Json.{Jansson}
use io_trepublic_plus.Command.{
  CommandType, IoTCommand, command_of, command_of_content, read_request, read_response,
}
use io_trepublic_plus.Broker.{ask_call, drain}

-- The broker: the numbers that `rand` will return, the outcomes of the calls of `askIoTIp` to come, and
-- what is sent to the manager. With no number left `rand` gives 0.
pub record FakeBroker : Type 0 where
  pub manager_iot_ip : Bytes
  pub rands : List ℕ
  pub answers : List (Option (List Bytes))
  pub sent : List Bytes

abbrev pub send_to_manager : Bytes → FakeBroker → FakeBroker
send_to_manager bytes b = record b { sent = b.sent ++ (bytes ∷ []) }

unfoldable pub rand : FakeBroker → ℕ × FakeBroker
rand b = elim b.rands [ [] ↦ (0, b) | r ∷ rs ↦ (r, record b { rands = rs }) ]

module _ (J : Jansson) where
  -- The value that a command is answered with.
  unfoldable pub answer_value : CommandType → FakeBroker → Bytes × FakeBroker
  unfolding rand
  answer_value read_request b = let (r, b1) = rand b in (to_string (r % 100), b1)
  answer_value other b = (codes "OK", b)

  -- What `loop` does with a package.
  unfoldable pub answer_package : IoTPackage → FakeBroker → Option FakeBroker
  unfolding answer_value
  answer_package pkg b = do
    cmd ← command_of_content J pkg.data_vector
    cmd_type ← cmd.cmd_type
    let (value, b1) = answer_value cmd_type b
    response ← command_of J read_response cmd.id value
    let bytes = package_of_string_default pkg.des_ip pkg.sor_ip response.sended_data
    some (send_to_manager bytes.data_vector_for_sending b1)

  -- One round of `loop`, with what `RecviveData` puts behind the receive buffer.
  unfoldable pub fake_round : Bytes → Bytes × FakeBroker → Option (Bytes × FakeBroker)
  unfolding answer_package
  fake_round came (buffer, b) =
      let whole = buffer ++ came in
      let handled = drain answer_package (suc (length whole)) whole b in
      if ltb 0 (length whole) then handled else some (whole, b)

-- `IBroker::askIoTIp`, with the outcome of the next call; with none left the call does not end.
unfoldable pub ask : FakeBroker → Option (Bytes × FakeBroker)
ask b = elim b.answers [
  | [] ↦ none
  | answer ∷ answers ↦ (do
    (iot_ip, manager) ← ask_call b.manager_iot_ip answer
    some (iot_ip, record b { manager_iot_ip = manager; answers = answers }))
]

abbrev descriptions : List Bytes
descriptions =
    codes
      "{\"IOTDEV\":{\"DeviceName\":\"Moisture sensor\",\"FunctionGroup\":\"Sensor\",\"DeviceID\":\"arduino.grove.mois01\",\"Component\":[{\"ID\":\"mois\",\"Group\":\"1\",\"Name\":\"Moisture Value\",\"Type\":\"Content\",\"ReadFrequency\":\"2000\"}]}}"
    ∷ codes
        "{\"IOTDEV\":{\"DeviceName\":\"Digital light sensor\",\"FunctionGroup\":\"Sensor\",\"DeviceID\":\"arduino.grove.dl01\",\"Component\":[{\"ID\":\"lux\",\"Group\":\"1\",\"Name\":\"Brightness\",\"Type\":\"Content\",\"ReadFrequency\":\"10000\"}]}}"
    ∷ codes
        "{\"IOTDEV\":{\"DeviceName\":\"Temperature and humidity sensor\",\"FunctionGroup\":\"Sensor\",\"DeviceID\":\"arduino.grove.pro.ths01\",\"Component\":[{\"ID\":\"tempe\",\"Group\":\"1\",\"Name\":\"Temperature\",\"Type\":\"Content\",\"ReadFrequency\":\"10000\"},{\"ID\":\"humi\",\"Group\":\"2\",\"Name\":\"Humidity\",\"Type\":\"Content\",\"ReadFrequency\":\"10000\"}]}}"
    ∷ codes
        "{\"IOTDEV\":{\"DeviceName\":\"ACT\",\"FunctionGroup\":\"Actuator\",\"DeviceID\":\"arduino.uno.act01\",\"Component\":[{\"ID\":\"FON\",\"Group\":\"1\",\"Name\":\"Fan ON\",\"Type\":\"Button\"},{\"ID\":\"FOF\",\"Group\":\"1\",\"Name\":\"FAN Off\",\"Type\":\"Button\"},{\"ID\":\"WON\",\"Group\":\"2\",\"Name\":\"Water mercury On\",\"Type\":\"Button\"},{\"ID\":\"WOF\",\"Group\":\"2\",\"Name\":\"Water mercury Off\",\"Type\":\"Button\"},{\"ID\":\"SON\",\"Group\":\"3\",\"Name\":\"Smoke On\",\"Type\":\"Button\"},{\"ID\":\"SOF\",\"Group\":\"3\",\"Name\":\"Smoke Off\",\"Type\":\"Button\"}]}}"
    ∷ []

-- The devices of `registerAllFakeDevice`, one after the other.
unfoldable pub register_fake_devices : List Bytes → FakeBroker → Option FakeBroker
unfolding ask
register_fake_devices [] b = some b
register_fake_devices (description ∷ rest) b = do
  (iot_ip, b1) ← ask b
  let pkg = package_of_string protocol_version iot_ip b1.manager_iot_ip description
  register_fake_devices rest (send_to_manager pkg.data_vector_for_sending b1)

-- `registerAllFakeDevice`
unfoldable pub register_all_fake_device : FakeBroker → Option FakeBroker
unfolding register_fake_devices
register_all_fake_device b = register_fake_devices descriptions b

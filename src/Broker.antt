-- ===== src/Broker.antt =====
-- What the brokers share: IoTRepublicPlus/Broker/IBroker.cpp, and the loop that each of them runs over
-- its receive buffer (the `do` loops of LoRaBroker.cpp, XBeeBroker_ApiMode.cpp, CloudBridge.cpp and
-- FakeBroker.cpp). `none` is an exception, or a wait that what comes in does not end.
pub mod Ask
pub mod Known
pub mod Serve
pub mod Drain
use io_trepublic_plus.Base.{
  ◌||◌, ℕ, zero, suc, Option, none, some, List, [], ◌∷◌, ◌++◌, Bytes, codes, if◌then◌else◌, ◌>>=◌,
}
use io_trepublic_plus.Package.{IoTPackage, package_of_vector, protocol_version, segment_symbol}
use io_trepublic_plus.Framing.{no_error, IoTUtility, iot_utility, get_completed_package, Taken}
use io_trepublic_plus.Manager.State.{is_empty}

-- `IBroker::ioTUtility`
abbrev pub broker_utility : IoTUtility
broker_utility = iot_utility protocol_version segment_symbol

-- The package that `askIoTIp` sends.
abbrev pub address_request : Bytes
address_request =
    (package_of_vector protocol_version (codes "0") (codes "0") none).0.data_vector_for_sending

-- `IBroker::parseReceivedBuffer`: this end's address, the manager's, and the buffer after it.
abbrev parsed : Bytes → Bytes → Taken → Bytes × Bytes × Bytes
parsed self manager t = elim t.result [
  | none ↦ (self, manager, t.buffer)
  | some pkg ↦ (pkg.des_ip, if is_empty manager then pkg.sor_ip else manager, t.buffer)
]

unfoldable pub parse_received_buffer : Bytes → Bytes → Bytes → Option (Bytes × Bytes × Bytes)
parse_received_buffer self manager buffer = do
  t ← get_completed_package broker_utility buffer
  some (parsed self manager t)

-- The loop of `IBroker::askIoTIp` on an open connection, over what each receive call adds: it ends
-- once both addresses are there. The inner `none` is a loop that still waits.
unfoldable pub ask_from : Bytes → Bytes → Bytes → List Bytes → Option (Option (Bytes × Bytes))
ask_from self manager buffer [] = some none
ask_from self manager buffer (c ∷ cs) =
    let whole = buffer ++ c in
    let waited = ask_from self manager whole cs in
    let parsed_on = (do
      (self1, manager1, left) ← parse_received_buffer self manager whole
      let again = ask_from self1 manager1 left cs
      if is_empty self1 || is_empty manager1 then again else some (some (self1, manager1))) in
    if is_empty whole then waited else parsed_on

-- `IBroker::askIoTIp` on a connection that was made.
unfoldable pub ask_iot_ip : Bytes → List Bytes → Option (Option (Bytes × Bytes))
unfolding ask_from
ask_iot_ip manager parts = ask_from [] manager [] parts

-- The whole call: without a connection it returns the empty address at once.
unfoldable pub ask_call : Bytes → Option (List Bytes) → Option (Bytes × Bytes)
unfolding ask_iot_ip
ask_call manager none = some ([], manager)
ask_call manager (some parts) = ask_iot_ip manager parts >>= λ answer. answer

-- The loop that takes the packages out of a receive buffer, on fuel, for a broker that handles each
-- package with `handle`.
module _ {ℓ} {S : Type ℓ} (handle : IoTPackage → S → Option S) where
  abbrev pub handle_result : Option IoTPackage → S → Option S
  handle_result none s = some s
  handle_result (some pkg) s = handle pkg s

  unfoldable pub drain : ℕ → Bytes → S → Option (Bytes × S)
  drain zero buffer s = some (buffer, s)
  drain (suc f) buffer s = do
    t ← get_completed_package broker_utility buffer
    s1 ← handle_result t.result s
    elim t.error [ no_error ↦ drain f t.buffer s1 | _ ↦ some (t.buffer, s1) ]

-- ===== src/Broker/Serve.antt =====
-- The handlers and the loop that the brokers for radios share, IoTRepublicPlus/Broker/LoRaBroker.cpp and
-- XBeeBroker_ApiMode.cpp, where they stand with the same text.
use io_trepublic_plus.Base.{
  suc, ◌^◌, ◌<◌, ◌≡◌, ap, ◌∙◌, Bool, false, Option, some, List, [], ◌++◌, arith, Bytes, codes,
  length, All, str_eq, if◌then◌else◌, ◌>>=◌,
}
use io_trepublic_plus.Package.{IoTPackage, package_of_vector}
use io_trepublic_plus.Json.{Jansson}
use io_trepublic_plus.Command.{command_of_content}
use io_trepublic_plus.Manager.State.{is_empty}
use io_trepublic_plus.Manager.Stream.{Message, IsSendable, wires, Pending}
use io_trepublic_plus.Manager.Answer.{non_empty}
use io_trepublic_plus.Broker.{drain}
use io_trepublic_plus.Broker.Drain.{drain-wires, handle_all}

-- What the loop uses of a broker with state `S`: its address, whether it scans, the start of a thread that
-- scans, and its `handleForwardingPackage`.
pub record RadioBroker (S : Type 0) : Type 0 where
  pub self_iot_ip : S → Bytes
  pub now_scanning : S → Bool
  pub start_rescan : S → S
  pub forward : IoTPackage → S → Option S

-- A package with the addresses of another one in each other's place.
abbrev pub swapped : IoTPackage → Bytes → Bytes
swapped pkg content =
    let (response, left) = package_of_vector pkg.ver pkg.des_ip pkg.sor_ip (some content) in
    response.data_vector_for_sending

module _ (J : Jansson) {S : Type 0} (broker : RadioBroker S) where
  -- `handleManagerPackage`
  unfoldable pub handle_manager_package : IoTPackage → S → Option S
  handle_manager_package pkg b = do
    cmd ← command_of_content J pkg.data_vector
    some (if str_eq cmd.id (codes "rescan") then broker.start_rescan b else b)

  -- `handleReceivePackage`
  unfoldable pub handle_receive_package : IoTPackage → S → Option S
  unfolding handle_manager_package
  handle_receive_package pkg b =
      if str_eq pkg.des_ip (broker.self_iot_ip b)
      then handle_manager_package pkg b
      else broker.forward pkg b

  -- One round of `serverLoop`, with what `RecviveData` puts behind the receive buffer.
  unfoldable pub server_round : Bytes → Bytes × S → Option (Bytes × S)
  unfolding handle_receive_package
  server_round came (buffer, b) =
      let whole = buffer ++ came in
      let handled = drain handle_receive_package (suc (length whole)) whole b in
      if is_empty whole
      then some (whole, b)
      else if broker.now_scanning b
      then some ([], b)
      else handled

  -- While the broker is not scanning, a round of its loop in which the buffer with what has come in holds
  -- whole messages and then a proper front part of one, not both empty, hands the very packages that were
  -- sent to handleReceivePackage, each once and in their order, and keeps the front part.
  pub server_round-wires :
      (buffer came pre : Bytes) (xs : List Message) (b : S)
      → All IsSendable xs
      → Pending pre
      → buffer ++ came ≡ wires xs ++ pre
      → broker.now_scanning b ≡ false
      → 0 < length (buffer ++ came)
      → length (buffer ++ came) < 2 ^ 31
      → server_round came (buffer, b)
        ≡ (handle_all handle_receive_package xs b >>= λ b1. some (pre, b1))
  unfolding server_round
  server_round-wires buffer came pre xs b sendable pending split idle some_bytes short =
      (λ i.
        if non_empty (buffer ++ came) some_bytes i
        then some (buffer ++ came, b)
        else if idle i
        then some ([], b)
        else drain handle_receive_package (suc (length (split i))) (split i) b)
      ∙ drain-wires handle_receive_package (suc (length (wires xs ++ pre))) xs pre b sendable
          pending (omega (arith, short, ap length split)) (omega arith)

-- ===== src/XBee/Serve/Forward.antt =====
-- handleForwardingPackage of IoTRepublicPlus/Broker/XBeeBroker_ApiMode.cpp between the manager and an end
-- device.
use io_trepublic_plus.Base.{
  elapsed, ℕ, ◌+◌, ◌-◌, ◌≤◌, ◌≡◌, refl, ap, ◌∙◌, true, Option, some, List, [], ◌∷◌, ◌++◌, Bytes,
  length, length-snoc, take-append, le→leb, ltb, lt→ltb, le→not-ltb, arith,
}
use io_trepublic_plus.Package.{IoTPackage}
use io_trepublic_plus.Json.{Jansson}
use io_trepublic_plus.Command.{IoTCommand, command_of, command_of_content, read_response}
use io_trepublic_plus.Broker.Serve.{swapped}
use io_trepublic_plus.XBee.{
  Packet, Request, XBee, XBeeBroker, XBeeDevice, rx_response, succeed, tx_status_response,
}
use io_trepublic_plus.XBee.Module.{counted, get_from, get_response, read_packet, send_data}
use io_trepublic_plus.XBee.Description.Answer.{between_codes}
use io_trepublic_plus.XBee.Serve.{
  ask_end_device, forward_response, handle_forwarding_package, inner_text, response_package, target,
}

inner_text-between : (value : Bytes) → inner_text (between_codes value) ≡ some value
unfolding inner_text
inner_text-between value =
    let size : length (between_codes value) ≡ length value + 2 =
      omega (arith, length-snoc value 3) in
    let inner : length (between_codes value) - 2 ≡ length value = omega (arith, size) in
    rw (le→leb 2 (length (between_codes value)) (omega (arith, size)), inner)
      (ap some (take-append value (3 ∷ [])))

module _ (value : Bytes) (start_time sent_at now : ℕ) (clock : List ℕ)
    (ps : List (Option Packet)) where
  -- The module reports that the request was sent, and then the device answers.
  abbrev pub answering : List Request → XBee
  answering requests = record {
    clock = start_time ∷ sent_at ∷ now ∷ clock;
    packets = some (tx_status_response true) ∷ some (rx_response true (between_codes value)) ∷ ps;
    requests = requests;
  }

  get_response-answering :
      (requests : List Request)
      → elapsed sent_at start_time ≤ 500
      → elapsed now start_time ≤ 500
      → get_response [] 500 (answering requests) ≡ (
        succeed,
        between_codes value,
        record { clock = clock; packets = ps; requests = requests },
      )
  unfolding get_response get_from read_packet counted
  get_response-answering requests h k =
      rw (le→not-ltb 500 (elapsed sent_at start_time) h, le→not-ltb 500 (elapsed now start_time) k)
        refl

  asked-answering :
      (d : XBeeDevice) (id : Bytes) (requests : List Request)
      → elapsed sent_at start_time ≤ 500
      → elapsed now start_time ≤ 500
      → ask_end_device (some d) id (answering requests) ≡ (
        succeed,
        between_codes value,
        send_data d.address id (record { clock = clock; packets = ps; requests = requests }),
      )
  unfolding ask_end_device send_data
  asked-answering d id requests h k = get_response-answering _ h k

-- A package for a device that the broker has, when the module reports that the request was sent and the
-- device then answers, both in time, with a value between the codes: the broker sends the device the
-- ID of the command, and the manager one package with the value as the response to that ID, from the
-- address that was asked to the one that asked. Nothing else of the broker changes.
pub handle_forwarding_package-answering :
    (J : Jansson) (pkg : IoTPackage) (b : XBeeBroker) (cmd response : IoTCommand) (d : XBeeDevice)
    (value : Bytes) (start_time sent_at now : ℕ) (clock : List ℕ) (ps : List (Option Packet))
    (requests : List Request)
    → command_of_content J pkg.data_vector ≡ some cmd
    → target pkg.des_ip b.xbee_devices ≡ some d
    → b.xbee_obj ≡ answering value start_time sent_at now clock ps requests
    → elapsed sent_at start_time ≤ 500
    → elapsed now start_time ≤ 500
    → command_of J read_response cmd.id value ≡ some response
    → handle_forwarding_package J pkg b
      ≡ some (record b {
        xbee_obj =
            send_data d.address cmd.id
              (record { clock = clock; packets = ps; requests = requests });
        sent = b.sent ++ (swapped pkg response.sended_data ∷ []);
      })
unfolding handle_forwarding_package forward_response response_package
handle_forwarding_package-answering J pkg b cmd response d value start_time sent_at now clock ps
      requests read found port sent_in_time in_time responds =
    let some_bytes : ltb 0 (length (between_codes value)) ≡ true =
      lt→ltb 0 (length (between_codes value)) (omega arith) in
    let came =
      (λ i. ask_end_device (found i) cmd.id (port i))
      ∙ asked-answering value start_time sent_at now clock ps d cmd.id requests sent_in_time
          in_time in
    rw read (
      ap (λ got. forward_response J pkg cmd.id got b) came
      ∙ rw (forward_response, some_bytes, response_package, inner_text-between value, responds)
          refl)
